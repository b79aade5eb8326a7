-- ===== src/Banner.antt =====
-- The banner at the top of every page (client/src/components/ConnectionBanner.tsx), which tells of
-- the realtime socket: the hook state of the component, its timeouts and what it renders. A step
-- is one callback with the effects of the render after it.
pub mod Alarm
pub mod Recovery
mod Tests
use home_camera_system.Prelude.{
  if◌then◌else◌, Bool, true, false, ◌&&◌, ◌||◌, Option, none, some, List, [], ◌∷◌,
}
use home_camera_system.Ws.{WsState, connecting, opened, closed, same_state}
use home_camera_system.Auth.{AuthState, loading, authed, anon}

-- `recovered_at` keeps only whether it is null: its value is never read.
pub record Banner : Type 0 where
  pub auth_state : AuthState
  pub state : WsState
  pub grace_elapsed : Bool
  pub outage_shown : Bool
  pub escalated : Bool
  pub recovered_at : Bool
  -- the timeouts that are pending
  pub grace_timer : Bool
  pub escalation_timer : Bool
  pub linger_timer : Bool

pub data Kind : Type 0 where
  connecting_kind closed_soft closed_hard recovered : Kind

abbrev is_authed : AuthState → Bool
is_authed authed = true
is_authed _ = false

abbrev pub same_auth : AuthState → AuthState → Bool
same_auth loading loading = true
same_auth authed authed = true
same_auth anon anon = true
same_auth _ _ = false

abbrev kind_of : WsState → Bool → Bool → Bool → Option Kind
kind_of connecting grace escalated back = some connecting_kind
kind_of closed grace escalated back =
    if grace then some (if escalated then closed_hard else closed_soft) else none
kind_of opened grace escalated back = if back then some recovered else none

-- What is rendered. Nothing is, unless someone is logged in.
unfoldable pub kind : Banner → Option Kind
kind b =
    if is_authed b.auth_state
    then kind_of b.state b.grace_elapsed b.escalated b.recovered_at
    else none

abbrev is_outage : Option Kind → Bool
is_outage (some closed_soft) = true
is_outage (some closed_hard) = true
is_outage _ = false

-- `OutageExposureTracker`, and the effect that copies the flag into the ref.
expose : Banner → Banner
unfolding kind
expose b = record b { outage_shown = b.outage_shown || is_outage (kind b) }

-- The effect on `authState`.
on_auth : AuthState → Banner → Banner
on_auth s b =
    if same_auth b.auth_state s
    then b
    else if is_authed s
    then record b { auth_state = s; grace_timer = true }
    else record b {
      auth_state = s;
      grace_timer = false;
      grace_elapsed = false;
      outage_shown = false;
      escalated = false;
      recovered_at = false;
      linger_timer = false;
    }

-- The subscriber, and the effects on `state` and on `recoveredAt`: the escalation timeout runs
-- from each time that the socket is closed, and the linger timeout from each recovery.
on_ws_state : WsState → Banner → Banner
on_ws_state next b = if same_state next b.state then b else elim next [
  | closed ↦ record b { state = closed; escalated = false; escalation_timer = true }
  | opened ↦
      let back = same_state b.state closed && b.outage_shown in
      record b {
        state = opened;
        escalated = false;
        escalation_timer = false;
        recovered_at = b.recovered_at || back;
        linger_timer = b.linger_timer || back;
      }
  | connecting ↦ record b { state = connecting; escalation_timer = false }
]

pub data Event : Type 0 where
  auth_is : AuthState → Event
  told : WsState → Event
  grace_ends escalation_ends linger_ends : Event

act : Banner → Event → Banner
unfolding on_auth on_ws_state
act b (auth_is s) = on_auth s b
act b (told s) = on_ws_state s b
act b grace_ends =
    if b.grace_timer then record b { grace_timer = false; grace_elapsed = true } else b
act b escalation_ends =
    if b.escalation_timer then record b { escalation_timer = false; escalated = true } else b
act b linger_ends =
    if b.linger_timer then record b { linger_timer = false; recovered_at = false } else b

unfoldable pub step : Banner → Event → Banner
unfolding act expose
step b e = expose (act b e)

unfoldable pub run : Banner → List Event → Banner
unfolding step
run b [] = b
run b (e ∷ es) = run (step b e) es

-- As the component is mounted, before its subscriber is called.
unfoldable pub mounted : AuthState → Banner
mounted s = record {
  auth_state = s;
  state = closed;
  grace_elapsed = false;
  outage_shown = false;
  escalated = false;
  recovered_at = false;
  grace_timer = is_authed s;
  escalation_timer = true;
  linger_timer = false;
}
