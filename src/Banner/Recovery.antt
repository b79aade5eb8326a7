-- ===== src/Banner/Recovery.antt =====
-- The banner of client/src/components/ConnectionBanner.tsx together with the socket of
-- client/src/lib/ws.ts that it subscribes to: whether a recovery is ever announced.
use home_camera_system.Ws
use home_camera_system.Prelude.{ℕ, ◌≡◌, refl, Bool, true, false, some, List, [], ◌∷◌, arith}
use home_camera_system.Banner.{
  Banner, recovered, kind, auth_is, told, grace_ends, escalation_ends, linger_ends, step, mounted,
}
use home_camera_system.Ws.{WsState, connecting, opened, closed, Ws, subscribes_state}
use home_camera_system.Auth.{AuthState}
use home_camera_system.Ws.Invariant.{Inv, step-Inv}
use home_camera_system.Ws.Opening.{step_connecting_first}

pub record System : Type 0 where
  pub socket : Ws
  pub banner : Banner

pub data Happening : Type 0 where
  on_socket : Ws.Event → Happening
  login_state : AuthState → Happening
  grace_timeout escalation_timeout linger_timeout : Happening

-- What the module does, and the state that the banner's subscriber is told after it. A state that
-- did not change is no news to `on_ws_state`.
follow : Ws → Banner → System
unfolding step
follow w b = record { socket = w; banner = step b (told w.socket_state) }

-- The subscriber is called with the state, and then `connect` may change it.
unfoldable pub mount : ℕ → Bool → AuthState → Ws → System
unfolding follow step mounted Ws.step
mount h throws s w =
    follow (Ws.step w (subscribes_state h throws)) (step (mounted s) (told w.socket_state))

unfoldable pub happen : System → Happening → System
unfolding follow step Ws.step
happen y (on_socket e) = follow (Ws.step y.socket e) y.banner
happen y (login_state s) = record y { banner = step y.banner (auth_is s) }
happen y grace_timeout = record y { banner = step y.banner grace_ends }
happen y escalation_timeout = record y { banner = step y.banner escalation_ends }
happen y linger_timeout = record y { banner = step y.banner linger_ends }

unfoldable pub live : System → List Happening → System
unfolding happen
live y [] = y
live y (e ∷ es) = live (happen y e) es

record Unrecovered (y : System) : Type 0 where
  sync : y.banner.state ≡ y.socket.socket_state
  back : y.banner.recovered_at ≡ false
  inv : Inv y.socket

told_state : (b : Banner) (s : WsState) → (step b (told s)).state ≡ s
unfolding step
told_state b connecting = ground arith
told_state b opened = ground arith
told_state b closed = ground arith

told_back :
    (b : Banner) (s : WsState)
    → b.recovered_at ≡ false
    → (b.state ≡ closed → b.outage_shown ≡ true → ¬ s ≡ opened)
    → (step b (told s)).recovered_at ≡ false
unfolding step
told_back b connecting h first = ground arith
told_back b opened h first = ground (arith, first)
told_back b closed h first = ground arith

follow-Unrecovered :
    (w : Ws) (b : Banner) (e : Ws.Event)
    → Unrecovered (record { socket = w; banner = b })
    → Unrecovered (follow (Ws.step w e) b)
unfolding follow step
follow-Unrecovered w b e v = record {
  sync = told_state b (Ws.step w e).socket_state;
  back =
      told_back b (Ws.step w e).socket_state v.back
        (λ c shown. step_connecting_first w e v.inv (cc (v.sync, c)));
  inv = step-Inv w e v.inv;
}

happen-Unrecovered : (y : System) (e : Happening) → Unrecovered y → Unrecovered (happen y e)
unfolding happen step
happen-Unrecovered y (on_socket e) v = follow-Unrecovered y.socket y.banner e v
happen-Unrecovered y (login_state s) v = ground (arith, v.sync, v.back, v.inv)
happen-Unrecovered y grace_timeout v = ground (arith, v.sync, v.back, v.inv)
happen-Unrecovered y escalation_timeout v = ground (arith, v.sync, v.back, v.inv)
happen-Unrecovered y linger_timeout v = ground (arith, v.sync, v.back, v.inv)

live-Unrecovered : (y : System) (es : List Happening) → Unrecovered y → Unrecovered (live y es)
unfolding live
live-Unrecovered y [] v = v
live-Unrecovered y (e ∷ es) v = live-Unrecovered (happen y e) es (happen-Unrecovered y e v)

mount-Unrecovered :
    (h : ℕ) (throws : Bool) (s : AuthState) (w : Ws) → Inv w → Unrecovered (mount h throws s w)
unfolding mount
mount-Unrecovered h throws s w v =
    follow-Unrecovered w (step (mounted s) (told w.socket_state)) (subscribes_state h throws)
      (record {
        sync = told_state (mounted s) w.socket_state;
        back = told_back (mounted s) w.socket_state refl (λ c shown. absurd (cc (shown)));
        inv = v;
      })

Unrecovered-kind : (y : System) → Unrecovered y → ¬ kind y.banner ≡ some recovered
unfolding kind
Unrecovered-kind y v = ground (arith, v.back)

-- Mounted on the socket module in any state with its invariant, the banner never announces a
-- recovery, whatever happens after: a socket that comes back is told of as `connecting` first, and
-- the subscriber waits for a change from `closed` to `open`.
pub recovery_is_never_announced :
    (h : ℕ) (throws : Bool) (s : AuthState) (w : Ws) (es : List Happening)
    → Inv w
    → ¬ kind (live (mount h throws s w) es).banner ≡ some recovered
recovery_is_never_announced h throws s w es v =
    Unrecovered-kind (live (mount h throws s w) es)
      (live-Unrecovered (mount h throws s w) es (mount-Unrecovered h throws s w v))
