-- ===== src/Auth.antt =====
-- client/src/lib/auth.tsx, the session as the app sees it: the state of `AuthProvider`, and the
-- module's flag of an expired session. A user is known by a number. What `showToast` is called for
-- is counted.
pub mod Session
pub mod Expiry
mod Tests
mod ExpiryTests
use home_camera_system.Prelude.{
  ◌==◌, if◌then◌else◌, ℕ, ◌+◌, Bool, true, false, ◌&&◌, Option, none, some, List, [], ◌∷◌,
}

pub data AuthState : Type 0 where
  loading authed anon : AuthState

-- How a call of `getMe` ends: a user, an HTTP error, or no answer.
pub data Reply : Type 0 where
  me : ℕ → Reply
  http_status : ℕ → Reply
  unreachable : Reply

pub record Auth : Type 0 where
  pub state : AuthState
  pub user : Option ℕ
  pub was_session_expired : Bool
  pub cancelled : Bool
  pub expired_toasts : ℕ

unfoldable pub initial : Auth
initial = record {
  state = loading;
  user = none;
  was_session_expired = false;
  cancelled = false;
  expired_toasts = 0;
}

sign_in : ℕ → Auth → Auth
sign_in u a = record a { user = some u; state = authed }

sign_out : Auth → Auth
sign_out a = record a { user = none; state = anon }

-- The first `getMe`: 401 and every other error leave the user anonymous.
on_me : Reply → Auth → Auth
unfolding sign_in sign_out
on_me (me u) a = if a.cancelled then a else sign_in u a
on_me (http_status s) a = if a.cancelled then a else sign_out a
on_me unreachable a = if a.cancelled then a else sign_out a

-- `getMe`, and on a 401 one refresh and a second `getMe`; if the refresh fails, the 401 stays.
pub recheck : Reply → Bool → Reply → Reply
recheck (me u) refreshed second = me u
recheck (http_status s) refreshed second = if s == 401 && refreshed then second else http_status s
recheck unreachable refreshed second = unreachable

-- What `onAuthFailed` makes of it.
on_rechecked : Reply → Auth → Auth
unfolding sign_in sign_out
on_rechecked (me u) a = sign_in u a
on_rechecked (http_status s) a = if s == 401 then sign_out a else a
on_rechecked unreachable a = a

abbrev pub is_anon : AuthState → Bool
is_anon anon = true
is_anon _ = false

-- `onSessionExpired`: only the first of a burst is announced.
on_session_expired : Auth → Auth
on_session_expired a = if is_anon a.state then record a { user = none } else record a {
  was_session_expired = true;
  expired_toasts = a.expired_toasts + 1;
  state = anon;
  user = none;
}

-- After `apiLogin` succeeds. A login that fails throws, and changes nothing.
login : ℕ → Auth → Auth
unfolding sign_in
login u a = record (sign_in u a) { was_session_expired = false }

-- Whether or not the server answered.
logout : Auth → Auth
unfolding sign_out
logout a = sign_out a

clear_session_expired_flag : Auth → Auth
clear_session_expired_flag a = record a { was_session_expired = false }

pub data Event : Type 0 where
  me_settled : Reply → Event
  -- a WebSocket close with 1008, with all that the recheck is answered
  auth_failed : Reply → Bool → Reply → Event
  session_expired : Event
  logs_in : ℕ → Event
  logs_out unmounts flag_consumed : Event

unfoldable pub step : Auth → Event → Auth
unfolding on_me on_rechecked recheck on_session_expired login logout clear_session_expired_flag
step a (me_settled r) = on_me r a
step a (auth_failed first refreshed second) = on_rechecked (recheck first refreshed second) a
step a session_expired = on_session_expired a
step a (logs_in u) = login u a
step a logs_out = logout a
step a unmounts = record a { cancelled = true }
step a flag_consumed = clear_session_expired_flag a

unfoldable pub run : Auth → List Event → Auth
unfolding step
run a [] = a
run a (e ∷ es) = run (step a e) es
