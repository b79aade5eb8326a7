-- ===== src/Auth/Session.antt =====
-- What holds of the session of client/src/lib/auth.tsx over every history.
use home_camera_system.Prelude.{
  if◌then◌else◌, is_some, ℕ, ◌+◌, ◌≤◌, ◌≡◌, ◌⊎◌, Bool, true, false, List, [], ◌∷◌, arith,
}
use home_camera_system.Auth.{
  AuthState, authed, anon, Reply, me, http_status, unreachable, Auth, initial, is_anon, Event,
  me_settled, auth_failed, session_expired, logs_in, logs_out, unmounts, flag_consumed, step, run,
}

abbrev pub is_authed : AuthState → Bool
is_authed authed = true
is_authed _ = false

-- There is a user exactly while the state is `authed`.
abbrev pub Consistent : Auth → Type 0
Consistent a = is_some a.user ≡ is_authed a.state

-- Every event keeps this: there is a user exactly while the state is `authed`.
pub step-Consistent : (a : Auth) (e : Event) → Consistent a → Consistent (step a e)
unfolding step
step-Consistent a (me_settled (me u)) v = ground arith
step-Consistent a (me_settled (http_status s)) v = ground arith
step-Consistent a (me_settled unreachable) v = ground arith
step-Consistent a (auth_failed (me u) refreshed second) v = ground arith
step-Consistent a (auth_failed unreachable refreshed second) v = ground arith
step-Consistent a (auth_failed (http_status s) refreshed (me u)) v = ground arith
step-Consistent a (auth_failed (http_status s) refreshed (http_status t)) v = ground arith
step-Consistent a (auth_failed (http_status s) refreshed unreachable) v = ground arith
step-Consistent a session_expired v = ground arith
step-Consistent a (logs_in u) v = ground arith
step-Consistent a logs_out v = ground arith
step-Consistent a unmounts v = v
step-Consistent a flag_consumed v = v

-- The events that can sign a user in.
abbrev pub signs_in : Event → ℕ
signs_in (me_settled (me u)) = 1
signs_in (auth_failed first refreshed second) = 1
signs_in (logs_in u) = 1
signs_in _ = 0

abbrev pub count_sign_ins : List Event → ℕ
count_sign_ins [] = 0
count_sign_ins (e ∷ es) = signs_in e + count_sign_ins es

abbrev pending : Auth → ℕ
pending a = if is_anon a.state then 0 else 1

step_toasts :
    (a : Auth) (e : Event)
    → (step a e).expired_toasts + pending (step a e) ≤ a.expired_toasts + pending a + signs_in e
unfolding step
step_toasts a (me_settled (me u)) = ground arith
step_toasts a (me_settled (http_status s)) = ground arith
step_toasts a (me_settled unreachable) = ground arith
step_toasts a (auth_failed (me u) refreshed second) = ground arith
step_toasts a (auth_failed unreachable refreshed second) = ground arith
step_toasts a (auth_failed (http_status s) refreshed (me u)) = ground arith
step_toasts a (auth_failed (http_status s) refreshed (http_status t)) = ground arith
step_toasts a (auth_failed (http_status s) refreshed unreachable) = ground arith
step_toasts a session_expired = ground arith
step_toasts a (logs_in u) = ground arith
step_toasts a logs_out = ground arith
step_toasts a unmounts = ground arith
step_toasts a flag_consumed = ground arith

run_toasts :
    (a : Auth) (es : List Event)
    → (run a es).expired_toasts ≤ a.expired_toasts + pending a + count_sign_ins es
unfolding run
run_toasts a [] = ground arith
run_toasts a (e ∷ es) = omega (arith, run_toasts (step a e) es, step_toasts a e)

-- However many requests find the session expired, `Session expired` is shown at most once, and once
-- more for each event since that may have signed a user in.
pub run-initial_toasts : (es : List Event) → (run initial es).expired_toasts ≤ count_sign_ins es + 1
unfolding initial
run-initial_toasts es = omega (arith, run_toasts initial es)

-- A recheck signs the user out only if the last answer is a 401: the first one, when no refresh
-- helps, or the second one.
pub auth_failed_signs_out :
    (a : Auth) (first second : Reply) (refreshed : Bool)
    → a.state ≡ authed
    → (step a (auth_failed first refreshed second)).state ≡ anon
    → (first ≡ http_status 401) × ((refreshed ≡ false) ⊎ (second ≡ http_status 401))
unfolding step
auth_failed_signs_out a (me u) second refreshed h k = ground arith
auth_failed_signs_out a unreachable second refreshed h k = ground arith
auth_failed_signs_out a (http_status s) (me u) refreshed h k = ground arith
auth_failed_signs_out a (http_status s) (http_status t) refreshed h k = ground arith
auth_failed_signs_out a (http_status s) unreachable refreshed h k = ground arith
