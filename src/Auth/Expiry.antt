-- ===== src/Auth/Expiry.antt =====
-- The session of client/src/lib/auth.tsx together with the requests of client/src/lib/api.ts, which
-- dispatch `homecam:session-expired` on the window.
use home_camera_system.Api.Requests
use home_camera_system.Auth
use mathlib.Core.Path.{subst}
use home_camera_system.Prelude.{
  ◌==◌, if◌then◌else◌, All, ℕ, ◌+◌, ◌≤◌, ◌≡◌, sym, ap, ◌∙◌, ◌⊎◌, inl, inr, none, arith,
}
use home_camera_system.Api.Requests.SingleFlight.{Awake, refresh_settled-Awake}
use home_camera_system.Api.Requests.Expiry.{step_expires}

pub record Session : Type 0 where
  pub client : Requests.Client
  pub auth : Auth.Auth

-- The listener runs each time that the event is dispatched.
abbrev hear : ℕ → ℕ → Auth.Auth → Auth.Auth
hear before after a = if after == before then a else Auth.step a Auth.session_expired

unfoldable pub session_step : Session → Requests.Event → Session
unfolding Auth.step Requests.step
session_step s e =
    let c = Requests.step s.client e in
    record { client = c; auth = hear s.client.session_expired c.session_expired s.auth }

-- What an expired refresh leaves behind.
pub record Expired (s t : Session) : Type 0 where
  pub signed_out : t.auth.state ≡ Auth.anon
  pub no_user : t.auth.user ≡ none
  pub told_once : t.auth.expired_toasts ≤ s.auth.expired_toasts + 1
  pub all_awake : All Awake t.client.requests

expired-hear :
    (n : ℕ) (a : Auth.Auth)
    → let b = hear n (n + 1) a in
      (b.state ≡ Auth.anon) × (b.user ≡ none) × (b.expired_toasts ≤ a.expired_toasts + 1)
unfolding Auth.step
expired-hear n a = ground arith

expired-hear_same : (n : ℕ) (a : Auth.Auth) → hear n n a ≡ a
expired-hear_same n a = ground arith

-- The session changes with a request's event only if a refresh in flight is answered 401. Then the
-- user is signed out and told so once at most, and no request waits any more, however many waited.
pub session_step_expires :
    (s : Session) (e : Requests.Event)
    → ((session_step s e).auth ≡ s.auth)
      ⊎ ((e ≡ Requests.refresh_answered 401) × Expired s (session_step s e))
unfolding session_step
session_step_expires s e = elim (step_expires s.client e) [
  | inl same ↦ inl (
      ap (λ n. hear s.client.session_expired n s.auth) same
      ∙ expired-hear_same s.client.session_expired s.auth)
  | inr (is_401, inflight, more) ↦
      let h = expired-hear s.client.session_expired s.auth in
      inr (
        is_401,
        record {
          signed_out = ap (λ n. (hear s.client.session_expired n s.auth).state) more ∙ h.0;
          no_user = ap (λ n. (hear s.client.session_expired n s.auth).user) more ∙ h.1;
          told_once =
              subst
                (λ n.
                  (hear s.client.session_expired n s.auth).expired_toasts
                  ≤ s.auth.expired_toasts + 1)
                (sym more) h.2;
          all_awake =
              subst (λ d. All Awake (Requests.step s.client d).requests) (sym is_401)
                (refresh_settled-Awake s.client 401 inflight).0;
        },
      )
]
