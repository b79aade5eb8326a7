-- ===== src/Api/Requests/Expiry.antt =====
-- When the requests of client/src/lib/api.ts find the session expired.
use home_camera_system.Prelude.{
  ◌==◌, Bool-cases, get_elem?, ℕ, ◌+◌, ◌≡◌, refl, ap, ◌⊎◌, inl, inr, true, ◌&&◌, Option, none, some,
  arith,
}
use home_camera_system.Api.Requests.{
  Response, Progress, fetching, awaiting_refresh, fetching_again, done, Request, Client,
  attempt_refresh, put, answer, fail, settle_refresh, Event, begins, answered, unreachable,
  refresh_called, refresh_answered, refresh_unreachable, on_request, step,
}

found_unexpired :
    (f : ℕ → Progress → Request → Client → Client) (i : ℕ) (c : Client) (o : Option Request)
    → ((p : Progress) (r : Request) → (f i p r c).session_expired ≡ c.session_expired)
    → (elim o as (λ x. Client) [ none ↦ c | some r ↦ f i r.progress r c ]).session_expired
      ≡ c.session_expired
found_unexpired f i c none h = refl
found_unexpired f i c (some r) h = h r.progress r

on_request_unexpired :
    (f : ℕ → Progress → Request → Client → Client) (i : ℕ) (c : Client)
    → ((p : Progress) (r : Request) → (f i p r c).session_expired ≡ c.session_expired)
    → (on_request f i c).session_expired ≡ c.session_expired
on_request_unexpired f i c h = found_unexpired f i c (get_elem? c.requests i) h

answer_unexpired :
    (i : ℕ) (res : Response) (p : Progress) (r : Request) (c : Client)
    → (answer i res p r c).session_expired ≡ c.session_expired
unfolding answer attempt_refresh put
answer_unexpired i res fetching r c = ground arith
answer_unexpired i res (awaiting_refresh q) r c = refl
answer_unexpired i res fetching_again r c = refl
answer_unexpired i res (done q) r c = refl

fail_unexpired :
    (i : ℕ) (p : Progress) (r : Request) (c : Client)
    → (fail i p r c).session_expired ≡ c.session_expired
unfolding fail put
fail_unexpired i fetching r c = refl
fail_unexpired i (awaiting_refresh q) r c = refl
fail_unexpired i fetching_again r c = refl
fail_unexpired i (done q) r c = refl

-- `homecam:session-expired` is dispatched once for a refresh in flight that is answered 401, and by
-- nothing else.
pub step_expires :
    (c : Client) (e : Event)
    → ((step c e).session_expired ≡ c.session_expired)
      ⊎ ((e ≡ refresh_answered 401)
          × (c.refresh_inflight ≡ true)
          × ((step c e).session_expired ≡ c.session_expired + 1))
unfolding step attempt_refresh settle_refresh
step_expires c (begins path) = inl refl
step_expires c (answered i res) =
    inl (
      on_request_unexpired (λ j p r d. answer j res p r d) i c
        (λ p r. answer_unexpired i res p r c))
step_expires c (unreachable i) = inl (on_request_unexpired fail i c (λ p r. fail_unexpired i p r c))
step_expires c refresh_called = inl (ground arith)
step_expires c (refresh_answered status) = elim (Bool-cases (c.refresh_inflight && status == 401)) [
  | inl y ↦ inr (ap refresh_answered (ground (arith, y)), ground (arith, y), ground (arith, y))
  | inr n ↦ inl (ground (arith, n))
]
step_expires c refresh_unreachable = inl (ground arith)
