-- ===== src/Api/Requests/SingleFlight.antt =====
-- How the requests of client/src/lib/api.ts share a refresh of the session.
use mathlib.Core.Path.{subst}
use home_camera_system.Prelude.{
  ◌==◌, if◌then◌else◌, Bool-cases, Option-cases, get_elem?, All, All-append, All-set, All-get_elem?,
  All-map, ℕ, ◌+◌, ◌≤◌, ◌≡◌, refl, sym, inl, inr, Bool, true, false, ◌&&◌, not, List, [], ◌∷◌, map,
  arith,
}
use home_camera_system.Api.Requests.{
  Response, network_error, Progress, fetching, awaiting_refresh, fetching_again, done, Request,
  Client, is_ok, is_auth_path, finish, attempt_refresh, put, answer, fail, wake, settle_refresh,
  Event, begins, answered, unreachable, refresh_called, refresh_answered, refresh_unreachable,
  on_request, step, run, initial,
}

abbrev is_awaiting : Progress → Bool
is_awaiting (awaiting_refresh res) = true
is_awaiting _ = false

abbrev is_first : Progress → Bool
is_first fetching = true
is_first (awaiting_refresh res) = true
is_first _ = false

-- One request, while a refresh is in flight or not.
pub record Sound (inflight : Bool) (r : Request) : Type 0 where
  pub sent : (1 ≤ r.fetches) × (r.fetches ≤ 2)
  pub first : is_first r.progress ≡ true → r.fetches ≡ 1
  pub waits : is_awaiting r.progress ≡ true → inflight ≡ true
  pub auth : is_auth_path r.path ≡ true → (r.fetches ≡ 1) × (is_awaiting r.progress ≡ false)

pub record Coalesced (c : Client) : Type 0 where
  pub sound : All (Sound c.refresh_inflight) c.requests
  pub single : c.refreshes_posted ≡ c.refreshes_settled + (if c.refresh_inflight then 1 else 0)
  pub expired : c.session_expired ≤ c.refreshes_settled

wake-Sound : (refreshed : Bool) (r : Request) → Sound true r → Sound false (wake refreshed r)
unfolding wake
wake-Sound refreshed r v = ground arith

Sound-true : (b : Bool) (r : Request) → Sound b r → Sound true r
Sound-true b r v = ground arith

All-Sound-true : (b : Bool) (rs : List Request) → All (Sound b) rs → All (Sound true) rs
All-Sound-true b [] h = tt
All-Sound-true b (r ∷ rs) (v, h) = (Sound-true b r v, All-Sound-true b rs h)

abbrev Counted : Client → Type 0
Counted c =
    (c.refreshes_posted ≡ c.refreshes_settled + (if c.refresh_inflight then 1 else 0))
    × (c.session_expired ≤ c.refreshes_settled)

if-Coalesced :
    {b t : Bool} (c d : Client)
    → b ≡ t
    → Coalesced (if t then c else d)
    → Coalesced (if b then c else d)
if-Coalesced c d e v = subst (λ b. Coalesced (if b then c else d)) (sym e) v

attempt_refresh-Coalesced :
    (c : Client) → All (Sound true) c.requests → Counted c → Coalesced (attempt_refresh c)
unfolding attempt_refresh
attempt_refresh-Coalesced c h k = elim (Bool-cases c.refresh_inflight) [
  | inl flying ↦ if-Coalesced _ _ flying (record {
    sound = subst (λ b. All (Sound b) c.requests) (sym flying) h;
    single = k.0;
    expired = k.1;
  })
  | inr idle ↦ if-Coalesced _ _ idle (record { sound = h; single = ground arith; expired = k.1 })
]

put-Coalesced :
    (i : ℕ) (r : Request) (c : Client)
    → Sound c.refresh_inflight r
    → Coalesced c
    → Coalesced (put i r c)
unfolding put
put-Coalesced i r c s v = record {
  sound = All-set (Sound c.refresh_inflight) c.requests i r v.sound s;
  single = v.single;
  expired = v.expired;
}

wait-Coalesced :
    (i : ℕ) (r : Request) (c : Client)
    → Sound true r
    → Coalesced c
    → Coalesced (attempt_refresh (put i r c))
unfolding put
wait-Coalesced i r c s v =
    attempt_refresh-Coalesced (put i r c)
      (All-set (Sound true) c.requests i r (All-Sound-true c.refresh_inflight c.requests v.sound) s)
      (v.single, v.expired)

answer-Coalesced :
    (i : ℕ) (res : Response) (p : Progress) (r : Request) (c : Client)
    → r.progress ≡ p
    → Sound c.refresh_inflight r
    → Coalesced c
    → Coalesced (answer i res p r c)
unfolding answer
answer-Coalesced i res fetching r c e s v =
    elim (Bool-cases (res.status == 401 && not (is_auth_path r.path))) [
      | inl refused ↦
          rw (refused, answer)
            (wait-Coalesced i (record r { progress = awaiting_refresh res }) c (ground arith) v)
      | inr final ↦
          rw (final, answer)
            (put-Coalesced i (record r { progress = done (finish r.path res) }) c (ground arith) v)
    ]
answer-Coalesced i res fetching_again r c e s v =
    put-Coalesced i (record r { progress = done (finish r.path res) }) c (ground arith) v
answer-Coalesced i res (awaiting_refresh w) r c e s v = v
answer-Coalesced i res (done w) r c e s v = v

fail-Coalesced :
    (i : ℕ) (p : Progress) (r : Request) (c : Client)
    → r.progress ≡ p
    → Sound c.refresh_inflight r
    → Coalesced c
    → Coalesced (fail i p r c)
unfolding fail
fail-Coalesced i fetching r c e s v =
    put-Coalesced i (record r { progress = done network_error }) c (ground arith) v
fail-Coalesced i fetching_again r c e s v =
    put-Coalesced i (record r { progress = done network_error }) c (ground arith) v
fail-Coalesced i (awaiting_refresh w) r c e s v = v
fail-Coalesced i (done w) r c e s v = v

on_request-Coalesced :
    (f : ℕ → Progress → Request → Client → Client) (i : ℕ) (c : Client)
    → ((r : Request) → Sound c.refresh_inflight r → Coalesced (f i r.progress r c))
    → Coalesced c
    → Coalesced (on_request f i c)
on_request-Coalesced f i c k v = elim (Option-cases (get_elem? c.requests i)) [
  | inl missing ↦ rw (missing, on_request) v
  | inr (r, found) ↦
      rw (found, on_request)
        (k r (All-get_elem? (Sound c.refresh_inflight) c.requests i v.sound found))
]

settle_refresh-Coalesced :
    (refreshed : Bool) (c : Client)
    → All (Sound true) c.requests
    → c.refreshes_posted ≡ c.refreshes_settled + 1
    → c.session_expired ≤ c.refreshes_settled + 1
    → Coalesced (settle_refresh refreshed c)
unfolding settle_refresh
settle_refresh-Coalesced refreshed c h p x = record {
  sound = All-map (Sound true) (Sound false) (wake refreshed) (wake-Sound refreshed) c.requests h;
  single = omega (arith, p);
  expired = x;
}

-- Every event keeps this: one refresh is in flight at most, each request is sent once or twice, it
-- waits only while a refresh is in flight, one to `/api/auth/` is sent once and never waits, and the
-- session is declared expired at most once for each refresh that was answered.
pub step-Coalesced : (c : Client) (e : Event) → Coalesced c → Coalesced (step c e)
unfolding step
step-Coalesced c (begins path) v = record {
  sound =
      All-append (Sound c.refresh_inflight) c.requests
        (record { path = path; progress = fetching; fetches = 1 } ∷ []) v.sound (ground arith, tt);
  single = v.single;
  expired = v.expired;
}
step-Coalesced c (answered i res) v =
    on_request-Coalesced (λ i p r c. answer i res p r c) i c
      (λ r s. answer-Coalesced i res r.progress r c refl s v) v
step-Coalesced c (unreachable i) v =
    on_request-Coalesced fail i c (λ r s. fail-Coalesced i r.progress r c refl s v) v
step-Coalesced c refresh_called v =
    attempt_refresh-Coalesced c (All-Sound-true c.refresh_inflight c.requests v.sound)
      (v.single, v.expired)
step-Coalesced c (refresh_answered status) v = elim (Bool-cases c.refresh_inflight) [
  | inl flying ↦ if-Coalesced _ _ flying (
      settle_refresh-Coalesced (is_ok status)
        (record c {
          session_expired = if status == 401 then c.session_expired + 1 else c.session_expired;
        })
        (All-Sound-true c.refresh_inflight c.requests v.sound) (ground arith) (ground arith))
  | inr idle ↦ if-Coalesced _ _ idle v
]
step-Coalesced c refresh_unreachable v = elim (Bool-cases c.refresh_inflight) [
  | inl flying ↦ if-Coalesced _ _ flying (
      settle_refresh-Coalesced false c (All-Sound-true c.refresh_inflight c.requests v.sound)
        (ground arith) (ground arith))
  | inr idle ↦ if-Coalesced _ _ idle v
]

initial-Coalesced : Coalesced initial
unfolding initial
initial-Coalesced = record { sound = tt; single = omega arith; expired = omega arith }

run-Coalesced : (c : Client) (es : List Event) → Coalesced c → Coalesced (run c es)
unfolding run
run-Coalesced c [] v = v
run-Coalesced c (e ∷ es) v = run-Coalesced (step c e) es (step-Coalesced c e v)

-- Whatever requests are made and however they are answered, a refresh is posted only once the one
-- before it has been answered, each request is sent once or twice, and no request waits while no
-- refresh is in flight.
pub run-initial-Coalesced : (es : List Event) → Coalesced (run initial es)
run-initial-Coalesced es = run-Coalesced initial es initial-Coalesced

abbrev pub Awake : Request → Type 0
Awake r = is_awaiting r.progress ≡ false

wake-Awake : (refreshed : Bool) (r : Request) → Awake (wake refreshed r)
unfolding wake
wake-Awake refreshed r = ground arith

All-Awake : (refreshed : Bool) (rs : List Request) → All Awake (map (wake refreshed) rs)
All-Awake refreshed [] = tt
All-Awake refreshed (r ∷ rs) = (wake-Awake refreshed r, All-Awake refreshed rs)

-- Once a refresh was answered, or failed, no request waits for it any more: each is done or is sent
-- again.
pub refresh_settled-Awake :
    (c : Client) (status : ℕ)
    → c.refresh_inflight ≡ true
    → All Awake (step c (refresh_answered status)).requests
      × All Awake (step c refresh_unreachable).requests
unfolding step
refresh_settled-Awake c status h = (
  subst (λ b. All Awake (if b then settle_refresh (is_ok status) noted else c).requests) (sym h)
      (All-Awake (is_ok status) c.requests),
  subst (λ b. All Awake (if b then settle_refresh false c else c).requests) (sym h)
      (All-Awake false c.requests),
)
  where
    noted : Client
    noted = record c {
      session_expired = if status == 401 then c.session_expired + 1 else c.session_expired;
    }
