-- ===== src/Api/Requests.antt =====
-- `req` and `_attemptRefresh` of client/src/lib/api.ts: any number of requests at once, and one
-- refresh for all that are answered 401. A JSON body is known by a number. The state holds what
-- the server was asked, so that a refresh is counted when it is posted and when it is answered.
pub mod SingleFlight
pub mod Expiry
use home_camera_system.Prelude.{
  ltb, leb, ◌==◌, if◌then◌else◌, get_elem?, set, ℕ, zero, suc, ◌+◌, Bool, true, false, ◌&&◌, not,
  Option, none, some, List, [], ◌∷◌, ◌++◌, map,
}
use home_camera_system.Prelude.Text.{codes, starts_with}

pub record Response : Type 0 where
  pub status : ℕ
  -- `none` is a body that cannot be read, or is no JSON
  pub text : Option (List ℕ)
  pub json : Option ℕ

pub data Result : Type 0 where
  value : ℕ → Result
  -- path, status and detail of an `HttpError`
  http_error : List ℕ → ℕ → List ℕ → Result
  network_error parse_error : Result

pub data Progress : Type 0 where
  fetching : Progress
  -- answered 401, with the answer
  awaiting_refresh : Response → Progress
  fetching_again : Progress
  done : Result → Progress

pub record Request : Type 0 where
  pub path : List ℕ
  pub progress : Progress
  pub fetches : ℕ

pub record Client : Type 0 where
  pub requests : List Request
  -- `_refreshInflight` is not null
  pub refresh_inflight : Bool
  pub refreshes_posted : ℕ
  pub refreshes_settled : ℕ
  -- how often `homecam:session-expired` was dispatched
  pub session_expired : ℕ

-- `res.ok`
abbrev pub is_ok : ℕ → Bool
is_ok status = leb 200 status && ltb status 300

-- `path.startsWith('/api/auth/')`
unfoldable pub is_auth_path : List ℕ → Bool
unfolding starts_with
is_auth_path path = starts_with (codes "/api/auth/") path

take : ℕ → List ℕ → List ℕ
take zero s = []
take (suc n) [] = []
take (suc n) (c ∷ s) = c ∷ take n s

-- `if (text) detail = ': ' + text.slice(0, 200)`
detail_of : Option (List ℕ) → List ℕ
unfolding take
detail_of none = []
detail_of (some []) = []
detail_of (some (c ∷ text)) = codes ": " ++ take 200 (c ∷ text)

-- What `req` makes of its last response.
unfoldable pub finish : List ℕ → Response → Result
unfolding detail_of
finish path res =
    if is_ok res.status
    then elim res.json [ none ↦ parse_error | some body ↦ value body ]
    else http_error path res.status (detail_of res.text)

-- `_attemptRefresh` up to its first await: one that is in flight is shared.
pub attempt_refresh : Client → Client
attempt_refresh c =
    if c.refresh_inflight
    then c
    else record c { refresh_inflight = true; refreshes_posted = c.refreshes_posted + 1 }

put : ℕ → Request → Client → Client
put i r c = record c { requests = set c.requests i r }

-- The first response, or the response after the refresh.
answer : ℕ → Response → Progress → Request → Client → Client
unfolding put attempt_refresh finish
answer i res fetching r c =
    if res.status == 401 && not (is_auth_path r.path)
    then attempt_refresh (put i (record r { progress = awaiting_refresh res }) c)
    else put i (record r { progress = done (finish r.path res) }) c
answer i res fetching_again r c = put i (record r { progress = done (finish r.path res) }) c
answer i res _ r c = c

fail : ℕ → Progress → Request → Client → Client
unfolding put
fail i fetching r c = put i (record r { progress = done network_error }) c
fail i fetching_again r c = put i (record r { progress = done network_error }) c
fail i _ r c = c

-- A request that waited goes on: it is sent once more, or it ends with its 401.
abbrev wake_progress : Bool → Progress → Request → Request
wake_progress refreshed (awaiting_refresh res) r =
    if refreshed
    then record r { progress = fetching_again; fetches = r.fetches + 1 }
    else record r { progress = done (finish r.path res) }
wake_progress refreshed _ r = r

pub wake : Bool → Request → Request
wake refreshed r = wake_progress refreshed r.progress r

settle_refresh : Bool → Client → Client
unfolding wake
settle_refresh refreshed c = record c {
  requests = map (wake refreshed) c.requests;
  refresh_inflight = false;
  refreshes_settled = c.refreshes_settled + 1;
}

pub data Event : Type 0 where
  begins : List ℕ → Event
  answered : ℕ → Response → Event
  unreachable : ℕ → Event
  -- `refreshSession`, called by the auth provider
  refresh_called : Event
  refresh_answered : ℕ → Event
  refresh_unreachable : Event

abbrev on_request : (ℕ → Progress → Request → Client → Client) → ℕ → Client → Client
on_request f i c = elim (get_elem? c.requests i) [ none ↦ c | some r ↦ f i r.progress r c ]

unfoldable pub step : Client → Event → Client
unfolding answer fail settle_refresh attempt_refresh
step c (begins path) = record c {
  requests = c.requests ++ record { path = path; progress = fetching; fetches = 1 } ∷ [];
}
step c (answered i res) = on_request (λ i p r c. answer i res p r c) i c
step c (unreachable i) = on_request fail i c
step c refresh_called = attempt_refresh c
step c (refresh_answered status) =
    if c.refresh_inflight
    then settle_refresh (is_ok status) (record c {
      session_expired = if status == 401 then c.session_expired + 1 else c.session_expired;
    })
    else c
step c refresh_unreachable = if c.refresh_inflight then settle_refresh false c else c

unfoldable pub run : Client → List Event → Client
unfolding step
run c [] = c
run c (e ∷ es) = run (step c e) es

unfoldable pub initial : Client
initial = record {
  requests = [];
  refresh_inflight = false;
  refreshes_posted = 0;
  refreshes_settled = 0;
  session_expired = 0;
}
