-- ===== src/Api/Tests.antt =====
-- The theorems about client/src/lib/api.ts at concrete requests.
use home_camera_system.Prelude.{length, ℕ, ◌≤◌, ◌≡◌, refl, false, none, some, List, [], ◌∷◌, arith}
use home_camera_system.Prelude.Text.{codes}
use home_camera_system.Api.Requests.{
  Response, value, is_auth_path, Event, begins, answered, refresh_answered, step, run, initial,
}
use home_camera_system.Api.Requests.SingleFlight.{Coalesced, step-Coalesced, run-initial-Coalesced}
use home_camera_system.Api.Cache.{etag_cache_max, find, Tagged, if_none_match, get_cached_json}
use home_camera_system.Api.Cache.Bounds.{length-get_cached_json}
use home_camera_system.Api.Cache.NotModified.{get_cached_json-304}

abbrev refused : Response
refused = record { status = 401; text = none; json = none }

abbrev fine : ℕ → Response
fine body = record { status = 200; text = none; json = some body }

-- Two requests are refused at once; one refresh is posted for both.
abbrev burst : List Event
burst =
    begins (codes "/api/status")
    ∷ begins (codes "/api/events?limit=100")
    ∷ answered 0 refused
    ∷ answered 1 refused
    ∷ []

burst_posts : (run initial burst).refreshes_posted ≡ 1
unfolding run initial is_auth_path
burst_posts = refl

step-Coalesced_example : Coalesced (step (run initial burst) (refresh_answered 200))
step-Coalesced_example =
    step-Coalesced (run initial burst) (refresh_answered 200) (run-initial-Coalesced burst)

abbrev url : List ℕ
url = codes "/api/events/count_by_day"

abbrev tagged : Tagged
tagged = record { response = fine 5; header = some (codes "v1") }

abbrev unchanged : Tagged
unchanged = record { response = record { status = 304; text = none; json = none }; header = none }

length-get_cached_json_example :
    length (get_cached_json url none (some tagged) false none []).1 ≤ etag_cache_max
length-get_cached_json_example =
    length-get_cached_json url none (some tagged) false none [] (omega arith)

get_cached_json-304_example :
    let (got, filled) = get_cached_json url none (some tagged) false none [] in
    (got ≡ value 5)
    × (if_none_match url filled ≡ some (codes "v1"))
    × (get_cached_json url (find url filled) (some unchanged) false none filled ≡ (value 5, filled))
get_cached_json-304_example =
    get_cached_json-304 url none tagged unchanged b'v' 5 (codes "1") false [] refl refl refl refl
