-- ===== src/Api/Cache/Failure.antt =====
-- What `getCachedJSON` of client/src/lib/api.ts keeps when a call fails.
use home_camera_system.Prelude.{
  ◌==◌, if◌then◌else◌, or_else, ℕ, ◌≡◌, refl, ◌≢◌, Bool, true, false, ◌&&◌, not, Option, none, some,
  List, arith,
}
use home_camera_system.Api.Cache.{Entry, Tagged, conclude, get_cached_json}
use home_camera_system.Api.Requests.{Result, value, network_error, is_auth_path}

abbrev pub Fails : Result × List Entry → Type 0
Fails r = (body : ℕ) → r.0 ≢ value body

conclude-error :
    (url : List ℕ) (cached : Option Entry) (res : Tagged) (cache : List Entry)
    → Fails (conclude url cached res cache)
    → (conclude url cached res cache).1 ≡ cache
unfolding conclude
conclude-error url none res cache h = ground (arith, h (or_else res.response.json 0))
conclude-error url (some e) res cache h = ground (arith, h (or_else res.response.json 0), h e.body)

if-error :
    (b : Bool) (x y : Result × List Entry) (cache : List Entry)
    → (Fails x → x.1 ≡ cache)
    → (Fails y → y.1 ≡ cache)
    → Fails (if b then x else y)
    → (if b then x else y).1 ≡ cache
if-error true x y cache k l h = k h
if-error false x y cache k l h = l h

-- A call that does not return a body leaves the cache as it is.
pub get_cached_json-error :
    (url : List ℕ) (cached : Option Entry) (first second : Option Tagged) (refreshed : Bool)
    (cache : List Entry)
    → Fails (get_cached_json url cached first refreshed second cache)
    → (get_cached_json url cached first refreshed second cache).1 ≡ cache
unfolding get_cached_json
get_cached_json-error url cached none second refreshed cache h = refl
get_cached_json-error url cached (some first) none refreshed cache h =
    if-error (first.response.status == 401 && not (is_auth_path url) && refreshed)
      (network_error, cache) (conclude url cached first cache) cache (λ _. refl)
      (conclude-error url cached first cache) h
get_cached_json-error url cached (some first) (some res) refreshed cache h =
    if-error (first.response.status == 401 && not (is_auth_path url) && refreshed)
      (conclude url cached res cache) (conclude url cached first cache) cache
      (conclude-error url cached res cache) (conclude-error url cached first cache) h
