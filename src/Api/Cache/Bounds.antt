-- ===== src/Api/Cache/Bounds.antt =====
-- How much `getCachedJSON` of client/src/lib/api.ts keeps.
use home_camera_system.Prelude.{
  or_else, length, length-append, ℕ, ◌+◌, ◌≤◌, Bool, Option, none, some, List, [], ◌∷◌, ◌++◌, arith,
}
use home_camera_system.Api.Cache.{
  Entry, etag_cache_max, delete, evict, store, Tagged, remember, conclude, get_cached_json,
}

length-delete : (url : List ℕ) (cache : List Entry) → length (delete url cache) ≤ length cache
unfolding delete
length-delete url [] = omega arith
length-delete url (e ∷ es) = ground (arith, length-delete url es)

length-evict :
    (cache : List Entry) → length cache ≤ etag_cache_max + 1 → length (evict cache) ≤ etag_cache_max
unfolding evict
length-evict [] h = omega arith
length-evict (e ∷ es) h = ground arith

length-store :
    (e : Entry) (cache : List Entry)
    → length cache ≤ etag_cache_max
    → length (store e cache) ≤ etag_cache_max
unfolding store
length-store e cache h =
    length-evict (delete e.url cache ++ e ∷ [])
      (omega (arith, length-append (delete e.url cache) (e ∷ []), length-delete e.url cache))

remember-length :
    (url : List ℕ) (tag : Option (List ℕ)) (body : ℕ) (cache : List Entry)
    → length cache ≤ etag_cache_max
    → length (remember url tag body cache) ≤ etag_cache_max
remember-length url none body cache h = h
remember-length url (some []) body cache h = h
remember-length url (some (c ∷ tag)) body cache h =
    length-store (record { url = url; etag = c ∷ tag; body = body }) cache h

conclude-length :
    (url : List ℕ) (cached : Option Entry) (res : Tagged) (cache : List Entry)
    → length cache ≤ etag_cache_max
    → length (conclude url cached res cache).1 ≤ etag_cache_max
unfolding conclude
conclude-length url none res cache h =
    ground (arith, remember-length url res.header (or_else res.response.json 0) cache)
conclude-length url (some e) res cache h =
    ground (arith, remember-length url res.header (or_else res.response.json 0) cache)

-- A cache of fifty URLs at most has fifty at most after any call, whatever the server answers.
pub length-get_cached_json :
    (url : List ℕ) (cached : Option Entry) (first : Option Tagged) (refreshed : Bool)
    (second : Option Tagged) (cache : List Entry)
    → length cache ≤ etag_cache_max
    → length (get_cached_json url cached first refreshed second cache).1 ≤ etag_cache_max
unfolding get_cached_json
length-get_cached_json url cached none refreshed second cache h = h
length-get_cached_json url cached (some first) refreshed none cache h =
    ground (arith, conclude-length url cached first cache)
length-get_cached_json url cached (some first) refreshed (some res) cache h =
    ground (arith, conclude-length url cached first cache, conclude-length url cached res cache)
