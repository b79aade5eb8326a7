-- ===== src/Api/Cache.antt =====
-- `getCachedJSON` of client/src/lib/api.ts: the bodies of the last fifty URLs under their ETags, in
-- the order of the `Map`, oldest first.
pub mod Bounds
pub mod NotModified
pub mod Failure
use home_camera_system.Prelude.{
  ltb, ◌==◌, if◌then◌else◌, length, ℕ, Bool, ◌&&◌, not, Option, none, some, List, [], ◌∷◌, ◌++◌,
}
use home_camera_system.Prelude.Text.{same_text}
use home_camera_system.Api.Requests.{
  Response, Result, value, network_error, parse_error, is_ok, is_auth_path, finish,
}

pub record Entry : Type 0 where
  pub url : List ℕ
  pub etag : List ℕ
  pub body : ℕ

abbrev pub etag_cache_max : ℕ
etag_cache_max = 50

-- `_ETAG_CACHE.get(url)`
pub find : List ℕ → List Entry → Option Entry
find url [] = none
find url (e ∷ es) = if same_text e.url url then some e else find url es

-- `_ETAG_CACHE.delete(url)`
delete : List ℕ → List Entry → List Entry
delete url [] = []
delete url (e ∷ es) = let rest = delete url es in if same_text e.url url then rest else e ∷ rest

-- The oldest entry goes when the cache is too large.
evict : List Entry → List Entry
evict [] = []
evict (e ∷ es) = if ltb etag_cache_max (length (e ∷ es)) then es else e ∷ es

-- An old entry of the URL is deleted first, so that the new one is the youngest.
pub store : Entry → List Entry → List Entry
unfolding delete evict
store e cache = evict (delete e.url cache ++ e ∷ [])

-- A response with its `ETag` header.
pub record Tagged : Type 0 where
  pub response : Response
  pub header : Option (List ℕ)

-- `if (etag)`: the empty header is no tag.
abbrev remember : List ℕ → Option (List ℕ) → ℕ → List Entry → List Entry
remember url none body cache = cache
remember url (some []) body cache = cache
remember url (some (c ∷ tag)) body cache =
    store (record { url = url; etag = c ∷ tag; body = body }) cache

-- The header `If-None-Match` of the request.
pub if_none_match : List ℕ → List Entry → Option (List ℕ)
if_none_match url cache = elim (find url cache) [ none ↦ none | some e ↦ some e.etag ]

-- The part of the call below the test for 304.
fetched : List ℕ → Tagged → List Entry → Result × List Entry
fetched url res cache =
    if is_ok res.response.status
    then elim res.response.json [
      | none ↦ (parse_error, cache)
      | some body ↦ (value body, remember url res.header body cache)
    ]
    else (finish url res.response, cache)

-- What the call makes of its last response. `cached` is the entry that it read before it fetched,
-- and `cache` what the cache holds when the response is there.
conclude : List ℕ → Option Entry → Tagged → List Entry → Result × List Entry
unfolding fetched
conclude url none res cache = fetched url res cache
conclude url (some e) res cache =
    if res.response.status == 304 then (value e.body, cache) else fetched url res cache

-- The whole call, given what the server answers: the first response, whether the refresh succeeds
-- after a 401, and the response after it. `none` is a request that the network rejects.
unfoldable pub get_cached_json :
    List ℕ → Option Entry → Option Tagged → Bool → Option Tagged → List Entry → Result × List Entry
unfolding conclude
get_cached_json url cached none refreshed second cache = (network_error, cache)
get_cached_json url cached (some first) refreshed second cache =
    if first.response.status == 401 && not (is_auth_path url) && refreshed
    then elim second [ none ↦ (network_error, cache) | some res ↦ conclude url cached res cache ]
    else conclude url cached first cache
