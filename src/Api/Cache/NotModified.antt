-- ===== src/Api/Cache/NotModified.antt =====
-- What `getCachedJSON` of client/src/lib/api.ts makes of a 304.
use home_camera_system.Prelude.{ℕ, ◌≡◌, refl, Bool, Option, none, some, List, [], ◌∷◌, ◌++◌, arith}
use home_camera_system.Prelude.Text.{same_text_refl}
use home_camera_system.Api.Cache.{
  Entry, find, delete, evict, store, Tagged, if_none_match, get_cached_json,
}
use home_camera_system.Api.Requests.{value}

find-delete : (url : List ℕ) (cache : List Entry) → find url (delete url cache) ≡ none
unfolding find delete
find-delete url [] = refl
find-delete url (e ∷ es) = ground (arith, find-delete url es)

find-append :
    (e : Entry) (cache : List Entry)
    → find e.url cache ≡ none
    → find e.url (cache ++ e ∷ []) ≡ some e
unfolding find
find-append e [] h = ground (arith, same_text_refl e.url)
find-append e (x ∷ xs) h = ground (arith, find-append e xs)

find-evict :
    (e : Entry) (cache : List Entry)
    → find e.url cache ≡ none
    → find e.url (evict (cache ++ e ∷ [])) ≡ some e
unfolding find evict
find-evict e [] h = ground (arith, same_text_refl e.url)
find-evict e (x ∷ xs) h = ground (arith, find-append e xs, find-append e (x ∷ xs) h)

-- What is stored is found under its URL: the entry that is made is never the one that goes.
find-store : (e : Entry) (cache : List Entry) → find e.url (store e cache) ≡ some e
unfolding store
find-store e cache = find-evict e (delete e.url cache) (find-delete e.url cache)

get_cached_json-200 :
    (url : List ℕ) (cached : Option Entry) (first : Tagged) (c body : ℕ) (tag : List ℕ)
    (refreshed : Bool) (second : Option Tagged) (cache : List Entry)
    → first.response.status ≡ 200
    → first.response.json ≡ some body
    → first.header ≡ some (c ∷ tag)
    → get_cached_json url cached (some first) refreshed second cache
      ≡ (value body, store (record { url = url; etag = c ∷ tag; body = body }) cache)
unfolding get_cached_json
get_cached_json-200 url none first c body tag refreshed second cache s j t = ground arith
get_cached_json-200 url (some e) first c body tag refreshed second cache s j t = ground arith

get_cached_json-304_lem :
    (url : List ℕ) (e : Entry) (second : Tagged) (refreshed : Bool) (cache : List Entry)
    → second.response.status ≡ 304
    → get_cached_json url (some e) (some second) refreshed none cache ≡ (value e.body, cache)
unfolding get_cached_json
get_cached_json-304_lem url e second refreshed cache n = ground arith

-- A 200 with an ETag, and then a 304: the second call sends that ETag and returns the body of the
-- first, and the cache stays as it is.
pub get_cached_json-304 :
    (url : List ℕ) (cached : Option Entry) (first second : Tagged) (c body : ℕ) (tag : List ℕ)
    (refreshed : Bool) (cache : List Entry)
    → first.response.status ≡ 200
    → first.response.json ≡ some body
    → first.header ≡ some (c ∷ tag)
    → second.response.status ≡ 304
    → let (got, filled) = get_cached_json url cached (some first) refreshed none cache in
      (got ≡ value body)
      × (if_none_match url filled ≡ some (c ∷ tag))
      × (get_cached_json url (find url filled) (some second) refreshed none filled
          ≡ (value body, filled))
unfolding if_none_match
get_cached_json-304 url cached first second c body tag refreshed cache s j t n =
    let e : Entry = record { url = url; etag = c ∷ tag; body = body } in
    rw
      (
        get_cached_json-200 url cached first c body tag refreshed none cache s j t,
        find-store e cache,
      )
      (
        refl,
        rw (find-store e cache, if_none_match) refl,
        get_cached_json-304_lem url e second refreshed (store e cache) n,
      )
