-- ===== src/Push/Link/Reading.antt =====
-- The link of a notification (client/src/sw.ts), read as client/src/pages/Events.tsx reads its
-- address: `searchParams.get('event')`.
use home_camera_system.Prelude.{
  ◌==◌, Bool-cases, contains, contains-append, All, ℕ, ◌/◌, ◌%◌, ◌<◌, ◌≡◌, refl, ap, ◌∙◌, ◌≢◌, inl,
  inr, true, false, none, some, List, [], ◌∷◌, ◌++◌, arith,
}
use home_camera_system.Prelude.Text.{codes, same_text, includes}
use home_camera_system.Push.Link.{
  is_unreserved, hex_digit, percent, percents, utf8, encode_code, encode, ClickData, or_root,
  real_id, separator, link_to, notification_click_target,
}
use home_camera_system.Push.Link.Params.{
  before_hash, after_question, parts, name_of, value_of, digit_value, is_hex, decode, get,
  search_param, before_hash_id, after_question-fresh, after_question-append, parts-append,
  parts_single, get-append,
}

-- A character that is neither kept nor part of an escape.
module _ (x : ℕ) (low : x < 48) (no_escape : x ≢ 37) (kept : is_unreserved x ≡ false) where
  contains-percents : (bytes : List ℕ) → contains x (percents bytes) ≡ false
  unfolding percents
  contains-percents [] = refl
  contains-percents (b ∷ bytes) = ground (arith, contains-percents bytes)

  kept_other : (c : ℕ) → is_unreserved c ≡ true → (x == c) ≡ false
  kept_other c h = elim (Bool-cases (x == c)) [ inl y ↦ absurd (ground arith) | inr n ↦ n ]

  contains-encode_code : (c : ℕ) → contains x (encode_code c) ≡ false
  unfolding encode_code
  contains-encode_code c = elim (Bool-cases (is_unreserved c)) [
    | inl y ↦ rw y (ground (arith, kept_other c y))
    | inr n ↦ rw n (contains-percents (utf8 c))
  ]

  contains-encode : (s : List ℕ) → contains x (encode s) ≡ false
  unfolding encode
  contains-encode [] = refl
  contains-encode (c ∷ s) = ground (
    arith,
    contains-append x (encode_code c) (encode s),
    contains-encode_code c,
    contains-encode s,
  )

decode-kept : (c : ℕ) (s : List ℕ) → is_unreserved c ≡ true → decode (c ∷ s) ≡ c ∷ decode s
unfolding decode
decode-kept c [] h = ground arith
decode-kept c (d ∷ []) h = ground arith
decode-kept c (d ∷ e ∷ s) h = ground arith

hex_digit_lem : (d : ℕ) → d < 16 → (digit_value (hex_digit d) ≡ d) × (is_hex (hex_digit d) ≡ true)
hex_digit_lem d h = ground arith

decode-percent : (c : ℕ) (s : List ℕ) → c < 128 → decode (percent c ++ s) ≡ c ∷ decode s
unfolding decode
decode-percent c s h =
    ground (arith, hex_digit_lem (c / 16) (omega (arith, h)), hex_digit_lem (c % 16) (omega arith))

decode-encode_code : (c : ℕ) (s : List ℕ) → c < 128 → decode (encode_code c ++ s) ≡ c ∷ decode s
unfolding encode_code percents utf8
decode-encode_code c s h = ground (arith, decode-kept c s, decode-percent c s h)

decode-encode : (s : List ℕ) → All (λ c. c < 128) s → decode (encode s) ≡ s
unfolding encode decode
decode-encode [] h = refl
decode-encode (c ∷ s) h =
    decode-encode_code c (encode s) h.0 ∙ ap (λ t. c ∷ t) (decode-encode s h.1)

-- The parameter of an event, alone.
get-event :
    (id : List ℕ)
    → All (λ c. c < 128) id
    → get (codes "event") (parts (codes "event=" ++ encode id)) ≡ some id
unfolding get name_of value_of decode same_text
get-event id a =
    let single : contains 38 (codes "event=" ++ encode id) ≡ false =
      contains-encode 38 (omega arith) (omega arith) refl id in
    rw (parts_single (codes "event=" ++ encode id) single) (ap some (decode-encode id a))

includes-contains : (s : List ℕ) → includes (codes "?") s ≡ contains 63 s
unfolding includes
includes-contains [] = refl
includes-contains (c ∷ s) = ground (arith, includes-contains s)

-- Behind an address without a fragment, of which no parameter has the name.
module _ (base id : List ℕ) (plain : contains 35 base ≡ false)
    (unnamed : search_param (codes "event") base ≡ none) (ascii : All (λ c. c < 128) id) where
  abbrev event_part : List ℕ
  event_part = codes "event=" ++ encode id

  before_hash-link :
      (sep : ℕ)
      → (35 == sep) ≡ false
      → before_hash (base ++ sep ∷ event_part) ≡ base ++ sep ∷ event_part
  before_hash-link sep h =
      let rest : contains 35 event_part ≡ false =
        contains-encode 35 (omega arith) (omega arith) refl id in
      before_hash_id (base ++ sep ∷ event_part)
        (ground (arith, contains-append 35 base (sep ∷ event_part), plain, rest, h))

  first_param :
      contains 63 base ≡ false → search_param (codes "event") (base ++ 63 ∷ event_part) ≡ some id
  unfolding search_param
  first_param n =
      rw (before_hash-link 63 refl, after_question-fresh base event_part n) (get-event id ascii)

  later_param :
      contains 63 base ≡ true → search_param (codes "event") (base ++ 38 ∷ event_part) ≡ some id
  unfolding search_param
  later_param y =
      let before : get (codes "event") (parts (after_question base)) ≡ none =
        rw⁻¹ (before_hash_id base plain) unnamed in
      rw
        (
          before_hash-link 38 refl,
          after_question-append base (38 ∷ event_part) y,
          parts-append (after_question base) event_part,
          get-append (codes "event") (parts (after_question base)) (parts event_part) before,
        )
        (get-event id ascii)

  link_to-get : search_param (codes "event") (link_to base (some id)) ≡ some id
  unfolding link_to separator
  link_to-get = elim (Bool-cases (contains 63 base)) [
    | inl y ↦ rw (includes-contains base, y) (later_param y)
    | inr n ↦ rw (includes-contains base, n) (first_param n)
  ]

-- The link of a notification for an event leads to the event: `searchParams.get('event')` of it is
-- the event id, if the URL of the payload (the root, if there is none) has no fragment and no
-- parameter that is called `event` itself. The id is ASCII, as those of the server are.
pub notification_click_target-read :
    (d : ClickData) (id : List ℕ)
    → real_id d.event_id ≡ some id
    → All (λ c. c < 128) id
    → contains 35 (or_root d.url) ≡ false
    → search_param (codes "event") (or_root d.url) ≡ none
    → search_param (codes "event") (notification_click_target (some d)) ≡ some id
unfolding notification_click_target
notification_click_target-read d id h a f n =
    ap (λ o. search_param (codes "event") (link_to (or_root d.url) o)) h
    ∙ link_to-get (or_root d.url) id f n a
