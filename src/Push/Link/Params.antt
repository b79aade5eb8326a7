-- ===== src/Push/Link/Params.antt =====
-- The parameters of an address, as `new URL(url).searchParams` of the browser has them, by which
-- client/src/pages/Events.tsx reads the link of a notification. Escapes are read as bytes, which for
-- ASCII are the characters.
use home_camera_system.Prelude.{
  ltb, leb, ◌==◌, if◌then◌else◌, is_empty, contains, ℕ, ◌+◌, ◌-◌, ◌*◌, ◌≡◌, refl, Bool, true, false,
  ◌&&◌, ◌||◌, Option, none, some, List, [], ◌∷◌, ◌++◌, arith,
}
use home_camera_system.Prelude.Text.{same_text}

-- The address without its fragment, and of it what comes after the first ?.
unfoldable pub before_hash : List ℕ → List ℕ
before_hash [] = []
before_hash (c ∷ s) = let rest = before_hash s in if 35 == c then [] else c ∷ rest

unfoldable pub after_question : List ℕ → List ℕ
after_question [] = []
after_question (c ∷ s) = let rest = after_question s in if 63 == c then s else rest

to_head : ℕ → List (List ℕ) → List (List ℕ)
to_head c [] = (c ∷ []) ∷ []
to_head c (p ∷ ps) = (c ∷ p) ∷ ps

-- The parts between &.
unfoldable pub parts : List ℕ → List (List ℕ)
unfolding to_head
parts [] = [] ∷ []
parts (c ∷ s) = let rest = parts s in if 38 == c then [] ∷ rest else to_head c rest

-- The name and the value, around the first =.
unfoldable pub name_of : List ℕ → List ℕ
name_of [] = []
name_of (c ∷ s) = let rest = name_of s in if 61 == c then [] else c ∷ rest

unfoldable pub value_of : List ℕ → List ℕ
value_of [] = []
value_of (c ∷ s) = let rest = value_of s in if 61 == c then s else rest

abbrev pub digit_value : ℕ → ℕ
digit_value d = if ltb d 65 then d - 48 else if ltb d 97 then d - 55 else d - 87

abbrev pub is_hex : ℕ → Bool
is_hex d = (leb 48 d && leb d 57) || ((leb 65 d && leb d 70) || (leb 97 d && leb d 102))

-- A + is a space, and a % with two hexadecimal digits is a byte.
unfoldable pub decode : List ℕ → List ℕ
decode [] = []
decode (c ∷ []) = (if 43 == c then 32 else c) ∷ []
decode (c ∷ h ∷ []) = (if 43 == c then 32 else c) ∷ decode (h ∷ [])
decode (c ∷ h ∷ l ∷ s) =
    let after = decode s in
    let rest = decode (h ∷ l ∷ s) in
    if 37 == c && (is_hex h && is_hex l)
    then (digit_value h * 16 + digit_value l) ∷ after
    else (if 43 == c then 32 else c) ∷ rest

-- The value of the first parameter of a name.
unfoldable pub get : List ℕ → List (List ℕ) → Option (List ℕ)
unfolding same_text
get name [] = none
get name (p ∷ ps) =
    let rest = get name ps in
    if same_text (decode (name_of p)) name then some (decode (value_of p)) else rest

-- `new URL(url).searchParams.get(name)`
unfoldable pub search_param : List ℕ → List ℕ → Option (List ℕ)
unfolding before_hash after_question parts name_of value_of decode get
search_param name url = get name (parts (after_question (before_hash url)))

pub before_hash_id : (s : List ℕ) → contains 35 s ≡ false → before_hash s ≡ s
unfolding before_hash
before_hash_id [] h = refl
before_hash_id (c ∷ s) h = ground (arith, before_hash_id s)

pub after_question-fresh : (s t : List ℕ) → contains 63 s ≡ false → after_question (s ++ 63 ∷ t) ≡ t
unfolding after_question
after_question-fresh [] t h = refl
after_question-fresh (c ∷ s) t h = ground (arith, after_question-fresh s t)

pub after_question-append :
    (s t : List ℕ) → contains 63 s ≡ true → after_question (s ++ t) ≡ after_question s ++ t
unfolding after_question
after_question-append [] t h = cc
after_question-append (c ∷ s) t h = ground (arith, after_question-append s t)

to_head-append :
    (c : ℕ) (ps qs : List (List ℕ))
    → is_empty ps ≡ false
    → to_head c (ps ++ qs) ≡ to_head c ps ++ qs
unfolding to_head
to_head-append c [] qs h = cc
to_head-append c (p ∷ ps) qs h = refl

is_empty-to_head : (c : ℕ) (ps : List (List ℕ)) → is_empty (to_head c ps) ≡ false
unfolding to_head
is_empty-to_head c [] = refl
is_empty-to_head c (p ∷ ps) = refl

is_empty-parts : (s : List ℕ) → is_empty (parts s) ≡ false
unfolding parts
is_empty-parts [] = refl
is_empty-parts (c ∷ s) = ground (arith, is_empty-to_head c (parts s))

pub parts-append : (s t : List ℕ) → parts (s ++ 38 ∷ t) ≡ parts s ++ parts t
unfolding parts
parts-append [] t = refl
parts-append (c ∷ s) t =
    ground (arith, parts-append s t, to_head-append c (parts s) (parts t) (is_empty-parts s))

pub parts_single : (s : List ℕ) → contains 38 s ≡ false → parts s ≡ s ∷ []
unfolding parts to_head
parts_single [] h = refl
parts_single (c ∷ s) h =
    let first : (38 == c) ≡ false = ground (arith, h) in
    let rest : contains 38 s ≡ false = ground (arith, h) in rw (first, parts_single s rest) refl

pub get-append :
    (name : List ℕ) (ps qs : List (List ℕ)) → get name ps ≡ none → get name (ps ++ qs) ≡ get name qs
unfolding get
get-append name [] qs h = refl
get-append name (p ∷ ps) qs h = ground (arith, get-append name ps qs)
