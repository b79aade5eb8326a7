-- ===== src/Push/Link.antt =====
-- Where a click on a notification leads (notificationClickTarget of client/src/sw.ts), with the
-- encoding of the event id.
pub mod Params
pub mod Reading
use home_camera_system.Prelude.{
  ltb, leb, ◌==◌, if◌then◌else◌, ℕ, ◌+◌, ◌/◌, ◌%◌, Bool, ◌&&◌, ◌||◌, Option, none, some, List, [],
  ◌∷◌, ◌++◌,
}
use home_camera_system.Prelude.Text.{codes, same_text, includes}

-- The characters that `encodeURIComponent` keeps: letters, digits and - _ . ! ~ * ' ( ).
abbrev pub is_unreserved : ℕ → Bool
is_unreserved c =
    (leb 48 c && leb c 57)
    || (leb 65 c && leb c 90)
    || (leb 97 c && leb c 122)
    || (c == 45)
    || (c == 95)
    || (c == 46)
    || (c == 33)
    || (c == 126)
    || (leb 39 c && leb c 42)

abbrev hex_digit : ℕ → ℕ
hex_digit d = if ltb d 10 then 48 + d else 55 + d

abbrev percent : ℕ → List ℕ
percent b = 37 ∷ hex_digit (b / 16) ∷ hex_digit (b % 16) ∷ []

percents : List ℕ → List ℕ
percents [] = []
percents (b ∷ bytes) = percent b ++ percents bytes

-- The bytes of a code point in UTF-8.
utf8 : ℕ → List ℕ
utf8 c =
    if ltb c 128
    then c ∷ []
    else if ltb c 2048
    then (192 + c / 64) ∷ (128 + c % 64) ∷ []
    else if ltb c 65536
    then (224 + c / 4096) ∷ (128 + c / 64 % 64) ∷ (128 + c % 64) ∷ []
    else (240 + c / 262144) ∷ (128 + c / 4096 % 64) ∷ (128 + c / 64 % 64) ∷ (128 + c % 64) ∷ []

encode_code : ℕ → List ℕ
unfolding percents utf8
encode_code c = if is_unreserved c then c ∷ [] else percents (utf8 c)

-- `encodeURIComponent`
unfoldable pub encode : List ℕ → List ℕ
unfolding encode_code
encode [] = []
encode (c ∷ s) = encode_code c ++ encode s

-- `data.url` and `data.event_id`; `none` is missing or no text.
pub record ClickData : Type 0 where
  pub url : Option (List ℕ)
  pub event_id : Option (List ℕ)

abbrev pub or_root : Option (List ℕ) → List ℕ
or_root (some (c ∷ s)) = c ∷ s
or_root _ = codes "/"

-- An id that names an event: not empty, and not the tag of a test push.
unfoldable pub real_id : Option (List ℕ) → Option (List ℕ)
unfolding same_text
real_id none = none
real_id (some []) = none
real_id (some (c ∷ s)) = if same_text (c ∷ s) (codes "event") then none else some (c ∷ s)

separator : List ℕ → ℕ
unfolding includes
separator base = if includes (codes "?") base then 38 else 63

link_to : List ℕ → Option (List ℕ) → List ℕ
unfolding separator encode
link_to base none = base
link_to base (some id) = base ++ separator base ∷ (codes "event=" ++ encode id)

unfoldable pub notification_click_target : Option ClickData → List ℕ
unfolding real_id link_to
notification_click_target none = or_root none
notification_click_target (some d) = link_to (or_root d.url) (real_id d.event_id)
