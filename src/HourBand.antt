-- ===== src/HourBand.antt =====
-- Who was seen in each hour of a day (client/src/components/HourBand.tsx), with the identity of an
-- event (client/src/lib/identity.ts, and recognizedNames of client/src/lib/eventLabel.ts). Times are
-- whole seconds.
pub mod Winner
mod Tests
use home_camera_system.Prelude.{
  ltb, ◌==◌, if◌then◌else◌, is_empty, update, ℕ, ◌+◌, ◌-◌, ◌/◌, Bool, false, ◌&&◌, ◌||◌, Option,
  none, some, List, [], ◌∷◌,
}
use home_camera_system.Prelude.Text.{codes, same_text}

pub record DetectionEvent : Type 0 where
  pub ts : ℕ
  pub label : List ℕ
  -- `none` is missing or null
  pub person_name : Option (List ℕ)
  pub person_names : Option (List (List ℕ))

abbrev legacy_name : Option (List ℕ) → List (List ℕ)
legacy_name (some (c ∷ s)) = (c ∷ s) ∷ []
legacy_name _ = []

-- `person_names` if it is not empty, and else the older field.
unfoldable pub recognized_names : DetectionEvent → List (List ℕ)
recognized_names e = elim e.person_names [
  | none ↦ legacy_name e.person_name
  | some names ↦ if is_empty names then legacy_name e.person_name else names
]

pub data IdentityKind : Type 0 where
  named_person person cat other : IdentityKind

pub record Identity : Type 0 where
  pub kind : IdentityKind
  pub name : Option (List ℕ)

-- The colors are left out: they follow from the kind and the name.
identity_from : List ℕ → List (List ℕ) → Identity
unfolding same_text
identity_from label (name ∷ names) = record { kind = named_person; name = some name }
identity_from label [] =
    if same_text label (codes "person")
    then record { kind = person; name = none }
    else if same_text label (codes "cat")
    then record { kind = cat; name = none }
    else record { kind = other; name = none }

unfoldable pub identity_of : DetectionEvent → Identity
unfolding identity_from recognized_names
identity_of e = identity_from e.label (recognized_names e)

abbrev kind_rank : IdentityKind → ℕ
kind_rank named_person = 3
kind_rank person = 3
kind_rank cat = 2
kind_rank other = 1

abbrev pub rank_of : DetectionEvent → ℕ
rank_of e = kind_rank (identity_of e).kind

-- One cell of the five arrays; `shown` stands for its color and word.
pub record Cell : Type 0 where
  pub shown : Option Identity
  pub rank : ℕ
  pub count : ℕ
  pub ts : Option ℕ

abbrev pub empty_cell : Cell
empty_cell = record { shown = none; rank = 0; count = 0; ts = none }

-- `none` is an event outside of the 24 hours from `day_start_ts`.
unfoldable pub hour_of : ℕ → DetectionEvent → Option ℕ
hour_of day_start_ts e =
    if ltb e.ts day_start_ts
    then none
    else if ltb 23 ((e.ts - day_start_ts) / 3600)
    then none
    else some ((e.ts - day_start_ts) / 3600)

abbrev earlier : ℕ → Option ℕ → Bool
earlier ts none = false
earlier ts (some t) = ltb ts t

unfoldable pub is_new_winner : DetectionEvent → Cell → Bool
is_new_winner e c =
    ltb c.rank (rank_of e) || (rank_of e == c.rank && ltb 0 c.rank && earlier e.ts c.ts)

-- One round of the loop, on the cell of the event.
unfoldable pub paint : DetectionEvent → Cell → Cell
unfolding is_new_winner
paint e c =
    let counted = record c { count = c.count + 1 } in
    if is_new_winner e c
    then record counted { shown = some (identity_of e); rank = rank_of e; ts = some e.ts }
    else counted

abbrev place : Option ℕ → DetectionEvent → (ℕ → Cell) → ℕ → Cell
place none e cells = cells
place (some h) e cells = update cells h (paint e (cells h))

unfoldable pub paint_all : ℕ → List DetectionEvent → (ℕ → Cell) → ℕ → Cell
unfolding paint hour_of
paint_all day_start_ts [] cells = cells
paint_all day_start_ts (e ∷ es) cells =
    paint_all day_start_ts es (place (hour_of day_start_ts e) e cells)

unfoldable pub hour_band : ℕ → List DetectionEvent → ℕ → Cell
unfolding paint_all
hour_band day_start_ts es = paint_all day_start_ts es (λ h. empty_cell)
