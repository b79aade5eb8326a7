-- ===== src/EventPage.antt =====
-- The events page (client/src/pages/Events.tsx): its events, its three filters, and what it asks the
-- server for. A text is the list of its code points; ids, labels and cameras are numbers.
pub mod Asking
pub mod DayWindow
pub mod State
pub mod Handlers
pub mod Page
use home_camera_system.Prelude.{
  ◌==◌, if◌then◌else◌, filter, is_empty, ℕ, Bool, true, false, Option, none, some, List, [], ◌∷◌,
}
use home_camera_system.Prelude.Text.{codes, same_text}

-- The fields of a DetectionEvent that the page reads. `person_name` is null or a text.
pub record DetectionEvent : Type 0 where
  pub id : ℕ
  pub ts : ℕ
  pub camera_id : ℕ
  pub label : ℕ
  pub person_name : Option (List ℕ)

-- `filter`, `labelFilter` and `cameraFilter`. The first is a token or a name.
pub record Filters : Type 0 where
  pub person : List ℕ
  pub label : Option ℕ
  pub camera : Option ℕ

abbrev pub everyone : List ℕ
everyone = codes "all"

abbrev pub unrecognized : List ℕ
unrecognized = codes "__unknown__"

-- `!e.person_name`
abbrev pub nameless : Option (List ℕ) → Bool
nameless none = true
nameless (some name) = is_empty name

-- `e.person_name === name`
abbrev pub is_named : List ℕ → Option (List ℕ) → Bool
is_named name none = false
is_named name (some n) = same_text n name

-- `wanted === null || x === wanted`
abbrev pub agrees : Option ℕ → ℕ → Bool
agrees none x = true
agrees (some wanted) x = x == wanted

narrow : Option ℕ → (DetectionEvent → ℕ) → List DetectionEvent → List DetectionEvent
narrow none field pool = pool
narrow (some wanted) field pool = filter (λ e. field e == wanted) pool

unfoldable pub filtered : Filters → List DetectionEvent → List DetectionEvent
unfolding narrow
filtered f events =
    let pool =
      narrow f.label (λ (e : DetectionEvent). e.label)
        (narrow f.camera (λ (e : DetectionEvent). e.camera_id) events) in
    if same_text f.person everyone
    then pool
    else if same_text f.person unrecognized
    then filter (λ e. nameless e.person_name) pool
    else filter (λ e. is_named f.person e.person_name) pool

-- EventSearchFilters, as far as the page fills it.
pub record Query : Type 0 where
  pub since_ts : Option ℕ
  pub until_ts : Option ℕ
  pub before_ts : Option ℕ
  pub limit : ℕ
  pub face_unrecognized : Bool
  pub person_name : Option (List ℕ)
  pub label : Option ℕ
  pub camera : Option ℕ

abbrev pub blank : ℕ → Query
blank limit = record {
  since_ts = none;
  until_ts = none;
  before_ts = none;
  limit = limit;
  face_unrecognized = false;
  person_name = none;
  label = none;
  camera = none;
}

-- The person chip as parameters of the search.
unfoldable pub add_person : List ℕ → Query → Query
add_person person q =
    if same_text person unrecognized
    then record q { face_unrecognized = true }
    else if same_text person everyone
    then q
    else record q { person_name = some person }

unfoldable pub add_filters : Filters → Query → Query
unfolding add_person
add_filters f q = record (add_person f.person q) { label = f.label; camera = f.camera }

-- `?person=NAME`, read on mount.
unfoldable pub seed_person : Option (List ℕ) → List ℕ
seed_person none = everyone
seed_person (some []) = everyone
seed_person (some (c ∷ cs)) = c ∷ cs
