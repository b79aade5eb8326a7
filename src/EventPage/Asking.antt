-- ===== src/EventPage/Asking.antt =====
-- The two ways in which client/src/pages/Events.tsx filters: in the page, and by the parameters of a
-- search.
use home_camera_system.Prelude.{
  if◌then◌else◌, Bool-cases, filter, filter-filter, is_empty, All, ℕ, ◌≡◌, refl, sym, ◌∙◌, ◌≢◌, inl,
  inr, Bool, true, false, ◌&&◌, ◌||◌, not, Option, none, some, List, [], ◌∷◌, arith,
}
use home_camera_system.Prelude.Text.{same_text, same_text_iff}
use home_camera_system.EventPage.{
  DetectionEvent, Filters, everyone, unrecognized, nameless, is_named, agrees, narrow, filtered,
  Query, blank, add_filters, seed_person,
}

abbrev is_null : Option (List ℕ) → Bool
is_null none = true
is_null (some name) = false

-- The server tests `person_name` only if the parameter is there, and searchEvents drops an empty one.
abbrev has_name : Option (List ℕ) → Option (List ℕ) → Bool
has_name none name = true
has_name (some []) name = true
has_name (some (c ∷ cs)) name = is_named (c ∷ cs) name

-- The events that a search asks for, its times aside.
abbrev pub asked : Query → DetectionEvent → Bool
asked q e =
    (not q.face_unrecognized || is_null e.person_name)
    && (has_name q.person_name e.person_name
        && (agrees q.label e.label && agrees q.camera e.camera_id))

-- A name, where there is one, is not empty.
abbrev pub Named : DetectionEvent → Type 0
Named e = e.person_name ≢ some []

filter_congr :
    (p q : DetectionEvent → Bool) (es : List DetectionEvent)
    → All (λ e. p e ≡ q e) es
    → filter p es ≡ filter q es
filter_congr p q [] h = refl
filter_congr p q (e ∷ es) (h, k) = rw (h, filter_congr p q es k)

abbrev shown : Filters → DetectionEvent → Bool
shown f e =
    agrees f.camera e.camera_id
    && (agrees f.label e.label
        && (if same_text f.person everyone
            then true
            else if same_text f.person unrecognized
            then nameless e.person_name
            else is_named f.person e.person_name))

filter-true : (es : List DetectionEvent) → filter (λ _. true) es ≡ es
filter-true [] = refl
filter-true (e ∷ es) = rw (filter-true es)

narrow-filter :
    (w : Option ℕ) (field : DetectionEvent → ℕ) (es : List DetectionEvent)
    → narrow w field es ≡ filter (λ e. agrees w (field e)) es
unfolding narrow
narrow-filter none field es = sym (filter-true es)
narrow-filter (some w) field es = refl

narrow_twice :
    (f : Filters) (es : List DetectionEvent)
    → narrow f.label
        (λ (e : DetectionEvent). e.label)
        (narrow f.camera (λ (e : DetectionEvent). e.camera_id) es)
      ≡ filter (λ e. agrees f.camera e.camera_id && agrees f.label e.label) es
narrow_twice f es = rw (narrow-filter f.camera (λ e. e.camera_id) es) (
    rw (narrow-filter f.label (λ e. e.label) (filter (λ e. agrees f.camera e.camera_id) es))
      (filter-filter (λ e. agrees f.label e.label) (λ e. agrees f.camera e.camera_id) es))

filter_ext :
    {p q : DetectionEvent → Bool}
    → ((e : DetectionEvent) → p e ≡ q e)
    → (es : List DetectionEvent) → filter p es ≡ filter q es
filter_ext h [] = refl
filter_ext h (e ∷ es) = rw (h e, filter_ext h es)

-- What the three passes keep, as one test.
filtered-shown : (f : Filters) (es : List DetectionEvent) → filtered f es ≡ filter (shown f) es
unfolding filtered
filtered-shown f es = rw (narrow_twice f es) (elim (Bool-cases (same_text f.person everyone)) [
  | inl y ↦ rw y (filter_ext (λ e. rw y (ground arith)) es)
  | inr n ↦ elim (Bool-cases (same_text f.person unrecognized)) [
    | inl y ↦ rw (n, y) (filter-filter _ _ es ∙ filter_ext (λ e. rw (n, y) (ground arith)) es)
    | inr m ↦ rw (n, m) (filter-filter _ _ es ∙ filter_ext (λ e. rw (n, m) (ground arith)) es)
  ]
])

token_everyone : (p : List ℕ) → same_text p everyone ≡ true → same_text p unrecognized ≡ false
unfolding same_text
token_everyone p y = rw ((same_text_iff p everyone).0 y)

has_name_lem :
    (p : List ℕ) (n : Option (List ℕ)) → is_empty p ≡ false → has_name (some p) n ≡ is_named p n
has_name_lem [] n h = cc
has_name_lem (c ∷ cs) n h = refl

nameless-is_null : (n : Option (List ℕ)) → n ≢ some [] → nameless n ≡ is_null n
nameless-is_null none h = refl
nameless-is_null (some []) h = absurd (h refl)
nameless-is_null (some (c ∷ cs)) h = refl

shown-asked :
    (f : Filters) (n : ℕ) (e : DetectionEvent)
    → is_empty f.person ≡ false
    → Named e
    → shown f e ≡ asked (add_filters f (blank n)) e
unfolding add_filters
shown-asked f n e h k = elim (Bool-cases (same_text f.person unrecognized)) [
  | inl y ↦ elim (Bool-cases (same_text f.person everyone)) [
    | inl z ↦ absurd (cc (token_everyone f.person z))
    | inr m ↦ rw (y, m) (ground (arith, nameless-is_null e.person_name))
  ]
  | inr m ↦ elim (Bool-cases (same_text f.person everyone)) [
    | inl z ↦ rw (m, z) (ground arith)
    | inr z ↦ rw (m, z) (ground (arith, has_name_lem f.person e.person_name))
  ]
]

All-shown :
    (f : Filters) (n : ℕ) (es : List DetectionEvent)
    → is_empty f.person ≡ false
    → All Named es
    → All (λ e. shown f e ≡ asked (add_filters f (blank n)) e) es
All-shown f n [] h k = tt
All-shown f n (e ∷ es) h (k, ks) = (shown-asked f n e h k, All-shown f n es h ks)

-- What the page shows of the events that it has loaded is what a search with the parameters that
-- the page sends would keep of them, whatever the three chips. It is assumed that the person chip
-- is not the empty text, and that an event's name, where there is one, is not empty.
pub filtered-asked :
    (f : Filters) (n : ℕ) (es : List DetectionEvent)
    → is_empty f.person ≡ false
    → All Named es
    → filtered f es ≡ filter (asked (add_filters f (blank n))) es
filtered-asked f n es h k =
    filtered-shown f es
    ∙ filter_congr (shown f) (asked (add_filters f (blank n))) es (All-shown f n es h k)

-- The person chip that the address sets is never the empty text.
pub is_empty-seed_person : (p : Option (List ℕ)) → is_empty (seed_person p) ≡ false
unfolding seed_person
is_empty-seed_person none = refl
is_empty-seed_person (some []) = refl
is_empty-seed_person (some (c ∷ cs)) = refl
