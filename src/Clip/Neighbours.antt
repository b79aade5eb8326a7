-- ===== src/Clip/Neighbours.antt =====
-- The neighbours in time of an event (client/src/components/ClipModal.tsx).
use home_camera_system.Prelude.{
  leb, ◌==◌, leb→le, Bool-cases, get_elem?, All, All-get_elem?, ℕ, zero, suc, ◌≤◌, ◌≡◌, refl, sym,
  ◌≢◌, inl, inr, Bool, true, false, Option, none, some, List, [], ◌∷◌, arith,
}
use home_camera_system.Clip.{DetectionEvent, insert_newest, sort_newest, next_index, find_index}

abbrev NotAfter : ℕ → List DetectionEvent → Type 0
NotAfter t = All (λ (e : DetectionEvent). e.ts ≤ t)

abbrev pub NewestFirst : List DetectionEvent → Type 0
NewestFirst [] = Unit {0}
NewestFirst (e ∷ es) = NotAfter e.ts es × NewestFirst es

abbrev Without : ℕ → List DetectionEvent → Type 0
Without id = All (λ (e : DetectionEvent). e.id ≢ id)

-- No two events have the same id.
abbrev pub Distinct : List DetectionEvent → Type 0
Distinct [] = Unit {0}
Distinct (e ∷ es) = Without e.id es × Distinct es

module _ (P : DetectionEvent → Type 0) where
  All-insert_newest :
      (e : DetectionEvent) (es : List DetectionEvent) → P e → All P es → All P (insert_newest e es)
  unfolding insert_newest
  All-insert_newest e [] p h = (p, tt)
  All-insert_newest e (x ∷ xs) p (q, h) = elim (Bool-cases (leb x.ts e.ts)) [
    | inl y ↦ rw y (p, (q, h))
    | inr n ↦ rw n (q, All-insert_newest e xs p h)
  ]

  pub All-sort_newest : (es : List DetectionEvent) → All P es → All P (sort_newest es)
  unfolding sort_newest
  All-sort_newest [] h = tt
  All-sort_newest (e ∷ es) (p, h) = All-insert_newest e (sort_newest es) p (All-sort_newest es h)

insert_newest-NewestFirst :
    (e : DetectionEvent) (es : List DetectionEvent)
    → NewestFirst es
    → NewestFirst (insert_newest e es)
unfolding insert_newest
insert_newest-NewestFirst e [] h = (tt, tt)
insert_newest-NewestFirst e (x ∷ xs) (a, h) = elim (Bool-cases (leb x.ts e.ts)) [
  | inl y ↦ rw y ((ground arith, NotAfter-le xs (leb→le _ _ y) a), (a, h))
  | inr n ↦ rw n (
    All-insert_newest (λ (z : DetectionEvent). z.ts ≤ x.ts) e xs (ground arith) a,
    insert_newest-NewestFirst e xs h,
  )
]
  where
    NotAfter-le : {s t : ℕ} (es : List DetectionEvent) → s ≤ t → NotAfter s es → NotAfter t es
    NotAfter-le [] h k = tt
    NotAfter-le (e ∷ es) h (k, ks) = (omega arith, NotAfter-le es h ks)

insert_newest-Distinct :
    (e : DetectionEvent) (es : List DetectionEvent)
    → Without e.id es
    → Distinct es
    → Distinct (insert_newest e es)
unfolding insert_newest
insert_newest-Distinct e [] w h = (tt, tt)
insert_newest-Distinct e (x ∷ xs) (w, ws) (a, h) = elim (Bool-cases (leb x.ts e.ts)) [
  | inl y ↦ rw y ((w, ws), (a, h))
  | inr n ↦ rw n (
    All-insert_newest (λ (z : DetectionEvent). z.id ≢ x.id) e xs (λ q. w (sym q)) a,
    insert_newest-Distinct e xs ws h,
  )
]

pub sort_newest_lem :
    (es : List DetectionEvent)
    → Distinct es
    → NewestFirst (sort_newest es) × Distinct (sort_newest es)
unfolding sort_newest
sort_newest_lem [] h = (tt, tt)
sort_newest_lem (e ∷ es) (w, h) =
    let rest = sort_newest_lem es h in
    (
      insert_newest-NewestFirst e (sort_newest es) rest.0,
      insert_newest-Distinct e (sort_newest es)
          (All-sort_newest (λ (z : DetectionEvent). z.id ≢ e.id) es w) rest.1,
    )

-- The place of an event, and of the one behind it.
abbrev Placed : ℕ → List DetectionEvent → Option ℕ → Type 0
Placed id es none = Unit {0}
Placed id es (some i) = (e : DetectionEvent) × (get_elem? es i ≡ some e) × (e.id ≡ id)

find_index-Placed : (id : ℕ) (es : List DetectionEvent) → Placed id es (find_index id es)
unfolding find_index
find_index-Placed id [] = tt
find_index-Placed id (e ∷ es) = elim (Bool-cases (e.id == id)) [
  | inl y ↦ rw y (e, refl, ground arith)
  | inr n ↦ rw n (behind (find_index id es) (find_index-Placed id es))
]
  where
    behind : (o : Option ℕ) → Placed id es o → Placed id (e ∷ es) (next_index o)
    behind none p = tt
    behind (some i) p = p

pub find_index_of :
    (es : List DetectionEvent) (i : ℕ) (f : DetectionEvent)
    → Distinct es
    → get_elem? es i ≡ some f
    → find_index f.id es ≡ some i
unfolding find_index
find_index_of [] i f d h = absurd (cc h)
find_index_of (e ∷ es) zero f d h = ground arith
find_index_of (e ∷ es) (suc i) f (w, d) h =
    let apart = All-get_elem? (λ (z : DetectionEvent). z.id ≢ e.id) es i w h in
    ground (arith, find_index_of es i f d h, apart)

-- `f` lies on that side of `e` in time.
abbrev pub Beside : Bool → DetectionEvent → DetectionEvent → Type 0
Beside true e f = f.ts ≤ e.ts
Beside false e f = e.ts ≤ f.ts

pub next-Beside :
    (es : List DetectionEvent) (i : ℕ) {e f : DetectionEvent}
    → NewestFirst es
    → get_elem? es i ≡ some e
    → get_elem? es (suc i) ≡ some f
    → f.ts ≤ e.ts
next-Beside [] i h p q = absurd (cc p)
next-Beside (x ∷ []) i h p q = absurd (cc q)
next-Beside (x ∷ y ∷ es) zero ((a, _), h) p q = ground arith
next-Beside (x ∷ y ∷ es) (suc i) (_, h) p q = next-Beside (y ∷ es) i h p q
