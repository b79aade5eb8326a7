-- ===== src/Clip/Returning.antt =====
-- A swipe to another event and back (client/src/components/ClipModal.tsx).
use mathlib.Core.Option.{some-injective}
use home_camera_system.Prelude.{
  ltb, leb, Bool-cases, get_elem?, All, All-get_elem?, ℕ, zero, suc, ◌≤◌, ◌<◌, ◌≡◌, refl, sym, ap,
  ◌∙◌, ◌≢◌, ◌⊎◌, inl, inr, Bool, true, false, not, some, List, [], ◌∷◌, ◌++◌, arith,
}
use home_camera_system.Clip.{
  DetectionEvent, insert_newest, sort_newest, swipe_timeline, beside, swipe_neighbor,
}
use home_camera_system.Clip.Neighbours.{
  NewestFirst, Distinct, All-sort_newest, sort_newest_lem, find_index_of, Beside, next-Beside,
}

-- An event has a place in a list.
abbrev pub Has : DetectionEvent → List DetectionEvent → Type 0
Has e es = (i : ℕ) × (get_elem? es i ≡ some e)

Has-insert_newest :
    (e x : DetectionEvent) (es : List DetectionEvent)
    → (x ≡ e) ⊎ Has e es
    → Has e (insert_newest x es)
unfolding insert_newest
Has-insert_newest e x [] (inl p) = (0, ap some p)
Has-insert_newest e x [] (inr (i, h)) = absurd (cc h)
Has-insert_newest e x (y ∷ es) (inl p) =
    let (j, k) = Has-insert_newest e x es (inl p) in
    elim (Bool-cases (leb y.ts x.ts)) [ inl b ↦ rw b (0, ap some p) | inr n ↦ rw n (suc j, k) ]
Has-insert_newest e x (y ∷ es) (inr (zero, q)) = elim (Bool-cases (leb y.ts x.ts)) [
  | inl b ↦ rw b (1, q)
  | inr n ↦ rw n (0, q)
]
Has-insert_newest e x (y ∷ es) (inr (suc i, q)) =
    let (j, k) = Has-insert_newest e x es (inr (i, q)) in
    elim (Bool-cases (leb y.ts x.ts)) [ inl b ↦ rw b (suc (suc i), q) | inr n ↦ rw n (suc j, k) ]

Has-sort_newest :
    (e : DetectionEvent) (es : List DetectionEvent) → Has e es → Has e (sort_newest es)
unfolding sort_newest
Has-sort_newest e [] (i, h) = absurd (cc h)
Has-sort_newest e (x ∷ es) (zero, h) =
    Has-insert_newest e x (sort_newest es) (inl (some-injective _ _ h))
Has-sort_newest e (x ∷ es) (suc i, h) =
    Has-insert_newest e x (sort_newest es) (inr (Has-sort_newest e es (i, h)))

Has-append : (e f : DetectionEvent) (es : List DetectionEvent) → Has e es → Has e (es ++ f ∷ [])
Has-append e f [] (i, h) = absurd (cc h)
Has-append e f (x ∷ es) (zero, h) = (0, h)
Has-append e f (x ∷ es) (suc i, h) = let (j, k) = Has-append e f es (i, h) in (suc j, k)

Has-last : (f : DetectionEvent) (es : List DetectionEvent) → Has f (es ++ f ∷ [])
Has-last f [] = (0, refl)
Has-last f (x ∷ es) = let (j, k) = Has-last f es in (suc j, k)

same_place :
    (es : List DetectionEvent) (i j : ℕ) (e : DetectionEvent)
    → Distinct es
    → get_elem? es i ≡ some e
    → get_elem? es j ≡ some e
    → i ≡ j
same_place es i j e d p q =
    some-injective _ _ (sym (find_index_of es i e d p) ∙ find_index_of es j e d q)

NewestFirst-at :
    (es : List DetectionEvent) (i j : ℕ) {x y : DetectionEvent}
    → NewestFirst es
    → i ≤ j
    → get_elem? es i ≡ some x
    → get_elem? es j ≡ some y
    → y.ts ≤ x.ts
NewestFirst-at [] i j s l p q = absurd (cc p)
NewestFirst-at (z ∷ es) zero zero s l p q = ground arith
NewestFirst-at (z ∷ es) zero (suc j) (a, s) l p q =
    let b = All-get_elem? (λ (e : DetectionEvent). e.ts ≤ z.ts) es j a q in ground (arith, b)
NewestFirst-at (z ∷ es) (suc i) zero s l p q = absurd (omega arith)
NewestFirst-at (z ∷ es) (suc i) (suc j) (a, s) l p q = NewestFirst-at es i j s (omega arith) p q

earlier_place :
    (es : List DetectionEvent) (i j : ℕ) {y : DetectionEvent}
    → i ≤ j
    → get_elem? es j ≡ some y
    → (x : DetectionEvent) × (get_elem? es i ≡ some x)
earlier_place [] i j l q = absurd (cc q)
earlier_place (z ∷ es) zero j l q = (z, refl)
earlier_place (z ∷ es) (suc i) zero l q = absurd (omega arith)
earlier_place (z ∷ es) (suc i) (suc j) l q = earlier_place es i j (omega arith) q

-- An event that is not in the time from `lo` to `hi`.
abbrev pub Outside : ℕ → ℕ → DetectionEvent → Type 0
Outside lo hi x = (x.ts < lo) ⊎ (hi < x.ts)

-- In a list that is newest first, an older event stands right behind a newer one if no other event is
-- in the time between them.
adjacent :
    (es : List DetectionEvent) (a b : DetectionEvent) (p q : ℕ)
    → NewestFirst es
    → Distinct es
    → b.ts < a.ts
    → get_elem? es p ≡ some a
    → get_elem? es q ≡ some b
    → All (λ (x : DetectionEvent). (x ≡ a) ⊎ (x ≡ b) ⊎ Outside b.ts a.ts x) es
    → q ≡ suc p
adjacent es a b p q s d l g h k =
    let le : p < q = before in
    let (x, at) = earlier_place es (suc p) q le h in
    elim (All-get_elem? (λ (x : DetectionEvent). (x ≡ a) ⊎ (x ≡ b) ⊎ Outside b.ts a.ts x) es (suc p)
      k at) [
        | inl e ↦ absurd (omega (arith, same_place es (suc p) p a d (at ∙ ap some e) g))
        | inr (inl e) ↦ same_place es q (suc p) b d h (at ∙ ap some e)
        | inr (inr (inl o)) ↦ absurd (omega (arith, o, NewestFirst-at es (suc p) q s le at h))
        | inr (inr (inr o)) ↦
            absurd (omega (arith, o, NewestFirst-at es p (suc p) s (omega arith) g at))
      ]
  where
    before : p < q
    before = elim (Bool-cases (ltb p q)) [
      | inl y ↦ ground arith
      | inr n ↦ absurd (omega (arith, l, NewestFirst-at es q p s (ground arith) h g))
    ]

-- `f` is older than `e`, or newer.
abbrev pub Later : Bool → DetectionEvent → DetectionEvent → Type 0
Later true e f = f.ts < e.ts
Later false e f = e.ts < f.ts

-- An event of the rail of `f` is `e`, or not in the time between them.
abbrev pub Clear : Bool → DetectionEvent → DetectionEvent → DetectionEvent → Type 0
Clear true e f x = (x ≡ e) ⊎ Outside f.ts e.ts x
Clear false e f x = (x ≡ e) ⊎ Outside e.ts f.ts x

swapped :
    (P Q R : DetectionEvent → Type 0) (es : List DetectionEvent)
    → All (λ x. P x ⊎ Q x ⊎ R x) es
    → All (λ x. Q x ⊎ P x ⊎ R x) es
swapped P Q R [] k = tt
swapped P Q R (x ∷ es) (inl p, k) = (inr (inl p), swapped P Q R es k)
swapped P Q R (x ∷ es) (inr (inl q), k) = (inl q, swapped P Q R es k)
swapped P Q R (x ∷ es) (inr (inr r), k) = (inr (inr r), swapped P Q R es k)

back_to :
    (older : Bool) (es : List DetectionEvent) (e f : DetectionEvent)
    → NewestFirst es
    → Distinct es
    → Later older e f
    → Has e es
    → Has f es
    → All (λ (x : DetectionEvent). (x ≡ f) ⊎ Clear older e f x) es
    → swipe_neighbor (not older) es f.id ≡ some e
unfolding swipe_neighbor beside
back_to true es e f s d l (j, h) (i, g) k =
    let n : i ≡ suc j =
      adjacent es e f j i s d l h g (swapped (λ x. x ≡ f) (λ x. x ≡ e) (Outside f.ts e.ts) es k) in
    rw (find_index_of es i f d g, n) h
back_to false es e f s d l (j, h) (i, g) k =
    let n : j ≡ suc i = adjacent es f e i j s d l g h k in rw (find_index_of es i f d g) (rw⁻¹ n h)

-- Where a swipe leads, in the rail of the event that is open.
next_to :
    (older : Bool) (es : List DetectionEvent) (e f : DetectionEvent) (i : ℕ)
    → NewestFirst es
    → get_elem? es i ≡ some e
    → beside older es (some i) ≡ some f
    → Beside older e f
unfolding beside
next_to true es e f i s p q = next-Beside es i s p q
next_to false es e f zero s p q = absurd (cc q)
next_to false es e f (suc i) s p q = next-Beside es i s q p

swipe-Beside :
    (older : Bool) (rail : List DetectionEvent) (e f : DetectionEvent)
    → Distinct (rail ++ e ∷ [])
    → swipe_neighbor older (sort_newest (rail ++ e ∷ [])) e.id ≡ some f
    → Beside older e f
unfolding swipe_neighbor
swipe-Beside older rail e f d h =
    let es = sort_newest (rail ++ e ∷ []) in
    let sorted = sort_newest_lem (rail ++ e ∷ []) d in
    let (i, g) = Has-sort_newest e (rail ++ e ∷ []) (Has-last e rail) in
    next_to older es e f i sorted.0 g
      (ap (beside older es) (sym (find_index_of es i e sorted.1 g)) ∙ h)

Beside-Later :
    (older : Bool) (e f : DetectionEvent) → Beside older e f → e.ts ≢ f.ts → Later older e f
Beside-Later true e f b n = omega (arith, b, n)
Beside-Later false e f b n = omega (arith, b, n)

All-sorted :
    (older : Bool) (rail : List DetectionEvent) (e f : DetectionEvent)
    → All (Clear older e f) rail
    → All (λ (x : DetectionEvent). (x ≡ f) ⊎ Clear older e f x) (rail ++ f ∷ [])
All-sorted older [] e f h = (inl refl, tt)
All-sorted older (x ∷ rail) e f (c, h) = (inr c, All-sorted older rail e f h)

-- Where the ids within a rail with its event are all different: a swipe to an event at another time
-- leads to an older one if it is to the left, and to a newer one if it is to the right. In the rail
-- that is then fetched for that event, a swipe the other way leads back, if that rail has the event
-- that was left, and no other in the time between the two, both ends included.
pub swipe_there_and_back :
    (older : Bool) (rail next_rail : List DetectionEvent) (e f : DetectionEvent)
    → Distinct (rail ++ e ∷ [])
    → swipe_neighbor older (swipe_timeline rail e) e.id ≡ some f
    → e.ts ≢ f.ts
    → Distinct (next_rail ++ f ∷ [])
    → Has e next_rail
    → All (Clear older e f) next_rail
    → Later older e f × (swipe_neighbor (not older) (swipe_timeline next_rail f) f.id ≡ some e)
unfolding swipe_timeline
swipe_there_and_back older rail next_rail e f d h n d' has clear = (
  later,
  back_to older (sort_newest (next_rail ++ f ∷ [])) e f there.0 there.1 later
      (Has-sort_newest e (next_rail ++ f ∷ []) (Has-append e f next_rail has))
      (Has-sort_newest f (next_rail ++ f ∷ []) (Has-last f next_rail))
      (All-sort_newest (λ (x : DetectionEvent). (x ≡ f) ⊎ Clear older e f x) (next_rail ++ f ∷ [])
        (All-sorted older next_rail e f clear)),
)
  where
    there :
        NewestFirst (sort_newest (next_rail ++ f ∷ []))
        × Distinct (sort_newest (next_rail ++ f ∷ []))
    there = sort_newest_lem (next_rail ++ f ∷ []) d'

    later : Later older e f
    later = Beside-Later older e f (swipe-Beside older rail e f d h) n
