-- ===== src/Boxes/Search.antt =====
-- The binary search of `pickBoxesAt` (client/src/components/ClipModal.tsx) ends, and finds the sample
-- of a time.
use native.Mathlib.Nat.{pow-suc}
use home_camera_system.Prelude.{
  ltb, leb, if◌then◌else◌, ltb→lt, leb→le, Bool-cases, length, ℕ, zero, suc, ◌+◌, ◌-◌, ◌/◌, ◌^◌,
  ◌≤◌, ◌<◌, ◌≡◌, refl, ◌⊎◌, inl, inr, false, ◌||◌, Option, none, some, List, [], ◌∷◌, arith,
}
use home_camera_system.Boxes.{
  DetectionBox, Sample, sample_staleness, offset_at, boxes_at, search, all_rounds, picked, mid32,
  is_outside, pick_boxes_at,
}

-- The tracks are in the order of time.
abbrev pub Ascending : List Sample → Type 0
Ascending samples =
    (i j : ℕ) → i ≤ j → j < length samples → offset_at samples i ≤ offset_at samples j

-- The answer for a range: an index in it, of a sample that is not after the time unless it is the
-- first, and every later sample of the range is after the time.
record Found (samples : List Sample) (time lo hi i : ℕ) : Type 0 where
  within : (lo ≤ i) × (i ≤ hi)
  not_after : (i ≡ lo) ⊎ (offset_at samples i ≤ time)
  last : (j : ℕ) → i < j → j ≤ hi → time < offset_at samples j

abbrev pub Returns : (ℕ → Type 0) → Option ℕ → Type 0
Returns P none = ⊥
Returns P (some i) = P i

Returns-imp :
    {P Q : ℕ → Type 0} → ((i : ℕ) → P i → Q i) → (o : Option ℕ) → Returns P o → Returns Q o
Returns-imp k none h = h
Returns-imp k (some i) h = k i h

-- An array of at most 2 ^ 30 samples: no sum of two indices is out of the range of 32 bits.
middle :
    (samples : List Sample) (lo hi : ℕ)
    → length samples ≤ 2 ^ 30
    → hi < length samples
    → lo < hi
    → (is_outside samples lo hi ≡ false)
      × (lo < mid32 lo hi)
      × (mid32 lo hi ≤ hi)
      × (mid32 lo hi ≡ (lo + hi + 1) / 2)
middle samples lo hi n l h = (ground arith, omega arith, omega arith, omega arith)

module _ (samples : List Sample) (time : ℕ) (sorted : Ascending samples) where
  up-Found :
      (lo hi mid i : ℕ)
      → lo ≤ mid
      → offset_at samples mid ≤ time
      → Found samples time mid hi i
      → Found samples time lo hi i
  up-Found lo hi mid i h u f = record {
    within = (omega arith, f.within.1);
    not_after = inr (at_or_after f.not_after);
    last = f.last;
  }
    where
      at_or_after : (i ≡ mid) ⊎ (offset_at samples i ≤ time) → offset_at samples i ≤ time
      at_or_after (inl e) = rw e u
      at_or_after (inr h) = h

  down-Found :
      (lo hi mid i : ℕ)
      → 0 < mid
      → mid ≤ hi
      → hi < length samples
      → time < offset_at samples mid
      → Found samples time lo (mid - 1) i
      → Found samples time lo hi i
  down-Found lo hi mid i z h l d f = record {
    within = (f.within.0, omega arith);
    not_after = f.not_after;
    last = λ j p q. elim (Bool-cases (ltb j mid)) [
      | inl y ↦ f.last j p (ground arith)
      | inr n ↦ ground (arith, sorted mid j)
    ];
  }

  alone : (lo hi : ℕ) → lo ≤ hi → ltb lo hi ≡ false → Found samples time lo hi lo
  alone lo hi h n = record {
    within = ground arith;
    not_after = inl refl;
    last = λ j p q. absurd (ground arith);
  }

  -- With `k` rounds the search of a range of at most 2 ^ k samples ends.
  search-Found :
      (k lo hi : ℕ)
      → lo ≤ hi
      → length samples ≤ 2 ^ 30
      → hi < length samples
      → hi < lo + 2 ^ k
      → Returns (Found samples time lo hi) (search k samples time lo hi)
  unfolding search
  search-Found zero lo hi h n l w = elim (Bool-cases (ltb lo hi)) [
    | inl y ↦ absurd (ground arith)
    | inr z ↦ rw z (alone lo hi h z)
  ]
  search-Found (suc k) lo hi h n l w =
      let w' : hi < lo + 2 ^ k + 2 ^ k = omega (arith, pow-suc 2 k) in
      elim (Bool-cases (ltb lo hi)) [
        | inr z ↦ rw z (alone lo hi h z)
        | inl y ↦
            let (i, a, b, m) = middle samples lo hi n l (ltb→lt lo hi y) in
            rw (y, i)
              (elim (Bool-cases (leb (offset_at samples (mid32 lo hi)) time)) [
                | inl u ↦ rw u (
                    Returns-imp
                      (λ i. up-Found lo hi (mid32 lo hi) i (omega (arith, a)) (leb→le _ _ u))
                      (search k samples time (mid32 lo hi) hi)
                      (search-Found k (mid32 lo hi) hi b n l (omega (arith, m))))
                | inr d ↦ rw d (
                    Returns-imp
                      (λ i. down-Found lo hi (mid32 lo hi) i (omega (arith, a)) b l (ground arith))
                      (search k samples time lo (mid32 lo hi - 1))
                      (search-Found k lo (mid32 lo hi - 1) (omega (arith, a)) n (omega (arith, b))
                        (omega (arith, m))))
              ])
      ]

-- The last sample that is not after the time, found by walking over them; the first, if all are.
abbrev pub latest : ℕ → Sample → List Sample → Sample
latest time s [] = s
latest time s (x ∷ xs) = let rest = latest time x xs in if leb x.ts_offset time then rest else s

-- What `pickBoxesAt` is to show: the boxes of that sample, while it is no further than the staleness
-- from the time.
abbrev pub boxes_of : ℕ → Sample → List Sample → List DetectionBox
boxes_of time s ss =
    let near = latest time s ss in
    if ltb (time + sample_staleness) s.ts_offset || ltb (near.ts_offset + sample_staleness) time
    then []
    else near.boxes

latest_lem :
    (time i : ℕ) (s : Sample) (ss : List Sample)
    → i ≤ length ss
    → ((j : ℕ) → 0 < j → j ≤ i → offset_at (s ∷ ss) j ≤ time)
    → ((j : ℕ) → i < j → j ≤ length ss → time < offset_at (s ∷ ss) j)
    → (offset_at (s ∷ ss) i ≡ (latest time s ss).ts_offset)
      × (boxes_at (s ∷ ss) i ≡ (latest time s ss).boxes)
latest_lem time zero s [] h a b = (refl, refl)
latest_lem time (suc i) s [] h a b = absurd (omega arith)
latest_lem time zero s (x ∷ xs) h a b = ground (arith, b 1)
latest_lem time (suc i) s (x ∷ xs) h a b =
    let rest =
      latest_lem time i x xs (omega arith) (λ j p q. a (suc j) (omega arith) (omega arith))
        (λ j p q. b (suc j) (omega arith) (omega arith)) in
    ground (arith, a 1, rest)

module _ (time : ℕ) (s : Sample) (ss : List Sample) (sorted : Ascending (s ∷ ss)) where
  Found-latest :
      (i : ℕ)
      → Found (s ∷ ss) time 0 (length ss) i
      → (offset_at (s ∷ ss) i ≡ (latest time s ss).ts_offset)
        × (boxes_at (s ∷ ss) i ≡ (latest time s ss).boxes)
  Found-latest i f = latest_lem time i s ss f.within.1 (before f.not_after) f.last
    where
      before :
          (i ≡ 0) ⊎ (offset_at (s ∷ ss) i ≤ time)
          → (j : ℕ) → 0 < j
          → j ≤ i
          → offset_at (s ∷ ss) j ≤ time
      before (inl e) j p q = absurd (omega arith)
      before (inr h) j p q = omega (arith, sorted j i q (omega (arith, f.within.1)))

  shown :
      (o : Option ℕ)
      → Returns (Found (s ∷ ss) time 0 (length ss)) o
      → (if ltb (time + sample_staleness) s.ts_offset then some [] else picked (s ∷ ss) time o)
        ≡ some (boxes_of time s ss)
  unfolding picked
  shown none f = absurd f
  shown (some i) f = ground (arith, Found-latest i f)

  -- On samples in the order of time, at most 2 ^ 30 of them, the search ends, and the boxes that are
  -- shown are those of the last sample that is not after the time (the first, if all are after
  -- it), unless that sample is further than the staleness from the time: then none are.
  pub pick_boxes_at-boxes_of :
      (fallback : List DetectionBox)
      → length (s ∷ ss) ≤ 2 ^ 30
      → pick_boxes_at fallback (some (s ∷ ss)) time ≡ some (boxes_of time s ss)
  unfolding pick_boxes_at
  pick_boxes_at-boxes_of fallback h = shown (search all_rounds (s ∷ ss) time 0 (length ss)) (
      search-Found (s ∷ ss) time sorted 32 0 (length ss) (omega arith) h (omega arith)
        (omega arith))

-- On at most 2 ^ 30 samples, in order or not, the loop ends: a range of at most 2 ^ k indices of the
-- array is searched in k rounds, nothing outside the array is read, and the answer is an index of
-- the range.
pub search_ends :
    (k : ℕ) (samples : List Sample) (time lo hi : ℕ)
    → length samples ≤ 2 ^ 30
    → lo ≤ hi
    → hi < length samples
    → hi < lo + 2 ^ k
    → (i : ℕ) × (search k samples time lo hi ≡ some i) × (lo ≤ i) × (i ≤ hi)
unfolding search
search_ends zero samples time lo hi n h l w = elim (Bool-cases (ltb lo hi)) [
  | inl y ↦ absurd (ground arith)
  | inr z ↦ (lo, rw z, omega arith, h)
]
search_ends (suc k) samples time lo hi n h l w =
    let w' : hi < lo + 2 ^ k + 2 ^ k = omega (arith, pow-suc 2 k) in
    elim (Bool-cases (ltb lo hi)) [
      | inr z ↦ (lo, rw z, omega arith, h)
      | inl y ↦
          let (i, a, b, m) = middle samples lo hi n l (ltb→lt lo hi y) in
          elim (Bool-cases (leb (offset_at samples (mid32 lo hi)) time)) [
            | inl u ↦
                let (j, e, p, q) =
                  search_ends k samples time (mid32 lo hi) hi n b l (omega (arith, m)) in
                (j, rw (y, i, u) e, omega (arith, a), q)
            | inr d ↦
                let (j, e, p, q) =
                  search_ends k samples time lo (mid32 lo hi - 1) n (omega (arith, a))
                    (omega (arith, b)) (omega (arith, m)) in
                (j, rw (y, i, d) e, p, omega (arith, b))
          ]
    ]
