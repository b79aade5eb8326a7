-- ===== src/Sentry.antt =====
-- The cat on watch (sentryCatAt of client/src/lib/sentryCat.ts) at a time in whole milliseconds since
-- 1970. The hash works on 32-bit words.
mod Tests
use home_camera_system.Prelude.{
  get_elem?, ℕ, zero, suc, ◌+◌, ◌*◌, ◌/◌, ◌%◌, ◌^◌, ◌<◌, max, ◌≡◌, refl, ap, ◌∙◌, Option, none,
  some, List, [], ◌∷◌, arith,
}

pub data SentryCat : Type 0 where
  panther mushu coco : SentryCat

abbrev pub slot_ms : ℕ
slot_ms = 1800000

abbrev permutations : List (List SentryCat)
permutations =
    (panther ∷ mushu ∷ coco ∷ [])
    ∷ (panther ∷ coco ∷ mushu ∷ [])
    ∷ (mushu ∷ panther ∷ coco ∷ [])
    ∷ (mushu ∷ coco ∷ panther ∷ [])
    ∷ (coco ∷ panther ∷ mushu ∷ [])
    ∷ (coco ∷ mushu ∷ panther ∷ [])
    ∷ []

-- `a ^ b` and `a | b` on words, bit by bit.
xor_bits : ℕ → ℕ → ℕ → ℕ
xor_bits zero a b = 0
xor_bits (suc n) a b = (a + b) % 2 + 2 * xor_bits n (a / 2) (b / 2)

or_bits : ℕ → ℕ → ℕ → ℕ
or_bits zero a b = 0
or_bits (suc n) a b = max (a % 2) (b % 2) + 2 * or_bits n (a / 2) (b / 2)

xor : ℕ → ℕ → ℕ
unfolding xor_bits
xor a b = xor_bits 32 a b

or : ℕ → ℕ → ℕ
unfolding or_bits
or a b = or_bits 32 a b

-- `Math.imul`, as an unsigned word.
abbrev imul : ℕ → ℕ → ℕ
imul a b = a * b % 2 ^ 32

-- The three assignments of `mulberry32`.
seeded : ℕ → ℕ
seeded seed = (seed + 2654435769) % 2 ^ 32

multiplied : ℕ → ℕ
unfolding xor or
multiplied s = imul (xor s (s / 2 ^ 15)) (or s 1)

mixed : ℕ → ℕ
unfolding xor or
mixed s = xor s ((s + imul (xor s (s / 2 ^ 7)) (or s 61)) % 2 ^ 32)

unfoldable pub mulberry32 : ℕ → ℕ
unfolding seeded multiplied mixed xor
mulberry32 seed = let s = mixed (multiplied (seeded seed)) in xor s (s / 2 ^ 14)

-- `PERMUTATIONS[i][k]`; `none` is undefined.
cat_of : ℕ → ℕ → Option SentryCat
cat_of i k = elim (get_elem? permutations i) [ none ↦ none | some row ↦ get_elem? row k ]

cat_in_slot : ℕ → Option SentryCat
unfolding mulberry32 cat_of
cat_in_slot slot = cat_of (mulberry32 (slot / 3) % 6) (slot % 3)

unfoldable pub sentry_cat_at : ℕ → Option SentryCat
unfolding cat_in_slot
sentry_cat_at timestamp_ms = cat_in_slot (timestamp_ms / slot_ms)

-- Three slots with three different cats.
pub record Rotation (x y z : Option SentryCat) : Type 0 where
  pub first : SentryCat
  pub second : SentryCat
  pub third : SentryCat
  pub are : (x ≡ some first) × (y ≡ some second) × (z ≡ some third)
  pub differ : (¬ first ≡ second) × (¬ second ≡ third) × (¬ first ≡ third)

rotate : (a b c : SentryCat) → ¬ a ≡ b → ¬ b ≡ c → ¬ a ≡ c → Rotation (some a) (some b) (some c)
rotate a b c p q r = record {
  first = a;
  second = b;
  third = c;
  are = (refl, refl, refl);
  differ = (p, q, r);
}

cat_of-Rotation : (i : ℕ) → i < 6 → Rotation (cat_of i 0) (cat_of i 1) (cat_of i 2)
unfolding cat_of
cat_of-Rotation zero h = rotate panther mushu coco (ground arith) (ground arith) (ground arith)
cat_of-Rotation (suc zero) h =
    rotate panther coco mushu (ground arith) (ground arith) (ground arith)
cat_of-Rotation (suc (suc zero)) h =
    rotate mushu panther coco (ground arith) (ground arith) (ground arith)
cat_of-Rotation (suc (suc (suc zero))) h =
    rotate mushu coco panther (ground arith) (ground arith) (ground arith)
cat_of-Rotation (suc (suc (suc (suc zero)))) h =
    rotate coco panther mushu (ground arith) (ground arith) (ground arith)
cat_of-Rotation (suc (suc (suc (suc (suc zero))))) h =
    rotate coco mushu panther (ground arith) (ground arith) (ground arith)
cat_of-Rotation (suc (suc (suc (suc (suc (suc i)))))) h = absurd (omega (arith, h))

cat_in_slot-of :
    (slot block k : ℕ)
    → slot ≡ block * 3 + k
    → k < 3
    → cat_in_slot slot ≡ cat_of (mulberry32 block % 6) k
unfolding cat_in_slot
cat_in_slot-of slot block k e h =
    let d : slot / 3 ≡ block = omega (arith, e, h) in
    let m : slot % 3 ≡ k = omega (arith, e, h) in
    ap (λ b. cat_of (mulberry32 b % 6) (slot % 3)) d ∙ ap (cat_of (mulberry32 block % 6)) m

sentry_cat_at-of :
    (block k r : ℕ)
    → k < 3
    → r < slot_ms
    → sentry_cat_at ((block * 3 + k) * slot_ms + r) ≡ cat_of (mulberry32 block % 6) k
unfolding sentry_cat_at
sentry_cat_at-of block k r h l =
    cat_in_slot-of (((block * 3 + k) * slot_ms + r) / slot_ms) block k (omega (arith, l)) h

-- In the three half hours of a block, whatever the hash says, each cat is on watch once.
pub sentry_cat_at-Rotation :
    (block r : ℕ)
    → r < slot_ms
    → Rotation
        (sentry_cat_at ((block * 3 + 0) * slot_ms + r))
        (sentry_cat_at ((block * 3 + 1) * slot_ms + r))
        (sentry_cat_at ((block * 3 + 2) * slot_ms + r))
sentry_cat_at-Rotation block r h =
    rw
      (
        sentry_cat_at-of block 0 r (omega arith) h,
        sentry_cat_at-of block 1 r (omega arith) h,
        sentry_cat_at-of block 2 r (omega arith) h,
      )
      (cat_of-Rotation (mulberry32 block % 6) (omega arith))
