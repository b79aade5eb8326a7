-- ===== src/Boxes/Matched.antt =====
-- Which box is drawn as the recognized person (client/src/lib/drawBoxes.ts).
use home_camera_system.Prelude.{
  ltb, if◌then◌else◌, Bool-cases, length, get_elem?, All, ℕ, zero, suc, ◌+◌, ◌≤◌, ◌<◌, ◌≡◌, refl,
  ◌⊎◌, inl, inr, Bool, true, false, ◌&&◌, Option, none, some, List, [], ◌∷◌, arith,
}
use home_camera_system.Boxes.{DetectionBox, Drawn, best_person, draw_all, draw_boxes}

-- The boxes that are drawn with the name.
abbrev pub count_named : List Drawn → ℕ
count_named [] = 0
count_named (d ∷ ds) = (if d.named then 1 else 0) + count_named ds

draw_all-none :
    (w h : ℕ) (c : Option ℕ) (i : ℕ) (bs : List DetectionBox)
    → count_named (draw_all w h c none i bs) ≡ 0
unfolding draw_all
draw_all-none w h c i [] = refl
draw_all-none w h c i (b ∷ bs) = ground (arith, draw_all-none w h c (i + 1) bs)

-- After the box of the person no other is named.
draw_all-past :
    (w h : ℕ) (c : Option ℕ) (j top i : ℕ) (bs : List DetectionBox)
    → j < i
    → count_named (draw_all w h c (some (j, top)) i bs) ≡ 0
unfolding draw_all
draw_all-past w h c j top i [] l = refl
draw_all-past w h c j top i (b ∷ bs) l = ground (arith, draw_all-past w h c j top (i + 1) bs)

-- A person of a list that scores `top`, `n` places on.
abbrev pub Scores : ℕ → ℕ → List DetectionBox → Type 0
Scores n top bs =
    (b : DetectionBox) × (get_elem? bs n ≡ some b) × (b.is_person ≡ true) × (b.score ≡ top)

abbrev pub NoBetter : ℕ → List DetectionBox → Type 0
NoBetter top = All (λ (b : DetectionBox). b.is_person ≡ true → b.score ≤ top)

-- The best of the boxes from index `i` on and of the best before them.
record Best (i : ℕ) (best : Option (ℕ × ℕ)) (bs : List DetectionBox) (j top : ℕ) : Type 0 where
  no_better : NoBetter top bs
  older : (k t : ℕ) → best ≡ some (k, t) → t ≤ top
  found : (best ≡ some (j, top)) ⊎ ((n : ℕ) × (j ≡ i + n) × Scores n top bs)

abbrev Answer : ℕ → Option (ℕ × ℕ) → List DetectionBox → Option (ℕ × ℕ) → Type 0
Answer i best bs none = (best ≡ none) × All (λ (b : DetectionBox). b.is_person ≡ false) bs
Answer i best bs (some (j, top)) = Best i best bs j top

later :
    (i : ℕ) (best : Option (ℕ × ℕ)) (b : DetectionBox) (bs : List DetectionBox) (j top : ℕ)
    → Best (i + 1) best bs j top
    → (b.is_person ≡ true → b.score ≤ top)
    → Best i best (b ∷ bs) j top
later i best b bs j top v k = record {
  no_better = (k, v.no_better);
  older = v.older;
  found = elim v.found [ inl e ↦ inl e | inr (n, e, s) ↦ inr (suc n, omega arith, s) ];
}

-- The box at index `i` takes the lead.
leads :
    (i : ℕ) (best : Option (ℕ × ℕ)) (b : DetectionBox) (bs : List DetectionBox) (j top : ℕ)
    → b.is_person ≡ true
    → ((k t : ℕ) → best ≡ some (k, t) → t ≤ b.score)
    → Best (i + 1) (some (i, b.score)) bs j top
    → Best i best (b ∷ bs) j top
leads i best b bs j top p o v = record {
  no_better = ((λ _. v.older i b.score refl), v.no_better);
  older = λ k t e. omega (arith, o k t e, v.older i b.score refl);
  found = elim v.found [
    | inl e ↦ inr (0, ground arith, (b, refl, p, ground arith))
    | inr (n, e, s) ↦ inr (suc n, omega arith, s)
  ];
}

Answer-leads :
    (i : ℕ) (best : Option (ℕ × ℕ)) (b : DetectionBox) (bs : List DetectionBox)
    → b.is_person ≡ true
    → ((k t : ℕ) → best ≡ some (k, t) → t ≤ b.score)
    → (r : Option (ℕ × ℕ)) → Answer (i + 1) (some (i, b.score)) bs r
    → Answer i best (b ∷ bs) r
Answer-leads i best b bs p o none (e, _) = absurd (cc e)
Answer-leads i best b bs p o (some (j, top)) v = leads i best b bs j top p o v

Answer-follows :
    (i k t : ℕ) (b : DetectionBox) (bs : List DetectionBox)
    → (b.is_person ≡ true → b.score ≤ t)
    → (r : Option (ℕ × ℕ)) → Answer (i + 1) (some (k, t)) bs r
    → Answer i (some (k, t)) (b ∷ bs) r
Answer-follows i k t b bs h none (e, _) = absurd (cc e)
Answer-follows i k t b bs h (some (j, top)) v =
    later i (some (k, t)) b bs j top v (λ p. omega (arith, h p, v.older k t refl))

Answer-passes :
    (i : ℕ) (b : DetectionBox) (bs : List DetectionBox)
    → b.is_person ≡ false
    → (r : Option (ℕ × ℕ)) → Answer (i + 1) none bs r
    → Answer i none (b ∷ bs) r
Answer-passes i b bs n none (e, v) = (refl, (n, v))
Answer-passes i b bs n (some (j, top)) v = later i none b bs j top v (λ p. absurd (cc n))

best_person-Answer :
    (i : ℕ) (best : Option (ℕ × ℕ)) (bs : List DetectionBox)
    → Answer i best bs (best_person i best bs)
unfolding best_person
best_person-Answer i none [] = (refl, tt)
best_person-Answer i (some (j, top)) [] = record {
  no_better = tt;
  older = λ k t e. ground arith;
  found = inl refl;
}
best_person-Answer i none (b ∷ bs) = elim (Bool-cases b.is_person) [
  | inl y ↦ simp y (
      Answer-leads i none b bs y (λ k t e. absurd (cc e)) _
        (best_person-Answer (i + 1) (some (i, b.score)) bs))
  | inr n ↦ simp n (Answer-passes i b bs n _ (best_person-Answer (i + 1) none bs))
]
best_person-Answer i (some (j, top)) (b ∷ bs) = elim (Bool-cases (b.is_person && ltb top b.score)) [
  | inl y ↦ rw y (
      Answer-leads i (some (j, top)) b bs (ground arith) (λ k t e. ground arith) _
        (best_person-Answer (i + 1) (some (i, b.score)) bs))
  | inr n ↦ rw n (
      Answer-follows i j top b bs (λ p. ground arith) _
        (best_person-Answer (i + 1) (some (j, top)) bs))
]

abbrev pub named_of : Option Drawn → Option Bool
named_of none = none
named_of (some d) = some d.named

draw_all-one :
    (w h : ℕ) (c : Option ℕ) (j top i n : ℕ) (bs : List DetectionBox) {b : DetectionBox}
    → j ≡ i + n
    → get_elem? bs n ≡ some b
    → (count_named (draw_all w h c (some (j, top)) i bs) ≡ 1)
      × (named_of (get_elem? (draw_all w h c (some (j, top)) i bs) n) ≡ some true)
unfolding draw_all
draw_all-one w h c j top i n [] e g = absurd (cc g)
draw_all-one w h c j top i zero (b ∷ bs) e g = ground (arith, draw_all-past w h c j top (i + 1) bs)
draw_all-one w h c j top i (suc n) (b ∷ bs) e g =
    ground (arith, draw_all-one w h c j top (i + 1) n bs (omega arith) g)

-- No person, and no box with the name; or a person that no other person outscores, whose box is the
-- only one with the name.
abbrev pub Chosen : List DetectionBox → List Drawn → Type 0
Chosen boxes ds =
    (All (λ (b : DetectionBox). b.is_person ≡ false) boxes × (count_named ds ≡ 0))
    ⊎ ((n : ℕ) × (top : ℕ) × Scores n top boxes
        × NoBetter top boxes
        × (count_named ds ≡ 1)
        × (named_of (get_elem? ds n) ≡ some true))

length-draw_all :
    (w h : ℕ) (c : Option ℕ) (best : Option (ℕ × ℕ)) (i : ℕ) (bs : List DetectionBox)
    → length (draw_all w h c best i bs) ≡ length bs
unfolding draw_all
length-draw_all w h c best i [] = refl
length-draw_all w h c best i (b ∷ bs) = omega (arith, length-draw_all w h c best (i + 1) bs)

chosen :
    (w h : ℕ) (c : Option ℕ) (boxes : List DetectionBox) (r : Option (ℕ × ℕ))
    → Answer 0 none boxes r
    → Chosen boxes (draw_all w h c r 0 boxes)
chosen w h c boxes none (_, v) = inl (v, draw_all-none w h c 0 boxes)
chosen w h c boxes (some (j, top)) v = elim v.found [
  | inl e ↦ absurd (cc e)
  | inr (n, e, s) ↦
      let one = draw_all-one w h c j top 0 n boxes e s.1 in
      inr (n, top, s, v.no_better, one.0, one.1)
]

-- On a surface with a size every box is drawn. If the event has a name and there is a person among
-- the boxes, exactly one box has the name, and it is that of a person that no other person
-- outscores; if there is no person, no box has it.
pub draw_boxes-Chosen :
    (w h : ℕ) (boxes : List DetectionBox) (c : Option ℕ)
    → 0 < w
    → 0 < h
    → (ds : List Drawn) × (draw_boxes w h boxes true c ≡ some ds)
      × (length ds ≡ length boxes)
      × Chosen boxes ds
unfolding draw_boxes
draw_boxes-Chosen w h boxes c p q = (
  draw_all w h c (best_person 0 none boxes) 0 boxes,
  ground arith,
  length-draw_all w h c (best_person 0 none boxes) 0 boxes,
  chosen w h c boxes (best_person 0 none boxes) (best_person-Answer 0 none boxes),
)
