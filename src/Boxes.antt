-- ===== src/Boxes.antt =====
-- The detection boxes over a video: which ones belong to a time of a recorded clip (`pickBoxesAt` of
-- client/src/components/ClipModal.tsx), and how they are drawn (client/src/lib/drawBoxes.ts). Times
-- are in milliseconds.
pub mod Search
pub mod Matched
mod Tests
use home_camera_system.Prelude.{
  ltb, leb, ◌==◌, if◌then◌else◌, length, ℕ, zero, suc, ◌+◌, ◌-◌, ◌*◌, ◌/◌, ◌%◌, ◌^◌, max, Bool,
  true, false, ◌&&◌, ◌||◌, Option, none, some, List, [], ◌∷◌,
}

pub record DetectionBox : Type 0 where
  pub is_person : Bool
  -- the confidence, a position and a size, in thousandths
  pub score : ℕ
  pub x : ℕ
  pub y : ℕ
  pub w : ℕ
  pub h : ℕ

pub record Sample : Type 0 where
  pub ts_offset : ℕ
  pub boxes : List DetectionBox

abbrev pub sample_staleness : ℕ
sample_staleness = 500

-- `samples[i].ts_offset_s`; the search stays within the array.
abbrev pub offset_at : List Sample → ℕ → ℕ
offset_at [] i = 0
offset_at (s ∷ ss) zero = s.ts_offset
offset_at (s ∷ ss) (suc i) = offset_at ss i

abbrev pub boxes_at : List Sample → ℕ → List DetectionBox
boxes_at [] i = []
boxes_at (s ∷ ss) zero = s.boxes
boxes_at (s ∷ ss) (suc i) = boxes_at ss i

-- `lo + hi + 1` as a 32-bit word, and `(lo + hi + 1) >> 1` if that is not negative.
abbrev pub sum32 : ℕ → ℕ → ℕ
sum32 lo hi = (lo + hi + 1) % 2 ^ 32

abbrev pub mid32 : ℕ → ℕ → ℕ
mid32 lo hi = sum32 lo hi / 2

-- `samples[mid]` is not there, and reading its time throws.
abbrev pub is_outside : List Sample → ℕ → ℕ → Bool
is_outside samples lo hi = leb (2 ^ 31) (sum32 lo hi) || leb (length samples) (mid32 lo hi)

-- `while (lo < hi)`, with as many rounds as are given; `none` means that it read outside the array
-- or that the rounds did not suffice.
unfoldable pub search : ℕ → List Sample → ℕ → ℕ → ℕ → Option ℕ
search zero samples time lo hi = if ltb lo hi then none else some lo
search (suc rounds) samples time lo hi =
    let up = search rounds samples time (mid32 lo hi) hi in
    let down = search rounds samples time lo (mid32 lo hi - 1) in
    if ltb lo hi
    then (if is_outside samples lo hi
        then none
        else if leb (offset_at samples (mid32 lo hi)) time
        then up
        else down)
    else some lo

-- Each round halves the range.
abbrev pub all_rounds : ℕ
all_rounds = 32

abbrev fresh : List Sample → ℕ → ℕ → List DetectionBox
fresh samples time i =
    if ltb (offset_at samples i + sample_staleness) time then [] else boxes_at samples i

picked : List Sample → ℕ → Option ℕ → Option (List DetectionBox)
picked samples time none = none
picked samples time (some i) = some (fresh samples time i)

-- `pickBoxesAt`, for boxes that are shown. `tracks` is null until it is fetched.
unfoldable pub pick_boxes_at :
    List DetectionBox → Option (List Sample) → ℕ → Option (List DetectionBox)
unfolding picked
pick_boxes_at fallback none time = some fallback
pick_boxes_at fallback (some []) time = some fallback
pick_boxes_at fallback (some (s ∷ ss)) time =
    let i = search all_rounds (s ∷ ss) time 0 (length ss) in
    if ltb (time + sample_staleness) s.ts_offset then some [] else picked (s ∷ ss) time i

pub data Colour : Type 0 where
  -- `opts.color`
  given : ℕ → Colour
  emerald red : Colour

-- One box on the canvas, in thousandths of a pixel. `named` is a label that starts with the name of
-- the person.
pub record Drawn : Type 0 where
  pub colour : Colour
  pub x : ℕ
  pub y : ℕ
  pub w : ℕ
  pub h : ℕ
  pub named : Bool
  pub percent : ℕ
  pub text_y : ℕ

-- The first loop: the index of the best person so far, with its score.
best_person : ℕ → Option (ℕ × ℕ) → List DetectionBox → Option (ℕ × ℕ)
best_person i best [] = best
best_person i none (b ∷ bs) =
    best_person (i + 1) (if b.is_person then some (i, b.score) else none) bs
best_person i (some (j, top)) (b ∷ bs) =
    best_person (i + 1)
      (if b.is_person && ltb top b.score then some (i, b.score) else some (j, top)) bs

is_at : ℕ → Option (ℕ × ℕ) → Bool
is_at i none = false
is_at i (some (j, top)) = i == j

abbrev colour_of : Option ℕ → Bool → Colour
colour_of (some c) matched = given c
colour_of none true = emerald
colour_of none false = red

-- `toFixed(0)` of the percentage, and the two ways to scale.
abbrev percent_of : ℕ → ℕ
percent_of score = (score + 5) / 10

draw_box : ℕ → ℕ → Option ℕ → Bool → DetectionBox → Drawn
draw_box w h colour matched b = record {
  colour = colour_of colour matched;
  x = b.x * w;
  y = b.y * h;
  w = b.w * w;
  h = b.h * h;
  named = matched;
  percent = percent_of b.score;
  text_y = max 12_000 (b.y * h - 4000);
}

draw_all : ℕ → ℕ → Option ℕ → Option (ℕ × ℕ) → ℕ → List DetectionBox → List Drawn
unfolding draw_box is_at
draw_all w h colour best i [] = []
draw_all w h colour best i (b ∷ bs) =
    draw_box w h colour (is_at i best) b ∷ draw_all w h colour best (i + 1) bs

-- `named` is whether there is a `personName`; a surface without a size is left as it is, `none`.
unfoldable pub draw_boxes : ℕ → ℕ → List DetectionBox → Bool → Option ℕ → Option (List Drawn)
unfolding best_person draw_all
draw_boxes w h boxes named colour =
    let best = if named then best_person 0 none boxes else none in
    if w == 0 || h == 0 then none else some (draw_all w h colour best 0 boxes)
