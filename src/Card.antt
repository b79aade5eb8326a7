-- ===== src/Card.antt =====
-- The swipe that reveals the Delete pad behind an event's card (client/src/components/EventList.tsx).
-- Positions are in pixels.
pub mod Resting
mod Tests
use home_camera_system.Prelude.{
  ltb, leb, if◌then◌else◌, is_some, ℕ, suc, ◌+◌, ◌-◌, min, Bool, true, false, ◌&&◌, ◌||◌, not,
  Option, none, some, List, [], ◌∷◌,
}
use home_camera_system.Prelude.Int.{ℤ, pos, negsuc, ◌-ℤ◌, abs, neg}

pub data Axis : Type 0 where
  horizontal vertical : Axis

pub record Card : Type 0 where
  -- whether the list can delete, and whether it is in its selection mode
  pub can_delete : Bool
  pub selection_mode : Bool
  pub translate_x : ℤ
  pub revealed : Bool
  pub dragging : Bool
  -- `touchStartX` and `touchStartY`, which are set and cleared together
  pub touch_start : Option (ℤ × ℤ)
  pub touch_axis : Option Axis
  -- how often `onDelete` was called
  pub deletions : ℕ

abbrev pub swipe_threshold : ℕ
swipe_threshold = 80

abbrev pub swipe_reveal : ℕ
swipe_reveal = 96

unfoldable pub mount : Bool → Card
mount can_delete = record {
  can_delete = can_delete;
  selection_mode = false;
  translate_x = pos 0;
  revealed = false;
  dragging = false;
  touch_start = none;
  touch_axis = none;
  deletions = 0;
}

unfoldable pub on_touch_start : ℤ × ℤ → Card → Card
on_touch_start at c = record c { touch_start = some at; touch_axis = none; dragging = true }

-- The axis is chosen once the finger has gone more than 6 pixels one way.
unfoldable pub axis_of : Option Axis → ℤ → ℤ → Option Axis
axis_of (some a) dx dy = some a
axis_of none dx dy =
    if ltb 6 (abs dx) || ltb 6 (abs dy)
    then some (if ltb (abs dy) (abs dx) then horizontal else vertical)
    else none

abbrev pub is_horizontal : Option Axis → Bool
is_horizontal (some horizontal) = true
is_horizontal _ = false

-- `Math.max(dx, -SWIPE_REVEAL)` to the left; to the right, `Math.min(-SWIPE_REVEAL + dx, 0)` if the pad
-- is open, and else 0.
unfoldable pub dragged : Bool → ℤ → ℤ
dragged revealed (negsuc n) = neg (min swipe_reveal (suc n))
dragged true (pos n) = neg (swipe_reveal - n)
dragged false (pos n) = pos 0

move : Option (ℤ × ℤ) → ℤ × ℤ → Card → Card
unfolding axis_of dragged ◌-ℤ◌
move none at c = c
move (some (x0, y0)) (x, y) c =
    let axis = axis_of c.touch_axis (x -ℤ x0) (y -ℤ y0) in
    record c {
      touch_axis = axis;
      translate_x = if is_horizontal axis then dragged c.revealed (x -ℤ x0) else c.translate_x;
    }

unfoldable pub on_touch_move : ℤ × ℤ → Card → Card
unfolding move
on_touch_move at c = move c.touch_start at c

-- `translateX <= -SWIPE_THRESHOLD`
abbrev pub is_past : ℤ → Bool
is_past (pos n) = false
is_past (negsuc n) = leb swipe_threshold (suc n)

-- The card is latched open or shut.
unfoldable pub latch : Bool → Card → Card
latch out c = record c { translate_x = if out then neg swipe_reveal else pos 0; revealed = out }

unfoldable pub on_touch_end : Card → Card
unfolding latch
on_touch_end c =
    let q = record c { touch_start = none; dragging = false; touch_axis = none } in
    if is_horizontal c.touch_axis && is_some c.touch_start
    then latch (is_past c.translate_x) q
    else q

pub data Event : Type 0 where
  starts moves : ℤ × ℤ → Event
  -- `touchend` and `touchcancel`
  ends : Event
  -- the pad, which is there to be tapped while it is open
  taps_delete : Event
  sets_selection_mode : Bool → Event

unfoldable pub step : Card → Event → Card
unfolding on_touch_start on_touch_move on_touch_end latch
step c (starts at) = if c.can_delete && not c.selection_mode then on_touch_start at c else c
step c (moves at) = if c.can_delete && not c.selection_mode then on_touch_move at c else c
step c ends = if c.can_delete && not c.selection_mode then on_touch_end c else c
step c taps_delete =
    if c.can_delete && c.revealed then record (latch false c) { deletions = c.deletions + 1 } else c
step c (sets_selection_mode on) = record c { selection_mode = on }

unfoldable pub run : Card → List Event → Card
unfolding step
run c [] = c
run c (e ∷ es) = run (step c e) es
