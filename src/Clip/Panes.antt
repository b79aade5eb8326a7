-- ===== src/Clip/Panes.antt =====
-- The touch handlers of the video pane (client/src/components/ClipModal.tsx).
pub mod Settled
pub mod Advancing
mod Tests
use home_camera_system.Prelude.{
  ltb, leb, if◌then◌else◌, is_some, ℕ, suc, ◌*◌, Bool, true, false, ◌&&◌, ◌||◌, Option, none, some,
}
use home_camera_system.Prelude.Int.{ℤ, pos, negsuc, ◌-ℤ◌, ltb_ℤ, abs, neg, clamp_ℤ}
use home_camera_system.Zoom.Fingers.{Touches, lone, several, Rect, first, fine, middle}
use home_camera_system.Zoom.{zoom_identity, pinch_update, pan_update, is_zoomed}
use home_camera_system.Clip.{
  DetectionEvent, swipe_timeline, swipe_neighbor, Axis, horizontal, vertical, Pane,
  swipe_advance_px, swipe_feedback_max_px, swipe_rubber_max_px, Touched, starts, moves, ends,
  cancels,
}

reset_swipe_refs : Pane → Pane
reset_swipe_refs p = record p { swipe_start = none; swipe_axis = none; swipe_dx = pos 0 }

reset_clip_zoom : Pane → Pane
reset_clip_zoom p = record p { zoom = zoom_identity; pinch_dist = 0; pan_last = none }

on_pane_touch_start : Touches → Bool → Bool → Pane → Pane
unfolding reset_swipe_refs
on_pane_touch_start (several a b d) on_control guarded p = record (reset_swipe_refs p) {
  pinch_dist = d;
  pan_last = none;
  offset = pos 0;
}
on_pane_touch_start (lone a) on_control guarded p =
    if on_control
    then p
    else if is_zoomed p.zoom
    then record p { pan_last = some a }
    else if guarded
    then p
    else record p { swipe_start = some a; swipe_axis = none; swipe_dx = pos 0 }

-- The axis is chosen once the finger has gone more than 6 pixels one way.
axis_of : Option Axis → ℤ → ℤ → Option Axis
axis_of (some x) dx dy = some x
axis_of none dx dy =
    if ltb 6 (abs dx) || ltb 6 (abs dy)
    then some (if ltb (abs dy) (abs dx) then horizontal else vertical)
    else none

abbrev pub is_horizontal : Option Axis → Bool
is_horizontal (some horizontal) = true
is_horizontal _ = false

abbrev pub is_left : ℤ → Bool
is_left dx = ltb_ℤ dx (pos 0)

unfoldable pub neighbor_of : ℤ → Pane → Option DetectionEvent
unfolding swipe_neighbor swipe_timeline
neighbor_of dx p = swipe_neighbor (is_left dx) (swipe_timeline p.more_tonight p.event) p.event.id

thirds : ℤ → ℤ
thirds (pos n) = pos (n * 3)
thirds (negsuc n) = neg (suc n * 3)

-- `Math.max(-cap, Math.min(cap, eased))` in thirds.
shown_offset : Bool → ℤ → ℤ
unfolding thirds
shown_offset has_neighbor dx =
    let cap : ℕ = if has_neighbor then swipe_feedback_max_px * 3 else swipe_rubber_max_px * 3 in
    let eased = if has_neighbor then thirds dx else dx in clamp_ℤ (neg cap) (pos cap) eased

drag : ℤ → ℤ → Pane → Pane
unfolding axis_of shown_offset neighbor_of
drag dx dy p =
    let axis = axis_of p.swipe_axis dx dy in
    if is_horizontal axis
    then record p {
      swipe_axis = axis;
      swipe_dx = dx;
      offset = shown_offset (is_some (neighbor_of dx p)) dx;
    }
    else record p { swipe_axis = axis }

swipe_move : Option (ℤ × ℤ) → ℤ × ℤ → Pane → Pane
unfolding drag ◌-ℤ◌
swipe_move none at p = p
swipe_move (some (x, y)) (ax, ay) p = drag (ax -ℤ x) (ay -ℤ y) p

pan_move : Option (ℤ × ℤ) → Rect → ℤ × ℤ → Pane → Pane
unfolding swipe_move fine ◌-ℤ◌
pan_move none rect at p = swipe_move p.swipe_start at p
pan_move (some (x, y)) rect (ax, ay) p =
    if is_zoomed p.zoom
    then record p {
      zoom = pan_update p.zoom (fine (ax -ℤ x)) (fine (ay -ℤ y)) rect.width rect.height;
      pan_last = some (ax, ay);
    }
    else swipe_move p.swipe_start (ax, ay) p

-- `d / pinchDist` stands as the two distances.
module _ (times : ℕ → ℕ × ℕ → ℕ) (by_ratio : ℤ → ℕ → ℕ → ℤ) where
  pinch_move : Rect → ℤ × ℤ → ℤ × ℤ → ℕ → Pane → Pane
  unfolding middle fine ◌-ℤ◌
  pinch_move rect (ax, ay) (bx, by) d p =
      let fx = middle ax bx -ℤ fine rect.left in
      let fy = middle ay by -ℤ fine rect.top in
      let zoomed =
        pinch_update times by_ratio p.zoom fx fy (d, p.pinch_dist) rect.width rect.height in
      record p { zoom = if ltb 0 p.pinch_dist && ltb 0 d then zoomed else p.zoom; pinch_dist = d }

  on_pane_touch_move : Rect → Touches → Pane → Pane
  unfolding pinch_move pan_move
  on_pane_touch_move rect (several a b d) p = pinch_move rect a b d p
  on_pane_touch_move rect (lone a) p = pan_move p.pan_last rect a p

-- `setEvent(neighbor)`, and the effect of the new id. The rail is fetched anew.
advance_to : DetectionEvent → Pane → Pane
unfolding reset_clip_zoom
advance_to e p = record (reset_clip_zoom p) { event = e; offset = pos 0 }

finish : Option DetectionEvent → Pane → Pane
unfolding advance_to
finish none p = record p { offset = pos 0 }
finish (some e) p = advance_to e p

swipe_target : Pane → Option DetectionEvent
unfolding neighbor_of
swipe_target p = if leb swipe_advance_px (abs p.swipe_dx) then neighbor_of p.swipe_dx p else none

swipe_end : Pane → Pane
unfolding reset_swipe_refs finish swipe_target
swipe_end p =
    if is_some p.swipe_start && is_horizontal p.swipe_axis
    then finish (swipe_target p) (reset_swipe_refs p)
    else reset_swipe_refs p

on_pane_touch_end : Option Touches → Pane → Pane
unfolding reset_swipe_refs first swipe_end
on_pane_touch_end (some t) p = record (reset_swipe_refs p) {
  pinch_dist = 0;
  pan_last = if is_zoomed p.zoom then some (first t) else none;
}
on_pane_touch_end none p =
    if is_some p.pan_last || ltb 0 p.pinch_dist
    then record p { pinch_dist = 0; pan_last = none }
    else swipe_end p

on_pane_touch_cancel : Pane → Pane
unfolding reset_swipe_refs
on_pane_touch_cancel p =
    let q = record (reset_swipe_refs p) { pinch_dist = 0; pan_last = none } in
    if is_horizontal p.swipe_axis then record q { offset = pos 0 } else q

module _ (times : ℕ → ℕ × ℕ → ℕ) (by_ratio : ℤ → ℕ → ℕ → ℤ) where
  unfoldable pub touch : Rect → Pane → Touched → Pane
  unfolding on_pane_touch_start on_pane_touch_move on_pane_touch_end on_pane_touch_cancel
  touch rect p (starts t on_control guarded) = on_pane_touch_start t on_control guarded p
  touch rect p (moves t) = on_pane_touch_move times by_ratio rect t p
  touch rect p (ends t) = on_pane_touch_end t p
  touch rect p cancels = on_pane_touch_cancel p
