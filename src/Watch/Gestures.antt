-- ===== src/Watch/Gestures.antt =====
-- The touch handlers of the full-screen video (client/src/pages/Watch.tsx).
use home_camera_system.Prelude.{
  ltb, if◌then◌else◌, ℕ, Bool, true, false, ◌&&◌, ◌||◌, Option, none, some,
}
use home_camera_system.Prelude.Int.{ℤ, pos, negsuc, ◌-ℤ◌, abs}
use home_camera_system.Zoom.Fingers.{Touches, lone, several, Rect, first, fine, middle}
use home_camera_system.Zoom.{pinch_update, pan_update, is_zoomed}
use home_camera_system.Watch.{
  Mode, tapping, swiping, panning, pinching, dead, GestureRef, View, poke_chrome, toggle_chrome,
  clear_swipe_transform, exit_full,
}

pinching_at : ℕ → GestureRef
pinching_at d = record {
  mode = pinching;
  x0 = pos 0;
  y0 = pos 0;
  last_x = pos 0;
  last_y = pos 0;
  dy = 0;
  pinch_dist = d;
  on_button = false;
}

-- A gesture of one finger that begins here.
unfoldable pub begun : Mode → ℤ × ℤ → Bool → GestureRef
begun mode (x, y) on_button = record {
  mode = mode;
  x0 = x;
  y0 = y;
  last_x = x;
  last_y = y;
  dy = 0;
  pinch_dist = 0;
  on_button = on_button;
}

unfoldable pub on_viewport_touch_start : Touches → Bool → View → View
unfolding pinching_at begun clear_swipe_transform
on_viewport_touch_start (several a b d) on_button v =
    if v.full
    then clear_swipe_transform (record v { gesture = some (pinching_at d) })
    else record v { gesture = none }
on_viewport_touch_start (lone a) on_button v = record v {
  gesture = if v.full then some (begun tapping a on_button) else none;
}

abbrev pub is_pinching : Mode → Bool
is_pinching pinching = true
is_pinching _ = false

-- `Math.max(0, dyTotal)`
abbrev pub downward : ℤ → ℕ
downward (pos n) = n
downward (negsuc n) = 0

-- What a tap becomes once the finger has gone more than 12 pixels one way.
unfoldable pub mode_of : Bool → Mode → ℤ → ℤ → Mode
mode_of zoomed tapping dx dy =
    if ltb 12 (abs dx) || ltb 12 (abs dy)
    then (if zoomed
        then panning
        else if ltb (abs dx) (abs dy) && ltb 0 (downward dy)
        then swiping
        else dead)
    else tapping
mode_of zoomed mode dx dy = mode

moved_to : ℤ × ℤ → GestureRef → GestureRef
moved_to (x, y) g = record g { last_x = x; last_y = y }

-- The move of one finger, in the mode that it has by now.
unfoldable pub carry : Mode → Rect → ℤ × ℤ → GestureRef → View → View
unfolding moved_to fine ◌-ℤ◌
carry panning rect (x, y) g v = record v {
  gesture = some (moved_to (x, y) (record g { mode = panning }));
  zoom = pan_update v.zoom (fine (x -ℤ g.last_x)) (fine (y -ℤ g.last_y)) rect.width rect.height;
}
carry swiping rect (x, y) g v = record v {
  gesture = some (moved_to (x, y) (record g { mode = swiping; dy = downward (y -ℤ g.y0) }));
  swipe_offset = downward (y -ℤ g.y0);
}
carry mode rect at g v = record v { gesture = some (moved_to at (record g { mode = mode })) }

-- `d / pinchDist` stands as the two distances.
module _ (times : ℕ → ℕ × ℕ → ℕ) (by_ratio : ℤ → ℕ → ℕ → ℤ) where
  unfoldable pub pinch_move : Rect → ℤ × ℤ → ℤ × ℤ → ℕ → GestureRef → View → View
  unfolding middle fine ◌-ℤ◌ clear_swipe_transform
  pinch_move rect (ax, ay) (bx, by) d g v =
      let fx = middle ax bx -ℤ fine rect.left in
      let fy = middle ay by -ℤ fine rect.top in
      let zoomed =
        pinch_update times by_ratio v.zoom fx fy (d, g.pinch_dist) rect.width rect.height in
      if is_pinching g.mode
      then record v {
        zoom = if ltb 0 g.pinch_dist && ltb 0 d then zoomed else v.zoom;
        gesture = some (record g { pinch_dist = d });
      }
      else clear_swipe_transform
          (record v { gesture = some (record g { mode = pinching; pinch_dist = d }) })

  unfoldable pub move_of : Option GestureRef → Rect → Touches → View → View
  unfolding pinch_move carry mode_of ◌-ℤ◌
  move_of none rect t v = v
  move_of (some g) rect (several a b d) v = pinch_move rect a b d g v
  move_of (some g) rect (lone (x, y)) v =
      carry (mode_of (is_zoomed v.zoom) g.mode (x -ℤ g.x0) (y -ℤ g.y0)) rect (x, y) g v

  unfoldable pub on_viewport_touch_move : Rect → Touches → View → View
  unfolding move_of
  on_viewport_touch_move rect t v = if v.full then move_of v.gesture rect t v else v

-- The last finger is lifted. A swipe that falls short eases back.
unfoldable pub finish : Mode → ℕ → Bool → View → View
unfolding clear_swipe_transform exit_full poke_chrome toggle_chrome
finish swiping dy on_button v =
    if ltb 110 dy then exit_full (clear_swipe_transform v) else clear_swipe_transform v
finish tapping dy on_button v = if on_button then poke_chrome v else toggle_chrome v
finish _ dy on_button v = v

-- The fingers that are left.
unfoldable pub lift : Option GestureRef → Option Touches → View → View
unfolding begun first finish
lift none t v = record v { gesture = none }
lift (some g) (some t) v = record v {
  gesture = some (begun (if is_zoomed v.zoom then panning else dead) (first t) false);
}
lift (some g) none v = finish g.mode g.dy g.on_button (record v { gesture = none })

-- `touchend` and `touchcancel`.
unfoldable pub on_viewport_touch_end : Option Touches → View → View
unfolding lift
on_viewport_touch_end t v = if v.full then lift v.gesture t v else record v { gesture = none }
