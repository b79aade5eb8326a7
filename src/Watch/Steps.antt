-- ===== src/Watch/Steps.antt =====
-- The events of the live video of the home page (client/src/pages/Watch.tsx).
use home_camera_system.Prelude.{
  ltb, if◌then◌else◌, ℕ, ◌-◌, Bool, true, false, ◌&&◌, Option, List, [], ◌∷◌,
}
use home_camera_system.Prelude.Int.{ℤ}
use home_camera_system.Zoom.Fingers.{Touches, Rect}
use home_camera_system.Watch.{
  View, poke_chrome, hide_chrome, toggle_chrome, enter_full, leave_full, is_marked, exit_full,
  unmount, go_back, go_forward,
}
use home_camera_system.Watch.Gestures.{
  on_viewport_touch_start, on_viewport_touch_move, on_viewport_touch_end,
}

pub data Event : Type 0 where
  -- the full-screen button of the docked tile
  enters : Event
  -- the chevron, the key Escape, the hours of the day
  chevron escape jumps : Event
  -- a button of the mouse, on a control or not
  mouse_down : Bool → Event
  touch_start : Touches → Bool → Event
  touch_move : Touches → Event
  touch_end : Option Touches → Event
  fires : ℕ → Event
  -- the user goes back or forward, and the browser carries out a call of `history.back()`
  user_back user_forward back_done : Event
  -- the answers to a request for full screen, and its end by the browser
  fullscreen_granted fullscreen_denied fullscreen_ends : Event
  leaves_page : Event

-- `navigate('/events', { replace: replacing })`
jumped : List Bool → List Bool
jumped (true ∷ below) = false ∷ below
jumped entries = false ∷ entries

unfoldable pub jump : View → View
unfolding unmount jumped
jump v =
    unmount
      (record v { entries = jumped v.entries; ahead = if is_marked v.entries then v.ahead else [] })

module _ (times : ℕ → ℕ × ℕ → ℕ) (by_ratio : ℤ → ℕ → ℕ → ℤ) (rect : Rect) where
  unfoldable pub handle : View → Event → View
  unfolding enter_full exit_full toggle_chrome poke_chrome on_viewport_touch_start
      on_viewport_touch_move on_viewport_touch_end hide_chrome go_back go_forward leave_full unmount
      jump
  handle v enters = if v.full then v else enter_full v
  handle v chevron = if v.full then exit_full v else v
  handle v escape = if v.full then exit_full v else v
  handle v jumps = if v.full then jump v else v
  handle v (mouse_down on_button) =
      if v.full then (if on_button then poke_chrome v else toggle_chrome v) else v
  handle v (touch_start t on_button) = on_viewport_touch_start t on_button v
  handle v (touch_move t) = on_viewport_touch_move times by_ratio rect t v
  handle v (touch_end t) = on_viewport_touch_end t v
  handle v (fires n) = hide_chrome n v
  handle v user_back = go_back v
  handle v user_forward = go_forward v
  handle v back_done = if ltb 0 v.backs then go_back (record v { backs = v.backs - 1 }) else v
  handle v fullscreen_granted =
      if ltb 0 v.fullscreen_requests
      then record v { fullscreen_element = true; fullscreen_requests = v.fullscreen_requests - 1 }
      else v
  handle v fullscreen_denied = record v { fullscreen_requests = v.fullscreen_requests - 1 }
  handle v fullscreen_ends =
      let w = record v { fullscreen_element = false } in
      if v.fullscreen_element && v.full then exit_full w else w
  handle v leaves_page = unmount v

  unfoldable pub step : View → Event → View
  unfolding handle
  step v e = if v.mounted then handle v e else v

  unfoldable pub run : View → List Event → View
  unfolding step
  run v [] = v
  run v (e ∷ es) = run (step v e) es
