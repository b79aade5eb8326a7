-- ===== src/Watch/Tests.antt =====
-- Runs of the live video of the home page.
use home_camera_system.Prelude.{ℕ, ◌*◌, ◌/◌, ◌≡◌, refl, true, false, none, List, [], ◌∷◌}
use home_camera_system.Prelude.Int.{ℤ, pos, ◌-ℤ◌}
use home_camera_system.Zoom.Fingers.{Touches, lone, Rect}
use home_camera_system.Watch.{
  mount, poke_chrome, cancel_chrome_timer, reset_zoom, enter_full, leave_full, exit_full, on_pop,
  unmount, go_back, go_forward,
}
use home_camera_system.Watch.Gestures.{
  begun, on_viewport_touch_start, mode_of, carry, move_of, on_viewport_touch_move, lift,
  on_viewport_touch_end,
}
use home_camera_system.Watch.Steps.{
  Event, enters, chevron, escape, touch_start, touch_move, touch_end, fires, user_back,
  user_forward, back_done, handle, step, run,
}
use home_camera_system.Watch.Dismissal.{Asked, run-mount-Asked}

abbrev times : ℕ → ℕ × ℕ → ℕ
times s (d, e) = s * d / e

abbrev by_ratio : ℤ → ℕ → ℕ → ℤ
by_ratio x k j = x

abbrev screen : Rect
screen = record { left = pos 0; top = pos 0; width = 2340; height = 1080 }

abbrev finger : ℕ → ℕ → Touches
finger x y = lone (pos x, pos y)

-- Two calls of `exitFull` before the browser has gone back: it goes back twice, and leaves the page.
two_exits_leave_the_page :
    (run times by_ratio screen
      (mount (false ∷ []) [])
      (enters ∷ escape ∷ chevron ∷ back_done ∷ back_done ∷ [])).mounted
    ≡ false
unfolding run step handle mount enter_full exit_full poke_chrome go_back on_pop unmount leave_full
    reset_zoom cancel_chrome_timer
two_exits_leave_the_page = refl

-- Going back in the middle of a swipe: the docked tile stays where the swipe had moved it.
swipe_is_not_cleared :
    (run times by_ratio screen (mount (false ∷ []) []) (
      enters
      ∷ touch_start (finger 500 100) false
      ∷ touch_move (finger 500 200)
      ∷ user_back
      ∷ touch_end none
      ∷ [])).swipe_offset
    ≡ 100
unfolding run step handle mount enter_full poke_chrome on_viewport_touch_start
    on_viewport_touch_move on_viewport_touch_end move_of carry mode_of go_back on_pop leave_full
    reset_zoom cancel_chrome_timer begun lift ◌-ℤ◌
swipe_is_not_cleared = refl

abbrev swipe : List Event
swipe = enters ∷ touch_start (finger 500 100) false ∷ touch_move (finger 500 300) ∷ fires 0 ∷ []

-- Forward to the marker, and full screen again: two markers, of which one exit takes one away.
two_markers :
    (run times by_ratio screen
      (mount (false ∷ []) [])
      (enters ∷ user_back ∷ user_forward ∷ enters ∷ escape ∷ back_done ∷ [])).entries
    ≡ true ∷ false ∷ []
unfolding run step handle mount enter_full exit_full poke_chrome go_back go_forward on_pop
    leave_full reset_zoom cancel_chrome_timer
two_markers = refl

run-mount-Asked_example : Asked (run times by_ratio screen (mount (false ∷ []) []) swipe) none (
    step times by_ratio screen
      (run times by_ratio screen (mount (false ∷ []) []) swipe)
      (touch_end none))
run-mount-Asked_example = run-mount-Asked times by_ratio screen (false ∷ []) [] swipe none
