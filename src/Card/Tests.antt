-- ===== src/Card/Tests.antt =====
-- Runs of the swipe on an event's card.
use home_camera_system.Prelude.{ℕ, ◌≤◌, ◌≡◌, refl, true, false, List, [], ◌∷◌}
use home_camera_system.Prelude.Int.{ℤ, pos, negsuc, pos_part, neg_part, ◌-ℤ◌}
use home_camera_system.Card.{
  swipe_reveal, mount, on_touch_start, axis_of, dragged, move, on_touch_move, latch, on_touch_end,
  Event, starts, moves, ends, taps_delete, step, run,
}
use home_camera_system.Card.Resting.{resting_place, run-mount-Rests}

abbrev place : ℕ → ℕ → ℤ × ℤ
place x y = (pos x, pos y)

-- A second finger lands in the middle of a swipe and both are lifted: the card is left half over the
-- pad.
half_open :
    (run (mount true) (
      starts (place 300 50) ∷ moves (place 250 50) ∷ starts (place 250 50) ∷ ends ∷ [])).translate_x
    ≡ negsuc 49
unfolding run step mount on_touch_start on_touch_move on_touch_end move axis_of dragged ◌-ℤ◌
half_open = refl

-- A short swipe further to the left shuts an open card.
left_shuts :
    (run (mount true) (
      starts (place 300 50)
      ∷ moves (place 200 50)
      ∷ ends
      ∷ starts (place 300 50)
      ∷ moves (place 290 50)
      ∷ ends
      ∷ [])).revealed
    ≡ false
unfolding run step mount on_touch_start on_touch_move on_touch_end move axis_of dragged ◌-ℤ◌ latch
left_shuts = refl

abbrev swipe_and_delete : List Event
swipe_and_delete = starts (place 300 50) ∷ moves (place 200 50) ∷ ends ∷ taps_delete ∷ []

run-mount-Rests_example :
    (neg_part (run (mount true) swipe_and_delete).translate_x ≤ swipe_reveal)
    × (pos_part (run (mount true) swipe_and_delete).translate_x ≡ 0)
    × ((run (mount true) swipe_and_delete).dragging ≡ false
        → (run (mount true) swipe_and_delete).translate_x
          ≡ resting_place (run (mount true) swipe_and_delete).revealed)
unfolding mount
run-mount-Rests_example = run-mount-Rests true swipe_and_delete (refl, (tt, (tt, (tt, tt))))
