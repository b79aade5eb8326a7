-- ===== src/Toast/Tests.antt =====
-- The theorems about client/src/lib/toast.tsx at concrete toasts.
use home_camera_system.Prelude.{◌≡◌, refl, List, [], ◌∷◌, map}
use home_camera_system.Toast.{
  info, success, error, initial, is_pending, is_shown, Event, shows, dismisses, times_out, run,
}
use home_camera_system.Toast.Timers.{run-initial-Timed}

abbrev history : List Event
history = shows 20 info ∷ shows 121 error ∷ times_out 1 ∷ shows 10 success ∷ dismisses 3 ∷ []

history_shows : map (λ t. t.id) (run initial history).shown ≡ 2 ∷ []
unfolding run initial
history_shows = refl

run-initial-Timed_example :
    is_shown 2 (run initial history).shown ≡ is_pending 2 (run initial history).pending
unfolding run initial
run-initial-Timed_example = run-initial-Timed 2 history refl
