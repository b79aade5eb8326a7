-- ===== src/Clip/Panes/Tests.antt =====
-- A swipe from one event to the next and back.
use home_camera_system.Prelude.{
  ℕ, suc, ◌*◌, ◌/◌, ◌<◌, ◌≡◌, refl, ◌⊎◌, inl, inr, true, false, none, some, List, [], ◌∷◌, arith,
}
use home_camera_system.Prelude.Int.{ℤ, pos, negsuc, ◌-ℤ◌, neg}
use home_camera_system.Zoom.Fingers.{lone, several, Rect}
use home_camera_system.Zoom.{zoom_identity, zoom_identity-Covers}
use home_camera_system.Clip.{
  DetectionEvent, swipe_timeline, find_index, swipe_neighbor, horizontal, Pane, starts, moves, ends,
}
use home_camera_system.Clip.Returning.{swipe_there_and_back}
use home_camera_system.Clip.Panes.{neighbor_of, touch}
use home_camera_system.Clip.Panes.Settled.{Settled, touch-Settled}
use home_camera_system.Clip.Panes.Advancing.{Advances, touch-Advances}

abbrev event_at : ℕ → ℕ → DetectionEvent
event_at id ts = record { id = id; ts = ts }

abbrev rail : List DetectionEvent
rail = event_at 3 300 ∷ event_at 1 100 ∷ []

abbrev open_pane : Pane
open_pane = record {
  event = event_at 2 200;
  more_tonight = rail;
  swipe_start = none;
  swipe_axis = none;
  swipe_dx = pos 0;
  zoom = zoom_identity;
  pinch_dist = 0;
  pan_last = none;
  offset = pos 0;
}

abbrev dragged : Pane
dragged = record open_pane {
  swipe_start = some (pos 300, pos 100);
  swipe_axis = some horizontal;
  swipe_dx = negsuc 79;
  offset = negsuc 143;
}

abbrev screen : Rect
screen = record { left = pos 0; top = pos 0; width = 400; height = 300 }

abbrev times : ℕ → ℕ × ℕ → ℕ
times scale (d, before) = scale * d / before

abbrev by_ratio : ℤ → ℕ → ℕ → ℤ
by_ratio (pos n) a b = pos (n * a / b)
by_ratio (negsuc n) a b = neg (suc n * a / b)

open-Settled : Settled screen open_pane
open-Settled = record { zoomed = zoom_identity-Covers 400 300; near = omega arith }

drags_left :
    touch times by_ratio screen
      (touch times by_ratio screen open_pane (starts (lone (pos 300, pos 100)) false false))
      (moves (lone (pos 220, pos 103)))
    ≡ dragged
unfolding touch ◌-ℤ◌ neighbor_of swipe_neighbor swipe_timeline find_index
drags_left = refl

lifts : (touch times by_ratio screen dragged (ends none)).event ≡ event_at 1 100
unfolding touch ◌-ℤ◌ neighbor_of swipe_neighbor swipe_timeline find_index
lifts = refl

-- The rail of the event before does not hold that event, but holds the one that is open now.
before_the_rail_is_fetched :
    neighbor_of (negsuc 79) (touch times by_ratio screen dragged (ends none))
    ≡ some (event_at 1 100)
unfolding touch ◌-ℤ◌ neighbor_of swipe_neighbor swipe_timeline find_index
before_the_rail_is_fetched = refl

touch-Settled_example :
    Settled screen
      (touch times by_ratio screen open_pane (moves (several (pos 1, pos 1) (pos 9, pos 9) 11)))
touch-Settled_example =
    touch-Settled times by_ratio screen open_pane (moves (several (pos 1, pos 1) (pos 9, pos 9) 11))
      open-Settled

touch-Advances_example :
    ((touch times by_ratio screen dragged (ends none)).event ≡ dragged.event)
    ⊎ Advances dragged (touch times by_ratio screen dragged (ends none)) (ends none)
touch-Advances_example = touch-Advances times by_ratio screen dragged (ends none)

two_left : swipe_neighbor true (swipe_timeline rail (event_at 2 200)) 2 ≡ some (event_at 1 100)
unfolding swipe_neighbor swipe_timeline find_index
two_left = refl

-- The rail of the event to the left, with the one that was left.
abbrev next_rail : List DetectionEvent
next_rail = event_at 3 300 ∷ event_at 2 200 ∷ []

swipe_there_and_back_example :
    (100 < 200)
    × (swipe_neighbor false (swipe_timeline next_rail (event_at 1 100)) 1 ≡ some (event_at 2 200))
swipe_there_and_back_example =
    swipe_there_and_back true rail next_rail (event_at 2 200) (event_at 1 100)
      (((λ e. omega arith), ((λ e. omega arith), tt)), (((λ e. omega arith), tt), (tt, tt)))
      two_left (λ e. omega arith)
      (((λ e. omega arith), ((λ e. omega arith), tt)), (((λ e. omega arith), tt), (tt, tt)))
      (1, refl) (inr (inr (omega arith)), (inl refl, tt))
