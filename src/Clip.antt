-- ===== src/Clip.antt =====
-- The view of one event (client/src/components/ClipModal.tsx): its neighbours in time, and the
-- gestures on its video. Coordinates are in pixels, the offset of the pane in thirds of a pixel.
pub mod Neighbours
pub mod Returning
pub mod Panes
use home_camera_system.Prelude.{
  leb, ◌==◌, if◌then◌else◌, get_elem?, ℕ, zero, suc, Bool, true, false, Option, none, some, List,
  [], ◌∷◌, ◌++◌,
}
use home_camera_system.Prelude.Int.{ℤ}
use home_camera_system.Zoom.Fingers.{Touches}
use home_camera_system.Zoom.{ZoomState}

-- What the view reads of an event.
pub record DetectionEvent : Type 0 where
  pub id : ℕ
  pub ts : ℕ

-- `all.sort((a, b) => b.ts - a.ts)`, which is stable.
insert_newest : DetectionEvent → List DetectionEvent → List DetectionEvent
insert_newest e [] = e ∷ []
insert_newest e (x ∷ xs) =
    let rest = insert_newest e xs in if leb x.ts e.ts then e ∷ x ∷ xs else x ∷ rest

pub sort_newest : List DetectionEvent → List DetectionEvent
unfolding insert_newest
sort_newest [] = []
sort_newest (e ∷ es) = insert_newest e (sort_newest es)

-- `swipeTimeline`; null, before the answer, is as an empty list.
unfoldable pub swipe_timeline : List DetectionEvent → DetectionEvent → List DetectionEvent
unfolding sort_newest
swipe_timeline more_tonight event = sort_newest (more_tonight ++ event ∷ [])

-- One more, of an index that was found.
next_index : Option ℕ → Option ℕ
next_index none = none
next_index (some i) = some (suc i)

-- `findIndex((e) => e.id === id)`
unfoldable pub find_index : ℕ → List DetectionEvent → Option ℕ
unfolding next_index
find_index id [] = none
find_index id (e ∷ es) =
    let rest = next_index (find_index id es) in if e.id == id then some 0 else rest

beside : Bool → List DetectionEvent → Option ℕ → Option DetectionEvent
beside older timeline none = none
beside true timeline (some i) = get_elem? timeline (suc i)
beside false timeline (some zero) = none
beside false timeline (some (suc i)) = get_elem? timeline i

-- `swipeNeighbor`, for a drag to the left, toward the older events, or not.
unfoldable pub swipe_neighbor : Bool → List DetectionEvent → ℕ → Option DetectionEvent
unfolding find_index beside
swipe_neighbor older timeline id = beside older timeline (find_index id timeline)

pub data Axis : Type 0 where
  horizontal vertical : Axis

pub record Pane : Type 0 where
  pub event : DetectionEvent
  pub more_tonight : List DetectionEvent
  -- the refs of the swipe: where it started, its axis, and how far it has gone
  pub swipe_start : Option (ℤ × ℤ)
  pub swipe_axis : Option Axis
  pub swipe_dx : ℤ
  -- the refs of the zoom; a distance of 0 is none
  pub zoom : ZoomState
  pub pinch_dist : ℕ
  pub pan_last : Option (ℤ × ℤ)
  -- `translateX` of the pane, in thirds of a pixel
  pub offset : ℤ

abbrev pub swipe_advance_px : ℕ
swipe_advance_px = 70

abbrev pub swipe_feedback_max_px : ℕ
swipe_feedback_max_px = 48

abbrev pub swipe_rubber_max_px : ℕ
swipe_rubber_max_px = 20

pub data Touched : Type 0 where
  -- whether the finger is on a control, or in the strip of the native controls
  starts : Touches → Bool → Bool → Touched
  moves : Touches → Touched
  -- the fingers that are left
  ends : Option Touches → Touched
  cancels : Touched
