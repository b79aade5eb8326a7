-- ===== src/Poll/Readings.antt =====
-- What client/src/lib/useStatus.ts shows, as a function of the answers that it got.
use home_camera_system.Prelude.{
  leb, ◌==◌, if◌then◌else◌, contains, ℕ, ◌+◌, ◌<◌, ◌≡◌, Bool, true, false, ◌||◌, Option, none, some,
  List, [], ◌∷◌, arith,
}
use home_camera_system.Poll.{
  Poll, mount, Event, interval_fires, answered, failed, hides, shows, unmounts, step,
}

pub data Reading : Type 0 where
  payload : ℕ → Reading
  failure : Reading

abbrev pub streak : List Reading → ℕ
streak [] = 0
streak (payload n ∷ rs) = 0
streak (failure ∷ rs) = streak rs + 1

-- The status after these readings, the newest first: the last payload, until two failures in a row
-- have followed it.
abbrev pub shown : List Reading → Option ℕ
shown [] = none
shown (payload n ∷ rs) = some n
shown (failure ∷ rs) = let before = shown rs in if leb 2 (streak rs + 1) then none else before

-- What an event adds to the readings: nothing, if the request was aborted or the hook is unmounted.
abbrev pub reading_of : Poll → Event → List Reading → List Reading
reading_of p (answered id n) rs =
    if contains id p.aborted || p.cancelled then rs else payload n ∷ rs
reading_of p (failed id) rs = if contains id p.aborted || p.cancelled then rs else failure ∷ rs
reading_of p _ rs = rs

pub record Reads (rs : List Reading) (p : Poll) : Type 0 where
  pub status : p.status ≡ shown rs
  pub streaks : p.failure_streak ≡ streak rs

-- Every event keeps the status the one that the readings so far call for: one failure keeps the
-- last payload, two in a row clear it, and an aborted request changes nothing.
pub step-Reads :
    (rs : List Reading) (p : Poll) (e : Event) → Reads rs p → Reads (reading_of p e rs) (step p e)
unfolding step
step-Reads rs p interval_fires v = ground arith
step-Reads rs p (answered id n) v = ground arith
step-Reads rs p (failed id) v = ground arith
step-Reads rs p hides v = ground arith
step-Reads rs p shows v = ground arith
step-Reads rs p unmounts v = ground arith

mount-Reads : (hidden : Bool) → Reads [] (mount hidden)
unfolding mount
mount-Reads hidden = ground arith

abbrev is_in_flight : ℕ → Option ℕ → Bool
is_in_flight id none = false
is_in_flight id (some i) = id == i

-- Every request but the one in flight was aborted, and an unmounted hook does not poll.
pub record Single (id : ℕ) (p : Poll) : Type 0 where
  pub superseded :
      id < p.next_request → is_in_flight id p.in_flight ≡ false → contains id p.aborted ≡ true
  pub unmounted : p.cancelled ≡ true → p.polling ≡ false

-- Every event keeps this: a new request aborts the one before it, so that requests never pile up,
-- and after the unmount there is no polling.
pub step-Single : (id : ℕ) (p : Poll) (e : Event) → Single id p → Single id (step p e)
unfolding step
step-Single id p interval_fires v = ground arith
step-Single id p (answered i n) v = ground arith
step-Single id p (failed i) v = ground arith
step-Single id p hides v = ground arith
step-Single id p shows v = ground arith
step-Single id p unmounts v = ground arith

-- A hidden page has no interval, and the request that was in flight is aborted.
pub step-hides :
    (p : Poll) (id : ℕ)
    → p.cancelled ≡ false
    → p.in_flight ≡ some id
    → ((step p hides).polling ≡ false)
      × (contains id (step p hides).aborted ≡ true)
      × ((step (step p hides) interval_fires) ≡ step p hides)
unfolding step
step-hides p id c f = ground arith
