-- ===== src/Health/Pills.antt =====
-- The pills of client/src/components/VideoTile.tsx over a live stream: what is wrong besides the
-- video. Seconds are whole.
use home_camera_system.Prelude.{
  ltb, ℕ, ◌+◌, ◌≤◌, ◌≡◌, ◌↔◌, Bool, true, false, ◌&&◌, not, Option, none, some, arith,
}

-- The properties of the tile; `none` is null or not given.
pub record TileProps : Type 0 where
  pub worker_alive : Option Bool
  pub stream_stale_seconds : Option ℕ
  pub low_memory : Option Bool
  pub thermal : Option Bool
  pub detection_active : Option Bool

abbrev is_true : Option Bool → Bool
is_true (some true) = true
is_true _ = false

abbrev is_false : Option Bool → Bool
is_false (some false) = true
is_false _ = false

abbrev over_a_minute : Option ℕ → Bool
over_a_minute none = false
over_a_minute (some s) = ltb 60 s

unfoldable pub worker_dead : TileProps → Bool
worker_dead p = is_false p.worker_alive

unfoldable pub stream_stale : TileProps → Bool
stream_stale p = is_true p.worker_alive && over_a_minute p.stream_stale_seconds

unfoldable pub low_mem : TileProps → Bool
unfolding worker_dead stream_stale
low_mem p = not (worker_dead p) && not (stream_stale p) && is_true p.low_memory

unfoldable pub therm : TileProps → Bool
unfolding worker_dead stream_stale low_mem
therm p = not (worker_dead p) && not (stream_stale p) && not (low_mem p) && is_true p.thermal

unfoldable pub paused : TileProps → Bool
unfolding worker_dead stream_stale low_mem therm
paused p =
    not (worker_dead p)
    && not (stream_stale p)
    && not (low_mem p)
    && not (therm p)
    && is_false p.detection_active

abbrev pub count : Bool → ℕ
count true = 1
count false = 0

-- At most one pill is shown.
pub pills_exclusive :
    (p : TileProps)
    → count (worker_dead p)
        + count (stream_stale p)
        + count (low_mem p)
        + count (therm p)
        + count (paused p)
      ≤ 1
unfolding paused
pills_exclusive p = ground arith

-- No pill is shown exactly when nothing is reported: the worker is not known to be dead, a live
-- worker's stream is not stale, and no memory, heat or pause is reported.
pub pills_none :
    (p : TileProps)
    → (count (worker_dead p)
          + count (stream_stale p)
          + count (low_mem p)
          + count (therm p)
          + count (paused p)
        ≡ 0)
      ↔ ((is_false p.worker_alive ≡ false)
          × ((is_true p.worker_alive && over_a_minute p.stream_stale_seconds) ≡ false)
          × (is_true p.low_memory ≡ false)
          × (is_true p.thermal ≡ false)
          × (is_false p.detection_active ≡ false))
unfolding paused
pills_none p = (λ h. ground arith, λ v. ground arith)
