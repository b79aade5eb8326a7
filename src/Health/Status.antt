-- ===== src/Health/Status.antt =====
-- `ServerStatus` and `WorkerMetrics` of client/src/lib/types.ts, with the fields that the health
-- views read. A reading is a whole number of thousandths of its unit and is not negative; counts
-- are whole.
use home_camera_system.Prelude.{ltb, leb, ℕ, ◌*◌, Bool, true, false, ◌&&◌, Option, none, some}

pub data Camera : Type 0 where
  camera_ok camera_missing camera_error : Camera

pub data Gear : Type 0 where
  off scheduled_off low_memory thermal_throttled standby active : Gear

pub record Metrics : Type 0 where
  pub gear : Option Gear
  pub frames : Option ℕ
  pub dropped : Option ℕ
  pub infer_ms_recent : Option ℕ
  pub infer_ms_p95 : Option ℕ
  pub mediamtx_restarts : Option ℕ

pub record ServerStatus : Type 0 where
  pub is_ok : Bool
  pub camera : Camera
  pub detection_active : Bool
  pub worker_alive : Bool
  pub worker_last_seen_s : Option ℕ
  pub worker_metrics : Option Metrics
  pub cpu_temp_c : Option ℕ
  pub gpu_temp_c : Option ℕ
  pub cpu_freq_pct : Option ℕ
  pub memory_used_mb : Option ℕ
  pub memory_total_mb : Option ℕ
  pub disk_free_gb : Option ℕ
  pub seconds_since_last_frame : Option ℕ

-- A threshold in whole units.
abbrev pub units : ℕ → ℕ
units n = n * 1000

-- `x != null && x >= n`, `x != null && x > n` and `x != null && x < n`.
abbrev pub at_least : ℕ → Option ℕ → Bool
at_least n none = false
at_least n (some x) = leb n x

abbrev pub above : ℕ → Option ℕ → Bool
above n none = false
above n (some x) = ltb n x

abbrev pub below : ℕ → Option ℕ → Bool
below n none = false
below n (some x) = ltb x n

-- `used / total >= 0.9`, where both are there and the total is not 0.
abbrev pub memory_tight : Option ℕ → Option ℕ → Bool
memory_tight (some used) (some total) = ltb 0 total && leb (9 * total) (10 * used)
memory_tight _ _ = false

-- A server that is well, with a worker that watches.
abbrev pub calm : ServerStatus
calm = record {
  is_ok = true;
  camera = camera_ok;
  detection_active = true;
  worker_alive = true;
  worker_last_seen_s = some (units 2);
  worker_metrics = none;
  cpu_temp_c = some (units 50);
  gpu_temp_c = some (units 55);
  cpu_freq_pct = some (units 100);
  memory_used_mb = some (units 1000);
  memory_total_mb = some (units 4000);
  disk_free_gb = some (units 100);
  seconds_since_last_frame = some (units 1);
}
