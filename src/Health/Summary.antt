-- ===== src/Health/Summary.antt =====
-- `computeHealth` of client/src/components/LiveStats.tsx.
use home_camera_system.Prelude.{
  leb, if◌then◌else◌, or_else, ℕ, ◌<◌, max, ◌≡◌, ◌↔◌, ◌⊎◌, Bool, true, false, ◌||◌, not, Option,
  none, some, arith,
}
use home_camera_system.Health.Status.{
  Gear, off, scheduled_off, low_memory, thermal_throttled, Metrics, ServerStatus, units, below,
  memory_tight,
}

pub data HealthLevel : Type 0 where
  fine warned failing : HealthLevel

-- The labels, each with the hint that goes with it.
pub data HealthLabel : Type 0 where
  -- the age of the last heartbeat, if there was one
  camera_offline : Option ℕ → HealthLabel
  paused_low_memory : HealthLabel
  -- whether the worker throttles itself, and whether the CPU clock is down
  running_warm : Bool → Bool → HealthLabel
  paused paused_quiet_hours memory_running_tight home_is_calm : HealthLabel

pub record HealthSummary : Type 0 where
  pub level : HealthLevel
  pub label : HealthLabel

abbrev summary : HealthLevel → HealthLabel → HealthSummary
summary l h = record { level = l; label = h }

abbrev pub gear_of : Option Metrics → Option Gear
gear_of none = none
gear_of (some m) = m.gear

abbrev pub is_gear_off : Option Gear → Bool
is_gear_off (some off) = true
is_gear_off _ = false

abbrev pub is_gear_scheduled_off : Option Gear → Bool
is_gear_scheduled_off (some scheduled_off) = true
is_gear_scheduled_off _ = false

abbrev pub is_gear_low_memory : Option Gear → Bool
is_gear_low_memory (some low_memory) = true
is_gear_low_memory _ = false

abbrev pub is_gear_thermal : Option Gear → Bool
is_gear_thermal (some thermal_throttled) = true
is_gear_thermal _ = false

-- `Math.max(cpu ?? 0, gpu ?? 0)`
abbrev pub hottest_temp : ServerStatus → ℕ
hottest_temp s = max (or_else s.cpu_temp_c 0) (or_else s.gpu_temp_c 0)

unfoldable pub compute_health : ServerStatus → HealthSummary
compute_health s =
    let gear = gear_of s.worker_metrics in
    let throttled = below (units 95) s.cpu_freq_pct in
    if not s.worker_alive
    then summary failing (camera_offline s.worker_last_seen_s)
    else if is_gear_low_memory gear
    then summary failing paused_low_memory
    else if is_gear_thermal gear || leb (units 85) (hottest_temp s) || throttled
    then summary warned (running_warm (is_gear_thermal gear) throttled)
    else if is_gear_off gear
    then summary warned paused
    else if is_gear_scheduled_off gear
    then summary warned paused_quiet_hours
    else if memory_tight s.memory_used_mb s.memory_total_mb
    then summary warned memory_running_tight
    else summary fine home_is_calm

-- What `home_is_calm` vouches for.
pub record Calm (s : ServerStatus) : Type 0 where
  pub heartbeat : s.worker_alive ≡ true
  pub watching :
      (is_gear_off (gear_of s.worker_metrics) ≡ false)
      × (is_gear_scheduled_off (gear_of s.worker_metrics) ≡ false)
      × (is_gear_low_memory (gear_of s.worker_metrics) ≡ false)
      × (is_gear_thermal (gear_of s.worker_metrics) ≡ false)
  pub cool : hottest_temp s < units 85
  pub clocked : below (units 95) s.cpu_freq_pct ≡ false
  pub roomy : memory_tight s.memory_used_mb s.memory_total_mb ≡ false

-- The live page says that home is calm exactly when the worker is alive, watches in no reduced gear,
-- and temperature, clock and memory are within their limits.
pub compute_health-Calm : (s : ServerStatus) → ((compute_health s).label ≡ home_is_calm) ↔ Calm s
unfolding compute_health
compute_health-Calm s = (λ h. ground arith, λ v. ground arith)

-- Red is kept for a worker that is silent or out of memory; heat and pauses are amber.
pub compute_health_failing :
    (s : ServerStatus)
    → ((compute_health s).level ≡ failing) ↔ (
        (s.worker_alive ≡ false)
        ⊎ ((s.worker_alive ≡ true) × (is_gear_low_memory (gear_of s.worker_metrics) ≡ true)))
unfolding compute_health
compute_health_failing s = (λ h. ground arith, λ v. ground arith)
