-- ===== src/Health/Verdict.antt =====
-- `computeVerdict` of client/src/pages/settings/JetsonSection.tsx. Metrics that count are whole;
-- latencies are thousandths, as the other readings.
use home_camera_system.Prelude.{
  ltb, leb, if◌then◌else◌, is_some, or_else, ℕ, ◌+◌, ◌*◌, ◌≤◌, ◌≡◌, ◌↔◌, ◌⊎◌, Bool, true, false,
  ◌&&◌, not, Option, none, some, arith,
}
use home_camera_system.Health.Status.{
  Metrics, ServerStatus, units, at_least, above, below, memory_tight,
}

pub data Headline : Type 0 where
  checking_box box_unreachable all_normal : Headline
  process_offline process_reconnecting : Headline
  cpu_overheating gpu_overheating cpu_throttled storage_almost_full stream_keeps_dropping : Headline
  frames_being_dropped detection_slow : Headline
  cpu_warm gpu_warm clock_reduced storage_low memory_is_tight stream_recovered : Headline
  some_frames_dropped detection_bit_slow : Headline

pub data VerdictKind : Type 0 where
  pending healthy attention critical : VerdictKind

pub record Verdict : Type 0 where
  pub kind : VerdictKind
  pub headline : Headline

abbrev verdict : VerdictKind → Headline → Verdict
verdict k h = record { kind = k; headline = h }

abbrev metric : (Metrics → Option ℕ) → Option Metrics → Option ℕ
metric f none = none
metric f (some m) = f m

-- `droppedPct >= n`, by cross-multiplication: the share of `dropped` in all the frames, which is 0
-- where there are none.
abbrev pub dropped_at_least : ℕ → ServerStatus → Bool
dropped_at_least n s =
    let dropped = or_else (metric (λ m. m.dropped) s.worker_metrics) 0 in
    let frames = or_else (metric (λ m. m.frames) s.worker_metrics) 0 in
    ltb 0 (dropped + frames) && leb (n * (dropped + frames)) (100 * dropped)

-- The 95th percentile, if it is positive, and else the recent latency.
abbrev infer_basis : ServerStatus → ℕ
infer_basis s =
    let p95 = or_else (metric (λ m. m.infer_ms_p95) s.worker_metrics) 0 in
    let recent = or_else (metric (λ m. m.infer_ms_recent) s.worker_metrics) 0 in
    if ltb 0 p95 then p95 else recent

abbrev restarts_at_least : ℕ → ServerStatus → Bool
restarts_at_least n s = at_least n (metric (λ m. m.mediamtx_restarts) s.worker_metrics)

-- `worker_last_seen_s != null && worker_last_seen_s <= 60`
abbrev pub at_most : ℕ → Option ℕ → Bool
at_most n none = false
at_most n (some x) = leb x n

-- The critical conditions, the first that holds.
unfoldable pub critical_headline : ServerStatus → Option Headline
critical_headline s =
    if not s.is_ok
    then some box_unreachable
    else if not s.worker_alive && above (units 60) s.worker_last_seen_s
    then some process_offline
    else if at_least (units 85) s.cpu_temp_c
    then some cpu_overheating
    else if at_least (units 85) s.gpu_temp_c
    then some gpu_overheating
    else if below (units 75) s.cpu_freq_pct
    then some cpu_throttled
    else if below (units 5) s.disk_free_gb
    then some storage_almost_full
    else if restarts_at_least 3 s
    then some stream_keeps_dropping
    else if dropped_at_least 5 s
    then some frames_being_dropped
    else if leb (units 150) (infer_basis s)
    then some detection_slow
    else none

-- The warning tier, below all of those.
unfoldable pub attention_headline : ServerStatus → Option Headline
attention_headline s =
    if at_least (units 75) s.cpu_temp_c
    then some cpu_warm
    else if at_least (units 75) s.gpu_temp_c
    then some gpu_warm
    else if below (units 95) s.cpu_freq_pct
    then some clock_reduced
    else if below (units 10) s.disk_free_gb
    then some storage_low
    else if memory_tight s.memory_used_mb s.memory_total_mb
    then some memory_is_tight
    else if restarts_at_least 1 s
    then some stream_recovered
    else if dropped_at_least 1 s
    then some some_frames_dropped
    else if leb (units 80) (infer_basis s)
    then some detection_bit_slow
    else if not s.worker_alive && at_most (units 60) s.worker_last_seen_s
    then some process_reconnecting
    else none

abbrev choose : Option Headline → Option Headline → Verdict
choose (some h) _ = verdict critical h
choose none (some h) = verdict attention h
choose none none = verdict healthy all_normal

unfoldable pub compute_verdict : Option ServerStatus → Verdict
compute_verdict none = verdict pending checking_box
compute_verdict (some s) = choose (critical_headline s) (attention_headline s)

-- How bad a verdict is.
abbrev pub severity : VerdictKind → ℕ
severity pending = 0
severity healthy = 0
severity attention = 1
severity critical = 2

critical_hotter :
    (s : ServerStatus) (c d : ℕ)
    → s.cpu_temp_c ≡ some c
    → c ≤ d
    → is_some (critical_headline s) ≡ true
    → is_some (critical_headline (record s { cpu_temp_c = some d })) ≡ true
unfolding critical_headline
critical_hotter s c d e le h = ground arith

attention_hotter :
    (s : ServerStatus) (c d : ℕ)
    → s.cpu_temp_c ≡ some c
    → c ≤ d
    → is_some (attention_headline s) ≡ true
    → is_some (attention_headline (record s { cpu_temp_c = some d })) ≡ true
unfolding attention_headline
attention_hotter s c d e le h = ground arith

-- A worker that died without ever having been heard of is reported as healthy, if nothing else is
-- wrong: with no last heartbeat neither the offline nor the reconnecting test holds.
pub unheard_worker_is_healthy :
    (s : ServerStatus)
    → s.worker_alive ≡ false
    → s.worker_last_seen_s ≡ none
    → critical_headline (record s { worker_alive = true }) ≡ none
    → attention_headline (record s { worker_alive = true }) ≡ none
    → compute_verdict (some s) ≡ verdict healthy all_normal
unfolding compute_verdict critical_headline attention_headline
unheard_worker_is_healthy s d n c a = ground arith

-- A hotter CPU never reads better: with all else the same, a higher temperature gives a verdict that
-- is as bad or worse.
pub compute_verdict_hotter :
    (s : ServerStatus) (c d : ℕ)
    → s.cpu_temp_c ≡ some c
    → c ≤ d
    → severity (compute_verdict (some s)).kind
      ≤ severity (compute_verdict (some (record s { cpu_temp_c = some d }))).kind
unfolding compute_verdict
compute_verdict_hotter s c d e le =
    ground (arith, critical_hotter s c d e le, attention_hotter s c d e le)

-- What a healthy verdict vouches for.
pub record Healthy (s : ServerStatus) : Type 0 where
  pub reachable : s.is_ok ≡ true
  pub cool : (at_least (units 75) s.cpu_temp_c ≡ false) × (at_least (units 75) s.gpu_temp_c ≡ false)
  pub clocked : below (units 95) s.cpu_freq_pct ≡ false
  pub spacious : below (units 10) s.disk_free_gb ≡ false
  pub roomy : memory_tight s.memory_used_mb s.memory_total_mb ≡ false
  pub complete : dropped_at_least 1 s ≡ false
  pub quick : leb (units 80) (infer_basis s) ≡ false
  pub steady : restarts_at_least 1 s ≡ false
  pub heard : (s.worker_alive ≡ true) ⊎ (s.worker_last_seen_s ≡ none)

restarts_fewer : (s : ServerStatus) → restarts_at_least 1 s ≡ false → restarts_at_least 3 s ≡ false
restarts_fewer s h = ground arith

dropped_fewer : (s : ServerStatus) → dropped_at_least 1 s ≡ false → dropped_at_least 5 s ≡ false
dropped_fewer s h = ground arith

no_attention :
    (s : ServerStatus)
    → attention_headline s ≡ none
    → (at_least (units 75) s.cpu_temp_c ≡ false)
      × (at_least (units 75) s.gpu_temp_c ≡ false)
      × (below (units 95) s.cpu_freq_pct ≡ false)
      × (below (units 10) s.disk_free_gb ≡ false)
      × (memory_tight s.memory_used_mb s.memory_total_mb ≡ false)
      × (restarts_at_least 1 s ≡ false)
      × (dropped_at_least 1 s ≡ false)
      × (leb (units 80) (infer_basis s) ≡ false)
      × ((not s.worker_alive && at_most (units 60) s.worker_last_seen_s) ≡ false)
unfolding attention_headline
no_attention s h = ground arith

no_critical :
    (s : ServerStatus)
    → critical_headline s ≡ none
    → (s.is_ok ≡ true) × ((not s.worker_alive && above (units 60) s.worker_last_seen_s) ≡ false)
unfolding critical_headline
no_critical s h = ground arith

Healthy-no_attention : (s : ServerStatus) → Healthy s → attention_headline s ≡ none
unfolding attention_headline
Healthy-no_attention s v = ground arith

Healthy-no_critical : (s : ServerStatus) → Healthy s → critical_headline s ≡ none
unfolding critical_headline
Healthy-no_critical s v = ground (arith, restarts_fewer s v.steady, dropped_fewer s v.complete)

choose_healthy : (a b : Option Headline) → (choose a b).kind ≡ healthy → (a ≡ none) × (b ≡ none)
choose_healthy a b h = ground arith

Healthy-of_parts :
    (s : ServerStatus) → critical_headline s ≡ none → attention_headline s ≡ none → Healthy s
Healthy-of_parts s c a =
    let (cpu, gpu, clock, disk, memory, restarts, dropped, quick, reconnecting) =
      no_attention s a in
    let (reachable, offline) = no_critical s c in
    record {
      reachable = reachable;
      cool = (cpu, gpu);
      clocked = clock;
      spacious = disk;
      roomy = memory;
      complete = dropped;
      quick = quick;
      steady = restarts;
      heard = ground arith;
    }

-- The verdict is healthy exactly when the server answers, every reading that is there is on the good
-- side of its warning threshold, and the worker is alive or was never heard of.
pub compute_verdict_healthy :
    (s : ServerStatus) → ((compute_verdict (some s)).kind ≡ healthy) ↔ Healthy s
unfolding compute_verdict
compute_verdict_healthy s = (
  λ h.
      let parts = choose_healthy (critical_headline s) (attention_headline s) h in
      Healthy-of_parts s parts.0 parts.1,
  λ v. ground (arith, Healthy-no_critical s v, Healthy-no_attention s v),
)
