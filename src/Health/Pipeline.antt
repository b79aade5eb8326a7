-- ===== src/Health/Pipeline.antt =====
-- client/src/lib/pipelineHealth.ts: the verdicts on the four stages of the pipeline.
use home_camera_system.Prelude.{
  ltb, if◌then◌else◌, Option-cases, ℕ, ◌≤◌, ◌≡◌, refl, ◌↔◌, inl, inr, Bool, true, false, not,
  Option, none, some, List, [], ◌∷◌, arith,
}
use home_camera_system.Health.Status.{
  Camera, camera_ok, camera_missing, camera_error, ServerStatus, units, at_least, below,
}
use home_camera_system.Health.WatchState.{
  WatchStateKind, offline, armed, off_duty, checking, ribbon_state,
}

pub data PipelineStage : Type 0 where
  camera_stage mediamtx_stage detect_stage server_stage : PipelineStage

pub data PipelineVerdict : Type 0 where
  up down warn unknown : PipelineVerdict

pub data Reason : Type 0 where
  status_healthy status_down no_status_yet no_frame_freshness_yet no_worker_status_yet : Reason
  camera_is_ok camera_is_missing camera_is_in_error : Reason
  no_frames_reported stream_is_stale frames_fresh : Reason
  worker_silent detection_is_active detection_is_off : Reason

pub record StageHealth : Type 0 where
  pub stage : PipelineStage
  pub verdict : PipelineVerdict
  pub reason : Reason

abbrev health : PipelineStage → PipelineVerdict → Reason → StageHealth
health s v r = record { stage = s; verdict = v; reason = r }

server_health : Bool → StageHealth
server_health well =
    if well then health server_stage up status_healthy else health server_stage down status_down

camera_health : Camera → StageHealth
camera_health camera_ok = health camera_stage up camera_is_ok
camera_health camera_missing = health camera_stage down camera_is_missing
camera_health camera_error = health camera_stage down camera_is_in_error

mediamtx_health : Option ℕ → StageHealth
mediamtx_health none = health mediamtx_stage unknown no_frames_reported
mediamtx_health (some s) =
    if ltb (units 60) s
    then health mediamtx_stage down stream_is_stale
    else health mediamtx_stage up frames_fresh

detect_health : ServerStatus → StageHealth
detect_health s =
    if not s.worker_alive
    then health detect_stage down worker_silent
    else if s.detection_active
    then health detect_stage up detection_is_active
    else health detect_stage warn detection_is_off

unfoldable pub derive_pipeline : Option ServerStatus → List StageHealth
unfolding server_health camera_health mediamtx_health detect_health
derive_pipeline none =
    health camera_stage unknown no_status_yet
    ∷ health mediamtx_stage unknown no_frame_freshness_yet
    ∷ health detect_stage unknown no_worker_status_yet
    ∷ server_health false
    ∷ []
derive_pipeline (some s) =
    camera_health s.camera
    ∷ mediamtx_health s.seconds_since_last_frame
    ∷ detect_health s
    ∷ server_health s.is_ok
    ∷ []

-- `gpuTempTone` and `cpuFreqTone`
pub data GaugeTone : Type 0 where
  neutral hot cautious : GaugeTone

unfoldable pub gpu_temp_tone : Option ℕ → GaugeTone
gpu_temp_tone c =
    if at_least (units 80) c then hot else if at_least (units 70) c then cautious else neutral

unfoldable pub cpu_freq_tone : Option ℕ → GaugeTone
cpu_freq_tone pct = if below (units 100) pct then cautious else neutral

abbrev same_stage : PipelineStage → PipelineStage → Bool
same_stage camera_stage camera_stage = true
same_stage mediamtx_stage mediamtx_stage = true
same_stage detect_stage detect_stage = true
same_stage server_stage server_stage = true
same_stage _ _ = false

-- The verdict on a stage, of a list of stages.
abbrev pub verdict_of : PipelineStage → List StageHealth → PipelineVerdict
verdict_of st [] = unknown
verdict_of st (h ∷ hs) = if same_stage st h.stage then h.verdict else verdict_of st hs

-- The word of the ribbon that a verdict on the detection stage stands for.
abbrev pub word_for : PipelineVerdict → WatchStateKind
word_for up = armed
word_for down = offline
word_for warn = off_duty
word_for unknown = checking

-- The ribbon and the pipeline panel tell the same of the detection, whatever the status: the two
-- ladders agree on every status and on none.
pub ribbon_state-derive_pipeline :
    (s : Option ServerStatus)
    → ribbon_state s ≡ word_for (verdict_of detect_stage (derive_pipeline s))
unfolding ribbon_state derive_pipeline
ribbon_state-derive_pipeline none = refl
ribbon_state-derive_pipeline (some s) = ground arith

-- A stage is up only on evidence: with no status every stage but the server is unknown and the
-- server is down, and the stream is up exactly when a frame was seen within the last minute.
pub derive_pipeline_evidence :
    (s : ServerStatus)
    → (verdict_of server_stage (derive_pipeline none) ≡ down)
      × (verdict_of mediamtx_stage (derive_pipeline none) ≡ unknown)
      × ((verdict_of mediamtx_stage (derive_pipeline (some s)) ≡ up)
          ↔ ((age : ℕ) × (s.seconds_since_last_frame ≡ some age) × (age ≤ units 60)))
unfolding derive_pipeline
derive_pipeline_evidence s = (
  refl,
  refl,
  (
    λ h. elim (Option-cases s.seconds_since_last_frame) [
      | inl unseen ↦ absurd (ground arith)
      | inr (age, seen) ↦ (age, seen, ground arith)
    ],
    λ (age, seen, fresh). ground arith,
  ),
)
