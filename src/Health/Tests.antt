-- ===== src/Health/Tests.antt =====
-- The theorems about the health views at concrete statuses.
use home_camera_system.Prelude.{◌≡◌, refl, true, false, none, some}
use home_camera_system.Health.Status.{ServerStatus, calm}
use home_camera_system.Health.WatchState.{
  reconnecting, WatchStateInput, watch_state_of, ribbon_state,
}
use home_camera_system.Health.Pipeline.{
  detect_stage, derive_pipeline, verdict_of, word_for, ribbon_state-derive_pipeline,
}

abbrev restarting : WatchStateInput
restarting = record {
  status_known = false;
  is_alive = none;
  is_detecting = none;
  video_playing = some true;
}

restarting_reconnects : watch_state_of restarting ≡ reconnecting
unfolding watch_state_of
restarting_reconnects = refl

ribbon_state-derive_pipeline_example :
    ribbon_state (some calm) ≡ word_for (verdict_of detect_stage (derive_pipeline (some calm)))
ribbon_state-derive_pipeline_example = ribbon_state-derive_pipeline (some calm)

abbrev unheard : ServerStatus
unheard = record calm { worker_alive = false; worker_last_seen_s = none }
