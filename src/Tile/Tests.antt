-- ===== src/Tile/Tests.antt =====
-- The theorems about client/src/components/VideoTile.tsx at concrete runs.
use home_camera_system.Prelude.{◌+◌, ◌≤◌, ◌≡◌, refl, true, false, List, [], ◌∷◌}
use home_camera_system.Tile.{
  connecting, error, Tile, initial, Event, commits, whep_resolves, whep_rejects, loaded_data,
  pc_fails, run,
}
use home_camera_system.Tile.Liveness.{is_frame, is_playing, step-live}
use home_camera_system.Tile.Retries.{count_allowed, run-initial_retries}

-- Connected, and waiting for the first frame.
abbrev handshake : List Event
handshake = commits ∷ whep_resolves 1 ∷ []

abbrev waiting : Tile
waiting = run (initial true) handshake

waiting_connects : waiting.status ≡ connecting
unfolding run initial
waiting_connects = refl

step-live_example :
    (is_frame loaded_data ≡ true) × (waiting.supports_rvfc ≡ true → is_playing loaded_data ≡ false)
unfolding run initial
step-live_example = step-live waiting loaded_data (λ e. cc) refl

abbrev dropping : List Event
dropping =
    commits ∷ whep_resolves 1 ∷ loaded_data ∷ pc_fails ∷ commits ∷ whep_rejects 2 ∷ commits ∷ []

dropping_fails : (run (initial true) dropping).status ≡ error
unfolding run initial
dropping_fails = refl

run-initial_retries_example : (run (initial true) dropping).retry_nonce ≤ count_allowed dropping + 1
run-initial_retries_example = run-initial_retries true dropping
