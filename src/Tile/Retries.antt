-- ===== src/Tile/Retries.antt =====
-- How often the tile of client/src/components/VideoTile.tsx reconnects.
use home_camera_system.Prelude.{
  if◌then◌else◌, contains, ℕ, ◌+◌, ◌≤◌, ◌≡◌, Bool, true, false, List, [], ◌∷◌, arith,
}
use home_camera_system.Tile.{
  error, Tile, initial, Event, whep_resolves, whep_rejects, frame_presented, loaded_data, playing,
  pc_fails, retry_clicked, page_shown, online, quality_selected, step, run,
}

-- The events that may start one more attempt: a frame gives the next drop its silent reconnect, and
-- the user and the resume signals ask for one each.
abbrev pub allows : Event → ℕ
allows frame_presented = 1
allows loaded_data = 1
allows playing = 1
allows retry_clicked = 1
allows page_shown = 1
allows online = 1
allows _ = 0

abbrev pub count_allowed : List Event → ℕ
count_allowed [] = 0
count_allowed (e ∷ es) = allows e + count_allowed es

abbrev spare : Tile → ℕ
spare t = if t.silent_retry_used then 0 else 1

step_retries :
    (t : Tile) (e : Event)
    → (step t e).retry_nonce + spare (step t e) ≤ t.retry_nonce + spare t + allows e
unfolding step
step_retries t (whep_resolves r) = ground arith
step_retries t (whep_rejects r) = ground arith
step_retries t (quality_selected s) = ground arith
step_retries t e = ground arith

run_retries :
    (t : Tile) (es : List Event)
    → (run t es).retry_nonce ≤ t.retry_nonce + spare t + count_allowed es
unfolding run
run_retries t [] = ground arith
run_retries t (e ∷ es) = omega (arith, run_retries (step t e) es, step_retries t e)

-- Whatever fails and however often, the tile starts at most one reconnect more than there were frame
-- signals, retries by the user and resume signals: failures alone reconnect once.
pub run-initial_retries :
    (rvfc : Bool) (es : List Event) → (run (initial rvfc) es).retry_nonce ≤ count_allowed es + 1
unfolding initial
run-initial_retries rvfc es = omega (arith, run_retries (initial rvfc) es)

-- A resume that fires `online` and `visibilitychange` back to back, in either order, starts one
-- attempt.
pub resume_coalesces :
    (t : Tile)
    → t.status ≡ error
    → t.mounted ≡ true
    → t.resume_in_flight ≡ false
    → ((step (step t online) page_shown).retry_nonce ≡ t.retry_nonce + 1)
      × ((step (step t page_shown) online).retry_nonce ≡ t.retry_nonce + 1)
unfolding step
resume_coalesces t e m r = ground arith

-- A drop in the middle of a visible stream reconnects without the user once; a second drop with no
-- frame in between is an error that waits for the user.
pub second_drop_is_error :
    (t : Tile)
    → t.mounted ≡ true
    → t.visible ≡ true
    → t.silent_retry_used ≡ false
    → contains t.generation t.open_connections ≡ true
    → let once = step t pc_fails in
      (once.status ≡ t.status)
      × (once.retry_nonce ≡ t.retry_nonce + 1)
      × ((step once pc_fails).status ≡ error)
      × ((step once pc_fails).retry_nonce ≡ t.retry_nonce + 1)
unfolding step
second_drop_is_error t m v s c = ground arith
