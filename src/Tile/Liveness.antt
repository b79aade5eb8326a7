-- ===== src/Tile/Liveness.antt =====
-- When the tile of client/src/components/VideoTile.tsx says `live`, and what it waits for.
use home_camera_system.Prelude.{
  contains, contains-set_delete, ℕ, ◌≡◌, ◌≢◌, Bool, true, false, ◌||◌, arith,
}
use home_camera_system.Tile.{
  connecting, live, Tile, Event, commits, whep_resolves, whep_rejects, frame_presented, loaded_data,
  playing, quality_selected, unmounts, step,
}

-- The signals of a decoded or presented frame.
abbrev pub is_frame : Event → Bool
is_frame frame_presented = true
is_frame loaded_data = true
is_frame playing = true
is_frame _ = false

abbrev pub is_playing : Event → Bool
is_playing playing = true
is_playing _ = false

-- The tile becomes `live` by a frame signal only, and where the browser reports presented frames,
-- `playing` is none: neither the handshake nor a peer connection that is up makes it live.
pub step-live :
    (t : Tile) (e : Event)
    → t.status ≢ live
    → (step t e).status ≡ live
    → (is_frame e ≡ true) × (t.supports_rvfc ≡ true → is_playing e ≡ false)
unfolding step
step-live t (whep_resolves r) n l = ground arith
step-live t (whep_rejects r) n l = ground arith
step-live t (quality_selected s) n l = ground arith
step-live t e n l = ground arith

-- While a mounted tile is connecting, an attempt is under way or the eight-second timeout is set.
abbrev pub Watched : Tile → Type 0
Watched t = t.mounted ≡ true → t.status ≡ connecting → (t.connect_pending || t.media_timer) ≡ true

-- Only the connection of the current run is open, and only while the attempt is not pending.
pub record Sole (k : ℕ) (t : Tile) : Type 0 where
  pub current : contains k t.open_connections ≡ true → k ≡ t.generation
  pub settled : contains k t.open_connections ≡ true → t.connect_pending ≡ false

-- Every event keeps a mounted tile that is connecting watched: an attempt is under way or the
-- eight-second timeout is set.
pub step-Watched : (t : Tile) (e : Event) → Watched t → Watched (step t e)
unfolding step
step-Watched t (whep_resolves r) v = ground arith
step-Watched t (whep_rejects r) v = ground arith
step-Watched t (quality_selected s) v = ground arith
step-Watched t e v = ground arith

-- Every event keeps this of each connection: if it is open, it is the one of the current run, and
-- no attempt of that run is pending.
pub step-Sole : (k : ℕ) (t : Tile) (e : Event) → Sole k t → Sole k (step t e)
unfolding step
step-Sole k t (whep_resolves r) v = ground arith
step-Sole k t (whep_rejects r) v = ground arith
step-Sole k t (quality_selected s) v = ground arith
step-Sole k t commits v = ground (arith, contains-set_delete k t.generation t.open_connections)
step-Sole k t unmounts v = ground (arith, contains-set_delete k t.generation t.open_connections)
step-Sole k t e v = ground arith
