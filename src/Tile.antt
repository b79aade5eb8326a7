-- ===== src/Tile.antt =====
-- client/src/components/VideoTile.tsx, the live tile: the connect effect and the reconnects after a
-- drop or a resume. The effect runs anew when the stream or the retry nonce changes; each run is a
-- generation, and what an older run still gets is known by its generation. React's commit, which
-- runs the effects, is an event of its own.
pub mod Liveness
pub mod Retries
mod Tests
use home_camera_system.Prelude.{
  ◌==◌, if◌then◌else◌, is_some, contains, set_delete, ℕ, ◌+◌, Bool, true, false, ◌&&◌, not, Option,
  none, some, List, [], ◌∷◌,
}

pub data Status : Type 0 where
  idle connecting live error : Status

pub record Tile : Type 0 where
  pub status : Status
  pub retry_nonce : ℕ
  -- the stream that is chosen (`effectiveSrc`)
  pub source : ℕ
  -- `silentRetryUsedRef` and `resumeInFlightRef`
  pub silent_retry_used : Bool
  pub resume_in_flight : Bool
  -- the run of the effect: its dependencies, and its variables
  pub running : Option (ℕ × ℕ)
  pub generation : ℕ
  pub connect_pending : Bool
  pub stall_timer : Bool
  pub media_timer : Bool
  pub frame_callback : Bool
  -- the connections that are open, by the run that got them
  pub open_connections : List ℕ
  -- the browser
  pub supports_rvfc : Bool
  pub visible : Bool
  pub mounted : Bool

unfoldable pub initial : Bool → Tile
initial rvfc = record {
  status = idle;
  retry_nonce = 0;
  source = 0;
  silent_retry_used = false;
  resume_in_flight = false;
  running = none;
  generation = 0;
  connect_pending = false;
  stall_timer = false;
  media_timer = false;
  frame_callback = false;
  open_connections = [];
  supports_rvfc = rvfc;
  visible = true;
  mounted = true;
}

abbrev arm_frame_callback : Tile → Tile
arm_frame_callback t = if t.supports_rvfc then record t { frame_callback = true } else t

-- `markLive`
mark_live : Tile → Tile
mark_live t = record t { media_timer = false; silent_retry_used = false; status = live }

-- The cleanup of a run: its attempt is aborted, its timers cleared and its connection closed.
clean_up : Tile → Tile
clean_up t = record t {
  connect_pending = false;
  stall_timer = false;
  media_timer = false;
  frame_callback = false;
  open_connections = set_delete t.generation t.open_connections;
}

begin_run : Tile → Tile
begin_run t = record (arm_frame_callback t) {
  running = some (t.source, t.retry_nonce);
  generation = t.generation + 1;
  connect_pending = true;
  status = connecting;
}

abbrev pub is_due : Option (ℕ × ℕ) → ℕ → ℕ → Bool
is_due none source nonce = true
is_due (some (s, n)) source nonce = not (s == source && n == nonce)

abbrev pub is_error : Status → Bool
is_error error = true
is_error _ = false

-- The effects of a render: a new run if a dependency changed, and then the effect on `status`.
commit : Tile → Tile
unfolding clean_up begin_run
commit t =
    let run : Tile =
      if is_due t.running t.source t.retry_nonce then begin_run (clean_up t) else t in
    if is_error run.status then run else record run { resume_in_flight = false }

-- `connectWhep` resolves. A connection for an older run is closed at once.
resolve : ℕ → Tile → Tile
resolve run t =
    if run == t.generation && t.connect_pending
    then record t {
      connect_pending = false;
      media_timer = true;
      open_connections = run ∷ t.open_connections;
    }
    else t

-- `connectWhep` rejects. That an older run was aborted is no failure.
reject : ℕ → Tile → Tile
reject run t =
    if run == t.generation && t.connect_pending
    then record t { connect_pending = false; status = error }
    else t

-- `pcStateChange` at 'failed', 'disconnected' or 'closed': one silent reconnect for each time that
-- frames were seen, if the page is visible.
on_pc_failure : Tile → Tile
on_pc_failure t =
    if contains t.generation t.open_connections
    then if not t.silent_retry_used && t.visible
      then record t { silent_retry_used = true; retry_nonce = t.retry_nonce + 1 }
      else record t { status = error }
    else t

-- `requestReconnect`
request_reconnect : Tile → Tile
request_reconnect t =
    if is_error t.status && not t.resume_in_flight
    then record t { resume_in_flight = true; retry_nonce = t.retry_nonce + 1 }
    else t

pub data Event : Type 0 where
  commits : Event
  whep_resolves whep_rejects : ℕ → Event
  -- a frame was presented; the video element fires `loadeddata`, `playing`, `stalled` or `waiting`,
  -- `error`
  frame_presented loaded_data playing stalls video_fails : Event
  -- the timeouts of 3 s and of 8 s
  stall_times_out media_times_out : Event
  pc_fails : Event
  retry_clicked page_hidden page_shown online : Event
  -- the abort of the attempt under way comes back as its rejection
  quality_selected : ℕ → Event
  unmounts : Event

-- A run is under way: the listeners of the video element are registered.
abbrev is_running : Tile → Bool
is_running t = is_some t.running

act : Tile → Event → Tile
unfolding commit resolve reject on_pc_failure request_reconnect mark_live clean_up
act t commits = commit t
act t (whep_resolves run) = resolve run t
act t (whep_rejects run) = reject run t
act t frame_presented =
    if t.frame_callback then mark_live (record t { frame_callback = false }) else t
act t loaded_data = if is_running t then mark_live t else t
act t playing =
    let calm : Tile = record t { stall_timer = false } in
    if is_running t then if t.supports_rvfc then calm else mark_live calm else t
act t stalls =
    if is_running t && not t.stall_timer
    then record (arm_frame_callback t) { stall_timer = true }
    else t
act t video_fails = if is_running t then record t { status = error } else t
act t stall_times_out =
    if t.stall_timer then record t { stall_timer = false; status = error } else t
act t media_times_out =
    if t.media_timer then record t { media_timer = false; status = error } else t
act t pc_fails = on_pc_failure t
act t retry_clicked = record t { retry_nonce = t.retry_nonce + 1 }
act t page_hidden = record t { visible = false }
act t page_shown = request_reconnect (record t { visible = true })
act t online = request_reconnect t
act t (quality_selected s) = record t { source = s }
act t unmounts = record (clean_up t) { mounted = false; running = none }

unfoldable pub step : Tile → Event → Tile
unfolding act
step t e = if t.mounted then act t e else t

unfoldable pub run : Tile → List Event → Tile
unfolding step
run t [] = t
run t (e ∷ es) = run (step t e) es
