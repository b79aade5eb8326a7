-- ===== src/Whep/Connection.antt =====
-- `connectWhep` of client/src/lib/webrtc.ts, as a state machine over what the browser answers at each
-- await. `Attempt` entries go to the shared ledger, and `src_object` is the stream that the shared
-- video element shows. SDPs are code points, a stream is known by a number. Every event carries the
-- time at which it happens.
pub mod Release
pub mod Settling
use home_camera_system.Prelude.{
  ◌==◌, if◌then◌else◌, is_some, or_else, ℕ, ◌-◌, Bool, true, false, ◌&&◌, not, Option, none, some,
  List,
}
use home_camera_system.Whep.Candidates.{Summary, summarize_candidates}
use home_camera_system.Whep.Ledger.{
  Outcome, connected, set_remote_failed, aborted, ice_failed, failed_early, http, Attempt,
  append_whep_attempt, upsert_whep_attempt,
}

pub data Phase : Type 0 where
  -- awaiting createOffer and setLocalDescription, the gathering, the POST, or a body
  offering gathering posting reading_answer : Phase
  reading_error : ℕ → Phase
  applying : List ℕ → Phase
  -- the promise is resolved, or rejected
  established rejected : Phase

pub record Conn : Type 0 where
  -- the variables of the call
  pub attempt : Attempt
  pub settled : Bool
  pub own_stream : Option ℕ
  pub ms_to_first_track : Option ℕ
  pub phase : Phase
  -- the abort signal, the peer connection and its two listeners
  pub signal_aborted : Bool
  pub local_sdp : Option (List ℕ)
  pub remote_sdp : Option (List ℕ)
  pub listening : Bool
  pub pc_closed : Bool
  -- shared with the other attempts
  pub ledger : List Attempt
  pub src_object : Option ℕ

-- The optional fields that a settling attempt passes.
pub record Extra : Type 0 where
  pub first_track : Option ℕ
  pub offer : Option Summary
  pub answer : Option Summary

abbrev pub settled_entry : Outcome → Extra → ℕ → Attempt → Attempt
settled_entry outcome extra now a = record a {
  settled_at = some now;
  outcome = some outcome;
  ms_to_first_track = extra.first_track;
  offer_candidates = extra.offer;
  answer_candidates = extra.answer;
}

-- `settleAttempt`: the first outcome stays.
pub settle_attempt : Outcome → Extra → ℕ → Conn → Conn
settle_attempt outcome extra now c = if c.settled then c else record c {
  settled = true;
  ledger = upsert_whep_attempt (settled_entry outcome extra now c.attempt) c.ledger;
}

abbrev offer_only : Conn → Extra
offer_only c = record {
  first_track = none;
  offer = some (summarize_candidates c.local_sdp);
  answer = none;
}

abbrev both_sides : Conn → Extra
both_sides c = record {
  first_track = c.ms_to_first_track;
  offer = some (summarize_candidates c.local_sdp);
  answer = some (summarize_candidates c.remote_sdp);
}

-- `throwIfAborted`, at an abort.
abort_now : ℕ → Conn → Conn
unfolding settle_attempt
abort_now now c = settle_attempt aborted (offer_only c) now (record c { pc_closed = true })

-- The finally block of a call that throws.
reject : ℕ → Conn → Conn
unfolding settle_attempt
reject now c =
    let done : Conn =
      settle_attempt (if c.signal_aborted then aborted else failed_early) (both_sides c) now c in
    record done { phase = rejected; listening = false; pc_closed = true }

abbrev pub begun : ℕ → List ℕ → ℕ → Attempt
begun id path now = record {
  attempt_id = id;
  rung_path = path;
  started_at = now;
  settled_at = none;
  outcome = none;
  ms_to_first_track = none;
  offer_candidates = none;
  answer_candidates = none;
}

-- The variables once the attempt is in the ledger. `claimed` is the local description of the
-- connection that `_claimWarmed` handed over.
abbrev pub fresh : Attempt → Bool → Option (List ℕ) → List Attempt → Option ℕ → Conn
fresh a signal claimed ledger shown = record {
  attempt = a;
  settled = false;
  own_stream = none;
  ms_to_first_track = none;
  phase = offering;
  signal_aborted = signal;
  local_sdp = claimed;
  remote_sdp = none;
  listening = false;
  pc_closed = false;
  ledger = append_whep_attempt a ledger;
  src_object = shown;
}

-- The call up to its first await.
pub start : ℕ → List ℕ → ℕ → Bool → Option (List ℕ) → List Attempt → Option ℕ → Conn
unfolding abort_now
start id path now signal claimed ledger shown =
    let c : Conn = fresh (begun id path now) signal claimed ledger shown in
    if signal
    then record (abort_now now c) { phase = rejected }
    else record c { listening = true; phase = if is_some claimed then posting else offering }

pub data PcState : Type 0 where
  pc_new pc_connecting pc_connected pc_disconnected pc_failed : PcState

pub data Event : Type 0 where
  offer_made offer_gathered : List ℕ → Event
  offer_rejected post_rejected answer_unreadable answer_applied answer_rejected : Event
  -- `res.ok` and the status
  responded : Bool → ℕ → Event
  body_read : List ℕ → Event
  track : ℕ → Event
  -- `connectionState` and `iceConnectionState`
  state_changed : PcState → PcState → Event
  signal_aborts close_called : Event

abbrev is_connected : PcState → Bool
is_connected pc_connected = true
is_connected _ = false

abbrev is_failed : PcState → Bool
is_failed pc_failed = true
is_failed _ = false

-- `pc.ontrack`
on_track : ℕ → ℕ → Conn → Conn
on_track now stream c = if c.signal_aborted then c else record c {
  own_stream = some stream;
  src_object = some stream;
  ms_to_first_track = some (or_else c.ms_to_first_track (now - c.attempt.started_at));
}

-- `onConnectionStateChange`, while it is registered.
on_connection_state_change : ℕ → PcState → PcState → Conn → Conn
unfolding settle_attempt
on_connection_state_change now s ice c =
    if not c.listening
    then c
    else if is_connected s
    then settle_attempt connected (both_sides c) now c
    else if not (is_failed s) && not (is_failed ice)
    then c
    else settle_attempt ice_failed (both_sides c) now c

abbrev same_stream : Option ℕ → Option ℕ → Bool
same_stream (some a) (some b) = a == b
same_stream _ _ = false

-- The `close` of the connection that was returned.
close : ℕ → Conn → Conn
unfolding settle_attempt
close now c =
    let done : Conn = settle_attempt aborted (both_sides c) now (record c { listening = false }) in
    record done {
      src_object = if same_stream c.own_stream c.src_object then none else c.src_object;
      pc_closed = true;
    }

-- What each await goes on with. An answer that the call does not wait for changes nothing.
resume : ℕ → Phase → Event → Conn → Conn
unfolding abort_now reject settle_attempt
resume now offering (offer_made sdp) c = record c { local_sdp = some sdp; phase = gathering }
resume now offering offer_rejected c = reject now c
resume now gathering (offer_gathered sdp) c =
    let gathered : Conn = record c { local_sdp = some sdp } in
    if c.signal_aborted
    then reject now (abort_now now gathered)
    else record gathered { phase = posting }
resume now posting post_rejected c = reject now c
resume now posting (responded ok status) c = record c {
  phase = if ok then reading_answer else reading_error status;
}
resume now (reading_error status) (body_read text) c =
    reject now (settle_attempt (http status) (offer_only c) now c)
resume now reading_answer (body_read sdp) c = record c { phase = applying sdp }
resume now reading_answer answer_unreadable c = reject now c
resume now (applying sdp) answer_applied c = record c { remote_sdp = some sdp; phase = established }
resume now (applying sdp) answer_rejected c =
    let extra : Extra = record (offer_only c) { answer = some (summarize_candidates (some sdp)) } in
    reject now (settle_attempt set_remote_failed extra now c)
resume now established close_called c = close now c
resume now _ _ c = c

unfoldable pub step : Conn → ℕ → Event → Conn
unfolding resume on_track on_connection_state_change close
step c now (track stream) = on_track now stream c
step c now (state_changed s ice) = on_connection_state_change now s ice c
step c now signal_aborts = record c { signal_aborted = true }
step c now e = resume now c.phase e c
