-- ===== src/Whep/Connection/Settling.antt =====
-- What an attempt of `connectWhep` (client/src/lib/webrtc.ts) writes to the ledger and to the video
-- element, which it shares with the other attempts.
use home_camera_system.Prelude.{length, ℕ, ◌≤◌, ◌≡◌, ◌≢◌, true, some, List, arith}
use home_camera_system.Whep.Ledger.{
  Attempt, whep_attempt_ledger_cap, upsert_whep_attempt, find_attempt-upsert,
}
use home_camera_system.Whep.Connection.{Conn, Event, track, state_changed, signal_aborts, step}

-- An attempt that has settled stays so, and whatever happens to it later, it writes nothing to the
-- ledger: the first outcome is the one that is kept.
pub step_settled :
    (c : Conn) (now : ℕ) (e : Event)
    → c.settled ≡ true
    → ((step c now e).settled ≡ true) × ((step c now e).ledger ≡ c.ledger)
unfolding step
step_settled c now (track stream) s = ground arith
step_settled c now (state_changed p ice) s = ground arith
step_settled c now signal_aborts s = ground arith
step_settled c now e s = ground arith

-- An attempt that was aborted, and whose own stream is not the one that is shown, leaves a newer
-- attempt's stream on the video element, whatever happens to it: a late track and `close` included.
pub step_keeps_stream :
    (c : Conn) (now : ℕ) (e : Event) (shown : ℕ)
    → c.signal_aborted ≡ true
    → c.src_object ≡ some shown
    → c.own_stream ≢ some shown
    → ((step c now e).src_object ≡ some shown) × ((step c now e).own_stream ≡ c.own_stream)
unfolding step
step_keeps_stream c now (track stream) shown a s o = ground arith
step_keeps_stream c now (state_changed p ice) shown a s o = ground arith
step_keeps_stream c now signal_aborts shown a s o = ground arith
step_keeps_stream c now e shown a s o = ground arith

length-upsert :
    (a : Attempt) (l : List Attempt)
    → length l ≤ whep_attempt_ledger_cap
    → length (upsert_whep_attempt a l) ≤ whep_attempt_ledger_cap
length-upsert a l b = (find_attempt-upsert a l b).1

-- The ledger keeps to its twenty entries over every event.
pub length-step :
    (c : Conn) (now : ℕ) (e : Event)
    → length c.ledger ≤ whep_attempt_ledger_cap
    → length (step c now e).ledger ≤ whep_attempt_ledger_cap
unfolding step
length-step c now (track stream) b = ground arith
length-step c now (state_changed p ice) b = grind (arith, length-upsert)
length-step c now signal_aborts b = ground arith
length-step c now e b = grind (arith, length-upsert)
