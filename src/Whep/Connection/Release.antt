-- ===== src/Whep/Connection/Release.antt =====
-- What a call of `connectWhep` (client/src/lib/webrtc.ts) that fails leaves behind.
use home_camera_system.Prelude.{ℕ, ◌≡◌, Bool, true, false, Option, List, arith}
use home_camera_system.Whep.Ledger.{Attempt}
use home_camera_system.Whep.Connection.{
  rejected, Conn, start, Event, track, state_changed, signal_aborts, step,
}

-- A rejected call has closed its peer connection, has removed its listeners and has settled.
pub record Released (c : Conn) : Type 0 where
  pub closes : c.phase ≡ rejected → c.pc_closed ≡ true
  pub forgets : c.phase ≡ rejected → c.listening ≡ false
  pub settles : c.phase ≡ rejected → c.settled ≡ true

-- The call itself satisfies the invariant up to its first await, aborted before or not.
pub start-Released :
    (id now : ℕ) (path : List ℕ) (signal : Bool) (claimed : Option (List ℕ)) (ledger : List Attempt)
    (shown : Option ℕ)
    → Released (start id path now signal claimed ledger shown)
unfolding start
start-Released id now path signal claimed ledger shown = ground arith

-- After every event a rejected call's peer connection is closed, its listeners are removed and its
-- attempt is settled, if that held before the event. So each path on which the call fails releases
-- all three.
pub step-Released : (c : Conn) (now : ℕ) (e : Event) → Released c → Released (step c now e)
unfolding step
step-Released c now (track stream) v = ground arith
step-Released c now (state_changed s ice) v = ground arith
step-Released c now signal_aborts v = ground arith
step-Released c now e v = ground arith
