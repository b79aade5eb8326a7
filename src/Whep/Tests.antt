-- ===== src/Whep/Tests.antt =====
-- The theorems about client/src/lib/webrtc.ts at concrete attempts.
use home_camera_system.Prelude.{
  ℕ, zero, suc, ◌+◌, ◌<◌, ◌≡◌, refl, true, false, none, some, List, [], ◌∷◌, arith,
}
use home_camera_system.Prelude.Text.{codes}
use home_camera_system.Whep.Candidates.{summarize_candidates}
use home_camera_system.Whep.Ledger.{Attempt}
use home_camera_system.Whep.Warm.{Warm, accounted}
use home_camera_system.Whep.Connection.{
  posting, established, Conn, begun, fresh, post_rejected, close_called, step,
}
use home_camera_system.Whep.Connection.Release.{Released, step-Released}
use home_camera_system.Whep.Connection.Settling.{step_settled}

abbrev sdp : List ℕ
sdp =
    codes
      "v=0\na=candidate:1 1 UDP 1 10.0.0.9 5000 typ host\na=candidate:2 1 UDP 1 8.8.8.8 5000 typ srflx"

sdp_summary :
    summarize_candidates (some sdp)
    ≡ record { total = 2; hosts = 1; srflxs = 1; relays = 0; prflxs = 0; srflx_present = true }
unfolding summarize_candidates
sdp_summary = refl

abbrev attempt_of : ℕ → Attempt
attempt_of id = begun id (codes "/whep/cam/whep") 1000

abbrev twenty_from : ℕ → ℕ → List Attempt
twenty_from zero id = []
twenty_from (suc n) id = attempt_of id ∷ twenty_from n (id + 1)

-- Two warmups are under way, and the first one's connection is cached.
abbrev racing : Warm
racing = record {
  warmed = some (0, 1000);
  warming = 1 ∷ [];
  claimed = [];
  closed = [];
  next_pc = 2;
}

racing-accounted : (pc : ℕ) → pc < 2 → accounted pc racing ≡ true
racing-accounted zero h = refl
racing-accounted (suc zero) h = refl
racing-accounted (suc (suc pc)) h = absurd (omega arith)

-- A cold attempt, up to its answer.
abbrev cold : Conn
cold = fresh (attempt_of 1) false none [] (some 7)

abbrev posted : Conn
posted = record cold { phase = posting; listening = true; local_sdp = some sdp }

step-Released_example : Released (step posted 1500 post_rejected)
step-Released_example = step-Released posted 1500 post_rejected (ground arith)

post_rejected_closes : (step posted 1500 post_rejected).pc_closed ≡ true
unfolding step
post_rejected_closes = refl

abbrev superseded : Conn
superseded = record posted {
  phase = established;
  signal_aborted = true;
  settled = true;
  own_stream = some 3;
}

step_settled_example :
    ((step superseded 2000 close_called).settled ≡ true)
    × ((step superseded 2000 close_called).ledger ≡ superseded.ledger)
step_settled_example = step_settled superseded 2000 close_called refl
