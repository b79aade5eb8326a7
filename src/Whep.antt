-- ===== src/Whep.antt =====
-- client/src/lib/webrtc.ts, the WHEP connection to MediaMTX: the ledger of attempts, the counts of
-- an SDP's candidates, the peer connection that is warmed in advance, and one attempt as a state
-- machine over the browser's answers.
pub mod Candidates
pub mod Ledger
pub mod Warm
pub mod Connection
mod Tests
