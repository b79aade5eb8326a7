-- ===== src/Banner/Alarm.antt =====
-- When the banner of client/src/components/ConnectionBanner.tsx turns into an alarm.
use home_camera_system.Prelude.{◌≡◌, Bool, true, false, some, List, [], ◌∷◌, arith}
use home_camera_system.Banner.{
  Banner, closed_soft, closed_hard, kind, Event, auth_is, told, grace_ends, escalation_ends,
  linger_ends, step, run,
}
use home_camera_system.Ws.{WsState, connecting, opened, closed, same_state}
use home_camera_system.Auth.{authed}

-- The escalation timeout does not fire.
abbrev pub is_quiet : List Event → Bool
is_quiet [] = true
is_quiet (escalation_ends ∷ es) = false
is_quiet (_ ∷ es) = is_quiet es

told-calm : (b : Banner) (s : WsState) → b.escalated ≡ false → (step b (told s)).escalated ≡ false
unfolding step
told-calm b connecting h = ground arith
told-calm b opened h = ground arith
told-calm b closed h = ground arith

run-calm :
    (b : Banner) (es : List Event)
    → b.escalated ≡ false
    → is_quiet es ≡ true
    → (run b es).escalated ≡ false
unfolding run step
run-calm b [] h q = h
run-calm b (auth_is s ∷ es) h q = run-calm (step b (auth_is s)) es (ground arith) q
run-calm b (told s ∷ es) h q = run-calm (step b (told s)) es (told-calm b s h) q
run-calm b (grace_ends ∷ es) h q = run-calm (step b grace_ends) es (ground arith) q
run-calm b (escalation_ends ∷ es) h q = absurd (cc)
run-calm b (linger_ends ∷ es) h q = run-calm (step b linger_ends) es (ground arith) q

calm_kind : (b : Banner) → b.escalated ≡ false → ¬ kind b ≡ some closed_hard
unfolding kind
calm_kind b h = ground arith

told_closed-calm :
    (b : Banner) → same_state closed b.state ≡ false → (step b (told closed)).escalated ≡ false
unfolding step
told_closed-calm b h = ground arith

-- For a user who is logged in and past the grace window, a socket that becomes closed is first told
-- of calmly. The banner is an alarm as soon as the escalation timeout fires, and never before it
-- does, whatever else happens.
pub outage_escalates :
    (b : Banner) (es : List Event)
    → b.auth_state ≡ authed
    → b.grace_elapsed ≡ true
    → same_state closed b.state ≡ false
    → is_quiet es ≡ true
    → let b' = step b (told closed) in
      (kind b' ≡ some closed_soft)
      × (kind (step b' escalation_ends) ≡ some closed_hard)
      × ¬ kind (run b' es) ≡ some closed_hard
unfolding step kind
outage_escalates b es a g s q = (
  ground arith,
  ground arith,
  calm_kind (run (step b (told closed)) es)
      (run-calm (step b (told closed)) es (told_closed-calm b s) q),
)
