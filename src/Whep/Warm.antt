-- ===== src/Whep/Warm.antt =====
-- The peer connection that client/src/lib/webrtc.ts warms before the live page needs one
-- (`warmWhepConnection`, `_claimWarmed` and the `offline` listener). Peer connections are known by
-- numbers, in the order in which they are made. `closed` holds those that were closed, `claimed`
-- those that were handed to `connectWhep`, and `warming` those whose warmup is between its awaits.
use home_camera_system.Prelude.{
  ltb, ◌==◌, if◌then◌else◌, Option-cases, is_some, contains, set_delete, contains-set_delete, ℕ,
  ◌+◌, ◌-◌, ◌≤◌, ◌<◌, ◌≡◌, ◌⊎◌, inl, inr, Bool, true, false, ◌||◌, Option, none, some, List, ◌∷◌,
  arith,
}

pub record Warm : Type 0 where
  pub warmed : Option (ℕ × ℕ)
  pub warming : List ℕ
  pub claimed : List ℕ
  pub closed : List ℕ
  pub next_pc : ℕ

abbrev pub warm_ttl_ms : ℕ
warm_ttl_ms = 30000

-- Up to the first await: a second call while a warmed one exists does nothing.
pub start_warmup : Warm → Warm
start_warmup w = elim w.warmed [
  | some held ↦ w
  | none ↦ record w { warming = w.next_pc ∷ w.warming; next_pc = w.next_pc + 1 }
]

-- After the last await. Another call may have been faster, and then ours is dropped.
finish_warmup : ℕ → ℕ → Warm → Warm
finish_warmup pc now w = elim w.warmed [
  | some held ↦ record w { closed = pc ∷ w.closed }
  | none ↦ record w { warmed = some (pc, now) }
]

-- The catch block: `pc.close()`, then `_warmed = null`.
fail_warmup : ℕ → Warm → Warm
fail_warmup pc w = record w { closed = pc ∷ w.closed; warmed = none }

-- `_claimWarmed`, with what it returns.
pub claim_warmed : ℕ → Warm → Warm × Option ℕ
claim_warmed now w = elim w.warmed [
  | none ↦ (w, none)
  | some (pc, created_at) ↦
      if ltb warm_ttl_ms (now - created_at)
      then (record w { closed = pc ∷ w.closed; warmed = none }, none)
      else (record w { claimed = pc ∷ w.claimed; warmed = none }, some pc)
]

-- The listener of the window's `offline` event.
pub go_offline : Warm → Warm
go_offline w = elim w.warmed [
  | none ↦ w
  | some (pc, created_at) ↦ record w { closed = pc ∷ w.closed; warmed = none }
]

pub data WarmEvent : Type 0 where
  starts : WarmEvent
  finishes : ℕ → ℕ → WarmEvent
  fails : ℕ → WarmEvent
  claims : ℕ → WarmEvent
  offline : WarmEvent

-- Only a warmup that is under way finishes or fails.
unfoldable pub warm_step : Warm → WarmEvent → Warm
unfolding start_warmup finish_warmup fail_warmup claim_warmed go_offline
warm_step w starts = start_warmup w
warm_step w (finishes pc now) =
    if contains pc w.warming
    then finish_warmup pc now (record w { warming = set_delete pc w.warming })
    else w
warm_step w (fails pc) =
    if contains pc w.warming
    then fail_warmup pc (record w { warming = set_delete pc w.warming })
    else w
warm_step w (claims now) = (claim_warmed now w).0
warm_step w offline = go_offline w

abbrev pub is_warmed : ℕ → Option (ℕ × ℕ) → Bool
is_warmed pc none = false
is_warmed pc (some (p, t)) = pc == p

-- Somebody still holds the peer connection, or it was closed.
abbrev pub accounted : ℕ → Warm → Bool
accounted pc w =
    contains pc w.warming || is_warmed pc w.warmed || contains pc w.claimed || contains pc w.closed

-- A warmup that fails while another one's connection is cached.
abbrev pub drops_cached : Warm → WarmEvent → Bool
drops_cached w (fails pc) = is_some w.warmed
drops_cached w _ = false

accounted-warm_step :
    (w : Warm) (e : WarmEvent) (pc : ℕ)
    → drops_cached w e ≡ false
    → accounted pc w ≡ true
    → accounted pc (warm_step w e) ≡ true
unfolding warm_step
accounted-warm_step w starts pc d h = ground arith
accounted-warm_step w (finishes p now) pc d h = ground (arith, contains-set_delete pc p w.warming)
accounted-warm_step w (fails p) pc d h = ground (arith, contains-set_delete pc p w.warming)
accounted-warm_step w (claims now) pc d h = ground arith
accounted-warm_step w offline pc d h = ground arith

new_pc_accounted :
    (w : Warm) (e : WarmEvent) (pc : ℕ)
    → (pc < w.next_pc → accounted pc w ≡ true)
    → pc < (warm_step w e).next_pc
    → (accounted pc w ≡ true) ⊎ (contains pc (warm_step w e).warming ≡ true)
unfolding warm_step
new_pc_accounted w starts pc all h = ground arith
new_pc_accounted w (finishes p now) pc all h = ground arith
new_pc_accounted w (fails p) pc all h = ground arith
new_pc_accounted w (claims now) pc all h = ground arith
new_pc_accounted w offline pc all h = ground arith

-- No event leaks a peer connection but the failure of a warmup while the cache is filled: if all
-- that were ever made are warming, cached, claimed or closed, they are so after the event, the one
-- that it makes included.
pub warm_step_accounts :
    (w : Warm) (e : WarmEvent)
    → drops_cached w e ≡ false
    → ((pc : ℕ) → pc < w.next_pc → accounted pc w ≡ true)
    → (pc : ℕ) → pc < (warm_step w e).next_pc
    → accounted pc (warm_step w e) ≡ true
warm_step_accounts w e d all pc h = elim (new_pc_accounted w e pc (all pc) h) [
  | inl old ↦ accounted-warm_step w e pc d old
  | inr made ↦ ground arith
]

-- A warmup that fails while another one's connection is cached forgets that connection without
-- closing it: it is neither warming, cached, claimed nor closed any more.
pub fail_drops_cached :
    (w : Warm) (cached created_at pc : ℕ)
    → w.warmed ≡ some (cached, created_at)
    → contains pc w.warming ≡ true
    → contains cached w.warming ≡ false
    → contains cached w.claimed ≡ false
    → contains cached w.closed ≡ false
    → accounted cached (warm_step w (fails pc)) ≡ false
unfolding warm_step
fail_drops_cached w cached created_at pc h u n c d =
    ground (arith, contains-set_delete cached pc w.warming)

-- A warmed connection is handed out once, only if it is 30 s old at most, and the cache is empty
-- after every claim.
pub claim_warmed_once :
    (now later : ℕ) (w : Warm)
    → let w' = (claim_warmed now w).0 in
      (w'.warmed ≡ none)
      × (claim_warmed later w' ≡ (w', none))
      × ((pc : ℕ)
          → (claim_warmed now w).1 ≡ some pc
          → (created_at : ℕ) × (w.warmed ≡ some (pc, created_at))
            × (now ≤ created_at + warm_ttl_ms))
unfolding claim_warmed
claim_warmed_once now later w = elim (Option-cases w.warmed) [
  | inl empty ↦ (ground arith, ground arith, λ pc h. absurd (ground arith))
  | inr ((p, created_at), held) ↦
      (ground arith, ground arith, λ pc h. (created_at, ground arith, ground arith))
]
