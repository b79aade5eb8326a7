-- ===== src/Whep/Ledger.antt =====
-- The ledger of WHEP attempts of client/src/lib/webrtc.ts: the last twenty attempts, oldest first.
use home_camera_system.Prelude.{
  ltb, ◌==◌, if◌then◌else◌, ltb→lt, Bool-cases, Option-cases, length, set, drop, ℕ, zero, suc, ◌-◌,
  ◌≤◌, ◌≡◌, refl, ap, ◌≢◌, inl, inr, Option, none, some, List, [], ◌∷◌, ◌++◌, arith,
}
use home_camera_system.Whep.Candidates.{Summary}

pub data Outcome : Type 0 where
  connected set_remote_failed aborted ice_failed failed_early : Outcome
  http : ℕ → Outcome

pub record Attempt : Type 0 where
  pub attempt_id : ℕ
  pub rung_path : List ℕ
  pub started_at : ℕ
  pub settled_at : Option ℕ
  pub outcome : Option Outcome
  pub ms_to_first_track : Option ℕ
  pub offer_candidates : Option Summary
  pub answer_candidates : Option Summary

abbrev pub whep_attempt_ledger_cap : ℕ
whep_attempt_ledger_cap = 20

-- `while (ledger.length > CAP) ledger.shift()`
shift_excess : List Attempt → List Attempt
shift_excess [] = []
shift_excess (e ∷ es) =
    let shifted = shift_excess es in
    if ltb whep_attempt_ledger_cap (length (e ∷ es)) then shifted else e ∷ es

unfoldable pub append_whep_attempt : Attempt → List Attempt → List Attempt
unfolding shift_excess
append_whep_attempt e l = shift_excess (l ++ e ∷ [])

pub find_index : ℕ → List Attempt → Option ℕ
find_index id [] = none
find_index id (e ∷ es) =
    let later = find_index id es in
    if e.attempt_id == id then some 0 else elim later [ none ↦ none | some i ↦ some (suc i) ]

unfoldable pub upsert_whep_attempt : Attempt → List Attempt → List Attempt
unfolding find_index append_whep_attempt
upsert_whep_attempt e l = elim (find_index e.attempt_id l) [
  | none ↦ append_whep_attempt e l
  | some i ↦ set l i e
]

-- The entry of an attempt.
pub find_attempt : ℕ → List Attempt → Option Attempt
find_attempt id [] = none
find_attempt id (e ∷ es) = if e.attempt_id == id then some e else find_attempt id es

length-shift_excess : (l : List Attempt) → length (shift_excess l) ≤ whep_attempt_ledger_cap
unfolding shift_excess
length-shift_excess [] = omega arith
length-shift_excess (e ∷ es) = ground (arith, length-shift_excess es)

length-set : (l : List Attempt) (i : ℕ) (e : Attempt) → length (set l i e) ≡ length l
length-set [] i e = refl
length-set (x ∷ l) zero e = refl
length-set (x ∷ l) (suc i) e = ap suc (length-set l i e)

shift_excess-drop :
    (l : List Attempt) → shift_excess l ≡ drop (length l - whep_attempt_ledger_cap) l
unfolding shift_excess
shift_excess-drop [] = refl
shift_excess-drop (x ∷ xs) = elim (Bool-cases (ltb whep_attempt_ledger_cap (length (x ∷ xs)))) [
  | inl long ↦
      let more : length (x ∷ xs) - whep_attempt_ledger_cap
          ≡ suc (length xs - whep_attempt_ledger_cap) =
        omega (arith, ltb→lt whep_attempt_ledger_cap (length (x ∷ xs)) long) in
      rw (long, more) (shift_excess-drop xs)
  | inr short ↦
      let none_over : length (x ∷ xs) - whep_attempt_ledger_cap ≡ 0 = ground arith in
      rw (short, none_over)
]

-- Shifting while the ledger is too long leaves its last twenty entries.
pub append_whep_attempt-drop :
    (e : Attempt) (l : List Attempt)
    → append_whep_attempt e l ≡ drop (length (l ++ e ∷ []) - whep_attempt_ledger_cap) (l ++ e ∷ [])
unfolding append_whep_attempt
append_whep_attempt-drop e l = shift_excess-drop (l ++ e ∷ [])

find_attempt-append :
    (e : Attempt) (l : List Attempt)
    → find_index e.attempt_id l ≡ none
    → find_attempt e.attempt_id (l ++ e ∷ []) ≡ some e
unfolding find_index find_attempt
find_attempt-append e [] h = ground arith
find_attempt-append e (x ∷ xs) h = ground (arith, find_attempt-append e xs)

find_attempt-shift_excess :
    (e : Attempt) (l : List Attempt)
    → find_index e.attempt_id l ≡ none
    → find_attempt e.attempt_id (shift_excess (l ++ e ∷ [])) ≡ some e
unfolding shift_excess find_index find_attempt
find_attempt-shift_excess e [] h = ground arith
find_attempt-shift_excess e (x ∷ xs) h =
    ground (arith, find_attempt-shift_excess e xs, find_attempt-append e xs)

find_attempt-set :
    (e : Attempt) (l : List Attempt) (i : ℕ)
    → find_index e.attempt_id l ≡ some i
    → find_attempt e.attempt_id (set l i e) ≡ some e
unfolding find_index find_attempt
find_attempt-set e [] i h = ground arith
find_attempt-set e (x ∷ xs) zero h = ground arith
find_attempt-set e (x ∷ xs) (suc i) h = ground (arith, find_attempt-set e xs i)

-- An attempt that settles is found under its number with what it settled as, also if the ledger had
-- lost it in the meantime, and the ledger holds twenty entries at most.
pub find_attempt-upsert :
    (e : Attempt) (l : List Attempt)
    → length l ≤ whep_attempt_ledger_cap
    → (find_attempt e.attempt_id (upsert_whep_attempt e l) ≡ some e)
      × (length (upsert_whep_attempt e l) ≤ whep_attempt_ledger_cap)
unfolding upsert_whep_attempt
find_attempt-upsert e l short = elim (Option-cases (find_index e.attempt_id l)) [
  | inl new ↦
      rw (new, upsert_whep_attempt)
        (find_attempt-shift_excess e l new, length-shift_excess (l ++ e ∷ []))
  | inr (i, known) ↦
      rw (known, upsert_whep_attempt)
        (find_attempt-set e l i known, omega (arith, length-set l i e))
]

find_attempt-set_ne :
    (e : Attempt) (l : List Attempt) (id i : ℕ)
    → id ≢ e.attempt_id
    → find_index e.attempt_id l ≡ some i
    → find_attempt id (set l i e) ≡ find_attempt id l
unfolding find_index find_attempt
find_attempt-set_ne e [] id i ne h = ground arith
find_attempt-set_ne e (x ∷ xs) id zero ne h = ground arith
find_attempt-set_ne e (x ∷ xs) id (suc i) ne h = ground (arith, find_attempt-set_ne e xs id i)

-- The other attempts of the ledger keep their entries when one that is in it settles.
pub find_attempt-upsert_ne :
    (e : Attempt) (l : List Attempt) (id i : ℕ)
    → id ≢ e.attempt_id
    → find_index e.attempt_id l ≡ some i
    → find_attempt id (upsert_whep_attempt e l) ≡ find_attempt id l
unfolding upsert_whep_attempt
find_attempt-upsert_ne e l id i ne h =
    rw (h, upsert_whep_attempt) (find_attempt-set_ne e l id i ne h)

pub length-append_whep_attempt :
    (e : Attempt) (l : List Attempt) → length (append_whep_attempt e l) ≤ whep_attempt_ledger_cap
unfolding append_whep_attempt
length-append_whep_attempt e l = length-shift_excess (l ++ e ∷ [])
