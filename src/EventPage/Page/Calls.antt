-- ===== src/EventPage/Page/Calls.antt =====
-- The awaited calls of the events page (client/src/pages/Events.tsx), found and dropped by number.
use mathlib.Core.Path.{subst}
use mathlib.Core.Option.{some-injective}
use home_camera_system.Prelude.{
  ◌==◌, if◌then◌else◌, Bool-cases, Option-cases, All, ℕ, ◌+◌, ◌≡◌, sym, inl, inr, Bool, true, some,
  List, [], ◌∷◌, arith,
}
use home_camera_system.EventPage.State.{Call, Page}
use home_camera_system.EventPage.Page.{call_of, drop_call, settled, answer}

module _ {ℓ} (H : Call → Type ℓ) where
  abbrev pub Each : List (ℕ × Call) → Type ℓ
  Each = All (λ (nc : ℕ × Call). H nc.1)

  pub Each-drop_call : (n : ℕ) (cs : List (ℕ × Call)) → Each cs → Each (drop_call n cs)
  Each-drop_call n [] h = h
  Each-drop_call n ((i, c) ∷ cs) (p, h) = elim (Bool-cases (i == n)) [
    | inl y ↦ rw y h
    | inr m ↦ rw m (p, Each-drop_call n cs h)
  ]

  pub Each-call_of :
      (n : ℕ) (cs : List (ℕ × Call)) {c : Call} → Each cs → call_of n cs ≡ some c → H c
  Each-call_of n [] h e = cc
  Each-call_of n ((i, d) ∷ cs) (p, h) e = elim (Bool-cases (i == n)) [
    | inl y ↦ subst H (some-injective _ _ (rw y at e)) p
    | inr m ↦ Each-call_of n cs h (rw m at e)
  ]

-- How many awaited calls are of a kind.
abbrev pub count : (Call → Bool) → List (ℕ × Call) → ℕ
count kind [] = 0
count kind ((i, c) ∷ cs) = (if kind c then 1 else 0) + count kind cs

pub count-drop_call :
    (kind : Call → Bool) (n : ℕ) (cs : List (ℕ × Call)) {c : Call}
    → call_of n cs ≡ some c
    → count kind (drop_call n cs) + (if kind c then 1 else 0) ≡ count kind cs
count-drop_call kind n [] e = cc
count-drop_call kind n ((i, d) ∷ cs) e = elim (Bool-cases (i == n)) [
  | inl y ↦ rw y (rw (sym (some-injective _ _ (rw y at e))) (omega arith))
  | inr m ↦ rw m (omega (arith, count-drop_call kind n cs (rw m at e)))
]

-- A property of the page that what an answer does keeps, whatever awaited call it answers.
module _ {ℓ} (P : Page → Type ℓ) where
  pub answer-keeps :
      (kind : Call → Bool) (n : ℕ) (k : Call → Page → Page) (p : Page)
      → P p
      → ((c : Call)
          → call_of n p.calls ≡ some c
          → kind c ≡ true
          → P (k c (record p { calls = drop_call n p.calls })))
      → P (answer (call_of n p.calls) kind n k p)
  unfolding answer settled
  answer-keeps kind n k p v keep = elim (Option-cases (call_of n p.calls)) [
    | inl e ↦ rw e v
    | inr (c, e) ↦ rw e (elim (Bool-cases (kind c)) [ inl y ↦ rw y (keep c e y) | inr m ↦ rw m v ])
  ]
