-- ===== src/Toast/Timers.antt =====
-- The timeouts of the toasts of client/src/lib/toast.tsx.
use home_camera_system.Prelude.{
  ◌==◌, contains, contains-set_delete, ℕ, ◌+◌, ◌≤◌, ◌≡◌, refl, true, ◌&&◌, ◌||◌, not, List, [], ◌∷◌,
  ◌++◌, arith,
}
use home_camera_system.Toast.{
  ToastKind, info, success, error, Toast, Toasts, initial, max_timeout_ms, timeout_for, without,
  clear_timeout, is_pending, is_shown, Event, shows, dismisses, times_out, unmounts, step, run,
}

-- A message is shown for 3.5 s at least and 9 s at most, and longer messages not shorter.
pub timeout_for_bounds :
    (kind : ToastKind) (m n : ℕ)
    → m ≤ n
    → (3500 ≤ timeout_for kind m)
      × (timeout_for kind n ≤ max_timeout_ms)
      × (timeout_for kind m ≤ timeout_for kind n)
unfolding timeout_for
timeout_for_bounds info m n h = omega arith
timeout_for_bounds success m n h = omega arith
timeout_for_bounds error m n h = omega arith

is_shown-without :
    (k id : ℕ) (ts : List Toast) → is_shown k (without id ts) ≡ (not (k == id) && is_shown k ts)
unfolding without
is_shown-without k id [] = ground arith
is_shown-without k id (t ∷ ts) = ground (arith, is_shown-without k id ts)

is_shown-append :
    (k : ℕ) (ts us : List Toast) → is_shown k (ts ++ us) ≡ (is_shown k ts || is_shown k us)
is_shown-append k [] us = refl
is_shown-append k (t ∷ ts) us = ground (arith, is_shown-append k ts us)

is_pending-clear_timeout :
    (k id : ℕ) (ts : List (ℕ × ℕ))
    → is_pending k (clear_timeout id ts) ≡ (not (k == id) && is_pending k ts)
unfolding clear_timeout
is_pending-clear_timeout k id [] = ground arith
is_pending-clear_timeout k id ((i, d) ∷ ts) = ground (arith, is_pending-clear_timeout k id ts)

-- Of the toast k: it is shown while the provider is mounted exactly if its handle is kept, and its
-- handle is kept exactly if its timeout is pending.
pub record Timed (k : ℕ) (t : Toasts) : Type 0 where
  pub shown_timed : t.mounted ≡ true → is_shown k t.shown ≡ contains k t.timers
  pub timed_pending : contains k t.timers ≡ is_pending k t.pending

-- Every event keeps each toast and its timeout together.
pub step-Timed : (k : ℕ) (t : Toasts) (e : Event) → Timed k t → Timed k (step t e)
unfolding step
step-Timed k t (shows n kind) v = ground (
  arith,
  is_shown-append k t.shown (record { id = t.last_id + 1; message_length = n; kind = kind } ∷ []),
)
step-Timed k t (dismisses id) v = ground (
  arith,
  is_shown-without k id t.shown,
  contains-set_delete k id t.timers,
  is_pending-clear_timeout k id t.pending,
)
step-Timed k t (times_out id) v = ground (
  arith,
  is_shown-without k id t.shown,
  contains-set_delete k id t.timers,
  is_pending-clear_timeout k id t.pending,
)
step-Timed k t unmounts v = ground arith

run-Timed : (k : ℕ) (t : Toasts) (es : List Event) → Timed k t → Timed k (run t es)
unfolding run
run-Timed k t [] v = v
run-Timed k t (e ∷ es) v = run-Timed k (step t e) es (step-Timed k t e v)

-- After any history, a toast is on a mounted provider's screen exactly while its timeout is pending,
-- so it goes away by itself.
pub run-initial-Timed :
    (k : ℕ) (es : List Event)
    → (run initial es).mounted ≡ true
    → is_shown k (run initial es).shown ≡ is_pending k (run initial es).pending
unfolding initial
run-initial-Timed k es m =
    let v : Timed k (run initial es) = run-Timed k initial es (ground arith) in
    ground (arith, v.shown_timed m, v.timed_pending)
