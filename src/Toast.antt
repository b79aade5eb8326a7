-- ===== src/Toast.antt =====
-- client/src/lib/toast.tsx, the transient messages: `timeoutFor` and the state of `ToastProvider`.
-- A toast is known by the id that `idRef` gives it, and a message by its length. `timers` holds the
-- keys of `timersRef`, `pending` the timeouts of the browser with the toast that each is for.
pub mod Timers
mod Tests
use home_camera_system.Prelude.{
  ◌==◌, if◌then◌else◌, contains, set_delete, ℕ, ◌+◌, ◌*◌, min, max, Bool, true, false, ◌||◌, List,
  [], ◌∷◌, ◌++◌,
}

pub data ToastKind : Type 0 where
  info success error : ToastKind

pub record Toast : Type 0 where
  pub id : ℕ
  pub message_length : ℕ
  pub kind : ToastKind

pub record Toasts : Type 0 where
  pub shown : List Toast
  pub last_id : ℕ
  pub timers : List ℕ
  pub pending : List (ℕ × ℕ)
  pub mounted : Bool

unfoldable pub initial : Toasts
initial = record { shown = []; last_id = 0; timers = []; pending = []; mounted = true }

abbrev timeout_ms : ToastKind → ℕ
timeout_ms info = 3500
timeout_ms success = 3500
timeout_ms error = 5000

abbrev per_char_ms : ℕ
per_char_ms = 60

abbrev pub max_timeout_ms : ℕ
max_timeout_ms = 9000

unfoldable pub timeout_for : ToastKind → ℕ → ℕ
timeout_for kind message_length =
    max (timeout_ms kind) (min (message_length * per_char_ms) max_timeout_ms)

-- `cur.filter((t) => t.id !== id)`
without : ℕ → List Toast → List Toast
without id [] = []
without id (t ∷ ts) = let rest = without id ts in if t.id == id then rest else t ∷ rest

clear_timeout : ℕ → List (ℕ × ℕ) → List (ℕ × ℕ)
clear_timeout id [] = []
clear_timeout id ((i, d) ∷ ts) =
    let rest = clear_timeout id ts in if i == id then rest else (i, d) ∷ rest

dismiss : ℕ → Toasts → Toasts
unfolding without clear_timeout
dismiss id t =
    let cleared : Toasts =
      if contains id t.timers
      then record t { pending = clear_timeout id t.pending; timers = set_delete id t.timers }
      else t in
    record cleared { shown = without id cleared.shown }

show_toast : ℕ → ToastKind → Toasts → Toasts
unfolding timeout_for
show_toast message_length kind t =
    let id = t.last_id + 1 in
    record t {
      last_id = id;
      shown = t.shown ++ record { id = id; message_length = message_length; kind = kind } ∷ [];
      pending = (id, timeout_for kind message_length) ∷ t.pending;
      timers = id ∷ t.timers;
    }

-- The callback of a toast's timeout.
time_out : ℕ → Toasts → Toasts
unfolding without clear_timeout
time_out id t = record t {
  pending = clear_timeout id t.pending;
  timers = set_delete id t.timers;
  shown = without id t.shown;
}

-- The cleanup of the provider.
unmount : Toasts → Toasts
unmount t = record t { pending = []; timers = []; mounted = false }

abbrev pub is_pending : ℕ → List (ℕ × ℕ) → Bool
is_pending id [] = false
is_pending id ((i, d) ∷ ts) = (id == i) || is_pending id ts

abbrev pub is_shown : ℕ → List Toast → Bool
is_shown id [] = false
is_shown id (t ∷ ts) = (id == t.id) || is_shown id ts

pub data Event : Type 0 where
  shows : ℕ → ToastKind → Event
  dismisses times_out : ℕ → Event
  unmounts : Event

-- Nothing happens to an unmounted provider, and a timeout that was cleared does not fire.
unfoldable pub step : Toasts → Event → Toasts
unfolding show_toast dismiss time_out unmount
step t (shows n kind) = if t.mounted then show_toast n kind t else t
step t (dismisses id) = if t.mounted then dismiss id t else t
step t (times_out id) = if is_pending id t.pending then time_out id t else t
step t unmounts = unmount t

unfoldable pub run : Toasts → List Event → Toasts
unfolding step
run t [] = t
run t (e ∷ es) = run (step t e) es
