-- ===== src/Telemetry/Dwell.antt =====
-- The dwell times of client/src/lib/telemetry.ts against the time that has passed.
use home_camera_system.Prelude.{ℕ, ◌+◌, ◌-◌, ◌≤◌, false, Option, none, some, List, [], ◌∷◌, arith}
use home_camera_system.Telemetry.{
  Telemetry, finish_current, leave_page, enter, Event, navigates, tab_hidden, tab_shown, page_hide,
  unmounts, on_shown, act, step,
}

abbrev pub total : List (ℕ × ℕ) → ℕ
total [] = 0
total ((name, dwell) ∷ spans) = dwell + total spans

abbrev pub StartedBy : ℕ → Option (ℕ × ℕ) → Type 0
StartedBy now none = Unit {0}
StartedBy now (some (name, started)) = started ≤ now

abbrev pub open_time : ℕ → Option (ℕ × ℕ) → ℕ
open_time now none = 0
open_time now (some (name, started)) = now - started

pub record Accounted (t : Telemetry) : Type 0 where
  pub begun : StartedBy t.now t.span
  pub once : total t.finished + open_time t.now t.span ≤ t.now

later : (t : Telemetry) (dt : ℕ) → Accounted t → Accounted (record t { now = t.now + dt })
later t dt v = ground (arith, v.begun, v.once)

finish_current-Accounted : (t : Telemetry) → Accounted t → Accounted (finish_current t)
unfolding finish_current
finish_current-Accounted t v = ground (arith, v.begun, v.once)

leave_page-Accounted : (p : Option ℕ) (t : Telemetry) → Accounted t → Accounted (leave_page p t)
unfolding leave_page
leave_page-Accounted none t v = v
leave_page-Accounted (some page) t v = ground (arith, v.begun, v.once)

enter-Accounted : (page : ℕ) (t : Telemetry) → Accounted t → Accounted (enter page t)
unfolding enter
enter-Accounted page t v = ground (arith, v.begun, v.once)

on_shown-Accounted : (p : Option ℕ) (t : Telemetry) → Accounted t → Accounted (on_shown p t)
unfolding on_shown
on_shown-Accounted none t v = v
on_shown-Accounted (some page) t v = ground (arith, v.begun, v.once)

act-Accounted : (t : Telemetry) (e : Event) → Accounted t → Accounted (act t e)
unfolding act
act-Accounted t (navigates page) v =
    ground (arith, v, enter-Accounted page _ (leave_page-Accounted t.pathname t v))
act-Accounted t tab_hidden v =
    ground (arith, finish_current-Accounted (record t { visible = false }))
act-Accounted t tab_shown v = on_shown-Accounted t.pathname _ (ground (arith, v.begun, v.once))
act-Accounted t page_hide v = ground (arith, v.begun, v.once)
act-Accounted t unmounts v =
    let w = leave_page-Accounted t.pathname t v in ground (arith, w.begun, w.once)

-- No time is counted twice: every event keeps what the finished spans and the one under way amount
-- to at most the time that has passed, whatever the user does.
pub step-Accounted : (t : Telemetry) (dt : ℕ) (e : Event) → Accounted t → Accounted (step t dt e)
unfolding step
step-Accounted t dt e v = act-Accounted (record t { now = t.now + dt }) e (later t dt v)
