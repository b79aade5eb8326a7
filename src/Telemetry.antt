-- ===== src/Telemetry.antt =====
-- How long each page was looked at (usePageViewTelemetry of client/src/lib/telemetry.ts): the span
-- under way and the spans that were finished. The clock is whole milliseconds.
pub mod Dwell
mod Tests
use home_camera_system.Prelude.{
  ◌==◌, if◌then◌else◌, is_some, ℕ, ◌+◌, ◌-◌, Bool, true, false, Option, none, some, List, [], ◌∷◌,
}

-- Pages by number. `pathname` is the page that the router is on; `none` is the hook unmounted.
pub record Telemetry : Type 0 where
  pub now : ℕ
  pub pathname : Option ℕ
  pub visible : Bool
  -- `spanRef`: the page and the start
  pub span : Option (ℕ × ℕ)
  -- page and dwell, the last one first
  pub finished : List (ℕ × ℕ)

-- `finishSpan`, whose payload is sent if someone is logged in.
abbrev finish_span : ℕ → ℕ → Telemetry → Telemetry
finish_span name started t = record t { finished = (name, t.now - started) ∷ t.finished }

-- `finishCurrent`
finish_current : Telemetry → Telemetry
finish_current t = elim t.span [
  | none ↦ t
  | some (name, started) ↦ record (finish_span name started t) { span = none }
]

begin_span : ℕ → Telemetry → Telemetry
begin_span name t = record t { span = some (name, t.now) }

-- The cleanup of the effect for a page: only a span of that page is finished.
leave : ℕ → Telemetry → Telemetry
leave page t = elim t.span [
  | none ↦ t
  | some (name, started) ↦
      if name == page then record (finish_span name started t) { span = none } else t
]

leave_page : Option ℕ → Telemetry → Telemetry
unfolding leave
leave_page none t = t
leave_page (some page) t = leave page t

-- The effect for a page: a span that is left over is finished first.
enter : ℕ → Telemetry → Telemetry
unfolding finish_current begin_span
enter page t = begin_span page (record (finish_current t) { pathname = some page })

pub data Event : Type 0 where
  -- the router goes to a page, or the component is mounted on it
  navigates : ℕ → Event
  tab_hidden tab_shown page_hide unmounts : Event

on_shown : Option ℕ → Telemetry → Telemetry
unfolding begin_span
on_shown none t = t
on_shown (some page) t = if is_some t.span then t else begin_span page t

act : Telemetry → Event → Telemetry
unfolding leave_page enter finish_current on_shown
act t (navigates page) =
    if elim t.pathname [ none ↦ false | some p ↦ p == page ]
    then t
    else enter page (leave_page t.pathname t)
act t tab_hidden =
    let hidden : Telemetry = record t { visible = false } in
    if is_some t.pathname then finish_current hidden else hidden
act t tab_shown = on_shown t.pathname (record t { visible = true })
act t page_hide = if is_some t.pathname then finish_current t else t
act t unmounts = record (leave_page t.pathname t) { pathname = none }

-- An event, after some time.
unfoldable pub step : Telemetry → ℕ → Event → Telemetry
unfolding act
step t dt e = act (record t { now = t.now + dt }) e

unfoldable pub run : Telemetry → List (ℕ × Event) → Telemetry
unfolding step
run t [] = t
run t ((dt, e) ∷ es) = run (step t dt e) es
