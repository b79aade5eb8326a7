-- ===== src/Poll.antt =====
-- client/src/lib/useStatus.ts, the polling of `/api/status`. A payload, and a request with its
-- AbortController, are known by numbers. A request that was aborted ends with an AbortError,
-- whatever the server answers.
pub mod Readings
mod Tests
use home_camera_system.Prelude.{
  leb, if◌then◌else◌, contains, ℕ, ◌+◌, Bool, true, false, Option, none, some, List, [], ◌∷◌,
}

pub record Poll : Type 0 where
  pub status : Option ℕ
  pub cancelled : Bool
  pub in_flight : Option ℕ
  -- `intervalId` is not null
  pub polling : Bool
  pub failure_streak : ℕ
  -- the browser
  pub next_request : ℕ
  pub aborted : List ℕ

abbrev pub failure_streak_threshold : ℕ
failure_streak_threshold = 2

-- `inFlight?.abort()`
abort_in_flight : Poll → Poll
abort_in_flight p = elim p.in_flight [ none ↦ p | some id ↦ record p { aborted = id ∷ p.aborted } ]

tick : Poll → Poll
unfolding abort_in_flight
tick p = record (abort_in_flight p) {
  in_flight = some p.next_request;
  next_request = p.next_request + 1;
}

start : Poll → Poll
unfolding tick
start p = if p.polling then p else record (tick p) { polling = true }

stop : Poll → Poll
unfolding abort_in_flight
stop p = abort_in_flight (record p { polling = false })

-- The effect as it begins, on a visible or a hidden page.
pub mount : Bool → Poll
unfolding start
mount hidden =
    let idle : Poll = record {
      status = none;
      cancelled = false;
      in_flight = none;
      polling = false;
      failure_streak = 0;
      next_request = 0;
      aborted = [];
    } in
    if hidden then idle else start idle

on_answer : ℕ → Poll → Poll
on_answer payload p =
    if p.cancelled then p else record p { status = some payload; failure_streak = 0 }

-- Any rejection but an AbortError.
on_failure : Poll → Poll
on_failure p =
    let streak = p.failure_streak + 1 in
    if p.cancelled then p else record p {
      failure_streak = streak;
      status = if leb failure_streak_threshold streak then none else p.status;
    }

pub data Event : Type 0 where
  interval_fires : Event
  answered : ℕ → ℕ → Event
  failed : ℕ → Event
  -- `visibilitychange`, to hidden or to visible
  hides shows unmounts : Event

-- The interval fires only while it is set, and the listener is gone after the unmount.
unfoldable pub step : Poll → Event → Poll
unfolding tick start stop on_answer on_failure
step p interval_fires = if p.polling then tick p else p
step p (answered id payload) = if contains id p.aborted then p else on_answer payload p
step p (failed id) = if contains id p.aborted then p else on_failure p
step p hides = if p.cancelled then p else stop p
step p shows = if p.cancelled then p else start p
step p unmounts = stop (record p { cancelled = true })
