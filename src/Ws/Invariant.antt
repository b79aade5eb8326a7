-- ===== src/Ws/Invariant.antt =====
-- What holds of the WebSocket module (client/src/lib/ws.ts) between two events.
use native.Mathlib.Nat.{pow-suc}
use home_camera_system.Prelude.{
  is_some, or_else, update, set_delete, ℕ, zero, suc, ◌^◌, ◌≤◌, ◌<◌, ◌≡◌, Bool, true, false, not,
  Option, none, some, List, [], ◌∷◌, arith,
}
use home_camera_system.Ws.{
  WsState, closed, socket_open, socket_closed, Ws, initial, connect, on_open, on_message, backoff,
  on_close, on_error, remove_timer, maybe_shutdown, subscribe_events, unsubscribe_events,
  subscribe_ws_state, unsubscribe_ws_state, reconnect_if_closed, Event, socket_opened,
  socket_message, socket_close, socket_error, timeout, subscribes_events, subscribes_state,
  unsubscribes_events, unsubscribes_state, resumes, step, run,
}

abbrev pub is_closed : WsState → Bool
is_closed closed = true
is_closed _ = false

abbrev pub Below : ℕ → Option ℕ → Type 0
Below n none = Unit {0}
Below n (some id) = id < n

-- Every timeout waits for half a second to half a minute.
abbrev pub Delays : List (ℕ × ℕ) → Type 0
Delays [] = Unit {0}
Delays ((i, d) ∷ ts) = (500 ≤ d) × (d ≤ 30000) × Delays ts

pub record Inv (w : Ws) : Type 0 where
  pub published : is_some w.socket ≡ not (is_closed w.socket_state)
  pub fresh : Below w.next_socket w.socket
  pub delays : Delays w.timers

one-le-pow : (n : ℕ) → 1 ≤ 2 ^ n
one-le-pow zero = omega arith
one-le-pow (suc n) = rw (pow-suc 2 n) (omega (arith, one-le-pow n))

-- The n-th consecutive reconnect waits for 500 ms at least and 30 s at most.
backoff_bounds : (n : ℕ) → (500 ≤ backoff n) × (backoff n ≤ 30000)
backoff_bounds n = omega (arith, one-le-pow n)

remove_timer-Delays : (t : ℕ) (ts : List (ℕ × ℕ)) → Delays ts → Delays (remove_timer t ts)
unfolding remove_timer
remove_timer-Delays t [] h = tt
remove_timer-Delays t ((i, d) ∷ ts) h = ground (arith, remove_timer-Delays t ts h.2)

connect-Inv : (throws : Bool) (w : Ws) → Inv w → Inv (connect throws w)
unfolding connect
connect-Inv throws w v = ground arith

on_open-Inv : (id : ℕ) (w : Ws) → Inv w → Inv (on_open id w)
unfolding on_open
on_open-Inv id w v = ground arith

on_message-Inv : (id : ℕ) (e : Option ℕ) (w : Ws) → Inv w → Inv (on_message id e w)
unfolding on_message
on_message-Inv id none w v = ground arith
on_message-Inv id (some e) w v = ground arith

on_close-Inv : (id code : ℕ) (w : Ws) → Inv w → Inv (on_close id code w)
unfolding on_close
on_close-Inv id code w v = ground (arith, backoff_bounds w.reconnect_attempts)

on_error-Inv : (id : ℕ) (w : Ws) → Inv w → Inv (on_error id w)
unfolding on_error
on_error-Inv id w v = ground arith

subscribe_events-Inv : (h : ℕ) (throws : Bool) (w : Ws) → Inv w → Inv (subscribe_events h throws w)
unfolding subscribe_events
subscribe_events-Inv h throws w v = ground arith

subscribe_ws_state-Inv :
    (h : ℕ) (throws : Bool) (w : Ws) → Inv w → Inv (subscribe_ws_state h throws w)
unfolding subscribe_ws_state
subscribe_ws_state-Inv h throws w v = ground arith

maybe_shutdown-Inv : (w : Ws) → Inv w → Inv (maybe_shutdown w)
unfolding maybe_shutdown
maybe_shutdown-Inv w v = ground (arith, remove_timer-Delays (or_else w.reconnect_timer 0) w.timers)

reconnect_if_closed-Inv : (throws : Bool) (w : Ws) → Inv w → Inv (reconnect_if_closed throws w)
unfolding reconnect_if_closed
reconnect_if_closed-Inv throws w v =
    ground (arith, remove_timer-Delays (or_else w.reconnect_timer 0) w.timers)

-- Every event, in every state, keeps the invariant: the published state is `closed` exactly when
-- there is no socket, the socket is one that was made, and every pending reconnect waits for
-- between 500 ms and 30 s.
pub step-Inv : (w : Ws) (e : Event) → Inv w → Inv (step w e)
unfolding step unsubscribe_events unsubscribe_ws_state
step-Inv w (socket_opened id) v =
    on_open-Inv id (record w { ready_state = update w.ready_state id socket_open }) (ground arith)
step-Inv w (socket_message id e) v = on_message-Inv id e w v
step-Inv w (socket_close id code) v =
    on_close-Inv id code (record w { ready_state = update w.ready_state id socket_closed })
      (ground arith)
step-Inv w (socket_error id) v = on_error-Inv id w v
step-Inv w (timeout t throws) v = ground (
  arith,
  remove_timer-Delays t w.timers,
  connect-Inv throws (record w { timers = remove_timer t w.timers }),
)
step-Inv w (subscribes_events h throws) v = subscribe_events-Inv h throws w v
step-Inv w (subscribes_state h throws) v = subscribe_ws_state-Inv h throws w v
step-Inv w (unsubscribes_events h) v =
    maybe_shutdown-Inv (record w { handlers = set_delete h w.handlers }) (ground arith)
step-Inv w (unsubscribes_state h) v =
    maybe_shutdown-Inv (record w { state_handlers = set_delete h w.state_handlers }) (ground arith)
step-Inv w (resumes throws) v = reconnect_if_closed-Inv throws w v

pub initial-Inv : Inv initial
unfolding initial
initial-Inv = ground arith

pub run-Inv : (w : Ws) (es : List Event) → Inv w → Inv (run w es)
unfolding run
run-Inv w [] v = v
run-Inv w (e ∷ es) v = run-Inv (step w e) es (step-Inv w e v)
