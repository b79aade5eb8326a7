-- ===== src/Ws/Subscribers.antt =====
-- What the subscribers of client/src/lib/ws.ts are told.
use home_camera_system.Prelude.{
  ◌==◌, if◌then◌else◌, update, contains, set_add, set_delete, contains-set_add, contains-set_delete,
  ℕ, ◌+◌, ◌≡◌, refl, Bool, true, Option, none, some, List, [], ◌∷◌, arith,
}
use home_camera_system.Ws.{
  WsState, connecting, opened, closed, socket_connecting, socket_open, socket_closed, Effect,
  notified, constructor_throw, Ws, initial, notify_all, deliver_all, emit, set_socket_state,
  connect, on_open, on_message, on_close, on_error, remove_timer, clear_reconnect_timer,
  maybe_shutdown, subscribe_events, unsubscribe_events, subscribe_ws_state, unsubscribe_ws_state,
  reconnect_if_closed, Event, socket_opened, socket_message, socket_close, socket_error, timeout,
  subscribes_events, subscribes_state, unsubscribes_events, unsubscribes_state, resumes, step, run,
}

-- The state that a subscriber was told last.
abbrev pub last_told : ℕ → List Effect → Option WsState
last_told h [] = none
last_told h (notified k s ∷ out) = if h == k then some s else last_told h out
last_told h (_ ∷ out) = last_told h out

last_told-notify_all :
    (k : ℕ) (s : WsState) (hs : List ℕ) (out : List Effect)
    → last_told k (notify_all hs s out) ≡ (if contains k hs then some s else last_told k out)
unfolding notify_all
last_told-notify_all k s [] out = refl
last_told-notify_all k s (h ∷ hs) out =
    ground (arith, last_told-notify_all k s hs (notified h s ∷ out))

last_told-deliver_all :
    (k e : ℕ) (hs : List ℕ) (out : List Effect)
    → last_told k (deliver_all hs e out) ≡ last_told k out
unfolding deliver_all
last_told-deliver_all k e [] out = refl
last_told-deliver_all k e (h ∷ hs) out = last_told-deliver_all k e hs _

abbrev pub Informed : ℕ → Ws → Type 0
Informed k w = contains k w.state_handlers ≡ true → last_told k w.out ≡ some w.socket_state

set_socket_state-Informed :
    (k : ℕ) (s : WsState) (w : Ws) → Informed k w → Informed k (set_socket_state s w)
unfolding set_socket_state
set_socket_state-Informed k s w v = ground (arith, last_told-notify_all k s w.state_handlers w.out)

connect-Informed : (k : ℕ) (throws : Bool) (w : Ws) → Informed k w → Informed k (connect throws w)
unfolding connect
connect-Informed k throws w v = ground (
  arith,
  set_socket_state-Informed k closed (record (emit constructor_throw w) { socket = none }),
  set_socket_state-Informed k connecting (record w {
    socket = some w.next_socket;
    next_socket = w.next_socket + 1;
    ready_state = update w.ready_state w.next_socket socket_connecting;
  }),
)

maybe_shutdown-Informed : (k : ℕ) (w : Ws) → Informed k w → Informed k (maybe_shutdown w)
unfolding maybe_shutdown set_socket_state
maybe_shutdown-Informed k w v = ground (arith, last_told-notify_all k closed w.state_handlers w.out)

on_close-Informed : (k id code : ℕ) (w : Ws) → Informed k w → Informed k (on_close id code w)
unfolding on_close set_socket_state
on_close-Informed k id code w v =
    ground (arith, last_told-notify_all k closed w.state_handlers w.out)

subscribe_ws_state-Informed :
    (k h : ℕ) (throws : Bool) (w : Ws) → Informed k w → Informed k (subscribe_ws_state h throws w)
unfolding subscribe_ws_state
subscribe_ws_state-Informed k h throws w v =
    let added : Ws = record w {
      state_handlers = set_add h w.state_handlers;
      out = notified h w.socket_state ∷ w.out;
    } in
    ground (arith, contains-set_add k h w.state_handlers, connect-Informed k throws added)

reconnect_if_closed-Informed :
    (k : ℕ) (throws : Bool) (w : Ws) → Informed k w → Informed k (reconnect_if_closed throws w)
unfolding reconnect_if_closed
reconnect_if_closed-Informed k throws w v =
    ground (
      arith,
      connect-Informed k throws (record (clear_reconnect_timer w) { reconnect_attempts = 0 }),
    )

-- Every event keeps every state subscriber informed.
step-Informed : (k : ℕ) (w : Ws) (e : Event) → Informed k w → Informed k (step w e)
unfolding step on_open on_message on_error unsubscribe_events unsubscribe_ws_state subscribe_events
step-Informed k w (socket_opened id) v = ground (
  arith,
  set_socket_state-Informed k opened
      (record w { ready_state = update w.ready_state id socket_open; reconnect_attempts = 0 }),
)
step-Informed k w (socket_message id none) v = ground arith
step-Informed k w (socket_message id (some e)) v =
    ground (arith, last_told-deliver_all k e w.handlers w.out)
step-Informed k w (socket_close id code) v =
    on_close-Informed k id code (record w { ready_state = update w.ready_state id socket_closed }) v
step-Informed k w (socket_error id) v = ground arith
step-Informed k w (timeout t throws) v =
    ground (arith, connect-Informed k throws (record w { timers = remove_timer t w.timers }))
step-Informed k w (subscribes_events h throws) v =
    ground (arith, connect-Informed k throws (record w { handlers = set_add h w.handlers }))
step-Informed k w (subscribes_state h throws) v = subscribe_ws_state-Informed k h throws w v
step-Informed k w (unsubscribes_events h) v =
    maybe_shutdown-Informed k (record w { handlers = set_delete h w.handlers }) v
step-Informed k w (unsubscribes_state h) v =
    maybe_shutdown-Informed k (record w { state_handlers = set_delete h w.state_handlers })
      (ground (arith, contains-set_delete k h w.state_handlers))
step-Informed k w (resumes throws) v = reconnect_if_closed-Informed k throws w v

run-Informed : (k : ℕ) (w : Ws) (es : List Event) → Informed k w → Informed k (run w es)
unfolding run
run-Informed k w [] v = v
run-Informed k w (e ∷ es) v = run-Informed k (step w e) es (step-Informed k w e v)

initial-Informed : (k : ℕ) → Informed k initial
unfolding initial
initial-Informed k h = cc

-- After any events at all since the module was loaded, every function that is subscribed to the
-- connection state has been told the state that the socket is in now as its last one.
pub run-initial-Informed :
    (k : ℕ) (es : List Event)
    → contains k (run initial es).state_handlers ≡ true
    → last_told k (run initial es).out ≡ some (run initial es).socket_state
run-initial-Informed k es = run-Informed k initial es (initial-Informed k)
