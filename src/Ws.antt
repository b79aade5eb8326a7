-- ===== src/Ws.antt =====
-- client/src/lib/ws.ts, the one realtime WebSocket of the app. A socket, a timeout and a subscriber
-- are known by numbers. The state holds the module's variables, and of the browser the `readyState`
-- of every socket and the timeouts that are pending. What the code calls outside itself is
-- appended to `out`, newest first. A `throws` argument says whether `new WebSocket` throws.
pub mod Invariant
pub mod Subscribers
pub mod Recovery
pub mod Outage
pub mod Opening
mod Tests
use home_camera_system.Prelude.{
  ltb, ◌==◌, if◌then◌else◌, is_some, is_empty, update, set_add, set_delete, ℕ, ◌+◌, ◌*◌, ◌^◌, min,
  Bool, true, false, ◌&&◌, ◌||◌, not, Option, none, some, List, [], ◌∷◌,
}

pub data WsState : Type 0 where
  connecting opened closed : WsState

pub data ReadyState : Type 0 where
  socket_connecting socket_open socket_closing socket_closed : ReadyState

pub data Effect : Type 0 where
  -- a state handler, or an event handler, is called
  notified : ℕ → WsState → Effect
  delivered : ℕ → ℕ → Effect
  -- `homecam:auth-failed` is dispatched on the window
  auth_failed : Effect
  -- the log lines that the code names
  constructor_throw parse_fail closed_1008 error_event resume_noop : Effect
  reconnect_storm : ℕ → ℕ → Effect

pub record Ws : Type 0 where
  pub socket : Option ℕ
  pub socket_state : WsState
  pub handlers : List ℕ
  pub state_handlers : List ℕ
  pub reconnect_attempts : ℕ
  pub reconnect_timer : Option ℕ
  -- the browser
  pub ready_state : ℕ → ReadyState
  pub next_socket : ℕ
  pub timers : List (ℕ × ℕ)
  pub next_timer : ℕ
  pub out : List Effect

-- The variables as the module is loaded.
unfoldable pub initial : Ws
initial = record {
  socket = none;
  socket_state = closed;
  handlers = [];
  state_handlers = [];
  reconnect_attempts = 0;
  reconnect_timer = none;
  ready_state = λ _. socket_closed;
  next_socket = 0;
  timers = [];
  next_timer = 0;
  out = [];
}

abbrev pub same_state : WsState → WsState → Bool
same_state connecting connecting = true
same_state opened opened = true
same_state closed closed = true
same_state _ _ = false

pub notify_all : List ℕ → WsState → List Effect → List Effect
notify_all [] s out = out
notify_all (h ∷ hs) s out = notify_all hs s (notified h s ∷ out)

pub deliver_all : List ℕ → ℕ → List Effect → List Effect
deliver_all [] e out = out
deliver_all (h ∷ hs) e out = deliver_all hs e (delivered h e ∷ out)

abbrev pub emit : Effect → Ws → Ws
emit e w = record w { out = e ∷ w.out }

pub set_socket_state : WsState → Ws → Ws
set_socket_state s w =
    if same_state w.socket_state s
    then w
    else record w { socket_state = s; out = notify_all w.state_handlers s w.out }

-- `socket && (readyState === OPEN || readyState === CONNECTING)`
abbrev is_live : ReadyState → Bool
is_live socket_connecting = true
is_live socket_open = true
is_live socket_closing = false
is_live socket_closed = false

busy : Ws → Bool
busy w = elim w.socket [ none ↦ false | some id ↦ is_live (w.ready_state id) ]

pub connect : Bool → Ws → Ws
unfolding set_socket_state busy
connect throws w =
    if busy w
    then w
    else if throws
    then set_socket_state closed (record (emit constructor_throw w) { socket = none })
    else set_socket_state connecting (record w {
      socket = some w.next_socket;
      next_socket = w.next_socket + 1;
      ready_state = update w.ready_state w.next_socket socket_connecting;
    })

-- `socket === currentSocket`
abbrev pub is_current : ℕ → Ws → Bool
is_current id w = elim w.socket [ none ↦ false | some s ↦ s == id ]

pub on_open : ℕ → Ws → Ws
unfolding set_socket_state
on_open id w =
    if is_current id w then set_socket_state opened (record w { reconnect_attempts = 0 }) else w

-- `none` is a frame that `JSON.parse` refuses.
pub on_message : ℕ → Option ℕ → Ws → Ws
on_message id none w = if is_current id w then emit parse_fail w else w
on_message id (some e) w =
    if is_current id w then record w { out = deliver_all w.handlers e w.out } else w

abbrev pub backoff : ℕ → ℕ
backoff attempts = min 30000 (500 * 2 ^ attempts)

-- `handlers.size === 0 && stateHandlers.size === 0`
abbrev pub unheard : Ws → Bool
unheard w = is_empty w.handlers && is_empty w.state_handlers

-- The end of the close handler: one more attempt is counted and the timeout is set.
schedule : Ws → Ws
schedule w =
    let delay = backoff w.reconnect_attempts in
    let attempts = w.reconnect_attempts + 1 in
    let logged = if ltb 2 attempts then reconnect_storm attempts delay ∷ w.out else w.out in
    record w {
      reconnect_attempts = attempts;
      reconnect_timer = some w.next_timer;
      timers = (w.next_timer, delay) ∷ w.timers;
      next_timer = w.next_timer + 1;
      out = logged;
    }

-- 1008 is a policy violation: no reconnect, and the session is checked again.
hung_up : ℕ → Ws → Ws
unfolding schedule
hung_up code w =
    if code == 1008
    then emit auth_failed (emit closed_1008 w)
    else if unheard w
    then w
    else schedule w

pub on_close : ℕ → ℕ → Ws → Ws
unfolding set_socket_state hung_up
on_close id code w =
    if is_current id w
    then hung_up code (set_socket_state closed (record w { socket = none }))
    else w

-- `socket.close()`: the close event comes later.
abbrev close_socket : ℕ → Ws → Ws
close_socket id w = record w { ready_state = update w.ready_state id socket_closing }

pub on_error : ℕ → Ws → Ws
on_error id w = if is_current id w then close_socket id (emit error_event w) else w

pub remove_timer : ℕ → List (ℕ × ℕ) → List (ℕ × ℕ)
remove_timer t [] = []
remove_timer t ((i, d) ∷ ts) =
    let rest = remove_timer t ts in if i == t then rest else (i, d) ∷ rest

-- `if (reconnectTimer) { clearTimeout(reconnectTimer); reconnectTimer = null }`
clear_reconnect_timer : Ws → Ws
clear_reconnect_timer w = elim w.reconnect_timer [
  | none ↦ w
  | some t ↦ record w { reconnect_timer = none; timers = remove_timer t w.timers }
]

-- `socket?.close()`
abbrev close_current : Ws → Ws
close_current w = elim w.socket [ none ↦ w | some id ↦ close_socket id w ]

maybe_shutdown : Ws → Ws
unfolding set_socket_state clear_reconnect_timer
maybe_shutdown w =
    if unheard w
    then clear_reconnect_timer
        (set_socket_state closed (record (close_current w) { socket = none }))
    else w

pub subscribe_events : ℕ → Bool → Ws → Ws
unfolding connect
subscribe_events h throws w =
    let added : Ws = record w { handlers = set_add h w.handlers } in
    if is_some added.socket then added else connect throws added

pub unsubscribe_events : ℕ → Ws → Ws
unfolding maybe_shutdown
unsubscribe_events h w = maybe_shutdown (record w { handlers = set_delete h w.handlers })

pub subscribe_ws_state : ℕ → Bool → Ws → Ws
unfolding connect
subscribe_ws_state h throws w =
    let added : Ws = record w {
      state_handlers = set_add h w.state_handlers;
      out = notified h w.socket_state ∷ w.out;
    } in
    if is_some added.socket then added else connect throws added

pub unsubscribe_ws_state : ℕ → Ws → Ws
unfolding maybe_shutdown
unsubscribe_ws_state h w =
    maybe_shutdown (record w { state_handlers = set_delete h w.state_handlers })

abbrev is_socket_closed : ReadyState → Bool
is_socket_closed socket_closed = true
is_socket_closed _ = false

-- `socket && socket.readyState !== WebSocket.CLOSED`
abbrev still_open : Ws → Bool
still_open w = elim w.socket [ none ↦ false | some id ↦ not (is_socket_closed (w.ready_state id)) ]

pub reconnect_if_closed : Bool → Ws → Ws
unfolding connect clear_reconnect_timer
reconnect_if_closed throws w =
    if unheard w
    then w
    else if still_open w
    then emit resume_noop w
    else connect throws (record (clear_reconnect_timer w) { reconnect_attempts = 0 })

-- What can happen to the module: the browser's events and the exported calls.
pub data Event : Type 0 where
  socket_opened : ℕ → Event
  socket_message : ℕ → Option ℕ → Event
  socket_close : ℕ → ℕ → Event
  socket_error : ℕ → Event
  timeout : ℕ → Bool → Event
  subscribes_events subscribes_state : ℕ → Bool → Event
  unsubscribes_events unsubscribes_state : ℕ → Event
  resumes : Bool → Event

pub has_timer : ℕ → List (ℕ × ℕ) → Bool
has_timer t [] = false
has_timer t ((i, d) ∷ ts) = i == t || has_timer t ts

-- The browser changes `readyState` before it calls the listener, and a timeout that was cleared
-- does not fire.
unfoldable pub step : Ws → Event → Ws
unfolding on_open on_message on_close on_error connect subscribe_events unsubscribe_events
    subscribe_ws_state unsubscribe_ws_state reconnect_if_closed has_timer remove_timer
step w (socket_opened id) =
    on_open id (record w { ready_state = update w.ready_state id socket_open })
step w (socket_message id e) = on_message id e w
step w (socket_close id code) =
    on_close id code (record w { ready_state = update w.ready_state id socket_closed })
step w (socket_error id) = on_error id w
step w (timeout t throws) =
    if has_timer t w.timers
    then connect throws (record w { timers = remove_timer t w.timers })
    else w
step w (subscribes_events h throws) = subscribe_events h throws w
step w (subscribes_state h throws) = subscribe_ws_state h throws w
step w (unsubscribes_events h) = unsubscribe_events h w
step w (unsubscribes_state h) = unsubscribe_ws_state h w
step w (resumes throws) = reconnect_if_closed throws w

unfoldable pub run : Ws → List Event → Ws
unfolding step
run w [] = w
run w (e ∷ es) = run (step w e) es
