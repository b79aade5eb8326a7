-- ===== src/Ws/Recovery.antt =====
-- When the socket of client/src/lib/ws.ts comes back, and when it stays away.
use home_camera_system.Prelude.{
  update, ℕ, ◌≡◌, refl, true, false, Option, none, some, List, [], ◌∷◌, arith,
}
use home_camera_system.Ws.{
  connecting, closed, socket_open, socket_closed, Effect, auth_failed, closed_1008, Ws,
  set_socket_state, connect, is_current, on_open, on_message, unheard, on_close, on_error,
  remove_timer, maybe_shutdown, unsubscribe_events, socket_opened, socket_message, socket_close,
  socket_error, timeout, unsubscribes_events, has_timer, step,
}
use home_camera_system.Ws.Invariant.{Inv}

-- An event of a socket that was replaced or dropped changes nothing but the browser's own record of
-- it: no subscriber is called, no timeout is set, and the current socket stays.
pub step_stale :
    (w : Ws) (id code : ℕ) (message : Option ℕ)
    → is_current id w ≡ false
    → (step w (socket_opened id) ≡ record w { ready_state = update w.ready_state id socket_open })
      × (step w (socket_message id message) ≡ w)
      × (step w (socket_close id code)
          ≡ record w { ready_state = update w.ready_state id socket_closed })
      × (step w (socket_error id) ≡ w)
unfolding step on_open on_message on_close on_error
step_stale w id code none h = ground arith
step_stale w id code (some e) h = ground arith

-- A close of the current socket with 1008 sets no timeout, whoever listens: the socket is gone, the
-- state is closed and `homecam:auth-failed` is dispatched.
pub close-1008 :
    (w : Ws) (id : ℕ)
    → is_current id w ≡ true
    → let w' = step w (socket_close id 1008) in
      (w'.timers ≡ w.timers)
      × (w'.socket ≡ none)
      × (w'.socket_state ≡ closed)
      × (out : List Effect) × (w'.out ≡ auth_failed ∷ closed_1008 ∷ out)
unfolding step on_close set_socket_state
close-1008 w id c = (
  ground arith,
  ground arith,
  ground arith,
  (set_socket_state closed (record w { socket = none })).out,
  ground arith,
)

has_timer-remove_timer : (t : ℕ) (ts : List (ℕ × ℕ)) → has_timer t (remove_timer t ts) ≡ false
unfolding has_timer remove_timer
has_timer-remove_timer t [] = refl
has_timer-remove_timer t ((i, d) ∷ ts) = ground (arith, has_timer-remove_timer t ts)

-- When the only subscriber is one of events and it goes, from any state with the invariant, there
-- is no socket, the state is closed, and the timeout that `reconnectTimer` named is no longer
-- pending.
pub unsubscribe_shuts_down :
    (w : Ws) (h : ℕ)
    → Inv w
    → (w.handlers ≡ h ∷ [])
    → (w.state_handlers ≡ [])
    → let w' = step w (unsubscribes_events h) in
      (w'.socket ≡ none)
      × (w'.socket_state ≡ closed)
      × (w'.reconnect_timer ≡ none)
      × ((t : ℕ) → w.reconnect_timer ≡ some t → has_timer t w'.timers ≡ false)
unfolding step unsubscribe_events maybe_shutdown
unsubscribe_shuts_down w h v e f = (
  ground arith,
  ground arith,
  ground arith,
  λ t r. ground (arith, has_timer-remove_timer t w.timers),
)

-- A timeout that is still pending opens a socket when it fires, though nobody subscribes any more
-- and there is no socket: `connect` does not look at the subscribers.
pub timeout-unheard_connects :
    (w : Ws) (t : ℕ)
    → unheard w ≡ true
    → w.socket ≡ none
    → has_timer t w.timers ≡ true
    → let w' = step w (timeout t false) in
      (w'.socket ≡ some w.next_socket) × (w'.socket_state ≡ connecting) × (unheard w' ≡ true)
unfolding step connect
timeout-unheard_connects w t u s h = ground arith
