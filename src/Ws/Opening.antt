-- ===== src/Ws/Opening.antt =====
-- How the socket of client/src/lib/ws.ts comes to be open.
use home_camera_system.Prelude.{◌≡◌, Bool, none, some, arith}
use home_camera_system.Ws.{
  opened, closed, Ws, connect, on_open, on_message, on_close, on_error, maybe_shutdown,
  subscribe_events, unsubscribe_events, subscribe_ws_state, unsubscribe_ws_state,
  reconnect_if_closed, Event, socket_opened, socket_message, socket_close, socket_error, timeout,
  subscribes_events, subscribes_state, unsubscribes_events, unsubscribes_state, resumes, step,
}
use home_camera_system.Ws.Invariant.{Inv}

connect_unopened :
    (throws : Bool) (w : Ws) → w.socket ≡ none → ¬ (connect throws w).socket_state ≡ opened
unfolding connect
connect_unopened throws w h = ground arith

socketless : (w : Ws) → Inv w → w.socket_state ≡ closed → w.socket ≡ none
socketless w v h = ground (arith, v.published)

-- No event makes a closed socket open: it is `connecting` first.
pub step_connecting_first :
    (w : Ws) (e : Event) → Inv w → w.socket_state ≡ closed → ¬ (step w e).socket_state ≡ opened
unfolding step on_open on_message on_close on_error subscribe_events subscribe_ws_state
    unsubscribe_events unsubscribe_ws_state maybe_shutdown reconnect_if_closed connect
step_connecting_first w (socket_opened id) v h = ground (arith, socketless w v h)
step_connecting_first w (socket_message id none) v h = ground arith
step_connecting_first w (socket_message id (some e)) v h = ground arith
step_connecting_first w (socket_close id code) v h = ground (arith, socketless w v h)
step_connecting_first w (socket_error id) v h = ground (arith, socketless w v h)
step_connecting_first w (timeout t throws) v h = ground (arith, socketless w v h)
step_connecting_first w (subscribes_events k throws) v h = ground (arith, socketless w v h)
step_connecting_first w (subscribes_state k throws) v h = ground (arith, socketless w v h)
step_connecting_first w (unsubscribes_events k) v h = ground (arith, socketless w v h)
step_connecting_first w (unsubscribes_state k) v h = ground (arith, socketless w v h)
step_connecting_first w (resumes throws) v h = ground (arith, socketless w v h)
