-- ===== src/Ws/Tests.antt =====
-- Runs of client/src/lib/ws.ts, and the theorems about it at concrete states.
use home_camera_system.Prelude.{ℕ, ◌≡◌, refl, false, none, some, List, [], ◌∷◌, arith}
use home_camera_system.Ws.{
  closed, initial, Event, socket_opened, socket_close, timeout, subscribes_events, subscribes_state,
  unsubscribes_events, has_timer, step, run,
}
use home_camera_system.Ws.Invariant.{Inv, step-Inv, initial-Inv, run-Inv}
use home_camera_system.Ws.Subscribers.{last_told, run-initial-Informed}
use home_camera_system.Ws.Recovery.{unsubscribe_shuts_down}
use home_camera_system.Ws.Outage.{outage, last_socket, Reconnects, run-outage-Reconnects}

-- One event subscriber, 1, and one state subscriber, 2; the socket 0 is being connected.
abbrev listening : List Event
listening = subscribes_events 1 false ∷ subscribes_state 2 false ∷ []

abbrev dropped : List Event
dropped =
    subscribes_events 1 false
    ∷ subscribes_state 2 false
    ∷ socket_opened 0
    ∷ socket_close 0 1006
    ∷ timeout 0 false
    ∷ []

dropped_state : (run initial dropped).socket ≡ some 1
unfolding run initial
dropped_state = refl

step-Inv_example : Inv (step (run initial dropped) (socket_close 1 1006))
step-Inv_example =
    step-Inv (run initial dropped) (socket_close 1 1006) (run-Inv initial dropped initial-Inv)

run-initial-Informed_example :
    last_told 2 (run initial dropped).out ≡ some (run initial dropped).socket_state
unfolding run initial
run-initial-Informed_example = run-initial-Informed 2 dropped refl

run-outage-Reconnects_example :
    let w = run initial listening in
    let v = run w (outage 0 w.next_socket w.next_timer (1006 ∷ 1001 ∷ [])) in
    Reconnects v (step v (socket_close (last_socket 0 w.next_socket (1006 ∷ 1001 ∷ [])) 1006)) 2000
unfolding run initial
run-outage-Reconnects_example =
    run-outage-Reconnects (run initial listening) 0 1006 (1006 ∷ 1001 ∷ []) refl refl refl
      (omega arith, (omega arith, tt)) (omega arith)

abbrev single : List Event
single = subscribes_events 1 false ∷ socket_close 0 1006 ∷ []

unsubscribe_shuts_down_example :
    let w = run initial single in
    let w' = step w (unsubscribes_events 1) in
    (w'.socket ≡ none)
    × (w'.socket_state ≡ closed)
    × (w'.reconnect_timer ≡ none)
    × ((t : ℕ) → w.reconnect_timer ≡ some t → has_timer t w'.timers ≡ false)
unfolding run initial
unsubscribe_shuts_down_example =
    unsubscribe_shuts_down (run initial single) 1 (run-Inv initial single initial-Inv) refl refl

-- A second subscriber arrives while the first timeout is pending, and its socket closes as well:
-- the first timeout is forgotten, and outlives the last subscriber.
abbrev orphaned : List Event
orphaned =
    subscribes_events 1 false
    ∷ socket_close 0 1006
    ∷ subscribes_events 2 false
    ∷ socket_close 1 1006
    ∷ unsubscribes_events 1
    ∷ unsubscribes_events 2
    ∷ []
