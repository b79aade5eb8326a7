-- ===== src/Ws/Outage.antt =====
-- How the socket of client/src/lib/ws.ts comes back from an outage.
use native.Mathlib.Nat.{pow-suc}
use mathlib.Core.Path.{subst}
use home_camera_system.Prelude.{
  length, All, ℕ, zero, suc, ◌+◌, ◌*◌, min, ◌≡◌, refl, ap, ◌∙◌, ◌≢◌, true, false, none, some, List,
  [], ◌∷◌, arith,
}
use home_camera_system.Ws.{
  connecting, closed, Ws, connect, is_current, backoff, unheard, on_close, remove_timer, Event,
  socket_close, timeout, step, run,
}

-- A failure of the current socket, and the timeout after it: a new socket.
record Retried (w v : Ws) : Type 0 where
  socket : v.socket ≡ some w.next_socket
  state : v.socket_state ≡ connecting
  next_socket : v.next_socket ≡ w.next_socket + 1
  next_timer : v.next_timer ≡ w.next_timer + 1
  attempts : v.reconnect_attempts ≡ w.reconnect_attempts + 1
  heard : unheard v ≡ unheard w

close-timeout_retries :
    (w : Ws) (id code : ℕ)
    → is_current id w ≡ true
    → unheard w ≡ false
    → code ≢ 1008
    → Retried w (step (step w (socket_close id code)) (timeout w.next_timer false))
unfolding step on_close connect
close-timeout_retries w id code c u ne = record {
  socket = ground arith;
  state = ground arith;
  next_socket = ground arith;
  next_timer = ground arith;
  attempts = ground arith;
  heard = ground arith;
}

socket-is_current : (w : Ws) (id : ℕ) → w.socket ≡ some id → is_current id w ≡ true
socket-is_current w id e = ground arith

-- One socket after another closes, each with its code, and the timeout between them fires.
abbrev pub outage : ℕ → ℕ → ℕ → List ℕ → List Event
outage id next timer [] = []
outage id next timer (code ∷ codes) =
    socket_close id code ∷ timeout timer false ∷ outage next (next + 1) (timer + 1) codes

-- Half a second, and twice as long after each failure, up to half a minute.
abbrev pub wait : ℕ → ℕ
wait zero = 500
wait (suc n) = min 30_000 (2 * wait n)

backoff-wait : (n : ℕ) → backoff n ≡ wait n
backoff-wait zero = refl
backoff-wait (suc n) = omega (arith, pow-suc 2 n, backoff-wait n)

-- The state after so many failures in a row.
record Failing (w : Ws) (id next timer tried : ℕ) : Type 0 where
  socket : w.socket ≡ some id
  next_socket : w.next_socket ≡ next
  next_timer : w.next_timer ≡ timer
  attempts : w.reconnect_attempts ≡ tried
  heard : unheard w ≡ false

fails-Failing :
    (w : Ws) (id code next timer tried : ℕ)
    → code ≢ 1008
    → Failing w id next timer tried
    → Failing
        (step (step w (socket_close id code)) (timeout timer false))
        next
        (next + 1)
        (timer + 1)
        (tried + 1)
fails-Failing w id code next timer tried ne f =
    let r = close-timeout_retries w id code (socket-is_current w id f.socket) f.heard ne in
    rw⁻¹ f.next_timer (record {
      socket = rw⁻¹ f.next_socket r.socket;
      next_socket = rw⁻¹ f.next_socket r.next_socket;
      next_timer = r.next_timer;
      attempts = rw⁻¹ f.attempts r.attempts;
      heard = r.heard ∙ f.heard;
    })

abbrev pub last_socket : ℕ → ℕ → List ℕ → ℕ
last_socket id next [] = id
last_socket id next (code ∷ codes) = last_socket next (next + 1) codes

outage-Failing :
    (codes : List ℕ) (w : Ws) (id next timer tried : ℕ)
    → All (λ c. c ≢ 1008) codes
    → Failing w id next timer tried
    → Failing
        (run w (outage id next timer codes))
        (last_socket id next codes)
        (next + length codes)
        (timer + length codes)
        (tried + length codes)
unfolding run
outage-Failing [] w id next timer tried h f = record {
  socket = f.socket;
  next_socket = omega (arith, f.next_socket);
  next_timer = omega (arith, f.next_timer);
  attempts = omega (arith, f.attempts);
  heard = f.heard;
}
outage-Failing (code ∷ codes) w id next timer tried (h, hs) f =
    let one = fails-Failing w id code next timer tried h f in
    let g =
      outage-Failing codes (step (step w (socket_close id code)) (timeout timer false)) next
        (next + 1) (timer + 1) (tried + 1) hs one in
    record {
      socket = g.socket;
      next_socket = omega (arith, g.next_socket);
      next_timer = omega (arith, g.next_timer);
      attempts = omega (arith, g.attempts);
      heard = g.heard;
    }

-- The timeout waits so long; when it fires there is a new socket, or, if it cannot be made, none.
pub record Reconnects (v u : Ws) (delay : ℕ) : Type 0 where
  pub waits : u.timers ≡ (v.next_timer, delay) ∷ v.timers
  pub retried : (step u (timeout v.next_timer false)).socket ≡ some v.next_socket
  pub connects : (step u (timeout v.next_timer false)).socket_state ≡ connecting
  pub refused : (step u (timeout v.next_timer true)).socket ≡ none
  pub stays_closed : (step u (timeout v.next_timer true)).socket_state ≡ closed
  pub gives_up : (step u (timeout v.next_timer true)).timers ≡ remove_timer v.next_timer u.timers

close-Reconnects :
    (w : Ws) (id code : ℕ)
    → is_current id w ≡ true
    → unheard w ≡ false
    → code ≢ 1008
    → Reconnects w (step w (socket_close id code)) (backoff w.reconnect_attempts)
unfolding step on_close connect
close-Reconnects w id code c u ne = record {
  waits = ground arith;
  retried = ground arith;
  connects = ground arith;
  refused = ground arith;
  stays_closed = ground arith;
  gives_up = ground arith;
}

-- An outage of any length, from a socket with no failed attempt before it, while someone listens:
-- each socket closes (not with 1008) and the timeout after it fires. Then when the current socket
-- closes once more (not with 1008), a timeout is set that waits half a second, doubled for each
-- failure before, up to half a minute. If a socket can be made when it fires, there is a new one,
-- connecting; if the constructor throws, there is none, the state is closed, and no timeout is set
-- for another attempt.
pub run-outage-Reconnects :
    (w : Ws) (id code : ℕ) (codes : List ℕ)
    → w.socket ≡ some id
    → unheard w ≡ false
    → w.reconnect_attempts ≡ 0
    → All (λ c. c ≢ 1008) codes
    → code ≢ 1008
    → let v = run w (outage id w.next_socket w.next_timer codes) in
      Reconnects v
        (step v (socket_close (last_socket id w.next_socket codes) code))
        (wait (length codes))
run-outage-Reconnects w id code codes e u z h ne =
    let v = run w (outage id w.next_socket w.next_timer codes) in
    let last = last_socket id w.next_socket codes in
    let f =
      outage-Failing codes w id w.next_socket w.next_timer 0 h
        (record { socket = e; next_socket = refl; next_timer = refl; attempts = z; heard = u }) in
    let tried : v.reconnect_attempts ≡ length codes = omega (arith, f.attempts) in
    let d : backoff v.reconnect_attempts ≡ wait (length codes) =
      ap backoff tried ∙ backoff-wait (length codes) in
    subst (Reconnects v (step v (socket_close last code))) d
      (close-Reconnects v last code (socket-is_current v last f.socket) f.heard ne)
