-- ===== src/Banner/Tests.antt =====
-- The theorems about the banner at concrete outages.
use home_camera_system.Ws
use home_camera_system.Prelude.{◌≡◌, refl, true, false, some, List, [], ◌∷◌}
use home_camera_system.Banner.{
  Banner, closed_soft, closed_hard, recovered, kind, Event, auth_is, told, grace_ends,
  escalation_ends, step, run, mounted,
}
use home_camera_system.Ws.{
  connecting, opened, closed, Ws, initial, socket_opened, socket_close, timeout,
}
use home_camera_system.Auth.{authed, anon}
use home_camera_system.Banner.Alarm.{outage_escalates}
use home_camera_system.Banner.Recovery.{
  Happening, on_socket, grace_timeout, escalation_timeout, mount, happen, live,
  recovery_is_never_announced,
}
use home_camera_system.Ws.Invariant.{initial-Inv}

-- A user who is logged in, on an open socket.
abbrev well : Banner
well = record (mounted authed) { state = opened; grace_elapsed = true; escalation_timer = false }

abbrev logout_and_back : List Event
logout_and_back = told connecting ∷ auth_is anon ∷ auth_is authed ∷ told closed ∷ grace_ends ∷ []

outage_escalates_example :
    (kind (step well (told closed)) ≡ some closed_soft)
    × (kind (step (step well (told closed)) escalation_ends) ≡ some closed_hard)
    × ¬ kind (run (step well (told closed)) logout_and_back) ≡ some closed_hard
unfolding mounted
outage_escalates_example = outage_escalates well logout_and_back refl refl refl refl

-- Told of `open` right after `closed`, the banner would announce it.
would_recover : kind (run well (told closed ∷ told opened ∷ [])) ≡ some recovered
unfolding run step kind mounted
would_recover = refl

-- The socket opens, is lost and comes back.
abbrev outage : List Happening
outage =
    on_socket (socket_opened 0)
    ∷ grace_timeout
    ∷ on_socket (socket_close 0 1006)
    ∷ escalation_timeout
    ∷ on_socket (timeout 0 false)
    ∷ on_socket (socket_opened 1)
    ∷ []

outage_is_seen : (live (mount 7 false authed Ws.initial) outage).banner.outage_shown ≡ true
unfolding live mount happen Ws.initial
outage_is_seen = refl

recovery_is_never_announced_example :
    ¬ kind (live (mount 7 false authed Ws.initial) outage).banner ≡ some recovered
recovery_is_never_announced_example =
    recovery_is_never_announced 7 false authed Ws.initial outage initial-Inv
