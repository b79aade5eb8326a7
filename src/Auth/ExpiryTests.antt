-- ===== src/Auth/ExpiryTests.antt =====
-- The theorem about an expired session at concrete requests.
use home_camera_system.Api.Requests
use home_camera_system.Auth
use home_camera_system.Prelude.{◌≡◌, refl, ◌⊎◌, true, none, some, [], ◌∷◌}
use home_camera_system.Prelude.Text.{codes}
use home_camera_system.Auth.Expiry.{Session, session_step, Expired, session_step_expires}

abbrev refused : Requests.Response
refused = record { status = 401; text = none; json = none }

-- Two requests were answered 401 and wait for one refresh.
abbrev waiting : Session
waiting = record {
  client = record {
    requests =
        record {
          path = codes "/api/status";
          progress = Requests.awaiting_refresh refused;
          fetches = 1;
        }
        ∷ record {
          path = codes "/api/events";
          progress = Requests.awaiting_refresh refused;
          fetches = 1;
        }
        ∷ [];
    refresh_inflight = true;
    refreshes_posted = 1;
    refreshes_settled = 0;
    session_expired = 0;
  };
  auth = record Auth.initial { state = Auth.authed; user = some 5 };
}

session_step_expires_example :
    ((session_step waiting (Requests.refresh_answered 401)).auth ≡ waiting.auth)
    ⊎ ((Requests.refresh_answered 401 ≡ Requests.refresh_answered 401)
        × Expired waiting (session_step waiting (Requests.refresh_answered 401)))
session_step_expires_example = session_step_expires waiting (Requests.refresh_answered 401)

one_toast : (session_step waiting (Requests.refresh_answered 401)).auth.expired_toasts ≡ 1
unfolding session_step Auth.initial
one_toast = refl
