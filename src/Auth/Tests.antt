-- ===== src/Auth/Tests.antt =====
-- The theorems about client/src/lib/auth.tsx at concrete sessions.
use home_camera_system.Prelude.{◌≡◌, refl, false, some, List, [], ◌∷◌}
use home_camera_system.Auth.{authed, me, Auth, initial, Event, me_settled, session_expired, run}

abbrev signed_in : Auth
signed_in = record {
  state = authed;
  user = some 4;
  was_session_expired = false;
  cancelled = false;
  expired_toasts = 0;
}

abbrev history : List Event
history = me_settled (me 4) ∷ session_expired ∷ session_expired ∷ session_expired ∷ []

history_toasts : (run initial history).expired_toasts ≡ 1
unfolding run initial
history_toasts = refl
