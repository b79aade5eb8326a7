-- ===== src/Badge/Tests.antt =====
-- The theorem about the badge at a concrete history.
use home_camera_system.Prelude.{◌≡◌, refl, true, false, List, [], ◌∷◌}
use home_camera_system.Push.Notification.{set_app_badge}
use home_camera_system.Badge.{mounted, Event, answered, received, reconciles, run}

abbrev busy_day : List Event
busy_day = answered 98 ∷ received true ∷ received true ∷ reconciles ∷ received false ∷ []

badge_is_capped :
    (run mounted busy_day).calls ≡ set_app_badge 99 ∷ set_app_badge 99 ∷ set_app_badge 98 ∷ []
unfolding run mounted
badge_is_capped = refl
