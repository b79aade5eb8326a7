-- ===== src/EventDays/Tests.antt =====
-- The theorem about the days of a list at concrete events.
use home_camera_system.Prelude.{ℕ, ◌/◌, ◌≡◌, refl, List, [], ◌∷◌, map}
use home_camera_system.EventDays.{
  DetectionEvent, group_events_by_day, shown, Grouped, group_events_by_day_lem,
}

abbrev utc_day : ℕ → ℕ
utc_day ts = ts / 86400

abbrev three_events : List DetectionEvent
three_events =
    record { id = 3; ts = 172900 }
    ∷ record { id = 2; ts = 90000 }
    ∷ record { id = 1; ts = 86400 }
    ∷ []

group_events_by_day_lem_example :
    (shown utc_day (group_events_by_day utc_day three_events) ≡ three_events)
    × Grouped utc_day (group_events_by_day utc_day three_events)
group_events_by_day_lem_example = group_events_by_day_lem utc_day three_events

two_days : map (λ g. g.day_key) (group_events_by_day utc_day three_events) ≡ 2 ∷ 1 ∷ []
unfolding group_events_by_day
two_days = refl
