-- ===== src/HourBand/Tests.antt =====
-- The theorem about the hours of a day at concrete events, the newest first.
use home_camera_system.Prelude.{ℕ, ◌≡◌, refl, Option, none, some, List, [], ◌∷◌}
use home_camera_system.Prelude.Text.{codes, same_text}
use home_camera_system.HourBand.{DetectionEvent, identity_of, hour_band}

abbrev seen : ℕ → List ℕ → Option (List ℕ) → DetectionEvent
seen ts label name = record { ts = ts; label = label; person_name = name; person_names = none }

abbrev evening : List DetectionEvent
evening =
    seen 168000 (codes "cat") none
    ∷ seen 167000 (codes "person") (some (codes "ada"))
    ∷ seen 166000 (codes "person") none
    ∷ seen 90000 (codes "dog") none
    ∷ []

person_wins : (hour_band 86400 evening 22).ts ≡ some 166000
unfolding hour_band identity_of same_text
person_wins = refl

three_in_the_hour : (hour_band 86400 evening 22).count ≡ 3
unfolding hour_band identity_of same_text
three_in_the_hour = refl
