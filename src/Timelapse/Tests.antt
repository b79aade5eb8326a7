-- ===== src/Timelapse/Tests.antt =====
-- The theorem about the timelapse's clock at a concrete reel.
use home_camera_system.Prelude.{zero, suc, ◌≡◌, refl, some, List, [], ◌∷◌, arith}
use home_camera_system.Timelapse.{TimelapseSegment, reel_time_to_capture_ts, Sorted}

abbrev reel : List TimelapseSegment
reel =
    record { offset_s = 0; capture_ts = 50000 }
    ∷ record { offset_s = 4000; capture_ts = 90000 }
    ∷ record { offset_s = 9000; capture_ts = 200000 }
    ∷ []

reel-Sorted : Sorted reel
reel-Sorted zero j h l = omega arith
reel-Sorted (suc zero) (suc zero) h l = omega arith
reel-Sorted (suc zero) (suc (suc zero)) h l = omega arith
reel-Sorted (suc (suc zero)) (suc (suc zero)) h l = omega arith
reel-Sorted i j h l = absurd (omega (arith, h, l))

second_segment : reel_time_to_capture_ts reel (some 6500) ≡ some 92500
unfolding reel_time_to_capture_ts
second_segment = refl
