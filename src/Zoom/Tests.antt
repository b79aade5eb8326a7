-- ===== src/Zoom/Tests.antt =====
-- Gestures of two fingers and of one, on a layer of 400 by 300 pixels. A ratio is in thousandths.
use home_camera_system.Prelude.{
  ◌==◌, if◌then◌else◌, ℕ, suc, ◌*◌, ◌/◌, min, max, ◌≡◌, refl, List, [], ◌∷◌, arith,
}
use home_camera_system.Prelude.Int.{ℤ, pos, negsuc, ◌+ℤ◌, ◌-ℤ◌, neg}
use home_camera_system.Zoom.{
  ZoomState, zoom_min, zoom_max, zoom_identity, Covers, Gesture, pinches, pans, zoom_run,
  zoom_run-Covers,
}

times : ℕ → ℕ → ℕ
times scale ratio = scale * ratio / 1000

-- A product with a ratio, rounded toward zero.
by_ratio : ℤ → ℕ → ℕ → ℤ
by_ratio (pos n) a b = if a == b then pos n else pos (n * a / b)
by_ratio (negsuc n) a b = if a == b then negsuc n else neg (suc n * a / b)

by_ratio_exact : (x : ℤ) (k : ℕ) → by_ratio x k k ≡ x
unfolding by_ratio
by_ratio_exact (pos n) k = ground arith
by_ratio_exact (negsuc n) k = ground arith

abbrev gestures : List (Gesture ℕ)
gestures = pinches (pos 100_000) (pos 100_000) 2000 ∷ pans (pos 900_000) (neg 50_000) ∷ []

zoomed_in :
    zoom_run times by_ratio 400 300 zoom_identity gestures
    ≡ record { scale = 2000; tx = pos 400_000; ty = pos 150_000 }
unfolding zoom_run times by_ratio ◌+ℤ◌ ◌-ℤ◌
zoomed_in = refl

zoom_run-Covers_example : Covers 400 300 (zoom_run times by_ratio 400 300 zoom_identity gestures)
zoom_run-Covers_example = zoom_run-Covers times by_ratio 400 300 zoom_identity gestures (record {
  at_least = omega arith;
  at_most = omega arith;
  across = omega arith;
  down = omega arith;
  home = λ _. refl;
})

abbrev full : ZoomState
full = record { scale = 5000; tx = pos 7; ty = pos 0 }

full-Covers : Covers 400 300 full
full-Covers = record {
  at_least = omega arith;
  at_most = omega arith;
  across = omega arith;
  down = omega arith;
  home = λ e. absurd (omega arith);
}

times_full : min zoom_max (max zoom_min (times full.scale 1500)) ≡ full.scale
unfolding times
times_full = refl
