-- ===== src/Zoom/Fingers.antt =====
-- The fingers on a video (client/src/components/ClipModal.tsx and client/src/pages/Watch.tsx), and
-- their places in the unit of the zoom. Coordinates are in pixels.
use home_camera_system.Prelude.{ℕ, suc, ◌*◌}
use home_camera_system.Prelude.Int.{ℤ, pos, negsuc, ◌+ℤ◌, neg}

-- The fingers on the screen, and the distance of the first two.
pub data Touches : Type 0 where
  lone : ℤ × ℤ → Touches
  several : ℤ × ℤ → ℤ × ℤ → ℕ → Touches

-- The rectangle of the video's pane.
pub record Rect : Type 0 where
  pub left : ℤ
  pub top : ℤ
  pub width : ℕ
  pub height : ℕ

unfoldable pub first : Touches → ℤ × ℤ
first (lone a) = a
first (several a b d) = a

-- `n` pixels in the unit of the zoom.
unfoldable pub fine : ℤ → ℤ
fine (pos n) = pos (n * 2000)
fine (negsuc n) = neg (suc n * 2000)

unfoldable pub half : ℤ → ℤ
half (pos n) = pos (n * 1000)
half (negsuc n) = neg (suc n * 1000)

-- The middle of two points in that unit.
unfoldable pub middle : ℤ → ℤ → ℤ
unfolding half ◌+ℤ◌
middle a b = half (a +ℤ b)
