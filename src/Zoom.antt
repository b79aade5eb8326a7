-- ===== src/Zoom.antt =====
-- The pinch-to-zoom arithmetic (client/src/lib/pinchZoom.ts). A scale is in thousandths, a translation
-- and a position in the layer in thousandths of half a pixel, and the viewport in pixels, so that the
-- bounds of a translation are whole. The two products with a ratio, which round, are parameters.
pub mod Fingers
mod Tests
use home_camera_system.Prelude.{
  ltb, ℕ, ◌-◌, ◌*◌, ◌≤◌, min, max, ◌≡◌, ap, ◌∙◌, Bool, List, [], ◌∷◌, arith,
}
use home_camera_system.Prelude.Int.{
  ℤ, pos, ◌+ℤ◌, ◌-ℤ◌, abs, neg, clamp_ℤ, abs-clamp_ℤ, clamp_ℤ-of_abs, -ℤ_back,
}

pub record ZoomState : Type 0 where
  pub scale : ℕ
  pub tx : ℤ
  pub ty : ℤ

abbrev pub zoom_min : ℕ
zoom_min = 1000

abbrev pub zoom_max : ℕ
zoom_max = 5000

abbrev pub zoom_identity : ZoomState
zoom_identity = record { scale = 1000; tx = pos 0; ty = pos 0 }

clamp : ℕ → ℕ → ℕ → ℕ
clamp v lo hi = min hi (max lo v)

-- `((scale - 1) * vw) / 2`, for a scale that is at least 1.
abbrev pub max_t : ℕ → ℕ → ℕ
max_t scale size = (scale - 1000) * size

unfoldable pub clamp_zoom : ZoomState → ℕ → ℕ → ZoomState
unfolding clamp
clamp_zoom s vw vh =
    let scale = clamp s.scale zoom_min zoom_max in
    record {
      scale = scale;
      tx = clamp_ℤ (neg (max_t scale vw)) (pos (max_t scale vw)) s.tx;
      ty = clamp_ℤ (neg (max_t scale vh)) (pos (max_t scale vh)) s.ty;
    }

-- `times s r` is the scale `s` by the ratio of the fingers' distances, and `by_ratio x k' k` is x by
-- the ratio of two scales.
module _ {R : Type 0} (times : ℕ → R → ℕ) (by_ratio : ℤ → ℕ → ℕ → ℤ) where
  -- The content point between the fingers stays where it is.
  pinched : ZoomState → ℤ → ℤ → R → ℕ → ℕ → ZoomState
  unfolding clamp
  pinched prev fx fy ratio vw vh =
      let next_scale = clamp (times prev.scale ratio) zoom_min zoom_max in
      let cx = pos (vw * 1000) in
      let cy = pos (vh * 1000) in
      record {
        scale = next_scale;
        tx = fx -ℤ cx -ℤ by_ratio (fx -ℤ cx -ℤ prev.tx) next_scale prev.scale;
        ty = fy -ℤ cy -ℤ by_ratio (fy -ℤ cy -ℤ prev.ty) next_scale prev.scale;
      }

  unfoldable pub pinch_update : ZoomState → ℤ → ℤ → R → ℕ → ℕ → ZoomState
  unfolding pinched clamp_zoom
  pinch_update prev fx fy ratio vw vh = clamp_zoom (pinched prev fx fy ratio vw vh) vw vh

unfoldable pub pan_update : ZoomState → ℤ → ℤ → ℕ → ℕ → ZoomState
unfolding clamp_zoom ◌+ℤ◌
pan_update prev dx dy vw vh =
    clamp_zoom (record prev { tx = prev.tx +ℤ dx; ty = prev.ty +ℤ dy }) vw vh

-- `s.scale > 1.001`
abbrev pub is_zoomed : ZoomState → Bool
is_zoomed s = ltb 1001 s.scale

-- The scaled content covers the viewport: no edge of it is inside, and at scale 1 nothing is moved.
pub record Covers (vw vh : ℕ) (s : ZoomState) : Type 0 where
  pub at_least : zoom_min ≤ s.scale
  pub at_most : s.scale ≤ zoom_max
  pub across : abs s.tx ≤ max_t s.scale vw
  pub down : abs s.ty ≤ max_t s.scale vh
  pub home : s.scale ≡ zoom_min → s ≡ zoom_identity

clamp_bounds :
    (v : ℕ) → (zoom_min ≤ clamp v zoom_min zoom_max) × (clamp v zoom_min zoom_max ≤ zoom_max)
unfolding clamp
clamp_bounds v = omega arith

abs_zero : (t : ℤ) → abs t ≤ 0 → t ≡ pos 0
abs_zero t h = ground arith

max_home : (scale size : ℕ) → scale ≡ zoom_min → max_t scale size ≡ 0
max_home scale size e = grind arith

layer-Covers :
    (vw vh : ℕ) (s : ZoomState)
    → zoom_min ≤ s.scale
    → s.scale ≤ zoom_max
    → abs s.tx ≤ max_t s.scale vw
    → abs s.ty ≤ max_t s.scale vh
    → Covers vw vh s
layer-Covers vw vh s a b c d = record {
  at_least = a;
  at_most = b;
  across = c;
  down = d;
  home = λ e.
      let x = abs_zero s.tx (omega (arith, c, max_home s.scale vw e)) in
      let y = abs_zero s.ty (omega (arith, d, max_home s.scale vh e)) in
      λ i. record { scale = e i; tx = x i; ty = y i };
}

clamp_zoom-Covers : (s : ZoomState) (vw vh : ℕ) → Covers vw vh (clamp_zoom s vw vh)
unfolding clamp_zoom
clamp_zoom-Covers s vw vh =
    let b = clamp_bounds s.scale in
    layer-Covers vw vh _ b.0 b.1 (abs-clamp_ℤ _ s.tx) (abs-clamp_ℤ _ s.ty)

pub zoom_identity-Covers : (vw vh : ℕ) → Covers vw vh zoom_identity
zoom_identity-Covers vw vh =
    layer-Covers vw vh zoom_identity (omega arith) (omega arith) (omega arith) (omega arith)

clamp_self : (v : ℕ) → zoom_min ≤ v → v ≤ zoom_max → clamp v zoom_min zoom_max ≡ v
unfolding clamp
clamp_self v h k = omega arith

clamp_zoom-of_Covers : (s : ZoomState) (vw vh : ℕ) → Covers vw vh s → clamp_zoom s vw vh ≡ s
unfolding clamp_zoom
clamp_zoom-of_Covers s vw vh v =
    let a = clamp_self s.scale v.at_least v.at_most in
    rw a (λ i. record {
      scale = s.scale;
      tx = clamp_ℤ-of_abs _ s.tx v.across i;
      ty = clamp_ℤ-of_abs _ s.ty v.down i;
    })

pub pan_update-Covers :
    (s : ZoomState) (dx dy : ℤ) (vw vh : ℕ) → Covers vw vh (pan_update s dx dy vw vh)
unfolding pan_update
pan_update-Covers s dx dy vw vh =
    clamp_zoom-Covers (record s { tx = s.tx +ℤ dx; ty = s.ty +ℤ dy }) vw vh

pub data Gesture (R : Type 0) : Type 0 where
  -- the middle of the two fingers, and the ratio of their distances
  pinches : ℤ → ℤ → R → Gesture R
  pans : ℤ → ℤ → Gesture R

module _ {R : Type 0} (times : ℕ → R → ℕ) (by_ratio : ℤ → ℕ → ℕ → ℤ) where
  -- The gestures of one event on a layer of this size.
  unfoldable pub zoom_run : ℕ → ℕ → ZoomState → List (Gesture R) → ZoomState
  unfolding pinch_update pan_update
  zoom_run vw vh s [] = s
  zoom_run vw vh s (pinches fx fy ratio ∷ gs) =
      zoom_run vw vh (pinch_update times by_ratio s fx fy ratio vw vh) gs
  zoom_run vw vh s (pans dx dy ∷ gs) = zoom_run vw vh (pan_update s dx dy vw vh) gs

  pub pinch_update-Covers :
      (s : ZoomState) (fx fy : ℤ) (ratio : R) (vw vh : ℕ)
      → Covers vw vh (pinch_update times by_ratio s fx fy ratio vw vh)
  unfolding pinch_update
  pinch_update-Covers s fx fy ratio vw vh =
      clamp_zoom-Covers (pinched times by_ratio s fx fy ratio vw vh) vw vh

  -- Whatever the fingers do, and however the products round, the scale stays from 1 to 5, the content
  -- covers the viewport, and when the scale is back at 1 the layer is back in its place.
  pub zoom_run-Covers :
      (vw vh : ℕ) (s : ZoomState) (gs : List (Gesture R))
      → Covers vw vh s
      → Covers vw vh (zoom_run vw vh s gs)
  unfolding zoom_run
  zoom_run-Covers vw vh s [] v = v
  zoom_run-Covers vw vh s (pinches fx fy ratio ∷ gs) v =
      zoom_run-Covers vw vh (pinch_update times by_ratio s fx fy ratio vw vh) gs
        (pinch_update-Covers s fx fy ratio vw vh)
  zoom_run-Covers vw vh s (pans dx dy ∷ gs) v =
      zoom_run-Covers vw vh (pan_update s dx dy vw vh) gs (pan_update-Covers s dx dy vw vh)

  pinched_still :
      (s : ZoomState) (fx fy : ℤ) (ratio : R) (vw vh : ℕ)
      → ((x : ℤ) (k : ℕ) → by_ratio x k k ≡ x)
      → min zoom_max (max zoom_min (times s.scale ratio)) ≡ s.scale
      → pinched times by_ratio s fx fy ratio vw vh ≡ s
  unfolding pinched
  pinched_still s fx fy ratio vw vh exact e = rw e (λ i. record {
    scale = s.scale;
    tx = still (fx -ℤ pos (vw * 1000)) s.tx s.scale i;
    ty = still (fy -ℤ pos (vh * 1000)) s.ty s.scale i;
  })
    where
      still : (f t : ℤ) (k : ℕ) → f -ℤ by_ratio (f -ℤ t) k k ≡ t
      still f t k = rw (exact (f -ℤ t) k) (-ℤ_back f t)

  -- If a product with the ratio of two equal scales is exact, a pinch that the limits of the scale
  -- leave without effect does not move the layer either.
  pub pinch_update_still :
      (s : ZoomState) (fx fy : ℤ) (ratio : R) (vw vh : ℕ)
      → ((x : ℤ) (k : ℕ) → by_ratio x k k ≡ x)
      → Covers vw vh s
      → min zoom_max (max zoom_min (times s.scale ratio)) ≡ s.scale
      → pinch_update times by_ratio s fx fy ratio vw vh ≡ s
  unfolding pinch_update
  pinch_update_still s fx fy ratio vw vh exact v e =
      ap (λ z. clamp_zoom z vw vh) (pinched_still s fx fy ratio vw vh exact e)
      ∙ clamp_zoom-of_Covers s vw vh v
