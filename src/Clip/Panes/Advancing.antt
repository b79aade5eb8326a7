-- ===== src/Clip/Panes/Advancing.antt =====
-- When a swipe on the video pane leads to another event (client/src/components/ClipModal.tsx).
use home_camera_system.Prelude.{
  ltb, leb, leb→le, Bool-cases, Option-cases, is_some, ℕ, ◌≤◌, ◌≡◌, refl, ◌⊎◌, inl, inr, true,
  false, ◌&&◌, ◌||◌, Option, none, some, arith,
}
use home_camera_system.Prelude.Int.{ℤ, pos, ◌-ℤ◌, abs}
use home_camera_system.Zoom.Fingers.{lone, several, Rect}
use home_camera_system.Zoom.{zoom_identity}
use home_camera_system.Clip.{
  DetectionEvent, Axis, horizontal, vertical, Pane, swipe_advance_px, Touched, starts, moves, ends,
  cancels,
}
use home_camera_system.Clip.Panes.{
  is_horizontal, neighbor_of, drag, swipe_move, pan_move, finish, swipe_target, swipe_end,
  on_pane_touch_end, touch,
}

-- The view goes on to another event.
pub record Advances (p q : Pane) (t : Touched) : Type 0 where
  pub lifted : t ≡ ends none
  pub horizontally : p.swipe_axis ≡ some horizontal
  pub far : 70 ≤ abs p.swipe_dx
  pub there : neighbor_of p.swipe_dx p ≡ some q.event
  pub no_pan : p.pan_last ≡ none
  pub no_pinch : p.pinch_dist ≡ 0
  pub home : (q.zoom ≡ zoom_identity) × (q.offset ≡ pos 0)

drag-event : (dx dy : ℤ) (p : Pane) → (drag dx dy p).event ≡ p.event
unfolding drag
drag-event dx dy p = ground arith

swipe_move-event : (o : Option (ℤ × ℤ)) (a : ℤ × ℤ) (p : Pane) → (swipe_move o a p).event ≡ p.event
unfolding swipe_move
swipe_move-event none a p = refl
swipe_move-event (some (x, y)) (ax, ay) p = drag-event (ax -ℤ x) (ay -ℤ y) p

pan_move-event :
    (rect : Rect) (o : Option (ℤ × ℤ)) (a : ℤ × ℤ) (p : Pane)
    → (pan_move o rect a p).event ≡ p.event
unfolding pan_move
pan_move-event rect none a p = swipe_move-event p.swipe_start a p
pan_move-event rect (some (x, y)) (ax, ay) p =
    ground (arith, swipe_move-event p.swipe_start (ax, ay) p)

horizontal_lem : (a : Option Axis) → is_horizontal a ≡ true → a ≡ some horizontal
horizontal_lem none h = absurd (cc h)
horizontal_lem (some horizontal) h = refl
horizontal_lem (some vertical) h = absurd (cc h)

is_none : (o : Option (ℤ × ℤ)) → is_some o ≡ false → o ≡ none
is_none none h = refl
is_none (some a) h = absurd (cc h)

target_lem :
    (p : Pane) (e : DetectionEvent)
    → swipe_target p ≡ some e
    → (70 ≤ abs p.swipe_dx) × (neighbor_of p.swipe_dx p ≡ some e)
unfolding swipe_target
target_lem p e h = elim (Bool-cases (leb swipe_advance_px (abs p.swipe_dx))) [
  | inl y ↦ (leb→le _ _ y, rw y at h)
  | inr n ↦ absurd (cc (rw n at h))
]

end-Advances :
    (p : Pane)
    → ((on_pane_touch_end none p).event ≡ p.event)
      ⊎ Advances p (on_pane_touch_end none p) (ends none)
unfolding on_pane_touch_end swipe_end finish
end-Advances p = elim (Bool-cases (is_some p.pan_last || ltb 0 p.pinch_dist)) [
  | inl y ↦ inl (rw y)
  | inr n ↦ elim (Bool-cases (is_some p.swipe_start && is_horizontal p.swipe_axis)) [
    | inr m ↦ inl (rw (n, m))
    | inl y ↦ elim (Option-cases (swipe_target p)) [
      | inl w ↦ inl (rw (n, y) (rw w))
      | inr (e, w) ↦
          let t = target_lem p e w in
          inr (
            rw (n, y)
              (rw w (record {
                lifted = refl;
                horizontally = horizontal_lem p.swipe_axis (ground arith);
                far = t.0;
                there = t.1;
                no_pan = is_none p.pan_last (ground arith);
                no_pinch = ground arith;
                home = (refl, refl);
              })))
    ]
  ]
]

module _ (times : ℕ → ℕ × ℕ → ℕ) (by_ratio : ℤ → ℕ → ℕ → ℤ) where
  -- The open event changes only when the last finger is lifted after a horizontal drag of at least 70
  -- pixels that was neither a pinch nor a pan of the zoomed layer; then it becomes the neighbour on
  -- that side, and the layer and the pane are back in their places.
  pub touch-Advances :
      (rect : Rect) (p : Pane) (t : Touched)
      → ((touch times by_ratio rect p t).event ≡ p.event)
        ⊎ Advances p (touch times by_ratio rect p t) t
  unfolding touch on_pane_touch_end swipe_end
  touch-Advances rect p (starts (lone a) c g) = inl (ground arith)
  touch-Advances rect p (starts (several a b d) c g) = inl refl
  touch-Advances rect p (moves (several a b d)) = inl refl
  touch-Advances rect p (moves (lone a)) = inl (pan_move-event rect p.pan_last a p)
  touch-Advances rect p (ends (some t)) = inl refl
  touch-Advances rect p (ends none) = end-Advances p
  touch-Advances rect p cancels = inl (ground arith)
