-- ===== src/Clip/Panes/Settled.antt =====
-- What the gestures on the video pane leave (client/src/components/ClipModal.tsx).
use home_camera_system.Prelude.{
  ltb, Bool-cases, is_some, ℕ, ◌≤◌, inl, inr, Bool, true, false, ◌&&◌, ◌||◌, Option, none, some,
  arith,
}
use home_camera_system.Prelude.Int.{ℤ, ◌-ℤ◌, abs}
use home_camera_system.Zoom.Fingers.{Touches, lone, several, Rect}
use home_camera_system.Zoom.{
  is_zoomed, Covers, zoom_identity-Covers, pan_update-Covers, pinch_update-Covers,
}
use home_camera_system.Clip.{DetectionEvent, Pane, Touched, starts, moves, ends, cancels}
use home_camera_system.Clip.Panes.{
  reset_swipe_refs, on_pane_touch_start, axis_of, is_horizontal, neighbor_of, shown_offset, drag,
  swipe_move, pan_move, pinch_move, finish, swipe_target, swipe_end, on_pane_touch_end, touch,
}

-- The zoomed layer covers the pane, and the pane is never dragged further than 48 pixels.
pub record Settled (rect : Rect) (p : Pane) : Type 0 where
  pub zoomed : Covers rect.width rect.height p.zoom
  pub near : abs p.offset ≤ 144

shown_offset_near : (b : Bool) (dx : ℤ) → abs (shown_offset b dx) ≤ 144
unfolding shown_offset
shown_offset_near true dx = ground arith
shown_offset_near false dx = ground arith

start-Settled :
    (rect : Rect) (t : Touches) (c g : Bool) (p : Pane)
    → Settled rect p
    → Settled rect (on_pane_touch_start t c g p)
unfolding on_pane_touch_start
start-Settled rect (several a b d) c g p v = record { zoomed = v.zoomed; near = omega arith }
start-Settled rect (lone a) c g p v = ground arith

drag-Settled : (rect : Rect) (dx dy : ℤ) (p : Pane) → Settled rect p → Settled rect (drag dx dy p)
unfolding drag
drag-Settled rect dx dy p v = elim (Bool-cases (is_horizontal (axis_of p.swipe_axis dx dy))) [
  | inl y ↦
      rw y (record { zoomed = v.zoomed; near = shown_offset_near (is_some (neighbor_of dx p)) dx })
  | inr n ↦ rw n (record { zoomed = v.zoomed; near = v.near })
]

swipe_move-Settled :
    (rect : Rect) (o : Option (ℤ × ℤ)) (a : ℤ × ℤ) (p : Pane)
    → Settled rect p
    → Settled rect (swipe_move o a p)
unfolding swipe_move
swipe_move-Settled rect none a p v = v
swipe_move-Settled rect (some (x, y)) (ax, ay) p v = drag-Settled rect (ax -ℤ x) (ay -ℤ y) p v

pan_move-Settled :
    (rect : Rect) (o : Option (ℤ × ℤ)) (a : ℤ × ℤ) (p : Pane)
    → Settled rect p
    → Settled rect (pan_move o rect a p)
unfolding pan_move
pan_move-Settled rect none a p v = swipe_move-Settled rect p.swipe_start a p v
pan_move-Settled rect (some (x, y)) (ax, ay) p v = elim (Bool-cases (is_zoomed p.zoom)) [
  | inl z ↦ rw z (record { zoomed = pan_update-Covers p.zoom _ _ _ _; near = v.near })
  | inr n ↦ rw n (swipe_move-Settled rect p.swipe_start (ax, ay) p v)
]

finish-Settled :
    (rect : Rect) (o : Option DetectionEvent) (p : Pane)
    → Settled rect p
    → Settled rect (finish o p)
unfolding finish
finish-Settled rect none p v = record { zoomed = v.zoomed; near = omega arith }
finish-Settled rect (some e) p v = record {
  zoomed = zoom_identity-Covers rect.width rect.height;
  near = omega arith;
}

end-Settled :
    (rect : Rect) (t : Option Touches) (p : Pane)
    → Settled rect p
    → Settled rect (on_pane_touch_end t p)
unfolding on_pane_touch_end swipe_end
end-Settled rect (some t) p v = record { zoomed = v.zoomed; near = v.near }
end-Settled rect none p v = elim (Bool-cases (is_some p.pan_last || ltb 0 p.pinch_dist)) [
  | inl y ↦ rw y (record { zoomed = v.zoomed; near = v.near })
  | inr n ↦ rw n (elim (Bool-cases (is_some p.swipe_start && is_horizontal p.swipe_axis)) [
    | inl y ↦ rw y (
        finish-Settled rect (swipe_target p) (reset_swipe_refs p)
          (record { zoomed = v.zoomed; near = v.near }))
    | inr m ↦ rw m (record { zoomed = v.zoomed; near = v.near })
  ])
]

module _ (times : ℕ → ℕ × ℕ → ℕ) (by_ratio : ℤ → ℕ → ℕ → ℤ) where
  pinch_move-Settled :
      (rect : Rect) (a b : ℤ × ℤ) (d : ℕ) (p : Pane)
      → Settled rect p
      → Settled rect (pinch_move times by_ratio rect a b d p)
  unfolding pinch_move
  pinch_move-Settled rect (ax, ay) (bx, by) d p v =
      elim (Bool-cases (ltb 0 p.pinch_dist && ltb 0 d)) [
        | inl y ↦
            rw y (record {
              zoomed = pinch_update-Covers times by_ratio p.zoom _ _ _ _ _;
              near = v.near;
            })
        | inr n ↦ rw n (record { zoomed = v.zoomed; near = v.near })
      ]

  -- Whatever the fingers do on a pane of this size, its zoomed layer covers it, and the pane is not
  -- dragged further than 48 pixels.
  pub touch-Settled :
      (rect : Rect) (p : Pane) (t : Touched)
      → Settled rect p
      → Settled rect (touch times by_ratio rect p t)
  unfolding touch
  touch-Settled rect p (starts t c g) v = start-Settled rect t c g p v
  touch-Settled rect p (moves (several a b d)) v = pinch_move-Settled rect a b d p v
  touch-Settled rect p (moves (lone a)) v = pan_move-Settled rect p.pan_last a p v
  touch-Settled rect p (ends t) v = end-Settled rect t p v
  touch-Settled rect p cancels v = elim (Bool-cases (is_horizontal p.swipe_axis)) [
    | inl y ↦ rw y (record { zoomed = v.zoomed; near = omega arith })
    | inr n ↦ rw n (record { zoomed = v.zoomed; near = v.near })
  ]
