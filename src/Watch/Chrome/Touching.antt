-- ===== src/Watch/Chrome/Touching.antt =====
-- The touch handlers keep what holds of the live video (client/src/pages/Watch.tsx).
use home_camera_system.Prelude.{
  ltb, Bool-cases, ℕ, ◌≡◌, refl, inl, inr, Bool, true, ◌&&◌, Option, none, some, arith,
}
use home_camera_system.Prelude.Int.{ℤ}
use home_camera_system.Zoom.Fingers.{Touches, lone, several, Rect}
use home_camera_system.Zoom.{Covers, pan_update-Covers, pinch_update-Covers}
use home_camera_system.Watch.{
  Mode, tapping, swiping, panning, pinching, dead, GestureRef, View, clear_swipe_transform,
}
use home_camera_system.Watch.Gestures.{
  on_viewport_touch_start, is_pinching, carry, pinch_move, move_of, finish, lift,
}
use home_camera_system.Watch.Chrome.{
  Holds, Alike, Alike-Holds, poke_chrome-Holds, toggle_chrome-Holds, exit_full-Holds,
}

module _ (rect : Rect) where
  pub start-Holds :
      (t : Touches) (on_button : Bool) (v : View)
      → Holds rect v
      → Holds rect (on_viewport_touch_start t on_button v)
  unfolding on_viewport_touch_start clear_swipe_transform
  start-Holds (several a b d) on_button v h = Alike-Holds rect v _ (ground arith) h
  start-Holds (lone a) on_button v h =
      Alike-Holds rect v _ (refl, refl, refl, refl, refl, refl, refl) h

  finish-Holds :
      (mode : Mode) (dy : ℕ) (on_button : Bool) (v : View)
      → v.full ≡ true
      → Holds rect v
      → Holds rect (finish mode dy on_button v)
  unfolding finish clear_swipe_transform
  finish-Holds tapping dy on_button v f h = elim (Bool-cases on_button) [
    | inl y ↦ simp y (poke_chrome-Holds rect v f h)
    | inr n ↦ simp n (toggle_chrome-Holds rect v f h)
  ]
  finish-Holds swiping dy on_button v f h =
      let same =
        Alike-Holds rect v (record v { swipe_offset = 0 })
          (refl, refl, refl, refl, refl, refl, refl) h in
      elim (Bool-cases (ltb 110 dy)) [
        | inl y ↦ rw y (exit_full-Holds rect (record v { swipe_offset = 0 }) f same)
        | inr n ↦ rw n same
      ]
  finish-Holds panning dy on_button v f h = h
  finish-Holds pinching dy on_button v f h = h
  finish-Holds dead dy on_button v f h = h

  pub lift-Holds :
      (g : Option GestureRef) (t : Option Touches) (v : View)
      → v.full ≡ true
      → Holds rect v
      → Holds rect (lift g t v)
  unfolding lift
  lift-Holds none t v f h = Alike-Holds rect v _ (refl, refl, refl, refl, refl, refl, refl) h
  lift-Holds (some g) (some t) v f h =
      Alike-Holds rect v _ (refl, refl, refl, refl, refl, refl, refl) h
  lift-Holds (some g) none v f h =
      finish-Holds g.mode g.dy g.on_button (record v { gesture = none }) f
        (Alike-Holds rect v _ (refl, refl, refl, refl, refl, refl, refl) h)

  -- A full-screen view may be zoomed otherwise.
  zoomed-Holds :
      (a b : View)
      → a.full ≡ true
      → Covers rect.width rect.height b.zoom
      → Alike rect a (record b { zoom = a.zoom })
      → Holds rect a
      → Holds rect b
  zoomed-Holds a b f z (s, c, t, ts, _, e, n) v = record {
    armed = rw (ts, t) v.armed;
    docked = λ d. absurd (cc (d, s, f));
    watched = rw (s, c, t) v.watched;
    marked = rw (e, n, s) v.marked;
    covered = z;
  }

  carry-Holds :
      (mode : Mode) (at : ℤ × ℤ) (g : GestureRef) (v : View)
      → v.full ≡ true
      → Holds rect v
      → Holds rect (carry mode rect at g v)
  unfolding carry
  carry-Holds panning (x, y) g v f h =
      zoomed-Holds v _ f (pan_update-Covers v.zoom _ _ _ _)
        (refl, refl, refl, refl, refl, refl, refl) h
  carry-Holds swiping (x, y) g v f h =
      Alike-Holds rect v _ (refl, refl, refl, refl, refl, refl, refl) h
  carry-Holds tapping at g v f h = Alike-Holds rect v _ (refl, refl, refl, refl, refl, refl, refl) h
  carry-Holds pinching at g v f h =
      Alike-Holds rect v _ (refl, refl, refl, refl, refl, refl, refl) h
  carry-Holds dead at g v f h = Alike-Holds rect v _ (refl, refl, refl, refl, refl, refl, refl) h

module _ (times : ℕ → ℕ × ℕ → ℕ) (by_ratio : ℤ → ℕ → ℕ → ℤ) (rect : Rect) where
  pinch_move-Holds :
      (a b : ℤ × ℤ) (d : ℕ) (g : GestureRef) (v : View)
      → v.full ≡ true
      → Holds rect v
      → Holds rect (pinch_move times by_ratio rect a b d g v)
  unfolding pinch_move clear_swipe_transform
  pinch_move-Holds (ax, ay) (bx, by) d g v f h = elim (Bool-cases (is_pinching g.mode)) [
    | inr n ↦ rw n (Alike-Holds rect v _ (refl, refl, refl, refl, refl, refl, refl) h)
    | inl y ↦ rw y (elim (Bool-cases (ltb 0 g.pinch_dist && ltb 0 d)) [
      | inr n ↦ rw n (Alike-Holds rect v _ (refl, refl, refl, refl, refl, refl, refl) h)
      | inl z ↦ rw z (
          zoomed-Holds rect v _ f (pinch_update-Covers times by_ratio v.zoom _ _ _ _ _)
            (refl, refl, refl, refl, refl, refl, refl) h)
    ])
  ]

  pub move_of-Holds :
      (o : Option GestureRef) (t : Touches) (v : View)
      → v.full ≡ true
      → Holds rect v
      → Holds rect (move_of times by_ratio o rect t v)
  unfolding move_of
  move_of-Holds none t v f h = h
  move_of-Holds (some g) (several a b d) v f h = pinch_move-Holds a b d g v f h
  move_of-Holds (some g) (lone (x, y)) v f h = carry-Holds rect _ (x, y) g v f h
