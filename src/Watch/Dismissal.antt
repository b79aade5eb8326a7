-- ===== src/Watch/Dismissal.antt =====
-- When a lifted finger leaves full screen (client/src/pages/Watch.tsx).
use home_camera_system.Prelude.{
  ltb, if◌then◌else◌, Bool-cases, ℕ, ◌+◌, ◌≡◌, refl, ap, ◌∙◌, inl, inr, Bool, true, false, ◌&&◌,
  Option, none, some, List, arith,
}
use home_camera_system.Prelude.Int.{ℤ, ◌-ℤ◌}
use home_camera_system.Zoom.Fingers.{Touches, Rect}
use home_camera_system.Zoom.{ZoomState, is_zoomed}
use home_camera_system.Watch.{
  Mode, tapping, swiping, panning, pinching, dead, GestureRef, View, mount, poke_chrome,
  cancel_chrome_timer, toggle_chrome, clear_swipe_transform, is_marked, exit_full,
}
use home_camera_system.Watch.Gestures.{downward, finish, lift, on_viewport_touch_end}
use home_camera_system.Watch.Steps.{Event, touch_end, handle, step, run}
use home_camera_system.Watch.Chrome.{Kept}
use home_camera_system.Watch.Chrome.Runs.{run-mount-Kept}
use home_camera_system.Watch.Aiming.{AimedAt, Aimed, run-Aimed}

abbrev pub is_swiping : Mode → Bool
is_swiping swiping = true
is_swiping _ = false

-- The last finger of a swipe is lifted more than 110 pixels below where it began.
abbrev pub dismisses : Option GestureRef → Option Touches → Bool
dismisses (some g) none = is_swiping g.mode && ltb 110 (downward (g.last_y -ℤ g.y0))
dismisses _ _ = false

-- One step back is asked of the browser exactly if the full-screen video is so dismissed, and only a
-- video that is not zoomed is.
abbrev pub Asked : View → Option Touches → View → Type 0
Asked v t w =
    (w.backs ≡ v.backs + (if v.mounted && (v.full && dismisses v.gesture t) then 1 else 0))
    × (dismisses v.gesture t ≡ true → is_zoomed v.zoom ≡ false)

toggle_chrome-backs : (v : View) → (toggle_chrome v).backs ≡ v.backs + 0
unfolding toggle_chrome cancel_chrome_timer poke_chrome
toggle_chrome-backs v = ground arith

finish-backs :
    (m : Mode) (dy : ℕ) (b : Bool) (v : View)
    → is_marked v.entries ≡ true
    → (finish m dy b v).backs ≡ v.backs + (if is_swiping m && ltb 110 dy then 1 else 0)
unfolding finish exit_full clear_swipe_transform poke_chrome
finish-backs swiping dy b v e = elim (Bool-cases (ltb 110 dy)) [
  | inl y ↦ rw (y, e) refl
  | inr n ↦ rw n (omega arith)
]
finish-backs tapping dy true v e = omega arith
finish-backs tapping dy false v e = toggle_chrome-backs v
finish-backs panning dy b v e = omega arith
finish-backs pinching dy b v e = omega arith
finish-backs dead dy b v e = omega arith

is_swiping-swiping : (m : Mode) → is_swiping m ≡ true → m ≡ swiping
is_swiping-swiping swiping e = refl
is_swiping-swiping tapping e = absurd (cc e)
is_swiping-swiping panning e = absurd (cc e)
is_swiping-swiping pinching e = absurd (cc e)
is_swiping-swiping dead e = absurd (cc e)

-- The length of a swipe is what the gesture says.
as_long :
    (g : GestureRef) (z : ZoomState)
    → AimedAt (some g) z
    → (is_swiping g.mode && ltb 110 g.dy) ≡ dismisses (some g) none
as_long g z h = elim (Bool-cases (is_swiping g.mode)) [
  | inl y ↦ ap (λ d. is_swiping g.mode && ltb 110 d) (h (is_swiping-swiping g.mode y)).1
  | inr n ↦ simp n refl
]

lift-backs :
    (o : Option GestureRef) (t : Option Touches) (v : View)
    → is_marked v.entries ≡ true
    → AimedAt o v.zoom
    → (lift o t v).backs ≡ v.backs + (if dismisses o t then 1 else 0)
unfolding lift
lift-backs none t v e h = omega arith
lift-backs (some g) (some t) v e h = omega arith
lift-backs (some g) none v e h =
    finish-backs g.mode g.dy g.on_button (record v { gesture = none }) e
    ∙ ap (λ d. v.backs + (if d then 1 else 0)) (as_long g v.zoom h)

dismisses-unzoomed :
    (o : Option GestureRef) (t : Option Touches) (z : ZoomState)
    → AimedAt o z
    → dismisses o t ≡ true
    → is_zoomed z ≡ false
dismisses-unzoomed none t z h e = absurd (cc e)
dismisses-unzoomed (some g) (some t) z h e = absurd (cc e)
dismisses-unzoomed (some g) none z h e = (h (is_swiping-swiping g.mode (ground (arith, e)))).0

module _ (times : ℕ → ℕ × ℕ → ℕ) (by_ratio : ℤ → ℕ → ℕ → ℤ) (rect : Rect) where
  touch_end-backs :
      (t : Option Touches) (v : View)
      → Kept rect v
      → Aimed v
      → (step times by_ratio rect v (touch_end t)).backs
        ≡ v.backs + (if v.mounted && (v.full && dismisses v.gesture t) then 1 else 0)
  unfolding step handle on_viewport_touch_end
  touch_end-backs t v k h = elim (Bool-cases v.mounted) [
    | inr n ↦ simp n (omega arith)
    | inl y ↦ simp y (elim (Bool-cases v.full) [
      | inr n ↦ simp n (omega arith)
      | inl f ↦ simp f (lift-backs v.gesture t v ((k y).marked f).0 h)
    ])
  ]

  -- On a page that was loaded and has run in any way, the lifting of a finger asks the browser to go
  -- back, which leaves full screen, exactly if the page is open, the video is full screen, and the
  -- finger was the last one of a swipe and is more than 110 pixels below where it began. It asks once
  -- then, and otherwise not at all; and a zoomed video is never so dismissed.
  pub run-mount-Asked :
      (entries ahead : List Bool) (es : List Event) (t : Option Touches)
      → let v = run times by_ratio rect (mount entries ahead) es in
        Asked v t (step times by_ratio rect v (touch_end t))
  unfolding mount
  run-mount-Asked entries ahead es t =
      let v = run times by_ratio rect (mount entries ahead) es in
      let h = run-Aimed times by_ratio rect (mount entries ahead) es tt in
      (
        touch_end-backs t v (run-mount-Kept times by_ratio rect entries ahead es).0 h,
        dismisses-unzoomed v.gesture t v.zoom h,
      )
