-- ===== src/Watch/Aiming.antt =====
-- What holds of the gesture on the full-screen video (client/src/pages/Watch.tsx).
use home_camera_system.Prelude.{
  ltb, if◌then◌else◌, Bool-cases, contains, ℕ, ◌-◌, ◌≡◌, refl, ap, ◌⊎◌, inl, inr, Bool, true, false,
  ◌&&◌, ◌||◌, Option, none, some, List, [], ◌∷◌,
}
use home_camera_system.Prelude.Int.{ℤ, ◌-ℤ◌, abs}
use home_camera_system.Zoom.Fingers.{Touches, lone, several, Rect, first}
use home_camera_system.Zoom.{ZoomState, zoom_identity, is_zoomed}
use home_camera_system.Watch.{
  Mode, tapping, swiping, panning, pinching, dead, GestureRef, View, poke_chrome,
  cancel_chrome_timer, hide_chrome, toggle_chrome, reset_zoom, clear_swipe_transform, enter_full,
  leave_full, is_marked, exit_full, on_pop, unmount, gone_back, go_back, gone_forward, go_forward,
}
use home_camera_system.Watch.Gestures.{
  begun, on_viewport_touch_start, is_pinching, downward, mode_of, carry, pinch_move, move_of,
  on_viewport_touch_move, finish, lift, on_viewport_touch_end,
}
use home_camera_system.Watch.Steps.{
  Event, enters, chevron, escape, jumps, mouse_down, touch_start, touch_move, touch_end, fires,
  user_back, user_forward, back_done, fullscreen_granted, fullscreen_denied, fullscreen_ends,
  leaves_page, jump, handle, step, run,
}

-- A swipe is of a video that is not zoomed, and is as long as the finger is below its start.
abbrev pub AimedAt : Option GestureRef → ZoomState → Type 0
AimedAt none zoom = Unit
AimedAt (some g) zoom =
    g.mode ≡ swiping → (is_zoomed zoom ≡ false) × (g.dy ≡ downward (g.last_y -ℤ g.y0))

abbrev pub Aimed : View → Type 0
Aimed v = AimedAt v.gesture v.zoom

if-Aimed : (b : Bool) (v w : View) → Aimed v → Aimed w → Aimed (if b then v else w)
if-Aimed true v w h k = h
if-Aimed false v w h k = k

AimedAt-zoom_identity :
    (o : Option GestureRef) (z : ZoomState) → AimedAt o z → AimedAt o zoom_identity
AimedAt-zoom_identity none z h = tt
AimedAt-zoom_identity (some g) z h = λ m. (refl, (h m).1)

mode_of-swiping :
    (zoomed : Bool) (m : Mode) (dx dy : ℤ)
    → mode_of zoomed m dx dy ≡ swiping
    → (m ≡ swiping) ⊎ (zoomed ≡ false)
unfolding mode_of
mode_of-swiping true tapping dx dy e = elim (Bool-cases (ltb 12 (abs dx) || ltb 12 (abs dy))) [
  | inl y ↦ absurd (cc (rw y at e))
  | inr n ↦ absurd (cc (rw n at e))
]
mode_of-swiping true swiping dx dy e = inl refl
mode_of-swiping true panning dx dy e = inl e
mode_of-swiping true pinching dx dy e = inl e
mode_of-swiping true dead dx dy e = inl e
mode_of-swiping false m dx dy e = inr refl

start-Aimed : (t : Touches) (b : Bool) (v : View) → Aimed v → Aimed (on_viewport_touch_start t b v)
unfolding on_viewport_touch_start clear_swipe_transform
start-Aimed (several x y d) b v h = if-Aimed v.full _ _ (λ m. absurd (cc m)) tt
start-Aimed (lone (x, y)) b v h = elim (Bool-cases v.full) [
  | inl y ↦ simp y (λ m. absurd (cc m))
  | inr n ↦ simp n tt
]

carry-Aimed :
    (m : Mode) (rect : Rect) (at : ℤ × ℤ) (g : GestureRef) (v : View)
    → (m ≡ swiping → is_zoomed v.zoom ≡ false)
    → Aimed (carry m rect at g v)
unfolding carry
carry-Aimed swiping rect (x, y) g v h = λ _. (h refl, refl)
carry-Aimed panning rect (x, y) g v h = λ m. absurd (cc m)
carry-Aimed tapping rect (x, y) g v h = λ m. absurd (cc m)
carry-Aimed pinching rect (x, y) g v h = λ m. absurd (cc m)
carry-Aimed dead rect (x, y) g v h = λ m. absurd (cc m)

on_pop-Aimed : (v : View) → Aimed v → Aimed (on_pop v)
unfolding on_pop leave_full cancel_chrome_timer reset_zoom
on_pop-Aimed v h = elim (Bool-cases v.full) [
  | inl y ↦ simp y (AimedAt-zoom_identity v.gesture v.zoom h)
  | inr n ↦ simp n h
]

go_back-Aimed : (es : List Bool) (v : View) → Aimed v → Aimed (gone_back es v)
unfolding gone_back unmount leave_full cancel_chrome_timer
go_back-Aimed [] v h = h
go_back-Aimed (true ∷ es) v h = on_pop-Aimed (record v { entries = es; ahead = true ∷ v.ahead }) h
go_back-Aimed (false ∷ es) v h = h

go_forward-Aimed : (fs : List Bool) (v : View) → Aimed v → Aimed (gone_forward fs v)
unfolding gone_forward unmount leave_full cancel_chrome_timer
go_forward-Aimed [] v h = h
go_forward-Aimed (true ∷ fs) v h =
    on_pop-Aimed (record v { entries = true ∷ v.entries; ahead = fs }) h
go_forward-Aimed (false ∷ fs) v h = h

exit_full-Aimed : (v : View) → Aimed v → Aimed (exit_full v)
unfolding exit_full leave_full cancel_chrome_timer
exit_full-Aimed v h = if-Aimed (is_marked v.entries) _ (leave_full v) h h

toggle_chrome-Aimed : (v : View) → Aimed v → Aimed (toggle_chrome v)
unfolding toggle_chrome cancel_chrome_timer poke_chrome
toggle_chrome-Aimed v h = if-Aimed v.chrome_visible _ (poke_chrome v) h h

finish-Aimed : (m : Mode) (dy : ℕ) (b : Bool) (v : View) → Aimed v → Aimed (finish m dy b v)
unfolding finish poke_chrome clear_swipe_transform
finish-Aimed swiping dy b v h =
    if-Aimed (ltb 110 dy) _ _ (exit_full-Aimed (record v { swipe_offset = 0 }) h) h
finish-Aimed tapping dy b v h = if-Aimed b _ _ h (toggle_chrome-Aimed v h)
finish-Aimed panning dy b v h = h
finish-Aimed pinching dy b v h = h
finish-Aimed dead dy b v h = h

begun-Aimed :
    (zoomed : Bool) (at : ℤ × ℤ) (z : ZoomState)
    → AimedAt (some (begun (if zoomed then panning else dead) at false)) z
unfolding begun
begun-Aimed true (x, y) z = λ m. absurd (cc m)
begun-Aimed false (x, y) z = λ m. absurd (cc m)

lift-Aimed : (o : Option GestureRef) (t : Option Touches) (v : View) → Aimed (lift o t v)
unfolding lift
lift-Aimed none t v = tt
lift-Aimed (some g) none v = finish-Aimed g.mode g.dy g.on_button (record v { gesture = none }) tt
lift-Aimed (some g) (some t) v = begun-Aimed (is_zoomed v.zoom) (first t) v.zoom

module _ (times : ℕ → ℕ × ℕ → ℕ) (by_ratio : ℤ → ℕ → ℕ → ℤ) (rect : Rect) where
  pinch_move-Aimed :
      (a b : ℤ × ℤ) (d : ℕ) (g : GestureRef) (v : View)
      → Aimed (pinch_move times by_ratio rect a b d g v)
  unfolding pinch_move clear_swipe_transform
  pinch_move-Aimed (ax, ay) (bx, by) d g v = elim (Bool-cases (is_pinching g.mode)) [
    | inl y ↦ rw y (λ m. absurd (cc (y, ap is_pinching m)))
    | inr n ↦ rw n (λ m. absurd (cc m))
  ]

  move_of-Aimed :
      (o : Option GestureRef) (t : Touches) (v : View)
      → AimedAt o v.zoom
      → Aimed v
      → Aimed (move_of times by_ratio o rect t v)
  unfolding move_of
  move_of-Aimed none t v k h = h
  move_of-Aimed (some g) (several a b d) v k h = pinch_move-Aimed a b d g v
  move_of-Aimed (some g) (lone (x, y)) v k h =
      carry-Aimed _ rect (x, y) g v
        (λ e. elim (mode_of-swiping (is_zoomed v.zoom) g.mode (x -ℤ g.x0) (y -ℤ g.y0) e) [
          | inl m ↦ (k m).0
          | inr z ↦ z
        ])

  handle-Aimed : (v : View) (e : Event) → Aimed v → Aimed (handle times by_ratio rect v e)
  unfolding handle jump unmount leave_full cancel_chrome_timer enter_full poke_chrome hide_chrome
      go_back go_forward on_viewport_touch_move on_viewport_touch_end
  handle-Aimed v enters h = if-Aimed v.full v _ h h
  handle-Aimed v chevron h = if-Aimed v.full _ v (exit_full-Aimed v h) h
  handle-Aimed v escape h = if-Aimed v.full _ v (exit_full-Aimed v h) h
  handle-Aimed v jumps h = if-Aimed v.full _ v h h
  handle-Aimed v (mouse_down b) h =
      if-Aimed v.full _ v (if-Aimed b _ _ h (toggle_chrome-Aimed v h)) h
  handle-Aimed v (touch_start t b) h = start-Aimed t b v h
  handle-Aimed v (touch_move t) h = if-Aimed v.full _ v (move_of-Aimed v.gesture t v h h) h
  handle-Aimed v (touch_end t) h = if-Aimed v.full _ _ (lift-Aimed v.gesture t v) tt
  handle-Aimed v (fires n) h = if-Aimed (contains n v.timeouts) _ v h h
  handle-Aimed v user_back h = go_back-Aimed v.entries v h
  handle-Aimed v user_forward h = go_forward-Aimed v.ahead v h
  handle-Aimed v back_done h =
      if-Aimed (ltb 0 v.backs) _ v (go_back-Aimed v.entries (record v { backs = v.backs - 1 }) h) h
  handle-Aimed v fullscreen_granted h = if-Aimed (ltb 0 v.fullscreen_requests) _ v h h
  handle-Aimed v fullscreen_denied h = h
  handle-Aimed v fullscreen_ends h =
      if-Aimed (v.fullscreen_element && v.full) _ _
        (exit_full-Aimed (record v { fullscreen_element = false }) h) h
  handle-Aimed v leaves_page h = h

  pub run-Aimed : (v : View) (es : List Event) → Aimed v → Aimed (run times by_ratio rect v es)
  unfolding run step
  run-Aimed v [] h = h
  run-Aimed v (e ∷ es) h =
      run-Aimed (step times by_ratio rect v e) es (if-Aimed v.mounted _ v (handle-Aimed v e h) h)
