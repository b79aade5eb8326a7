-- ===== src/Watch/Chrome/Runs.antt =====
-- Every event keeps what holds of the live video (client/src/pages/Watch.tsx).
use home_camera_system.Prelude.{
  ltb, if◌then◌else◌, Bool-cases, ℕ, ◌-◌, ◌≡◌, refl, sym, inl, inr, Bool, true, false, ◌&&◌, none,
  List, [], ◌∷◌, arith,
}
use home_camera_system.Prelude.Int.{ℤ}
use home_camera_system.Zoom.Fingers.{Rect}
use home_camera_system.Zoom.{zoom_identity-Covers}
use home_camera_system.Watch.{
  View, mount, cancel_chrome_timer, reset_zoom, leave_full, is_marked, on_pop, unmount, gone_back,
  go_back, go_forward,
}
use home_camera_system.Watch.Gestures.{on_viewport_touch_move, on_viewport_touch_end}
use home_camera_system.Watch.Steps.{
  Event, enters, chevron, escape, jumps, mouse_down, touch_start, touch_move, touch_end, fires,
  user_back, user_forward, back_done, fullscreen_granted, fullscreen_denied, fullscreen_ends,
  leaves_page, jump, handle, step, run,
}
use home_camera_system.Watch.Chrome.{
  Holds, Kept, Alike-Holds, poke_chrome-Holds, toggle_chrome-Holds, hide_chrome-Holds,
  exit_full-Holds, enter_full-Holds, unmount-Kept, gone_back-Kept, gone_forward-Kept,
}
use home_camera_system.Watch.Chrome.Touching.{start-Holds, lift-Holds, move_of-Holds}

-- The view is docked, and its page open.
abbrev pub Docked : View → Type 0
Docked v = (v.mounted ≡ true) × (v.full ≡ false)

module _ (times : ℕ → ℕ × ℕ → ℕ) (by_ratio : ℤ → ℕ → ℕ → ℤ) (rect : Rect) where
  -- What only a full-screen view does.
  full-Kept :
      (v w : View)
      → Holds rect v
      → (v.full ≡ true → Kept rect w)
      → Kept rect (if v.full then w else v)
  full-Kept v w h k = elim (Bool-cases v.full) [ inl y ↦ simp y (k y) | inr n ↦ simp n (λ _. h) ]

  back_done-Kept :
      (v : View) → Holds rect v → Kept rect (go_back (record v { backs = v.backs - 1 }))
  unfolding go_back
  back_done-Kept v h =
      gone_back-Kept rect v.entries (record v { backs = v.backs - 1 })
        (Alike-Holds rect v _ (refl, refl, refl, refl, refl, refl, refl) h)

  fullscreen_ends-Kept :
      (v : View) → Holds rect v → Kept rect (handle times by_ratio rect v fullscreen_ends)
  unfolding handle
  fullscreen_ends-Kept v h =
      let same =
        Alike-Holds rect v (record v { fullscreen_element = false })
          (refl, refl, refl, refl, refl, refl, refl) h in
      elim (Bool-cases (v.fullscreen_element && v.full)) [
        | inl y ↦ rw y (λ _. exit_full-Holds rect _ (ground arith) same)
        | inr n ↦ rw n (λ _. same)
      ]

  jump-Kept : (v : View) → Kept rect (jump v)
  unfolding jump unmount leave_full cancel_chrome_timer
  jump-Kept v m = absurd (cc m)

  handle-Kept : (v : View) (e : Event) → Holds rect v → Kept rect (handle times by_ratio rect v e)
  unfolding handle go_back go_forward on_viewport_touch_move on_viewport_touch_end
  handle-Kept v enters h = elim (Bool-cases v.full) [
    | inl y ↦ simp y (λ _. h)
    | inr n ↦ simp n (λ _. enter_full-Holds rect v n h)
  ]
  handle-Kept v chevron h = full-Kept v _ h (λ f _. exit_full-Holds rect v f h)
  handle-Kept v escape h = full-Kept v _ h (λ f _. exit_full-Holds rect v f h)
  handle-Kept v jumps h = full-Kept v _ h (λ _. jump-Kept v)
  handle-Kept v (mouse_down true) h = full-Kept v _ h (λ f _. poke_chrome-Holds rect v f h)
  handle-Kept v (mouse_down false) h = full-Kept v _ h (λ f _. toggle_chrome-Holds rect v f h)
  handle-Kept v (touch_start t b) h = λ _. start-Holds rect t b v h
  handle-Kept v (touch_move t) h =
      full-Kept v _ h (λ f _. move_of-Holds times by_ratio rect v.gesture t v f h)
  handle-Kept v (touch_end t) h = elim (Bool-cases v.full) [
    | inl y ↦ simp y (λ _. lift-Holds rect v.gesture t v y h)
    | inr n ↦ simp n (λ _.
        Alike-Holds rect v (record v { full = false; gesture = none })
          (sym n, refl, refl, refl, refl, refl, refl) h)
  ]
  handle-Kept v (fires n) h = λ _. hide_chrome-Holds rect n v h
  handle-Kept v user_back h = gone_back-Kept rect v.entries v h
  handle-Kept v user_forward h = gone_forward-Kept rect v.ahead v h
  handle-Kept v back_done h = elim (Bool-cases (ltb 0 v.backs)) [
    | inl y ↦ simp y (back_done-Kept v h)
    | inr n ↦ simp n (λ _. h)
  ]
  handle-Kept v fullscreen_granted h = λ _. Alike-Holds rect v _ (ground arith) h
  handle-Kept v fullscreen_denied h =
      λ _. Alike-Holds rect v _ (refl, refl, refl, refl, refl, refl, refl) h
  handle-Kept v fullscreen_ends h = fullscreen_ends-Kept v h
  handle-Kept v leaves_page h = unmount-Kept rect v

  step-Kept : (v : View) (e : Event) → Kept rect v → Kept rect (step times by_ratio rect v e)
  unfolding step
  step-Kept v e k = elim (Bool-cases v.mounted) [
    | inl y ↦ simp y (handle-Kept v e (k y))
    | inr n ↦ simp n (λ m. absurd (cc m))
  ]

  run-Kept : (v : View) (es : List Event) → Kept rect v → Kept rect (run times by_ratio rect v es)
  unfolding run
  run-Kept v [] k = k
  run-Kept v (e ∷ es) k = run-Kept (step times by_ratio rect v e) es (step-Kept v e k)

  marked-Docked :
      (v : View) (es : List Bool)
      → v.mounted ≡ true
      → v.full ≡ true
      → is_marked es ≡ true
      → Docked (gone_back es v)
  unfolding gone_back on_pop leave_full cancel_chrome_timer reset_zoom
  marked-Docked v [] m f e = absurd (cc e)
  marked-Docked v (false ∷ es) m f e = absurd (cc e)
  marked-Docked v (true ∷ es) m f e = simp f (m, refl)

  back-Docked :
      (v : View)
      → v.mounted ≡ true
      → v.full ≡ true
      → is_marked v.entries ≡ true
      → Docked (step times by_ratio rect v user_back)
  unfolding step handle go_back
  back-Docked v m f e = simp m (marked-Docked v v.entries m f e)

  pub run-mount-Kept :
      (entries ahead : List Bool) (es : List Event)
      → let v = run times by_ratio rect (mount entries ahead) es in
        Kept rect v
        × (v.mounted ≡ true → v.full ≡ true → Docked (step times by_ratio rect v user_back))
  unfolding mount
  run-mount-Kept entries ahead es =
      let v = run times by_ratio rect (mount entries ahead) es in
      let k = run-Kept (mount entries ahead) es (λ _. record {
        armed = refl;
        docked = λ _. (refl, refl, refl);
        watched = λ f. absurd (cc f);
        marked = λ f. absurd (cc f);
        covered = zoom_identity-Covers rect.width rect.height;
      }) in
      (k, λ m f. back-Docked v m f ((k m).marked f).0)
