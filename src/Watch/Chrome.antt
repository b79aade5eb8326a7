-- ===== src/Watch/Chrome.antt =====
-- What holds of the live video between events (client/src/pages/Watch.tsx).
pub mod Touching
pub mod Runs
use home_camera_system.Prelude.{
  Bool-cases, is_some, contains, set_delete, ℕ, ◌≡◌, refl, ap, inl, inr, Bool, true, false, Option,
  none, some, List, [], ◌∷◌, arith,
}
use home_camera_system.Zoom.Fingers.{Rect}
use home_camera_system.Zoom.{zoom_identity, Covers, zoom_identity-Covers}
use home_camera_system.Watch.{
  View, cleared, poke_chrome, cancel_chrome_timer, hide_chrome, toggle_chrome, reset_zoom,
  enter_full, leave_full, is_marked, exit_full, on_pop, unmount, gone_back, gone_forward,
}

abbrev listed : Option ℕ → List ℕ
listed none = []
listed (some n) = n ∷ []

-- Docked, the controls are shown, no timeout is armed and the video is not zoomed. Full screen, the
-- controls are shown exactly while a timeout is armed that will hide them, and it is the only one; the
-- history is at a marker, and nothing lies ahead of it. The zoomed video covers the viewport.
pub record Holds (rect : Rect) (v : View) : Type 0 where
  pub armed : v.timeouts ≡ listed v.chrome_timer
  pub docked :
      v.full ≡ false
      → (v.chrome_visible ≡ true) × (v.chrome_timer ≡ none) × (v.zoom ≡ zoom_identity)
  pub watched : v.full ≡ true → v.chrome_visible ≡ is_some v.chrome_timer
  pub marked : v.full ≡ true → (is_marked v.entries ≡ true) × (v.ahead ≡ [])
  pub covered : Covers rect.width rect.height v.zoom

abbrev pub Kept : Rect → View → Type 0
Kept rect v = v.mounted ≡ true → Holds rect v

cleared-listed : (o : Option ℕ) → cleared o (listed o) ≡ []
cleared-listed none = refl
cleared-listed (some n) = ground arith

set_delete-listed :
    (n : ℕ) (o : Option ℕ) → contains n (listed o) ≡ true → set_delete n (listed o) ≡ []
set_delete-listed n none c = refl
set_delete-listed n (some m) c = ground arith

contains-unlisted : (n : ℕ) (o : Option ℕ) → contains n (listed o) ≡ true → o ≡ none → ⊥
contains-unlisted n none c e = cc c
contains-unlisted n (some m) c e = cc e

module _ (rect : Rect) where
  -- The fields that the invariant reads are as they were.
  abbrev Alike : View → View → Type 0
  Alike a b =
      (b.full ≡ a.full)
      × (b.chrome_visible ≡ a.chrome_visible)
      × (b.chrome_timer ≡ a.chrome_timer)
      × (b.timeouts ≡ a.timeouts)
      × (b.zoom ≡ a.zoom)
      × (b.entries ≡ a.entries)
      × (b.ahead ≡ a.ahead)

  Alike-Holds : (a b : View) → Alike a b → Holds rect a → Holds rect b
  Alike-Holds a b (f, c, t, ts, z, e, n) v = record {
    armed = rw (ts, t) v.armed;
    docked = rw (f, c, t, z) v.docked;
    watched = rw (f, c, t) v.watched;
    marked = rw (e, n, f) v.marked;
    covered = rw z v.covered;
  }

  poke_chrome-Holds : (v : View) → v.full ≡ true → Holds rect v → Holds rect (poke_chrome v)
  unfolding poke_chrome
  poke_chrome-Holds v f h = record {
    armed = ap (λ ts. v.next_timeout ∷ ts) (rw h.armed (cleared-listed v.chrome_timer));
    docked = λ d. absurd (cc (d, f));
    watched = λ _. refl;
    marked = h.marked;
    covered = h.covered;
  }

  toggle_chrome-Holds : (v : View) → v.full ≡ true → Holds rect v → Holds rect (toggle_chrome v)
  unfolding toggle_chrome cancel_chrome_timer
  toggle_chrome-Holds v f h = elim (Bool-cases v.chrome_visible) [
    | inr n ↦ simp n (poke_chrome-Holds v f h)
    | inl y ↦ simp y (record {
      armed = rw h.armed (cleared-listed v.chrome_timer);
      docked = λ d. absurd (cc (d, f));
      watched = λ _. refl;
      marked = h.marked;
      covered = h.covered;
    })
  ]

  hide_chrome-Holds : (n : ℕ) (v : View) → Holds rect v → Holds rect (hide_chrome n v)
  unfolding hide_chrome
  hide_chrome-Holds n v h = elim (Bool-cases (contains n v.timeouts)) [
    | inr m ↦ rw m h
    | inl y ↦
        let c : contains n (listed v.chrome_timer) ≡ true = rw⁻¹ h.armed y in
        rw y (record {
          armed = rw h.armed (set_delete-listed n v.chrome_timer c);
          docked = λ d. absurd (contains-unlisted n v.chrome_timer c (h.docked d).1);
          watched = λ _. refl;
          marked = h.marked;
          covered = h.covered;
        })
  ]

  exit_full-Holds : (v : View) → v.full ≡ true → Holds rect v → Holds rect (exit_full v)
  unfolding exit_full
  exit_full-Holds v f h =
      let m : is_marked v.entries ≡ true = (h.marked f).0 in
      rw m (Alike-Holds v _ (refl, refl, refl, refl, refl, refl, refl) h)

  -- Going full screen from the docked tile.
  enter_full-Holds : (v : View) → v.full ≡ false → Holds rect v → Holds rect (enter_full v)
  unfolding enter_full poke_chrome
  enter_full-Holds v d h = record {
    armed = ap (λ ts. v.next_timeout ∷ ts) (rw h.armed (cleared-listed v.chrome_timer));
    docked = λ f. absurd (cc f);
    watched = λ _. refl;
    marked = λ _. (refl, refl);
    covered = h.covered;
  }

  -- The browser has gone to another entry of the page.
  on_pop-Holds :
      (v : View) (es fs : List Bool)
      → Holds rect v
      → Holds rect (on_pop (record v { entries = es; ahead = fs }))
  unfolding on_pop leave_full cancel_chrome_timer reset_zoom
  on_pop-Holds v es fs h = elim (Bool-cases v.full) [
    | inl y ↦ simp y (record {
      armed = rw h.armed (cleared-listed v.chrome_timer);
      docked = λ _. (refl, refl, refl);
      watched = λ g. absurd (cc g);
      marked = λ g. absurd (cc g);
      covered = zoom_identity-Covers rect.width rect.height;
    })
    | inr n ↦ simp n (record {
      armed = h.armed;
      docked = λ _. h.docked n;
      watched = λ g. absurd (cc g);
      marked = λ g. absurd (cc g);
      covered = h.covered;
    })
  ]

  unmount-Kept : (v : View) → Kept rect (unmount v)
  unfolding unmount leave_full cancel_chrome_timer
  unmount-Kept v m = absurd (cc m)

  gone_back-Kept : (es : List Bool) (v : View) → Holds rect v → Kept rect (gone_back es v)
  unfolding gone_back
  gone_back-Kept [] v h = unmount-Kept v
  gone_back-Kept (false ∷ es) v h =
      unmount-Kept (record v { entries = es; ahead = false ∷ v.ahead })
  gone_back-Kept (true ∷ es) v h = λ _. on_pop-Holds v es (true ∷ v.ahead) h

  gone_forward-Kept : (fs : List Bool) (v : View) → Holds rect v → Kept rect (gone_forward fs v)
  unfolding gone_forward
  gone_forward-Kept [] v h = λ _. h
  gone_forward-Kept (false ∷ fs) v h =
      unmount-Kept (record v { entries = false ∷ v.entries; ahead = fs })
  gone_forward-Kept (true ∷ fs) v h = λ _. on_pop-Holds v (true ∷ v.entries) fs h
