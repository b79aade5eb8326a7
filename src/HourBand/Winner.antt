-- ===== src/HourBand/Winner.antt =====
-- Who wins an hour in client/src/components/HourBand.tsx.
use mathlib.Core.Path.{subst}
use home_camera_system.Prelude.{
  ltb, ◌==◌, if◌then◌else◌, Bool-cases, All, All-append, ℕ, ◌+◌, ◌≤◌, ◌<◌, ◌≡◌, refl, sym, ap, ◌∙◌,
  ◌⊎◌, inl, inr, Bool, true, false, ◌&&◌, ◌||◌, Option, none, some, List, [], ◌∷◌, ◌++◌, append-nil,
  append_assoc, arith,
}
use home_camera_system.HourBand.{
  DetectionEvent, IdentityKind, named_person, person, cat, other, identity_of, kind_rank, rank_of,
  Cell, empty_cell, hour_of, earlier, is_new_winner, paint, place, paint_all, hour_band,
}

abbrev is_hour : ℕ → Option ℕ → Bool
is_hour h none = false
is_hour h (some k) = k == h

-- The event is in the hour.
abbrev pub is_in : ℕ → ℕ → DetectionEvent → Bool
is_in start h e = is_hour h (hour_of start e)

abbrev pub count_in : ℕ → ℕ → List DetectionEvent → ℕ
count_in start h [] = 0
count_in start h (e ∷ es) = (if is_in start h e then 1 else 0) + count_in start h es

-- Some event of the hour has the rank and the time.
abbrev pub has_event : ℕ → ℕ → ℕ → ℕ → List DetectionEvent → Bool
has_event start h rank ts [] = false
has_event start h rank ts (e ∷ es) =
    (is_in start h e && rank_of e == rank && e.ts == ts) || has_event start h rank ts es

-- The cell is at least as good as an event: a higher rank, or the same one and not later.
abbrev pub Beats : ℕ → ℕ → Cell → DetectionEvent → Type 0
Beats start h c e =
    is_in start h e ≡ true
    → (rank_of e < c.rank) ⊎ ((rank_of e ≡ c.rank) × ((t : ℕ) × (c.ts ≡ some t) × (t ≤ e.ts)))

pub record Won (start h : ℕ) (es : List DetectionEvent) (c : Cell) : Type 0 where
  pub counted : c.count ≡ count_in start h es
  pub best : All (Beats start h c) es
  pub empty : c.ts ≡ none → c.rank ≡ 0
  pub from_event : (t : ℕ) → c.ts ≡ some t → has_event start h c.rank t es ≡ true

count_in-append :
    (start h : ℕ) (es : List DetectionEvent) (e : DetectionEvent)
    → count_in start h (es ++ e ∷ []) ≡ count_in start h es + (if is_in start h e then 1 else 0)
count_in-append start h [] e = omega arith
count_in-append start h (d ∷ es) e = omega (arith, count_in-append start h es e)

count_in-append_in :
    (start h : ℕ) (es : List DetectionEvent) (e : DetectionEvent)
    → is_in start h e ≡ true
    → count_in start h (es ++ e ∷ []) ≡ count_in start h es + 1
count_in-append_in start h es e i = ground (arith, count_in-append start h es e, i)

has_event-append :
    (start h rank ts : ℕ) (es : List DetectionEvent) (e : DetectionEvent)
    → has_event start h rank ts (es ++ e ∷ [])
      ≡ (has_event start h rank ts es || (is_in start h e && rank_of e == rank && e.ts == ts))
has_event-append start h rank ts [] e = ground arith
has_event-append start h rank ts (d ∷ es) e = ground (arith, has_event-append start h rank ts es e)

kind_rank_pos : (k : IdentityKind) → 1 ≤ kind_rank k
kind_rank_pos named_person = omega arith
kind_rank_pos person = omega arith
kind_rank_pos cat = omega arith
kind_rank_pos other = omega arith

-- What the test of the loop decides, for an event of rank r at time t on a cell of rank n and time o.
abbrev Wins : ℕ → ℕ → ℕ → Option ℕ → Type 0
Wins r t n o = (n < r) ⊎ ((r ≡ n) × ((u : ℕ) × (o ≡ some u) × (t < u)))

abbrev Loses : ℕ → ℕ → ℕ → Option ℕ → Type 0
Loses r t n o = (r < n) ⊎ ((r ≡ n) × ((u : ℕ) × (o ≡ some u) × (u ≤ t)))

abbrev test : ℕ → ℕ → ℕ → Option ℕ → Bool
test r t n o = ltb n r || (r == n && ltb 0 n && earlier t o)

test-Wins : (r t n : ℕ) (o : Option ℕ) → test r t n o ≡ true → Wins r t n o
test-Wins r t n none h = inl (ground (arith, h))
test-Wins r t n (some u) h = elim (Bool-cases (ltb n r)) [
  | inl y ↦ inl (ground (arith, y))
  | inr k ↦ inr (ground (arith, h, k), (u, refl, ground (arith, h, k)))
]

test-Loses :
    (r t n : ℕ) (o : Option ℕ) → 1 ≤ r → (o ≡ none → n ≡ 0) → test r t n o ≡ false → Loses r t n o
test-Loses r t n none p e h = absurd (ground (arith, p, e refl, h))
test-Loses r t n (some u) p e h = elim (Bool-cases (ltb r n)) [
  | inl y ↦ inl (ground (arith, y))
  | inr k ↦ inr (ground (arith, h, k), (u, refl, ground (arith, h, k, p)))
]

-- A cell that beats an event still does once a winner took it over.
beats_after :
    (q s r t n : ℕ) (o : Option ℕ)
    → Wins r t n o
    → (q < n) ⊎ ((q ≡ n) × ((u : ℕ) × (o ≡ some u) × (u ≤ s)))
    → (q < r) ⊎ ((q ≡ r) × ((u : ℕ) × (some t ≡ some u) × (u ≤ s)))
beats_after q s r t n o (inl w) (inl b) = inl (omega (arith, w, b))
beats_after q s r t n o (inl w) (inr b) = inl (omega (arith, w, b.0))
beats_after q s r t n o (inr w) (inl b) = inl (omega (arith, w.0, b))
beats_after q s r t n o (inr (e, (u, f, l))) (inr (d, (v, g, m))) =
    inr (omega (arith, e, d), (t, refl, ground (arith, f, g, l, m)))

All-imp {ℓ} :
    {A : Type ℓ} (P Q : A → Type 0) (xs : List A) → ((x : A) → P x → Q x) → All P xs → All Q xs
All-imp P Q [] f h = tt
All-imp P Q (x ∷ xs) f h = (f x h.0, All-imp P Q xs f h.1)

take_over-Won :
    (start h : ℕ) (es : List DetectionEvent) (e : DetectionEvent) (c : Cell)
    → Won start h es c
    → is_in start h e ≡ true
    → is_new_winner e c ≡ true
    → Won start h (es ++ e ∷ []) (record {
      shown = some (identity_of e);
      rank = rank_of e;
      count = c.count + 1;
      ts = some e.ts;
    })
unfolding is_new_winner
take_over-Won start h es e c v i y = record {
  counted = omega (arith, v.counted, count_in-append_in start h es e i);
  best =
      All-append _ es (e ∷ [])
        (All-imp (Beats start h c) _ es
          (λ d b j.
            beats_after (rank_of d) d.ts (rank_of e) e.ts c.rank c.ts
              (test-Wins (rank_of e) e.ts c.rank c.ts y) (b j))
          v.best)
        (λ j. inr (refl, (e.ts, refl, omega arith)), tt);
  empty = λ k. absurd (cc k);
  from_event = λ t k. ground (arith, has_event-append start h (rank_of e) t es e, i, k);
}

lost-Won :
    (start h : ℕ) (es : List DetectionEvent) (e : DetectionEvent) (c : Cell)
    → Won start h es c
    → is_in start h e ≡ true
    → is_new_winner e c ≡ false
    → Won start h (es ++ e ∷ []) (record c { count = c.count + 1 })
unfolding is_new_winner
lost-Won start h es e c v i n = record {
  counted = omega (arith, v.counted, count_in-append_in start h es e i);
  best = All-append _ es (e ∷ []) (All-imp (Beats start h c) _ es (λ d b. b) v.best) (
    λ j. test-Loses (rank_of e) e.ts c.rank c.ts (kind_rank_pos (identity_of e).kind) v.empty n,
    tt,
  );
  empty = v.empty;
  from_event = λ t k. ground (arith, has_event-append start h c.rank t es e, v.from_event t k);
}

skip-Won :
    (start h : ℕ) (es : List DetectionEvent) (e : DetectionEvent) (c : Cell)
    → Won start h es c
    → is_in start h e ≡ false
    → Won start h (es ++ e ∷ []) c
skip-Won start h es e c v i = record {
  counted = ground (arith, v.counted, count_in-append start h es e, i);
  best = All-append _ es (e ∷ []) v.best (λ j. absurd (cc (i, j)), tt);
  empty = v.empty;
  from_event = λ t k. ground (arith, has_event-append start h c.rank t es e, v.from_event t k);
}

paint-Won :
    (start h : ℕ) (es : List DetectionEvent) (e : DetectionEvent) (c : Cell)
    → Won start h es c
    → is_in start h e ≡ true
    → Won start h (es ++ e ∷ []) (paint e c)
unfolding paint
paint-Won start h es e c v i = elim (Bool-cases (is_new_winner e c)) [
  | inl y ↦ rw y (take_over-Won start h es e c v i y)
  | inr n ↦ rw n (lost-Won start h es e c v i n)
]

place-Won :
    (start h : ℕ) (es : List DetectionEvent) (e : DetectionEvent) (cells : ℕ → Cell) (o : Option ℕ)
    → hour_of start e ≡ o
    → Won start h es (cells h)
    → Won start h (es ++ e ∷ []) (place o e cells h)
place-Won start h es e cells none q v = skip-Won start h es e (cells h) v (ap (is_hour h) q)
place-Won start h es e cells (some k) q v = elim (Bool-cases (h == k)) [
  | inl y ↦
      let same : h ≡ k = ground (arith, y) in
      rw y (
        subst (λ m. Won start h (es ++ e ∷ []) (paint e (cells m))) same
          (paint-Won start h es e (cells h) v (ap (is_hour h) q ∙ ground (arith, same))))
  | inr n ↦ rw n (skip-Won start h es e (cells h) v (ap (is_hour h) q ∙ ground (arith, n)))
]

paint_all-Won :
    (start h : ℕ) (seen es : List DetectionEvent) (cells : ℕ → Cell)
    → Won start h seen (cells h)
    → Won start h (seen ++ es) (paint_all start es cells h)
unfolding paint_all
paint_all-Won start h seen [] cells v =
    subst (λ l. Won start h l (cells h)) (sym (append-nil seen)) v
paint_all-Won start h seen (e ∷ es) cells v =
    subst (λ l. Won start h l (paint_all start es (place (hour_of start e) e cells) h))
      (append_assoc seen (e ∷ []) es)
      (paint_all-Won start h (seen ++ e ∷ []) es (place (hour_of start e) e cells)
        (place-Won start h seen e cells (hour_of start e) refl v))

-- Each hour counts its events, and it shows one of them, if there is one, than which none has a
-- higher rank and none of the same rank is earlier. So neither the rank nor the time that wins
-- depends on the order of the list.
pub hour_band-Won : (start h : ℕ) (es : List DetectionEvent) → Won start h es (hour_band start es h)
unfolding hour_band
hour_band-Won start h es =
    paint_all-Won start h [] es (λ k. empty_cell)
      (record { counted = refl; best = tt; empty = λ k. refl; from_event = λ t k. absurd (cc k) })
