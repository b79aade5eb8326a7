-- ===== src/EventDays.antt =====
-- The events of a list by day (groupEventsByDay of client/src/components/EventList.tsx). The local
-- day of a time is a parameter: it depends on the time zone of the browser.
mod Tests
use home_camera_system.Prelude.{
  ◌==◌, if◌then◌else◌, Bool-cases, length, length-append, All, All-append, ℕ, ◌≤◌, ◌≡◌, refl, sym,
  ap, ◌∙◌, inl, inr, List, [], ◌∷◌, ◌++◌, append-nil, append_assoc, arith,
}

pub record DetectionEvent : Type 0 where
  pub id : ℕ
  pub ts : ℕ

pub record DayGroup : Type 0 where
  pub day_key : ℕ
  pub events : List DetectionEvent

module _ (local_day_key : ℕ → ℕ) where
  abbrev new_group : DetectionEvent → DayGroup
  new_group e = record { day_key = local_day_key e.ts; events = e ∷ [] }

  -- One round of the loop. `current` is the last group.
  add_event : DetectionEvent → List DayGroup → List DayGroup
  add_event e [] = new_group e ∷ []
  add_event e (g ∷ []) =
      if g.day_key == local_day_key e.ts
      then record g { events = g.events ++ e ∷ [] } ∷ []
      else g ∷ new_group e ∷ []
  add_event e (g ∷ h ∷ groups) = let rest = add_event e (h ∷ groups) in g ∷ rest

  add_events : List DetectionEvent → List DayGroup → List DayGroup
  unfolding add_event
  add_events [] groups = groups
  add_events (e ∷ es) groups = add_events es (add_event e groups)

  unfoldable pub group_events_by_day : List DetectionEvent → List DayGroup
  unfolding add_events
  group_events_by_day es = add_events es []

  -- The events in the order of the page.
  abbrev pub shown : List DayGroup → List DetectionEvent
  shown [] = []
  shown (g ∷ groups) = g.events ++ shown groups

  abbrev pub OnDay : ℕ → DetectionEvent → Type 0
  OnDay k e = local_day_key e.ts ≡ k

  pub record Group (g : DayGroup) : Type 0 where
    pub some_event : 1 ≤ length g.events
    pub same_day : All (OnDay g.day_key) g.events

  -- Each group is of one day and not empty, and a day is not told twice in a row.
  abbrev pub Grouped : List DayGroup → Type 0
  Grouped [] = Unit {0}
  Grouped (g ∷ []) = Group g
  Grouped (g ∷ h ∷ groups) = Group g × (¬ g.day_key ≡ h.day_key) × Grouped (h ∷ groups)

  shown-add_event :
      (e : DetectionEvent) (groups : List DayGroup)
      → shown (add_event e groups) ≡ shown groups ++ e ∷ []
  unfolding add_event
  shown-add_event e [] = refl
  shown-add_event e (g ∷ []) = elim (Bool-cases (g.day_key == local_day_key e.ts)) [
    | inl y ↦ rw y (cc (append-nil g.events, append-nil (g.events ++ e ∷ [])))
    | inr n ↦ rw n (sym (append_assoc g.events [] (e ∷ [])))
  ]
  shown-add_event e (g ∷ h ∷ groups) =
      ap (λ t. g.events ++ t) (shown-add_event e (h ∷ groups))
      ∙ sym (append_assoc g.events (shown (h ∷ groups)) (e ∷ []))

  extend :
      (e : DetectionEvent) (g : DayGroup)
      → local_day_key e.ts ≡ g.day_key
      → Group g
      → Group (record g { events = g.events ++ e ∷ [] })
  extend e g h v = record {
    some_event = omega (arith, length-append g.events (e ∷ []), v.some_event);
    same_day = All-append (OnDay g.day_key) g.events (e ∷ []) v.same_day (h, tt);
  }

  one : (e : DetectionEvent) → Group (new_group e)
  one e = record { some_event = omega arith; same_day = (refl, tt) }

  Grouped-add_event :
      (e : DetectionEvent) (groups : List DayGroup) → Grouped groups → Grouped (add_event e groups)
  unfolding add_event
  Grouped-add_event e [] v = one e
  Grouped-add_event e (g ∷ []) v = elim (Bool-cases (g.day_key == local_day_key e.ts)) [
    | inl y ↦ rw y (extend e g (ground (arith, y)) v)
    | inr n ↦ rw n (v, ground (arith, n), one e)
  ]
  Grouped-add_event e (g ∷ h ∷ []) v = elim (Bool-cases (h.day_key == local_day_key e.ts)) [
    | inl y ↦ rw y (v.0, v.1, extend e h (ground (arith, y)) v.2)
    | inr n ↦ rw n (v.0, v.1, (v.2, ground (arith, n), one e))
  ]
  Grouped-add_event e (g ∷ h ∷ i ∷ groups) v = (v.0, v.1, Grouped-add_event e (h ∷ i ∷ groups) v.2)

  add_events_lem :
      (es : List DetectionEvent) (groups : List DayGroup)
      → Grouped groups
      → (shown (add_events es groups) ≡ shown groups ++ es) × Grouped (add_events es groups)
  unfolding add_events
  add_events_lem [] groups v = (sym (append-nil (shown groups)), v)
  add_events_lem (e ∷ es) groups v =
      let rest = add_events_lem es (add_event e groups) (Grouped-add_event e groups v) in
      (
        rest.0
            ∙ ap (λ t. t ++ es) (shown-add_event e groups)
            ∙ append_assoc (shown groups) (e ∷ []) es,
        rest.1,
      )

  -- The page shows every event once, in the order of the list; each group is one day with an event at
  -- least, and two groups in a row are different days.
  pub group_events_by_day_lem :
      (es : List DetectionEvent)
      → (shown (group_events_by_day es) ≡ es) × Grouped (group_events_by_day es)
  unfolding group_events_by_day
  group_events_by_day_lem es = add_events_lem es [] tt
