-- ===== src/Cats/Frame/Company.antt =====
-- How often the cats of client/src/components/CatLayer.tsx meet.
use home_camera_system.Prelude.{
  ltb, ltb→lt, Bool-cases, ℕ, ◌+◌, ◌-◌, ◌<◌, min, ◌≡◌, refl, ◌⊎◌, inl, inr, false, Option, none,
  some, List,
}
use home_camera_system.Cats.{CatId, CatState, Chance}
use home_camera_system.Cats.Frame.{
  interaction_cooldown_ms, meet_all, step_each, Household, with_meeting, step_cats, Layer, tick,
}

-- From the last meeting at `last` to the next state: no meeting, or one now, after the cooldown.
abbrev pub Rests : ℕ → ℕ → ℕ → Type 0
Rests last now last' = (last' ≡ last) ⊎ ((last' ≡ now) × (last + interaction_cooldown_ms < now))

with_meeting-Rests :
    (h : Household) (now : ℕ) (o : Option (List CatState))
    → h.last_interaction + interaction_cooldown_ms < now
    → Rests h.last_interaction now (with_meeting h now o).last_interaction
unfolding with_meeting
with_meeting-Rests h now none k = inl refl
with_meeting-Rests h now (some cs) k = inr (refl, k)

step_cats-Rests :
    (h : Household) (now dt w sprite : ℕ) (solo : CatId → Chance) (chance : Chance)
    → Rests h.last_interaction now (step_cats h now dt w sprite solo chance).last_interaction
unfolding step_cats
step_cats-Rests h now dt w sprite solo chance =
    let stepped : Household = record h { cats = step_each now dt w sprite solo h.cats } in
    elim (Bool-cases (ltb (h.last_interaction + interaction_cooldown_ms) now)) [
      | inl y ↦
          rw y (with_meeting-Rests stepped now (meet_all stepped.cats now w chance) (ltb→lt _ _ y))
      | inr n ↦ rw n (inl refl)
    ]

-- On a hidden page a frame leaves the cats as they are. On a visible one, two cats meet in a frame only
-- if more than 5 seconds have passed since any two last met, and the time of that frame is kept.
pub tick-Rests :
    (l : Layer) (now w sprite : ℕ) (solo : CatId → Chance) (chance : Chance)
    → (l.visible ≡ false → (tick l now w sprite solo chance).household ≡ l.household)
      × Rests l.household.last_interaction now
          (tick l now w sprite solo chance).household.last_interaction
unfolding tick
tick-Rests l now w sprite solo chance = (
  (λ h. rw h),
  elim (Bool-cases l.visible) [
    | inl y ↦ rw y (step_cats-Rests l.household now (min (now - l.last_ts) 33) w sprite solo chance)
    | inr n ↦ rw n (inl refl)
  ],
)
