-- ===== src/Cats/Frame/Walls.antt =====
-- Where the cats of client/src/components/CatLayer.tsx are after a frame.
use home_camera_system.Prelude.{
  ltb, Bool-cases, All, ℕ, ◌+◌, ◌*◌, ◌≤◌, inl, inr, ◌&&◌, not, Option, none, some, List, [], ◌∷◌,
  arith,
}
use home_camera_system.Cats.{CatId, CatState, Chance, parts, left_wall, right_wall, Within, Roomy}
use home_camera_system.Cats.Frame.{
  interaction_distance, interaction_cooldown_ms, pace, moved, bounced, unmood, step_cat, is_open,
  met, apart, encounter, first_of, try_pairs, one_of, meet_all, step_each, Household, with_meeting,
  step_cats,
}
use home_camera_system.Cats.Solo.Keeping.{roll_solo-Within}
use home_camera_system.Cats.Interactions.Keeping.{Both, roll_interaction-Both}

module _ (w sprite : ℕ) (roomy : Roomy w sprite) where
  bounced-Within : (c : CatState) → Within w sprite (bounced w sprite c)
  unfolding bounced
  bounced-Within c = ground (arith, roomy)

  step_cat-Within :
      (now dt : ℕ) (r : Chance) (c : CatState) → Within w sprite (step_cat now dt w sprite r c)
  unfolding step_cat
  step_cat-Within now dt r c =
      let v =
        bounced-Within
          (record (unmood now c) { x = moved c.direction c.x (pace c.id c.activity * dt) }) in
      elim (Bool-cases (ltb c.activity_until now)) [
        | inl y ↦ rw y (
            roll_solo-Within w sprite roomy _ now r
              (record { from_left = v.from_left; to_right = v.to_right }))
        | inr n ↦ rw n (record { from_left = v.from_left; to_right = v.to_right })
      ]

  step_each-Within :
      (now dt : ℕ) (solo : CatId → Chance) (cs : List CatState)
      → All (Within w sprite) (step_each now dt w sprite solo cs)
  unfolding step_each
  step_each-Within now dt solo [] = tt
  step_each-Within now dt solo (c ∷ cs) =
      (step_cat-Within now dt (solo c.id) c, step_each-Within now dt solo cs)

  abbrev Held : ℕ → Type 0
  Held x = (left_wall ≤ x) × (x ≤ right_wall w sprite)

  encounter-Both :
      (a b : CatState) (now : ℕ) (r : Chance)
      → Within w sprite a
      → Within w sprite b
      → Both Held (encounter a b now w r)
  unfolding encounter
  encounter-Both a b now r u v =
      elim (Bool-cases (
        (is_open a.activity && is_open b.activity)
        && ((not (met a b now) && not (met b a now))
            && ltb (apart a.x b.x) (parts interaction_distance)))) [
              | inl y ↦ rw y (
                  roll_interaction-Both Held a b now w r (u.from_left, u.to_right)
                    (v.from_left, v.to_right))
              | inr n ↦ rw n tt
            ]

  abbrev Found : Option (CatState × List CatState) → Type 0
  Found none = Unit {0}
  Found (some (a, bs)) = Within w sprite a × All (Within w sprite) bs

  first_of-Found :
      (b : CatState) (bs : List CatState) (o : Option (CatState × CatState))
      (rest : Option (CatState × List CatState))
      → Within w sprite b
      → All (Within w sprite) bs
      → Both Held o
      → Found rest
      → Found (first_of b bs o rest)
  unfolding first_of
  first_of-Found b bs (some (na, nb)) rest u v (p, q) f =
      (record { from_left = p.0; to_right = p.1 }, (record { from_left = q.0; to_right = q.1 }, v))
  first_of-Found b bs none none u v p f = tt
  first_of-Found b bs none (some (na, nbs)) u v p (f, g) = (f, (u, g))

  try_pairs-Found :
      (a : CatState) (bs : List CatState) (now : ℕ) (r : Chance)
      → Within w sprite a
      → All (Within w sprite) bs
      → Found (try_pairs a bs now w r)
  unfolding try_pairs
  try_pairs-Found a [] now r u v = tt
  try_pairs-Found a (b ∷ bs) now r u (v, vs) =
      first_of-Found b bs (encounter a b now w r) (try_pairs a bs now w r) v vs
        (encounter-Both a b now r u v) (try_pairs-Found a bs now r u vs)

  abbrev AllFound : Option (List CatState) → Type 0
  AllFound none = Unit {0}
  AllFound (some cs) = All (Within w sprite) cs

  one_of-AllFound :
      (a : CatState) (o : Option (CatState × List CatState)) (rest : Option (List CatState))
      → Within w sprite a
      → Found o
      → AllFound rest
      → AllFound (one_of a o rest)
  unfolding one_of
  one_of-AllFound a (some (na, nbs)) rest u f g = f
  one_of-AllFound a none none u f g = tt
  one_of-AllFound a none (some cs) u f g = (u, g)

  meet_all-AllFound :
      (cs : List CatState) (now : ℕ) (r : Chance)
      → All (Within w sprite) cs
      → AllFound (meet_all cs now w r)
  unfolding meet_all
  meet_all-AllFound [] now r v = tt
  meet_all-AllFound (a ∷ bs) now r (v, vs) =
      one_of-AllFound a (try_pairs a bs now w r) (meet_all bs now w r) v
        (try_pairs-Found a bs now r v vs) (meet_all-AllFound bs now r vs)

  with_meeting-Within :
      (h : Household) (now : ℕ) (o : Option (List CatState))
      → All (Within w sprite) h.cats
      → AllFound o
      → All (Within w sprite) (with_meeting h now o).cats
  unfolding with_meeting
  with_meeting-Within h now none v f = v
  with_meeting-Within h now (some cs) v f = f

  -- After a frame every cat is between the walls, wherever it was before, whatever the time between
  -- the frames, whatever chance decides and whoever meets. It is assumed that the layer is at least
  -- 200 pixels wide and a sprite 36 to 72.
  pub step_cats-Within :
      (h : Household) (now dt : ℕ) (solo : CatId → Chance) (chance : Chance)
      → All (Within w sprite) (step_cats h now dt w sprite solo chance).cats
  unfolding step_cats
  step_cats-Within h now dt solo chance =
      let each = step_each-Within now dt solo h.cats in
      elim (Bool-cases (ltb (h.last_interaction + interaction_cooldown_ms) now)) [
        | inl y ↦ rw y (
            with_meeting-Within (record h { cats = step_each now dt w sprite solo h.cats }) now
              (meet_all (step_each now dt w sprite solo h.cats) now w chance) each
              (meet_all-AllFound (step_each now dt w sprite solo h.cats) now chance each))
        | inr n ↦ rw n each
      ]
