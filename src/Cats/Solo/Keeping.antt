-- ===== src/Cats/Solo/Keeping.antt =====
-- What a cat does on its own (client/src/components/CatLayer.tsx) leaves it between the walls.
use home_camera_system.Prelude.{
  leb, Bool-cases, All, ℕ, ◌-◌, ◌*◌, ◌≤◌, inl, inr, Option, List, [], ◌∷◌, arith,
}
use home_camera_system.Cats.{
  CatId, panther, mushu, coco, Activity, Mood, CatState, Chance, parts, left_wall, right_wall,
  Within, Roomy,
}
use home_camera_system.Cats.Solo.{
  SoloEvent, round_100, cat_tree_x, rests, climbs, walks, zooms, solo_events, chosen, act,
  roll_solo,
}

tree-Within :
    (w sprite : ℕ)
    → Roomy w sprite
    → (left_wall ≤ parts (cat_tree_x w sprite))
      × (parts (cat_tree_x w sprite) ≤ right_wall w sprite)
unfolding cat_tree_x round_100
tree-Within w sprite r = omega arith

module _ (w sprite : ℕ) (roomy : Roomy w sprite) where
  abbrev Keeps : SoloEvent → Type 0
  Keeps e =
      (c : CatState) (now : ℕ) (r : Chance)
      → Within w sprite c
      → Within w sprite (e.apply c now w sprite r)

  rests-Within :
      (a : Activity) (d : ℕ) (m : Mood) (md : ℕ) (m2 : Option Mood) (c : CatState) (now : ℕ)
      → Within w sprite c
      → Within w sprite (rests a d m md m2 c now)
  unfolding rests
  rests-Within a d m md m2 c now v = record { from_left = v.from_left; to_right = v.to_right }

  climbs-Within :
      (d : ℕ) (m : Mood) (md : ℕ) (m2 : Option Mood) (c : CatState) (now : ℕ)
      → Within w sprite (climbs d m md m2 c now w sprite)
  unfolding climbs
  climbs-Within d m md m2 c now =
      let t = tree-Within w sprite roomy in record { from_left = t.0; to_right = t.1 }

  walks-Within :
      (d : ℕ) (m : Mood) (md : ℕ) (c : CatState) (now : ℕ) (r : Chance)
      → Within w sprite c
      → Within w sprite (walks d m md c now r)
  unfolding walks
  walks-Within d m md c now r v = ground arith

  zooms-Within : (c : CatState) (now : ℕ) → Within w sprite c → Within w sprite (zooms c now w)
  unfolding zooms
  zooms-Within c now v = record { from_left = v.from_left; to_right = v.to_right }

  solo_events-Keeps : (id : CatId) → All Keeps (solo_events id)
  unfolding solo_events
  solo_events-Keeps panther = (
    (λ c now r v. rests-Within _ _ _ _ _ c now v),
    (
      (λ c now r v. climbs-Within _ _ _ _ c now),
      (
        (λ c now r v. rests-Within _ _ _ _ _ c now v),
        (
          (λ c now r v. rests-Within _ _ _ _ _ c now v),
          ((λ c now r v. walks-Within _ _ _ c now r v), tt),
        ),
      ),
    ),
  )
  solo_events-Keeps mushu = (
    (λ c now r v. zooms-Within c now v),
    (
      (λ c now r v. climbs-Within _ _ _ _ c now),
      (
        (λ c now r v. walks-Within _ _ _ c now r v),
        (
          (λ c now r v. rests-Within _ _ _ _ _ c now v),
          ((λ c now r v. rests-Within _ _ _ _ _ c now v), tt),
        ),
      ),
    ),
  )
  solo_events-Keeps coco = (
    (λ c now r v. rests-Within _ _ _ _ _ c now v),
    (
      (λ c now r v. rests-Within _ _ _ _ _ c now v),
      (
        (λ c now r v. rests-Within _ _ _ _ _ c now v),
        (
          (λ c now r v. walks-Within _ _ _ c now r v),
          ((λ c now r v. climbs-Within _ _ _ _ c now), tt),
        ),
      ),
    ),
  )

  act-Within :
      (es : List SoloEvent) (roll : ℕ) (c : CatState) (now : ℕ) (r : Chance)
      → All Keeps es
      → Within w sprite c
      → Within w sprite (act (chosen es roll) c now w sprite r)
  unfolding act chosen
  act-Within [] roll c now r k v = v
  act-Within (e ∷ es) roll c now r (k, ks) v = elim (Bool-cases (leb roll (e.weight * 1000))) [
    | inl y ↦ rw y (k c now r v)
    | inr n ↦ rw n (act-Within es (roll - e.weight * 1000) c now r ks v)
  ]

  pub roll_solo-Within :
      (c : CatState) (now : ℕ) (r : Chance)
      → Within w sprite c
      → Within w sprite (roll_solo c now w sprite r)
  unfolding roll_solo
  roll_solo-Within c now r v =
      act-Within (solo_events c.id) r.roll c now r (solo_events-Keeps c.id) v
