-- ===== src/Cats/Frame/Tests.antt =====
-- Frames of three cats on a layer of 375 pixels.
use home_camera_system.Prelude.{All, ℕ, ◌≡◌, refl, true, false, none, [], ◌∷◌, arith}
use home_camera_system.Prelude.Text.{same_text}
use home_camera_system.Cats.{
  CatId, panther, mushu, coco, right, walk, CatState, Chance, parts, Within, Roomy,
}
use home_camera_system.Cats.Outcomes.{interactions_mushu_coco, interactions_mushu_panther}
use home_camera_system.Cats.Interactions.{roll_interaction}
use home_camera_system.Cats.Frame.{Household, step_cats, Layer}
use home_camera_system.Cats.Frame.Walls.{step_cats-Within}

abbrev cat_at : CatId → ℕ → CatState
cat_at id px = record {
  id = id;
  x = parts px;
  direction = right;
  activity = walk;
  activity_until = 9000;
  mood = none;
  mood_secondary = none;
  mood_until = 0;
  target_x = none;
  last_interacted_with = none;
  last_interacted_at = 0;
  phase = 0;
}

abbrev by_chance : Chance
by_chance = record { roll = 100; pick = 0; heads = true; also = false }

abbrev three : Household
three = record {
  cats = cat_at panther 20 ∷ cat_at mushu 200 ∷ cat_at coco 210 ∷ [];
  last_interaction = 0;
}

abbrev rivals : Household
rivals = record { cats = cat_at panther 20 ∷ cat_at mushu 40 ∷ []; last_interaction = 0 }

roomy : Roomy 375 36
roomy = record { wide = omega arith; least = omega arith; most = omega arith }

-- Side by side, Mushu and Coco walk past each other.
lovers_pass : (step_cats three 6000 16 375 36 (λ _. by_chance) by_chance).last_interaction ≡ 0
unfolding step_cats roll_interaction same_text interactions_mushu_coco
lovers_pass = refl

-- Panther hisses at Mushu.
rivals_meet : (step_cats rivals 6000 16 375 36 (λ _. by_chance) by_chance).last_interaction ≡ 6000
unfolding step_cats roll_interaction same_text interactions_mushu_panther
rivals_meet = refl

step_cats-Within_example :
    All (Within 375 36) (step_cats three 6000 33 375 36 (λ _. by_chance) by_chance).cats
step_cats-Within_example = step_cats-Within 375 36 roomy three 6000 33 (λ _. by_chance) by_chance

abbrev layer : Layer
layer = record { household = three; last_ts = 5000; visible = true }
