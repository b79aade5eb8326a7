-- ===== src/Cats/Outcomes.antt =====
-- What two cats can do to each other (the three tables of client/src/components/CatLayer.tsx). An
-- outcome is given the first cat, its partner, the time, the width and a place in a pool of moods.
use home_camera_system.Prelude.{ltb, if◌then◌else◌, ℕ, ◌-◌, not, none, some, List, [], ◌∷◌}
use home_camera_system.Cats.{
  coco, sit, stretch, judge, groom, snuggle, hiss, scared, chase, flee, play, loving, sleepy, emoji,
  pooled, CatState, parts, set_mood, set_activity, facing,
}

pub record Outcome : Type 0 where
  pub weight : ℕ
  pub apply : CatState → CatState → ℕ → ℕ → ℕ → CatState × CatState

grooming : CatState → CatState → ℕ → ℕ → ℕ → CatState × CatState
unfolding set_activity set_mood
grooming m c now w pick = (
  record (set_mood (set_activity m groom 3500 now) (emoji 0x1F63B) 3000 now
      (some (emoji 0x1F495))) { direction = facing (ltb m.x c.x) },
  record (set_mood (set_activity c sit 3500 now) (pooled coco loving pick) 3000 now none) {
    direction = facing (ltb c.x m.x);
  },
)

snuggling : CatState → CatState → ℕ → ℕ → ℕ → CatState × CatState
unfolding set_activity set_mood
snuggling m c now w pick = (
  set_mood (set_activity m snuggle 4500 now) (emoji 0x1F63B) 3500 now (some (emoji 0x2728)),
  set_mood (set_activity c snuggle 4500 now) (emoji 0x1F63B) 3500 now (some (emoji 0x2728)),
)

waking : CatState → CatState → ℕ → ℕ → ℕ → CatState × CatState
unfolding set_activity set_mood
waking m c now w pick = (
  set_mood (set_activity m play 1500 now) (emoji 0x1F639) 1500 now none,
  set_mood (set_activity c stretch 2000 now) (pooled coco sleepy pick) 2000 now
      (some (emoji 0x1F971)),
)

hissing : CatState → CatState → ℕ → ℕ → ℕ → CatState × CatState
unfolding set_activity set_mood
hissing m p now w pick = (
  record (set_mood (set_activity m scared 1500 now) (emoji 0x1F628) 1500 now none) {
    direction = facing (not (ltb m.x p.x));
  },
  record (set_mood (set_activity p hiss 1800 now) (emoji 0x1F63E) 1800 now (some (emoji 0x1F4A2))) {
    direction = facing (ltb p.x m.x);
  },
)

-- Mushu runs to the wall that is away from Panther.
chasing : CatState → CatState → ℕ → ℕ → ℕ → CatState × CatState
unfolding set_activity set_mood
chasing m p now w pick = (
  record (set_mood (set_activity m flee 2500 now) (emoji 0x1F631) 2000 now (some (emoji 0x1F4A8))) {
    direction = facing (ltb p.x m.x);
    target_x = some (if ltb p.x m.x then parts (w - 40) else parts 8);
  },
  record (set_mood (set_activity p chase 2500 now) (emoji 0x1F621) 2000 now
      (some (emoji 0x1F4A2))) { target_x = some m.x; direction = facing (ltb p.x m.x) },
)

teasing : CatState → CatState → ℕ → ℕ → ℕ → CatState × CatState
unfolding set_activity set_mood
teasing m p now w pick = (
  set_mood (set_activity m play 2000 now) (emoji 0x1F639) 2000 now none,
  set_mood (set_activity p sit 2500 now) (emoji 0x1F63E) 2500 now (some (emoji 0x1F621)),
)

judging : CatState → CatState → ℕ → ℕ → ℕ → CatState × CatState
unfolding set_activity set_mood
judging p c now w pick = (
  set_mood (set_activity p judge 2000 now) (emoji 0x1F63C) 2000 now (some (emoji 0x1F440)),
  set_mood (set_activity c sit 2000 now) (emoji 0x1F971) 2000 now none,
)

surprising : CatState → CatState → ℕ → ℕ → ℕ → CatState × CatState
unfolding set_activity set_mood
surprising p c now w pick = (
  set_mood (set_activity p judge 1800 now) (emoji 0x1F63C) 1800 now none,
  set_mood (set_activity c scared 1800 now) (emoji 0x1F640) 1800 now none,
)

rubbing : CatState → CatState → ℕ → ℕ → ℕ → CatState × CatState
unfolding set_activity set_mood
rubbing p c now w pick = (
  set_mood (set_activity p snuggle 3000 now) (emoji 0x1F63B) 2500 now none,
  set_mood (set_activity c snuggle 3000 now) (emoji 0x1F63B) 2500 now (some (emoji 0x2728)),
)

unfoldable pub interactions_mushu_coco : List Outcome
unfolding grooming snuggling waking
interactions_mushu_coco =
    record { weight = 5; apply = grooming }
    ∷ record { weight = 3; apply = snuggling }
    ∷ record { weight = 2; apply = waking }
    ∷ []

unfoldable pub interactions_mushu_panther : List Outcome
unfolding hissing chasing teasing
interactions_mushu_panther =
    record { weight = 4; apply = hissing }
    ∷ record { weight = 2; apply = chasing }
    ∷ record { weight = 1; apply = teasing }
    ∷ []

unfoldable pub interactions_panther_coco : List Outcome
unfolding judging surprising rubbing
interactions_panther_coco =
    record { weight = 5; apply = judging }
    ∷ record { weight = 1; apply = surprising }
    ∷ record { weight = 1; apply = rubbing }
    ∷ []
