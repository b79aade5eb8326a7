-- ===== src/Cats/Solo.antt =====
-- What a cat does on its own (`SOLO_EVENTS` and `rollSolo` of client/src/components/CatLayer.tsx). An
-- event is given the cat, the time, the width, the width of a sprite and what chance decides.
pub mod Keeping
use home_camera_system.Prelude.{
  ltb, leb, if◌then◌else◌, ℕ, ◌+◌, ◌-◌, ◌*◌, ◌/◌, max, not, Option, none, some, List, [], ◌∷◌,
}
use home_camera_system.Cats.{
  CatId, panther, mushu, coco, left, Activity, walk, sit, sleep, stretch, loaf, judge, on_post,
  play, calm, angry, happy, excited, sleepy, Mood, emoji, pooled, CatState, Chance, parts, set_mood,
  set_activity, facing,
}

pub record SoloEvent : Type 0 where
  pub weight : ℕ
  pub apply : CatState → ℕ → ℕ → ℕ → Chance → CatState

-- `Math.round` of a number of hundredths.
round_100 : ℕ → ℕ
round_100 n = (n + 50) / 100

-- The tree stands at 70 % of the width; half of what it is wider than a sprite is taken off.
unfoldable pub cat_tree_x : ℕ → ℕ → ℕ
unfolding round_100
cat_tree_x w sprite = round_100 (w * 70 - (max 60 (sprite * 2) - sprite) * 50)

-- One activity for a time, with a mood.
rests : Activity → ℕ → Mood → ℕ → Option Mood → CatState → ℕ → CatState
unfolding set_activity set_mood
rests activity duration mood mood_duration secondary c now =
    set_mood (set_activity c activity duration now) mood mood_duration now secondary

climbs : ℕ → Mood → ℕ → Option Mood → CatState → ℕ → ℕ → ℕ → CatState
unfolding rests cat_tree_x
climbs duration mood mood_duration secondary c now w sprite =
    record (rests on_post duration mood mood_duration secondary c now) {
      x = parts (cat_tree_x w sprite);
      direction = left;
    }

walks : ℕ → Mood → ℕ → CatState → ℕ → Chance → CatState
unfolding set_activity set_mood
walks duration mood mood_duration c now chance =
    let n = record (set_activity c walk duration now) { direction = facing (not chance.heads) } in
    if chance.also then set_mood n mood mood_duration now none else n

-- Mushu's zoomies, toward the farther wall.
zooms : CatState → ℕ → ℕ → CatState
unfolding rests
zooms c now w = record (rests play 2500 (emoji 0x1F639) 2500 (some (emoji 0x1F43E)) c now) {
  direction = facing (ltb (c.x * 2) (parts w));
}

unfoldable pub solo_events : CatId → List SoloEvent
unfolding rests climbs walks zooms
solo_events panther =
    record {
      weight = 8;
      apply = λ c now w s r. rests judge 8000 (pooled panther calm r.pick) 2200 none c now;
    }
    ∷ record {
      weight = 5;
      apply = λ c now w s r. climbs 14_000 (pooled panther calm r.pick) 2500 none c now w s;
    }
    ∷ record {
      weight = 7;
      apply = λ c now w s r. rests sleep 28_000 (emoji 0x1F4A4) 2200 none c now;
    }
    ∷ record {
      weight = 3;
      apply = λ c now w s r. rests sit 4000 (pooled panther angry r.pick) 2200 none c now;
    }
    ∷ record { weight = 2; apply = λ c now w s r. walks 5000 (emoji 0x1F63C) 2000 c now r }
    ∷ []
solo_events mushu =
    record { weight = 2; apply = λ c now w s r. zooms c now w }
    ∷ record {
      weight = 2;
      apply = λ c now w s r. climbs 8000 (pooled mushu happy r.pick) 2200 none c now w s;
    }
    ∷ record {
      weight = 2;
      apply = λ c now w s r. walks 5000 (pooled mushu happy r.pick) 1800 c now r;
    }
    ∷ record {
      weight = 5;
      apply = λ c now w s r. rests sit 4000 (pooled mushu excited r.pick) 1800 none c now;
    }
    ∷ record {
      weight = 4;
      apply = λ c now w s r. rests sleep 12_000 (emoji 0x1F4A4) 2200 none c now;
    }
    ∷ []
solo_events coco =
    record {
      weight = 9;
      apply = λ c now w s r. rests sleep 35_000 (emoji 0x1F634) 2200 (some (emoji 0x1F4A4)) c now;
    }
    ∷ record { weight = 5; apply = λ c now w s r. rests loaf 12_000 (emoji 0x2728) 2200 none c now }
    ∷ record {
      weight = 2;
      apply = λ c now w s r. rests stretch 1500 (emoji 0x1F971) 1500 (some (emoji 0x2728)) c now;
    }
    ∷ record { weight = 1; apply = λ c now w s r. walks 4500 (emoji 0x1F63B) 1800 c now r }
    ∷ record {
      weight = 1;
      apply = λ c now w s r.
          climbs 18_000 (pooled coco sleepy r.pick) 2500 (some (emoji 0x1F4A4)) c now w s;
    }
    ∷ []

total_weight : List SoloEvent → ℕ
total_weight [] = 0
total_weight (e ∷ es) = e.weight + total_weight es

-- `for (const e of pool) { roll -= e.weight; if (roll <= 0) return ... }`
chosen : List SoloEvent → ℕ → Option SoloEvent
chosen [] roll = none
chosen (e ∷ es) roll =
    let rest = chosen es (roll - e.weight * 1000) in
    if leb roll (e.weight * 1000) then some e else rest

act : Option SoloEvent → CatState → ℕ → ℕ → ℕ → Chance → CatState
act none c now w sprite chance = c
act (some e) c now w sprite chance = e.apply c now w sprite chance

unfoldable pub roll_solo : CatState → ℕ → ℕ → ℕ → Chance → CatState
unfolding chosen act solo_events
roll_solo c now w sprite chance = act (chosen (solo_events c.id) chance.roll) c now w sprite chance
