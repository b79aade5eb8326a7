-- ===== src/Cats.antt =====
-- The cats that walk along the foot of every page (client/src/components/CatLayer.tsx). Times are in
-- milliseconds, widths in pixels, and the place of a cat in parts of a pixel of which there are 1660,
-- so that the way of a whole number of milliseconds is whole. What `Math.random` decides is given.
pub mod Outcomes
pub mod Solo
pub mod Interactions
pub mod Frame
use home_camera_system.Prelude.{◌==◌, ℕ, ◌+◌, ◌-◌, ◌*◌, ◌≤◌, Bool, true, false, Option, some}

pub data CatId : Type 0 where
  panther mushu coco : CatId

pub data Direction : Type 0 where
  left right : Direction

pub data Activity : Type 0 where
  walk sit sleep stretch loaf judge on_post groom snuggle hiss scared chase flee play : Activity

pub data MoodKind : Type 0 where
  calm angry happy excited loving sleepy : MoodKind

-- An emoji, or one of the pool of a cat's moods, by its place in the pool.
pub data Mood : Type 0 where
  emoji : ℕ → Mood
  pooled : CatId → MoodKind → ℕ → Mood

pub record CatState : Type 0 where
  pub id : CatId
  pub x : ℕ
  pub direction : Direction
  pub activity : Activity
  pub activity_until : ℕ
  pub mood : Option Mood
  pub mood_secondary : Option Mood
  pub mood_until : ℕ
  pub target_x : Option ℕ
  pub last_interacted_with : Option CatId
  pub last_interacted_at : ℕ
  pub phase : ℕ

-- What chance decides in one choice: a number below the sum of the weights, in thousandths of a
-- weight, a place in a pool of moods, and two tosses.
pub record Chance : Type 0 where
  pub roll : ℕ
  pub pick : ℕ
  pub heads : Bool
  pub also : Bool

abbrev pub parts : ℕ → ℕ
parts px = px * 1660

abbrev pub rank : CatId → ℕ
rank panther = 0
rank mushu = 1
rank coco = 2

-- `a === b`
abbrev pub same_cat : CatId → CatId → Bool
same_cat a b = rank a == rank b

unfoldable pub set_mood : CatState → Mood → ℕ → ℕ → Option Mood → CatState
set_mood c mood duration now secondary = record c {
  mood = some mood;
  mood_secondary = secondary;
  mood_until = now + duration;
}

unfoldable pub set_activity : CatState → Activity → ℕ → ℕ → CatState
set_activity c activity duration now = record c {
  activity = activity;
  activity_until = now + duration;
}

abbrev pub facing : Bool → Direction
facing true = right
facing false = left

-- The wall on the left and the one on the right.
abbrev pub left_wall : ℕ
left_wall = parts 8

abbrev pub right_wall : ℕ → ℕ → ℕ
right_wall w sprite = parts (w - sprite - 8)

-- Between the walls of a layer of this width.
pub record Within (w sprite : ℕ) (c : CatState) : Type 0 where
  pub from_left : left_wall ≤ c.x
  pub to_right : c.x ≤ right_wall w sprite

-- The layer is wide enough, and a sprite as wide as it can be.
pub record Roomy (w sprite : ℕ) : Type 0 where
  pub wide : 200 ≤ w
  pub least : 36 ≤ sprite
  pub most : sprite ≤ 72
