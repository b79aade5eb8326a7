-- ===== src/Cats/Frame.antt =====
-- One frame of the cats (`stepCats` of client/src/components/CatLayer.tsx) and the loop that draws
-- them. A place left of 0 is as 0 here: both are put at 8 pixels.
pub mod Walls
pub mod Company
mod Tests
use home_camera_system.Prelude.{
  ltb, if◌then◌else◌, is_some, ℕ, ◌+◌, ◌-◌, ◌*◌, ◌/◌, ◌%◌, min, Bool, true, false, ◌&&◌, not,
  Option, none, some, List, [], ◌∷◌,
}
use home_camera_system.Cats.{
  CatId, panther, mushu, coco, Direction, left, right, Activity, walk, sit, loaf, judge, snuggle,
  scared, chase, flee, play, calm, CatState, Chance, parts, same_cat, left_wall, right_wall,
}
use home_camera_system.Cats.Solo.{roll_solo}
use home_camera_system.Cats.Interactions.{roll_interaction}

abbrev pub interaction_distance : ℕ
interaction_distance = 50

abbrev pub interaction_cooldown_ms : ℕ
interaction_cooldown_ms = 5000

phase_for : Activity → ℕ → ℕ
phase_for walk now = now / 67 % 2
phase_for chase now = now / 67 % 2
phase_for flee now = now / 67 % 2
phase_for sit now = now / 600 % 2
phase_for judge now = now / 600 % 2
phase_for loaf now = now / 600 % 2
phase_for snuggle now = now / 600 % 2
phase_for scared now = now / 600 % 2
phase_for _ now = 0

-- The speeds in hundredths of a pixel by 16.6 ms, which are parts of a pixel by a millisecond.
speed : CatId → ℕ
speed panther = 25
speed mushu = 70
speed coco = 35

pace : CatId → Activity → ℕ
unfolding speed
pace id walk = speed id
pace id chase = 150
pace id flee = 180
pace id play = 20
pace id _ = 0

moved : Direction → ℕ → ℕ → ℕ
moved right x way = x + way
moved left x way = x - way

is_right : Direction → Bool
is_right right = true
is_right left = false

bounced : ℕ → ℕ → CatState → CatState
unfolding is_right
bounced w sprite c =
    if ltb c.x left_wall
    then record c { x = left_wall; direction = right }
    else if ltb (right_wall w sprite) c.x
    then record c { x = right_wall w sprite; direction = left }
    else c

-- A mood that is over goes.
unmood : ℕ → CatState → CatState
unmood now c =
    if is_some c.mood && ltb c.mood_until now
    then record c { mood = none; mood_secondary = none }
    else c

step_cat : ℕ → ℕ → ℕ → ℕ → Chance → CatState → CatState
unfolding phase_for pace moved bounced unmood roll_solo
step_cat now dt w sprite chance c =
    let calm = unmood now c in
    let way = pace c.id c.activity * dt in
    let gone = record calm { x = moved c.direction c.x way } in
    let next = record (bounced w sprite gone) { phase = phase_for c.activity now } in
    if ltb c.activity_until now
    then roll_solo (record next { target_x = none }) now w sprite chance
    else next

is_open : Activity → Bool
is_open walk = true
is_open sit = true
is_open _ = false

met : CatState → CatState → ℕ → Bool
met a b now = elim a.last_interacted_with [
  | none ↦ false
  | some id ↦ same_cat id b.id && ltb now (a.last_interacted_at + interaction_cooldown_ms * 2)
]

apart : ℕ → ℕ → ℕ
apart x y = (x - y) + (y - x)

-- The two are open to it, have not just met, are near, and something comes of it.
encounter : CatState → CatState → ℕ → ℕ → Chance → Option (CatState × CatState)
unfolding is_open met apart roll_interaction
encounter a b now w chance =
    if (is_open a.activity && is_open b.activity)
      && ((not (met a b now) && not (met b a now))
          && ltb (apart a.x b.x) (parts interaction_distance))
    then roll_interaction a b now w chance
    else none

-- What the loop finds with one cat, or else with the cats after it.
first_of :
    CatState
    → List CatState
    → Option (CatState × CatState)
    → Option (CatState × List CatState)
    → Option (CatState × List CatState)
first_of b bs (some (na, nb)) rest = some (na, nb ∷ bs)
first_of b bs none none = none
first_of b bs none (some (na, nbs)) = some (na, b ∷ nbs)

-- `cats[i]` against each of the cats after it.
try_pairs : CatState → List CatState → ℕ → ℕ → Chance → Option (CatState × List CatState)
unfolding encounter first_of
try_pairs a [] now w chance = none
try_pairs a (b ∷ bs) now w chance =
    first_of b bs (encounter a b now w chance) (try_pairs a bs now w chance)

one_of :
    CatState → Option (CatState × List CatState) → Option (List CatState) → Option (List CatState)
one_of a (some (na, nbs)) rest = some (na ∷ nbs)
one_of a none none = none
one_of a none (some cs) = some (a ∷ cs)

meet_all : List CatState → ℕ → ℕ → Chance → Option (List CatState)
unfolding try_pairs one_of
meet_all [] now w chance = none
meet_all (a ∷ bs) now w chance = one_of a (try_pairs a bs now w chance) (meet_all bs now w chance)

step_each : ℕ → ℕ → ℕ → ℕ → (CatId → Chance) → List CatState → List CatState
unfolding step_cat
step_each now dt w sprite solo [] = []
step_each now dt w sprite solo (c ∷ cs) =
    step_cat now dt w sprite (solo c.id) c ∷ step_each now dt w sprite solo cs

-- `lastGlobalInteractionRef` stands beside the cats.
pub record Household : Type 0 where
  pub cats : List CatState
  pub last_interaction : ℕ

with_meeting : Household → ℕ → Option (List CatState) → Household
with_meeting h now none = h
with_meeting h now (some cs) = record { cats = cs; last_interaction = now }

-- A frame in which nothing changes gives the same cats.
unfoldable pub step_cats : Household → ℕ → ℕ → ℕ → ℕ → (CatId → Chance) → Chance → Household
unfolding step_each meet_all with_meeting
step_cats h now dt w sprite solo chance =
    let stepped = record h { cats = step_each now dt w sprite solo h.cats } in
    if ltb (h.last_interaction + interaction_cooldown_ms) now
    then with_meeting stepped now (meet_all stepped.cats now w chance)
    else stepped

pub record Layer : Type 0 where
  pub household : Household
  pub last_ts : ℕ
  pub visible : Bool

-- The callback of an animation frame: a gap counts as 33 ms at most.
unfoldable pub tick : Layer → ℕ → ℕ → ℕ → (CatId → Chance) → Chance → Layer
unfolding step_cats
tick l now w sprite solo chance =
    let dt = min (now - l.last_ts) 33 in
    let next = step_cats l.household now dt w sprite solo chance in
    record l { last_ts = now; household = if l.visible then next else l.household }

-- `visibilitychange`, at a time.
unfoldable pub on_vis : Layer → Bool → ℕ → Layer
on_vis l hidden now = record l { visible = not hidden; last_ts = now }
