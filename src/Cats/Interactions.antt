-- ===== src/Cats/Interactions.antt =====
-- Which two cats meet (`rollInteraction` of client/src/components/CatLayer.tsx).
pub mod Keeping
pub mod Meetings
use home_camera_system.Prelude.{
  ltb, leb, ◌==◌, if◌then◌else◌, ℕ, ◌-◌, ◌*◌, Bool, true, false, Option, none, some, List, [], ◌∷◌,
  ◌++◌,
}
use home_camera_system.Prelude.Text.{codes, same_text}
use home_camera_system.Cats.{CatId, panther, mushu, coco, CatState, Chance, same_cat}
use home_camera_system.Cats.Outcomes.{
  Outcome, interactions_mushu_coco, interactions_mushu_panther, interactions_panther_coco,
}

name_of : CatId → List ℕ
name_of panther = codes "panther"
name_of mushu = codes "mushu"
name_of coco = codes "coco"

-- The order of `sort()` on texts.
before : List ℕ → List ℕ → Bool
before [] t = true
before (c ∷ s) [] = false
before (c ∷ s) (d ∷ t) = let rest = before s t in if c == d then rest else ltb c d

-- `[a.id, b.id].sort().join(':')`
pair_key : CatId → CatId → List ℕ
unfolding name_of before
pair_key a b =
    if before (name_of a) (name_of b)
    then name_of a ++ b':' ∷ name_of b
    else name_of b ++ b':' ∷ name_of a

-- The table for two cats, and which of its two parts is the first cat's.
pub record Meeting : Type 0 where
  pub pool : List Outcome
  pub first : CatId
  pub partner : CatId

abbrev pub of_mushu_coco : Meeting
of_mushu_coco = record { pool = interactions_mushu_coco; first = mushu; partner = coco }

abbrev pub of_mushu_panther : Meeting
of_mushu_panther = record { pool = interactions_mushu_panther; first = mushu; partner = panther }

abbrev pub of_panther_coco : Meeting
of_panther_coco = record { pool = interactions_panther_coco; first = panther; partner = coco }

meeting_of : List ℕ → Option Meeting
meeting_of ids =
    if same_text ids (codes "mushu:coco")
    then some of_mushu_coco
    else if same_text ids (codes "mushu:panther")
    then some of_mushu_panther
    else if same_text ids (codes "coco:panther")
    then some of_panther_coco
    else none

chosen : List Outcome → ℕ → Option Outcome
chosen [] roll = none
chosen (o ∷ os) roll =
    let rest = chosen os (roll - o.weight * 1000) in
    if leb roll (o.weight * 1000) then some o else rest

stamp : CatState → CatId → ℕ → CatState
stamp c other now = record c { last_interacted_with = some other; last_interacted_at = now }

-- Back to the order of `a` and `b`.
in_order : CatId → CatState × CatState → CatState × CatState
in_order id (na, nb) = if same_cat id na.id then (na, nb) else (nb, na)

play_out :
    Option Outcome → CatState → CatState → CatId → ℕ → ℕ → Chance → Option (CatState × CatState)
unfolding stamp in_order
play_out none first partner id now w chance = none
play_out (some o) first partner id now w chance =
    let (na, nb) = o.apply first partner now w chance.pick in
    some (in_order id (stamp na partner.id now, stamp nb first.id now))

meet : Option Meeting → CatState → CatState → ℕ → ℕ → Chance → Option (CatState × CatState)
unfolding chosen play_out
meet none a b now w chance = none
meet (some m) a b now w chance =
    let first = if same_cat a.id m.first then a else b in
    let partner = if same_cat a.id m.partner then a else b in
    play_out (chosen m.pool chance.roll) first partner a.id now w chance

unfoldable pub roll_interaction :
    CatState → CatState → ℕ → ℕ → Chance → Option (CatState × CatState)
unfolding pair_key meeting_of meet
roll_interaction a b now w chance = meet (meeting_of (pair_key a.id b.id)) a b now w chance
