-- ===== src/Cats/Interactions/Meetings.antt =====
-- Which two cats ever meet (client/src/components/CatLayer.tsx).
use home_camera_system.Prelude.{ℕ, ◌≡◌, refl, none}
use home_camera_system.Prelude.Text.{same_text}
use home_camera_system.Cats.{CatId, panther, mushu, coco, CatState, Chance}
use home_camera_system.Cats.Interactions.{
  name_of, before, pair_key, meeting_of, meet, roll_interaction,
}

-- One of them is Mushu, and the other is Coco.
abbrev pub IsLovers : CatId → CatId → Type 0
IsLovers mushu coco = Unit {0}
IsLovers coco mushu = Unit {0}
IsLovers _ _ = ⊥

meeting_of-lovers : (a b : CatId) → IsLovers a b → meeting_of (pair_key a b) ≡ none
unfolding meeting_of pair_key name_of before same_text
meeting_of-lovers mushu coco h = refl
meeting_of-lovers coco mushu h = refl
meeting_of-lovers panther b h = absurd h
meeting_of-lovers mushu mushu h = absurd h
meeting_of-lovers mushu panther h = absurd h
meeting_of-lovers coco coco h = absurd h
meeting_of-lovers coco panther h = absurd h

-- Mushu and Coco never come to do anything together, whichever of them is first and whatever chance
-- decides: the key of the two is in the order of the letters, and the table has the other order.
pub roll_interaction-lovers :
    (a b : CatState) (now w : ℕ) (r : Chance)
    → IsLovers a.id b.id
    → roll_interaction a b now w r ≡ none
unfolding roll_interaction
roll_interaction-lovers a b now w r h = rw (meeting_of-lovers a.id b.id h, meet)
