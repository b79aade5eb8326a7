-- ===== src/Cats/Interactions/Keeping.antt =====
-- What two cats do to each other (client/src/components/CatLayer.tsx) leaves them where they are.
use mathlib.Core.Path.{subst}
use home_camera_system.Prelude.{
  leb, if◌then◌else◌, Bool-cases, All, ℕ, ◌-◌, ◌*◌, ◌≡◌, refl, sym, inl, inr, Bool, true, false,
  Option, none, some, List, [], ◌∷◌,
}
use home_camera_system.Prelude.Text.{codes, same_text}
use home_camera_system.Cats.{CatId, CatState, Chance, same_cat}
use home_camera_system.Cats.Outcomes.{
  Outcome, interactions_mushu_coco, interactions_mushu_panther, interactions_panther_coco,
}
use home_camera_system.Cats.Interactions.{
  pair_key, Meeting, of_mushu_coco, of_mushu_panther, of_panther_coco, meeting_of, chosen, stamp,
  in_order, play_out, meet, roll_interaction,
}

-- Both stay where they are.
abbrev Stays : Outcome → Type 0
Stays o =
    (a b : CatState) (now w pick : ℕ)
    → ((o.apply a b now w pick).0.x ≡ a.x) × ((o.apply a b now w pick).1.x ≡ b.x)

mushu_coco-Stays : All Stays interactions_mushu_coco
unfolding interactions_mushu_coco
mushu_coco-Stays = (
  (λ a b now w pick. (refl, refl)),
  ((λ a b now w pick. (refl, refl)), ((λ a b now w pick. (refl, refl)), tt)),
)

mushu_panther-Stays : All Stays interactions_mushu_panther
unfolding interactions_mushu_panther
mushu_panther-Stays = (
  (λ a b now w pick. (refl, refl)),
  ((λ a b now w pick. (refl, refl)), ((λ a b now w pick. (refl, refl)), tt)),
)

panther_coco-Stays : All Stays interactions_panther_coco
unfolding interactions_panther_coco
panther_coco-Stays = (
  (λ a b now w pick. (refl, refl)),
  ((λ a b now w pick. (refl, refl)), ((λ a b now w pick. (refl, refl)), tt)),
)

module _ (Q : ℕ → Type 0) where
  abbrev pub Both : Option (CatState × CatState) → Type 0
  Both none = Unit {0}
  Both (some (a, b)) = Q a.x × Q b.x

  in_order-Both : (id : CatId) (a b : CatState) → Q a.x → Q b.x → Both (some (in_order id (a, b)))
  unfolding in_order
  in_order-Both id a b p q = elim (Bool-cases (same_cat id a.id)) [
    | inl y ↦ rw y (p, q)
    | inr n ↦ rw n (q, p)
  ]

  play_out-Both :
      (os : List Outcome) (roll : ℕ) (a b : CatState) (id : CatId) (now w : ℕ) (r : Chance)
      → All Stays os
      → Q a.x
      → Q b.x
      → Both (play_out (chosen os roll) a b id now w r)
  unfolding play_out chosen stamp
  play_out-Both [] roll a b id now w r s p q = tt
  play_out-Both (o ∷ os) roll a b id now w r (s, ss) p q =
      elim (Bool-cases (leb roll (o.weight * 1000))) [
        | inl y ↦ rw y (
            in_order-Both id (stamp (o.apply a b now w r.pick).0 b.id now)
              (stamp (o.apply a b now w r.pick).1 a.id now) (subst Q (sym (s a b now w r.pick).0) p)
              (subst Q (sym (s a b now w r.pick).1) q))
        | inr n ↦ rw n (play_out-Both os (roll - o.weight * 1000) a b id now w r ss p q)
      ]

  meet-Both :
      (m : Meeting) (a b : CatState) (now w : ℕ) (r : Chance)
      → All Stays m.pool
      → Q a.x
      → Q b.x
      → Both (meet (some m) a b now w r)
  unfolding meet
  meet-Both m a b now w r s p q =
      play_out-Both m.pool r.roll (if same_cat a.id m.first then a else b)
        (if same_cat a.id m.partner then a else b) a.id now w r s
        (either (same_cat a.id m.first) a b p q) (either (same_cat a.id m.partner) a b p q)
    where
      either : (t : Bool) (a b : CatState) → Q a.x → Q b.x → Q (if t then a else b).x
      either true a b p q = p
      either false a b p q = q

  -- Whoever meets, both are after it where one of them was.
  pub roll_interaction-Both :
      (a b : CatState) (now w : ℕ) (r : Chance)
      → Q a.x
      → Q b.x
      → Both (roll_interaction a b now w r)
  unfolding roll_interaction meeting_of
  roll_interaction-Both a b now w r p q =
      elim (Bool-cases (same_text (pair_key a.id b.id) (codes "mushu:coco"))) [
        | inl y ↦ rw y (meet-Both of_mushu_coco a b now w r mushu_coco-Stays p q)
        | inr m ↦ rw m (elim (Bool-cases (same_text (pair_key a.id b.id) (codes "mushu:panther"))) [
          | inl y ↦ rw y (meet-Both of_mushu_panther a b now w r mushu_panther-Stays p q)
          | inr n ↦
              rw n (elim (Bool-cases (same_text (pair_key a.id b.id) (codes "coco:panther"))) [
                | inl y ↦ rw y (meet-Both of_panther_coco a b now w r panther_coco-Stays p q)
                | inr o ↦ rw (o, meet) tt
              ])
        ])
      ]
