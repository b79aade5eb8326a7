-- ===== src/Card/Resting.antt =====
-- Where the card of an event stands between swipes (client/src/components/EventList.tsx).
use home_camera_system.Prelude.{
  if◌then◌else◌, Bool-cases, is_some, ◌≤◌, ◌≡◌, refl, ap, inl, inr, Bool, true, false, ◌&&◌, Option,
  none, some, List, [], ◌∷◌, arith,
}
use home_camera_system.Prelude.Int.{ℤ, pos, negsuc, pos_part, neg_part, ◌-ℤ◌, neg}
use home_camera_system.Card.{
  Axis, Card, swipe_reveal, mount, on_touch_start, axis_of, is_horizontal, dragged, move, is_past,
  latch, on_touch_end, Event, starts, moves, ends, taps_delete, sets_selection_mode, step, run,
}

abbrev pub resting_place : Bool → ℤ
resting_place revealed = if revealed then neg swipe_reveal else pos 0

-- The card is never moved to the right, nor further to the left than the pad is wide. Unless a finger
-- drags it sideways it is in its place: over the whole pad, or not over it.
pub record Rests (c : Card) : Type 0 where
  pub left : neg_part c.translate_x ≤ swipe_reveal
  pub not_right : pos_part c.translate_x ≡ 0
  pub in_place : is_horizontal c.touch_axis ≡ false → c.translate_x ≡ resting_place c.revealed
  pub lifted : c.dragging ≡ false → is_horizontal c.touch_axis ≡ false
  pub held : c.dragging ≡ is_some c.touch_start

-- A swipe is by one finger: no other lands on the card, and the selection mode does not change, while
-- it lasts.
abbrev pub OneFinger : Card → Event → Type 0
OneFinger c (starts at) = c.dragging ≡ false
OneFinger c (sets_selection_mode on) = c.dragging ≡ false
OneFinger c _ = Unit

dragged_left :
    (r : Bool) (dx : ℤ) → (neg_part (dragged r dx) ≤ swipe_reveal) × (pos_part (dragged r dx) ≡ 0)
unfolding dragged
dragged_left r (negsuc n) = ground arith
dragged_left true (pos n) = ground arith
dragged_left false (pos n) = ground arith

latch-Rests :
    (out : Bool) (c : Card)
    → c.dragging ≡ is_some c.touch_start
    → (c.dragging ≡ false → is_horizontal c.touch_axis ≡ false)
    → Rests (latch out c)
unfolding latch
latch-Rests true c h a = record {
  left = omega arith;
  not_right = refl;
  in_place = λ _. refl;
  lifted = a;
  held = h;
}
latch-Rests false c h a = record {
  left = omega arith;
  not_right = refl;
  in_place = λ _. refl;
  lifted = a;
  held = h;
}

start-Rests : (at : ℤ × ℤ) (c : Card) → c.dragging ≡ false → Rests c → Rests (on_touch_start at c)
unfolding on_touch_start
start-Rests at c d v = record {
  left = v.left;
  not_right = v.not_right;
  in_place = λ _. v.in_place (v.lifted d);
  lifted = λ _. refl;
  held = refl;
}

axis_of-kept :
    (o : Option Axis) (dx dy : ℤ)
    → is_horizontal (axis_of o dx dy) ≡ false
    → is_horizontal o ≡ false
unfolding axis_of
axis_of-kept none dx dy n = refl
axis_of-kept (some a) dx dy n = n

unaimed :
    (c : Card)
    → Rests c
    → (is_horizontal c.touch_axis && is_some c.touch_start) ≡ false
    → is_horizontal c.touch_axis ≡ false
unaimed c v n = elim (Bool-cases c.dragging) [
  | inl y ↦ ground (arith, n, y, v.held)
  | inr d ↦ v.lifted d
]

move-Rests :
    (o : Option (ℤ × ℤ)) (at : ℤ × ℤ) (c : Card) → c.touch_start ≡ o → Rests c → Rests (move o at c)
unfolding move
move-Rests none at c o v = v
move-Rests (some (x0, y0)) (x, y) c o v =
    elim (Bool-cases (is_horizontal (axis_of c.touch_axis (x -ℤ x0) (y -ℤ y0)))) [
      | inl h ↦
          let d = dragged_left c.revealed (x -ℤ x0) in
          rw h (record {
            left = d.0;
            not_right = d.1;
            in_place = λ n. absurd (cc (h, n));
            lifted = λ e. absurd (cc (e, v.held, ap is_some o));
            held = v.held;
          })
      | inr n ↦ rw n (record {
        left = v.left;
        not_right = v.not_right;
        in_place = λ _. v.in_place (axis_of-kept c.touch_axis (x -ℤ x0) (y -ℤ y0) n);
        lifted = λ _. n;
        held = v.held;
      })
    ]

end-Rests : (c : Card) → Rests c → Rests (on_touch_end c)
unfolding on_touch_end
end-Rests c v = elim (Bool-cases (is_horizontal c.touch_axis && is_some c.touch_start)) [
  | inl y ↦ rw y (
      latch-Rests (is_past c.translate_x)
        (record c { touch_start = none; dragging = false; touch_axis = none }) refl (λ _. refl))
  | inr n ↦ rw n (record {
    left = v.left;
    not_right = v.not_right;
    in_place = λ _. v.in_place (unaimed c v n);
    lifted = λ _. refl;
    held = refl;
  })
]

if-Rests : (b : Bool) (c d : Card) → Rests c → Rests d → Rests (if b then c else d)
if-Rests true c d v w = v
if-Rests false c d v w = w

step-Rests : (c : Card) (e : Event) → OneFinger c e → Rests c → Rests (step c e)
unfolding step
step-Rests c (starts at) h v = if-Rests _ _ c (start-Rests at c h v) v
step-Rests c (moves at) h v = if-Rests _ _ c (move-Rests c.touch_start at c refl v) v
step-Rests c ends h v = if-Rests _ _ c (end-Rests c v) v
step-Rests c taps_delete h v =
    let l = latch-Rests false c v.held v.lifted in
    if-Rests (c.can_delete && c.revealed) _ c
      (record {
        left = l.left;
        not_right = l.not_right;
        in_place = l.in_place;
        lifted = l.lifted;
        held = l.held;
      })
      v
step-Rests c (sets_selection_mode on) h v = record {
  left = v.left;
  not_right = v.not_right;
  in_place = v.in_place;
  lifted = v.lifted;
  held = v.held;
}

abbrev pub Swipes : Card → List Event → Type 0
Swipes c [] = Unit
Swipes c (e ∷ es) = OneFinger c e × Swipes (step c e) es

run-Rests : (c : Card) (es : List Event) → Swipes c es → Rests c → Rests (run c es)
unfolding run
run-Rests c [] s v = v
run-Rests c (e ∷ es) (o, s) v = run-Rests (step c e) es s (step-Rests c e o v)

-- After swipes of one finger each, in which no second finger lands and the selection mode stays as it
-- is, the card has not moved to the right, nor further to the left than the pad is wide; and when no
-- finger is on it, it stands exactly where it shows whether it is open: off the pad, or over it.
pub run-mount-Rests :
    (can_delete : Bool) (es : List Event)
    → Swipes (mount can_delete) es
    → let c = run (mount can_delete) es in
      (neg_part c.translate_x ≤ swipe_reveal)
      × (pos_part c.translate_x ≡ 0)
      × (c.dragging ≡ false → c.translate_x ≡ resting_place c.revealed)
unfolding mount
run-mount-Rests can_delete es s =
    let v = run-Rests (mount can_delete) es s (record {
      left = omega arith;
      not_right = refl;
      in_place = λ _. refl;
      lifted = λ _. refl;
      held = refl;
    }) in
    (v.left, v.not_right, λ d. v.in_place (v.lifted d))
