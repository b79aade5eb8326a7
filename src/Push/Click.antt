-- ===== src/Push/Click.antt =====
-- A click on a notification (the `notificationclick` listener of client/src/sw.ts).
use home_camera_system.Prelude.{
  if◌then◌else◌, Bool-cases, All, ℕ, ◌+◌, ◌≡◌, refl, ◌⊎◌, inl, inr, Bool, true, false, ◌||◌, Option,
  none, some, List, [], ◌∷◌, ◌++◌, arith,
}
use home_camera_system.Prelude.Text.{codes, same_text, same_text_iff}
use home_camera_system.Push.Link.{encode, ClickData, real_id, notification_click_target}

-- A window of the app. `place` is its path with its query, and `none` is a URL that does not parse.
pub record Window : Type 0 where
  pub focusable : Bool
  pub place : Option (List ℕ)
  pub navigates : Bool

-- What the user sees in the end. `rejected` is a navigation that fails, and so does the handler.
pub data Shown : Type 0 where
  focused : ℕ → List ℕ → Shown
  opened : List ℕ → Shown
  rejected : Shown

pub record Clicked : Type 0 where
  -- the path of the request that marks the event seen
  pub seen : Option (List ℕ)
  pub shown : Option Shown

abbrev is_at : Option (List ℕ) → List ℕ → Bool
is_at none wanted = false
is_at (some place) wanted = same_text place wanted

-- The first window that can be focused is sent to the target, unless it is there. If the first
-- navigation fails, it is tried again and its failure is the handler's.
arrive : ℕ → List ℕ → Window → Shown
arrive i wanted w = if is_at w.place wanted || w.navigates then focused i wanted else rejected

visit : ℕ → List ℕ → List Window → Shown
unfolding arrive
visit i wanted [] = opened wanted
visit i wanted (w ∷ ws) =
    let rest = visit (i + 1) wanted ws in if w.focusable then arrive i wanted w else rest

abbrev pub id_of : Option ClickData → Option (List ℕ)
id_of none = none
id_of (some d) = real_id d.event_id

abbrev seen_path : List ℕ → List ℕ
seen_path id = codes "/api/events/" ++ encode id ++ codes "/seen"

-- `locate` is the path and the query that the URL API finds for a target.
go : (List ℕ → List ℕ) → List ℕ → Option (List ℕ) → List ℕ → List Window → Clicked
unfolding visit
go locate action none target ws = record { seen = none; shown = some (visit 0 (locate target) ws) }
go locate action (some id) target ws =
    if same_text action (codes "dismiss")
    then record { seen = some (seen_path id); shown = none }
    else record { seen = none; shown = some (visit 0 (locate target) ws) }

unfoldable pub on_click : (List ℕ → List ℕ) → List ℕ → Option ClickData → List Window → Clicked
unfolding go
on_click locate action d ws = go locate action (id_of d) (notification_click_target d) ws

-- Where the user is.
abbrev pub place_of : Shown → Option (List ℕ)
place_of (focused i place) = some place
place_of (opened place) = some place
place_of rejected = none

abbrev pub Navigates : Window → Type 0
Navigates w = w.navigates ≡ true

visit-place :
    (i : ℕ) (wanted : List ℕ) (ws : List Window)
    → All Navigates ws
    → place_of (visit i wanted ws) ≡ some wanted
unfolding visit arrive
visit-place i wanted [] h = refl
visit-place i wanted (w ∷ ws) h = ground (arith, visit-place (i + 1) wanted ws h.1)

-- The two ways that a click goes.
abbrev pub Opens : (List ℕ → List ℕ) → List ℕ → Option (List ℕ) → List ℕ → Clicked → Type 0
Opens locate action id target c =
    ((id ≡ none) ⊎ ¬ action ≡ codes "dismiss")
    × (c.seen ≡ none)
    × ((s : Shown) × (c.shown ≡ some s) × (place_of s ≡ some (locate target)))

abbrev pub MarksSeen : List ℕ → Option (List ℕ) → Clicked → Type 0
MarksSeen action id c =
    (action ≡ codes "dismiss")
    × (c.shown ≡ none)
    × ((event : List ℕ) × (id ≡ some event) × (c.seen ≡ some (seen_path event)))

go-shows :
    (locate : List ℕ → List ℕ) (action : List ℕ) (id : Option (List ℕ)) (target : List ℕ)
    (ws : List Window)
    → All Navigates ws
    → Opens locate action id target (go locate action id target ws)
      ⊎ MarksSeen action id (go locate action id target ws)
unfolding go
go-shows locate action none target ws h =
    inl (inl refl, refl, (visit 0 (locate target) ws, refl, visit-place 0 (locate target) ws h))
go-shows locate action (some id) target ws h =
    elim (Bool-cases (same_text action (codes "dismiss"))) [
      | inl y ↦ inr ((same_text_iff action (codes "dismiss")).0 y, rw y refl, (id, refl, rw y refl))
      | inr n ↦ inl (
        inr (λ e. absurd (cc (n, (same_text_iff action (codes "dismiss")).1 e))),
        rw n refl,
        (visit 0 (locate target) ws, rw n refl, visit-place 0 (locate target) ws h),
      )
    ]

-- If every window can be navigated, a click either marks an event seen and shows nothing, or shows
-- the target and marks nothing; the first exactly when the action is `dismiss` and the notification
-- is one for an event.
pub on_click_shows :
    (locate : List ℕ → List ℕ) (action : List ℕ) (d : Option ClickData) (ws : List Window)
    → All Navigates ws
    → Opens locate action (id_of d) (notification_click_target d) (on_click locate action d ws)
      ⊎ MarksSeen action (id_of d) (on_click locate action d ws)
unfolding on_click
on_click_shows locate action d ws h =
    go-shows locate action (id_of d) (notification_click_target d) ws h
