-- ===== src/Badge.antt =====
-- The badge of unread events on the app's icon (useUnreadBadge of client/src/lib/badge.tsx), in a
-- browser that has both functions for it. Requests for the server's count may be under way together.
mod Tests
use home_camera_system.Prelude.{
  ◌==◌, if◌then◌else◌, ℕ, ◌+◌, ◌-◌, ◌≤◌, min, ◌≡◌, Bool, true, false, ◌&&◌, not, List, [], ◌∷◌,
  arith,
}
use home_camera_system.Push.Notification.{BadgeCall, set_app_badge, clear_app_badge}

pub record Badge : Type 0 where
  pub count : ℕ
  pub cancelled : Bool
  pub requests : ℕ
  -- the calls to the browser, the last one first
  pub calls : List BadgeCall

abbrev pub badge_cap : ℕ
badge_cap = 99

abbrev call_for : ℕ → BadgeCall
call_for count = if count == 0 then clear_app_badge else set_app_badge (min count badge_cap)

push : Badge → Badge
push b = if b.cancelled then b else record b { calls = call_for b.count ∷ b.calls }

-- `reconcile` up to its await.
reconcile : Badge → Badge
reconcile b = record b { requests = b.requests + 1 }

-- The mount asks for the count.
unfoldable pub mounted : Badge
unfolding reconcile
mounted = reconcile (record { count = 0; cancelled = false; requests = 0; calls = [] })

pub data Event : Type 0 where
  answered : ℕ → Event
  failed : Event
  -- an event of the socket; whether it is a detection
  received : Bool → Event
  -- the tab becomes visible, or `homecam:badge-reconcile` is dispatched
  reconciles : Event
  unmounts : Event

settled : Badge → Badge
settled b = record b { requests = b.requests - 1 }

unfoldable pub step : Badge → Event → Badge
unfolding push reconcile settled
step b (answered n) =
    if b.requests == 0
    then b
    else if b.cancelled
    then settled b
    else push (record (settled b) { count = n })
step b failed = if b.requests == 0 then b else settled b
step b (received is_detection) =
    if is_detection && not b.cancelled then push (record b { count = b.count + 1 }) else b
step b reconciles = if b.cancelled then b else reconcile b
step b unmounts = record b { cancelled = true }

unfoldable pub run : Badge → List Event → Badge
unfolding step
run b [] = b
run b (e ∷ es) = run (step b e) es

-- What the icon says of the count.
abbrev pub Says : ℕ → List BadgeCall → Type 0
Says count [] = count ≡ 0
Says count (clear_app_badge ∷ calls) = count ≡ 0
Says count (set_app_badge n ∷ calls) = (1 ≤ n) × (n ≤ 99) × (n ≡ min count 99)

-- Every event keeps the icon in step with the count: the badge is cleared exactly at 0, and else it
-- is the count, or 99 for a larger one.
pub step-Says :
    (b : Badge) (e : Event) → Says b.count b.calls → Says (step b e).count (step b e).calls
unfolding step
step-Says b (answered n) v = ground (arith, v)
step-Says b failed v = ground (arith, v)
step-Says b (received is_detection) v = ground (arith, v)
step-Says b reconciles v = ground (arith, v)
step-Says b unmounts v = v

-- From a state in which the icon says the count, as it does at the mount, it says the count after
-- any events: the badge is cleared exactly at 0, and else it is the count, or 99 for a larger one.
pub run-Says :
    (b : Badge) (es : List Event) → Says b.count b.calls → Says (run b es).count (run b es).calls
unfolding run
run-Says b [] v = v
run-Says b (e ∷ es) v = run-Says (step b e) es (step-Says b e v)
