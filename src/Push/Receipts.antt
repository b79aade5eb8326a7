-- ===== src/Push/Receipts.antt =====
-- The receipts that the service worker reports for its pushes (parsePushData and the hook around
-- `showNotification` of client/src/lib/swPushHandler.ts, and the `push` listener of
-- client/src/sw.ts). The hook is installed.
use home_camera_system.Prelude.{
  ◌==◌, if◌then◌else◌, is_some, length, ℕ, ◌+◌, ◌≡◌, refl, Bool, true, false, ◌||◌, not, Option,
  none, some, List, [], ◌∷◌, ◌++◌, arith,
}
use home_camera_system.Push.Notification.{
  Value, absent, text, PushPayload, empty_payload, Notification, non_empty, build_notification,
  BadgeCall, apply_badge,
}

pub record Receipt : Type 0 where
  pub has_image : Bool
  pub image_is_string : Bool
  pub has_event_id : Bool

abbrev is_text : Value → Bool
is_text (text s) = true
is_text _ = false

abbrev is_absent : Value → Bool
is_absent absent = true
is_absent _ = false

-- `pushReceiptBaseFields`
unfoldable pub push_receipt_base_fields : PushPayload → Receipt
push_receipt_base_fields p = record {
  has_image = not (is_absent p.image);
  image_is_string = is_text p.image;
  has_event_id = is_some (non_empty p.event_id) || is_some (non_empty p.id);
}

-- The data of a push event: none; JSON that is an object, or is not; a text that is no JSON; what
-- cannot be read at all.
pub data PushData : Type 0 where
  no_data : PushData
  json_object : PushPayload → PushData
  json_value : PushData
  plain_text : List ℕ → PushData
  unreadable : PushData

unfoldable pub payload_of : PushData → PushPayload
payload_of no_data = empty_payload
payload_of (json_object p) = p
payload_of json_value = empty_payload
payload_of (plain_text s) = record empty_payload { body = text s }
payload_of unreadable = empty_payload

pub record Worker : Type 0 where
  -- `pendingPushReceipts`, the oldest first
  pub pending : List Receipt
  -- the notifications whose promise is not settled, with the receipt that the hook took
  pub showing : List (ℕ × Receipt)
  -- the reports: the push, its receipt and whether it was shown
  pub sent : List (ℕ × Receipt × Bool)
  pub notified : List Notification
  pub badge_calls : List BadgeCall
  pub next_push : ℕ

unfoldable pub idle : Worker
idle = record {
  pending = [];
  showing = [];
  sent = [];
  notified = [];
  badge_calls = [];
  next_push = 0;
}

-- `parsePushData`: a receipt is queued on every branch.
parse_push_data : PushData → Worker → Worker
unfolding push_receipt_base_fields payload_of
parse_push_data d w = record w {
  pending = w.pending ++ push_receipt_base_fields (payload_of d) ∷ [];
}

-- `pendingPushReceipts.shift()`, and what becomes of the receipt: it waits for the promise, or it
-- is reported at once if `showNotification` throws.
take_receipt : Bool → List Receipt → Worker → Worker
take_receipt throws [] w = w
take_receipt throws (r ∷ rs) w =
    if throws
    then record w { pending = rs; sent = (w.next_push, r, false) ∷ w.sent }
    else record w { pending = rs; showing = (w.next_push, r) ∷ w.showing }

show_notification : Bool → Notification → Worker → Worker
unfolding take_receipt
show_notification throws n w =
    let taken = take_receipt throws w.pending w in
    record taken { notified = if throws then taken.notified else n ∷ taken.notified }

-- The `push` listener. `throws` says that `showNotification` throws at once.
unfoldable pub on_push : Bool → PushData → Worker → Worker
unfolding parse_push_data build_notification apply_badge show_notification
on_push throws d w =
    let p = payload_of d in
    let parsed = parse_push_data d w in
    let shown =
      show_notification throws (build_notification p)
        (record parsed { badge_calls = apply_badge true true p ++ parsed.badge_calls }) in
    record shown { next_push = w.next_push + 1 }

find_showing : ℕ → List (ℕ × Receipt) → Option Receipt
find_showing i [] = none
find_showing i ((j, r) ∷ rs) = if j == i then some r else find_showing i rs

drop_showing : ℕ → List (ℕ × Receipt) → List (ℕ × Receipt)
drop_showing i [] = []
drop_showing i ((j, r) ∷ rs) = let rest = drop_showing i rs in if j == i then rs else (j, r) ∷ rest

-- What the hook sends once the promise of its notification is settled.
report : Option Receipt → ℕ → Bool → Worker → Worker
unfolding drop_showing
report none i ok w = w
report (some r) i ok w = record w { showing = drop_showing i w.showing; sent = (i, r, ok) ∷ w.sent }

-- The promise of the i-th notification is resolved or rejected.
unfoldable pub settle : ℕ → Bool → Worker → Worker
unfolding find_showing report
settle i ok w = report (find_showing i w.showing) i ok w

pub data Event : Type 0 where
  pushes : Bool → PushData → Event
  settles : ℕ → Bool → Event

unfoldable pub step : Worker → Event → Worker
unfolding on_push settle
step w (pushes throws d) = on_push throws d w
step w (settles i ok) = settle i ok w

unfoldable pub run : Worker → List Event → Worker
unfolding step
run w [] = w
run w (e ∷ es) = run (step w e) es

pub record Matched (w : Worker) : Type 0 where
  pub none_pending : w.pending ≡ []
  pub counted : length w.showing + length w.sent ≡ w.next_push

push-Matched :
    (throws : Bool) (d : PushData) (w : Worker) → Matched w → Matched (on_push throws d w)
unfolding on_push
push-Matched throws d w v = grind (arith, v.none_pending, v.counted)

drop_showing-counted :
    (i : ℕ) (r : Receipt) (rs : List (ℕ × Receipt))
    → find_showing i rs ≡ some r
    → length (drop_showing i rs) + 1 ≡ length rs
unfolding find_showing drop_showing
drop_showing-counted i r [] h = ground arith
drop_showing-counted i r ((j, q) ∷ rs) h = ground (arith, drop_showing-counted i r rs)

report-Matched :
    (o : Option Receipt) (i : ℕ) (ok : Bool) (w : Worker)
    → find_showing i w.showing ≡ o
    → Matched w
    → Matched (report o i ok w)
unfolding report
report-Matched none i ok w h v = v
report-Matched (some r) i ok w h v = record {
  none_pending = v.none_pending;
  counted = omega (arith, v.counted, drop_showing-counted i r w.showing h);
}

settle-Matched : (i : ℕ) (ok : Bool) (w : Worker) → Matched w → Matched (settle i ok w)
unfolding settle
settle-Matched i ok w v = report-Matched (find_showing i w.showing) i ok w refl v

-- Between two events no receipt waits for its notification, and every push that came was reported
-- or will be once its notification is settled: each of them exactly once.
pub step-Matched : (w : Worker) (e : Event) → Matched w → Matched (step w e)
unfolding step
step-Matched w (pushes throws d) v = push-Matched throws d w v
step-Matched w (settles i ok) v = settle-Matched i ok w v

-- If no receipt is pending, as between any two events, the report of a push carries the receipt of
-- its own payload and says whether the notification was shown: at once if `showNotification`
-- throws, and else once the promise is settled.
pub push_reports_own :
    (w : Worker) (d : PushData) (ok : Bool)
    → Matched w
    → let own = push_receipt_base_fields (payload_of d) in
      ((step w (pushes true d)).sent ≡ (w.next_push, own, false) ∷ w.sent)
      × ((step (step w (pushes false d)) (settles w.next_push ok)).sent
          ≡ (w.next_push, own, ok) ∷ w.sent)
unfolding step on_push settle
push_reports_own w d ok v = (ground (arith, v.none_pending), ground (arith, v.none_pending))
