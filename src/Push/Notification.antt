-- ===== src/Push/Notification.antt =====
-- The notification for a push and the badge of the app (buildNotification and applyBadge of
-- client/src/lib/swPushHandler.ts).
use home_camera_system.Prelude.{
  ◌==◌, if◌then◌else◌, is_some, or_else, ℕ, ◌≡◌, Bool, true, Option, none, some, List, [], ◌∷◌,
  arith,
}
use home_camera_system.Prelude.Text.{codes}

-- A field of the payload, which is JSON from the server. Numbers that are not negative are whole.
pub data Value : Type 0 where
  absent : Value
  text : List ℕ → Value
  amount : ℕ → Value
  below_zero something_else : Value

pub record PushPayload : Type 0 where
  pub title : Value
  pub body : Value
  pub event_id : Value
  pub id : Value
  pub tag : Value
  pub url : Value
  pub image : Value
  pub unread_count : Value

abbrev pub empty_payload : PushPayload
empty_payload = record {
  title = absent;
  body = absent;
  event_id = absent;
  id = absent;
  tag = absent;
  url = absent;
  image = absent;
  unread_count = absent;
}

pub data Action : Type 0 where
  view dismiss : Action

pub record Notification : Type 0 where
  pub title : List ℕ
  pub body : List ℕ
  pub tag : List ℕ
  -- its `data`
  pub url : List ℕ
  pub event_id : Option (List ℕ)
  pub image : Option (List ℕ)
  pub renotify : Bool
  pub actions : List Action
  pub require_interaction : Bool

-- `typeof v === 'string' ? v : otherwise`
abbrev text_or : Value → List ℕ → List ℕ
text_or (text s) otherwise = s
text_or _ otherwise = otherwise

-- `typeof v === 'string' && v`: the empty text is no value.
abbrev pub non_empty : Value → Option (List ℕ)
non_empty (text (c ∷ s)) = some (c ∷ s)
non_empty _ = none

abbrev either : Option (List ℕ) → Option (List ℕ) → Option (List ℕ)
either (some s) other = some s
either none other = other

abbrev pub event_id_of : PushPayload → Option (List ℕ)
event_id_of p = either (non_empty p.event_id) (non_empty p.id)

abbrev actions_of : Option (List ℕ) → List Action
actions_of none = []
actions_of (some s) = view ∷ dismiss ∷ []

unfoldable pub build_notification : PushPayload → Notification
build_notification p = record {
  title = text_or p.title (codes "Home Camera");
  body = text_or p.body (codes "New event");
  tag = or_else (either (event_id_of p) (non_empty p.tag)) (codes "event");
  url = text_or p.url (codes "/events");
  event_id = event_id_of p;
  image = non_empty p.image;
  renotify = true;
  actions = actions_of (event_id_of p);
  require_interaction = is_some (event_id_of p);
}

pub data BadgeCall : Type 0 where
  set_app_badge : ℕ → BadgeCall
  clear_app_badge : BadgeCall

-- `can_set` and `can_clear` say whether the browser has the two functions.
unfoldable pub apply_badge : Bool → Bool → PushPayload → List BadgeCall
apply_badge can_set can_clear p = elim p.unread_count [
  | amount n ↦
      if n == 0
      then (if can_clear then clear_app_badge ∷ [] else [])
      else if can_set
      then set_app_badge n ∷ []
      else []
  | absent ↦ []
  | text s ↦ []
  | below_zero ↦ []
  | something_else ↦ []
]

-- Two events never share a tag, so that none replaces the other's notification: if the payloads
-- carry different event ids, the tags differ. Each of them asks to be noticed again, and offers the
-- two actions.
pub build_notification_stacks :
    (p q : PushPayload) (a b : List ℕ)
    → event_id_of p ≡ some a
    → event_id_of q ≡ some b
    → ¬ a ≡ b
    → (¬ (build_notification p).tag ≡ (build_notification q).tag)
      × ((build_notification p).renotify ≡ true)
      × ((build_notification p).actions ≡ view ∷ dismiss ∷ [])
unfolding build_notification
build_notification_stacks p q a b h k ne = ground (arith, ne)
