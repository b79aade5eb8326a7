-- ===== src/Push/Tests.antt =====
-- The theorems about push notifications at concrete payloads, clicks and subscriptions.
use home_camera_system.Prelude.{◌≡◌, refl, ◌⊎◌, true, false, none, some, List, [], ◌∷◌, arith}
use home_camera_system.Prelude.Text.{codes}
use home_camera_system.Push.Notification.{text, amount, PushPayload, empty_payload}
use home_camera_system.Push.Link.{encode, ClickData, real_id, notification_click_target}
use home_camera_system.Push.Click.{Window, id_of, on_click, Opens, MarksSeen, on_click_shows}
use home_camera_system.Push.Receipts.{idle, Matched}
use home_camera_system.Push.Subscription.{Registry, Enabling}
use home_camera_system.Push.Link.Params.{search_param}
use home_camera_system.Push.Link.Reading.{notification_click_target-read}

abbrev person : PushPayload
person = record empty_payload {
  title = text (codes "Person at the door");
  event_id = text (codes "ev 1");
  url = text (codes "/events?day=2");
  unread_count = amount 3;
}

abbrev cat : PushPayload
cat = record empty_payload { id = text (codes "ev2"); image = text (codes "/cat.jpg") }

abbrev clicked : ClickData
clicked = record { url = some (codes "/events?day=2"); event_id = some (codes "ev 1") }

target_text : notification_click_target (some clicked) ≡ codes "/events?day=2&event=ev%201"
unfolding notification_click_target encode
target_text = refl

notification_click_target-read_example :
    search_param (codes "event") (notification_click_target (some clicked)) ≡ some (codes "ev 1")
unfolding real_id search_param
notification_click_target-read_example =
    notification_click_target-read clicked (codes "ev 1") refl (ground arith) refl refl

abbrev windows : List Window
windows =
    record { focusable = false; place = none; navigates = true }
    ∷ record { focusable = true; place = some (codes "/watch"); navigates = true }
    ∷ []

on_click_shows_example :
    Opens
      (λ t. t)
      (codes "view")
      (id_of (some clicked))
      (notification_click_target (some clicked))
      (on_click (λ t. t) (codes "view") (some clicked) windows)
    ⊎ MarksSeen
        (codes "view")
        (id_of (some clicked))
        (on_click (λ t. t) (codes "view") (some clicked) windows)
on_click_shows_example =
    on_click_shows (λ t. t) (codes "view") (some clicked) windows (refl, (refl, tt))

idle-Matched : Matched idle
unfolding idle
idle-Matched = record { none_pending = refl; counted = refl }

abbrev new_browser : Registry
new_browser = record { subscription = none; server = 4 ∷ []; failures = []; alerts = 0 }

abbrev willing : Enabling
willing = record {
  supported = true;
  granted = true;
  key_served = true;
  subscribed = some 9;
  persisted = true;
}

abbrev subscribed_browser : Registry
subscribed_browser = record new_browser { subscription = some 4 }
