-- ===== src/EventPage/Page/Deleting.antt =====
-- What becomes of the list when events are deleted on the events page (client/src/pages/Events.tsx).
use home_camera_system.Prelude.{
  take, filter, ◌+◌, ◌≡◌, refl, ap, ◌∙◌, true, not, none, List, [], ◌∷◌, ◌++◌, map, arith,
}
use home_camera_system.EventPage.{DetectionEvent}
use home_camera_system.EventPage.State.{ask_delete, delete_one, Page, on_detection}
use home_camera_system.EventPage.Handlers.{has_id, unless, open_deep_link}
use home_camera_system.EventPage.Page.{
  Event, detects, deletes, decides, done, fails, settled, on_decides, on_done, on_fails, answer,
  react, step, run,
}

-- Without a link to open, the effect does nothing.
pub step-react : (p : Page) (e : Event) → (react p e).deep_link ≡ none → step p e ≡ react p e
unfolding step open_deep_link
step-react p e h = rw h (ground arith)

abbrev asked : DetectionEvent → Page → Page
asked e p = record p { calls = (p.next_call, ask_delete e) ∷ p.calls; next_call = p.next_call + 1 }

abbrev sent : DetectionEvent → Page → Page
sent e p = record p {
  calls = (p.next_call + 1, delete_one e.id p.events) ∷ p.calls;
  next_call = p.next_call + 1 + 1;
  events = filter (λ ev. not (has_id e.id ev)) p.events;
  selected_event = unless (has_id e.id) p.selected_event;
  deletions = e.id ∷ p.deletions;
}

step-deletes :
    (p : Page) (e : DetectionEvent)
    → p.deep_link ≡ none
    → p.can_manage_events ≡ true
    → step p (deletes e) ≡ asked e p
unfolding react
step-deletes p e h o = step-react p (deletes e) (ground arith) ∙ ground arith

step-decides :
    (p : Page) (e : DetectionEvent)
    → p.deep_link ≡ none
    → step (asked e p) (decides p.next_call true) ≡ sent e p
unfolding react answer settled on_decides
step-decides p e h = step-react _ _ (ground arith) ∙ ground arith

-- The list after events that arrive one by one, each time cut to 200.
abbrev pub live : List DetectionEvent → List DetectionEvent → List DetectionEvent
live [] es = es
live (d ∷ ds) es = live ds (take 200 (d ∷ es))

step-detects :
    (p : Page) (d : DetectionEvent)
    → p.deep_link ≡ none
    → p.mounted ≡ true
    → step p (detects d) ≡ record p { events = take 200 (d ∷ p.events) }
unfolding react on_detection
step-detects p d h m = step-react p (detects d) (ground arith) ∙ rw m

pub run-detects :
    (p : Page) (ds : List DetectionEvent) (es : List Event)
    → p.deep_link ≡ none
    → p.mounted ≡ true
    → run p (map detects ds ++ es) ≡ run (record p { events = live ds p.events }) es
unfolding run
run-detects p [] es h m = refl
run-detects p (d ∷ ds) es h m =
    ap (λ q. run q (map detects ds ++ es)) (step-detects p d h m)
    ∙ run-detects (record p { events = take 200 (d ∷ p.events) }) ds es h m

step-fails :
    (p q : Page) (e : DetectionEvent)
    → p.deep_link ≡ none
    → (step (record (sent e p) { events = q.events }) (fails (p.next_call + 1))).events ≡ p.events
unfolding react answer settled on_fails
step-fails p q e h =
    ap (λ (r : Page). r.events) (step-react _ (fails (p.next_call + 1)) (ground arith))
    ∙ ground arith

step-done :
    (p q : Page) (e : DetectionEvent)
    → p.deep_link ≡ none
    → (step (record (sent e p) { events = q.events }) (done (p.next_call + 1))).events ≡ q.events
unfolding react answer settled on_done
step-done p q e h =
    ap (λ (r : Page). r.events) (step-react _ (done (p.next_call + 1)) (ground arith))
    ∙ ground arith

-- The owner deletes an event and agrees, some events arrive, and then the server answers.
abbrev pub deletion : Page → DetectionEvent → List DetectionEvent → Event → List Event
deletion p e ds answer = deletes e ∷ decides p.next_call true ∷ (map detects ds ++ answer ∷ [])

run-deletion :
    (p : Page) (e : DetectionEvent) (ds : List DetectionEvent) (a : Event)
    → p.deep_link ≡ none
    → p.mounted ≡ true
    → p.can_manage_events ≡ true
    → run p (deletion p e ds a) ≡ step (record (sent e p) { events = live ds (sent e p).events }) a
unfolding run
run-deletion p e ds a h m o =
    ap (λ q. run (step q (decides p.next_call true)) (map detects ds ++ a ∷ []))
      (step-deletes p e h o)
    ∙ (ap (λ q. run q (map detects ds ++ a ∷ [])) (step-decides p e h)
        ∙ run-detects (sent e p) ds (a ∷ []) h m)

-- The owner of a page without a pending link deletes an event, agrees in the dialog, and some events
-- arrive before the server answers. If the deletion is done, the list is the live one: the list
-- without that event, with each arriving event put before it and all but the newest 200 dropped at
-- each arrival (so a longer list loses its tail with the first). If it fails, the list is the one from before the
-- deletion: the event is back in its place, and the events that arrived meanwhile are not shown.
pub run-deletion_outcome :
    (p : Page) (e : DetectionEvent) (ds : List DetectionEvent)
    → p.deep_link ≡ none
    → p.mounted ≡ true
    → p.can_manage_events ≡ true
    → ((run p (deletion p e ds (done (p.next_call + 1)))).events
        ≡ live ds (filter (λ ev. not (has_id e.id ev)) p.events))
      × ((run p (deletion p e ds (fails (p.next_call + 1)))).events ≡ p.events)
run-deletion_outcome p e ds h m o = (
  ap (λ (q : Page). q.events) (run-deletion p e ds (done (p.next_call + 1)) h m o)
      ∙ step-done p (record p { events = live ds (sent e p).events }) e h,
  ap (λ (q : Page). q.events) (run-deletion p e ds (fails (p.next_call + 1)) h m o)
      ∙ step-fails p (record p { events = live ds (sent e p).events }) e h,
)
