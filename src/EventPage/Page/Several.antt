-- ===== src/EventPage/Page/Several.antt =====
-- What becomes of the list when several events are deleted at once on the events page
-- (client/src/pages/Events.tsx).
use home_camera_system.Prelude.{
  leb, if◌then◌else◌, length, filter, is_empty, ℕ, ◌+◌, ◌<◌, ◌≡◌, ap, ◌∙◌, Bool, true, false, not,
  none, List, [], ◌∷◌, ◌++◌, arith,
}
use home_camera_system.EventPage.{DetectionEvent}
use home_camera_system.EventPage.State.{ask_bulk, delete_all, Page}
use home_camera_system.EventPage.Handlers.{among, unless, failed_count}
use home_camera_system.EventPage.Page.{
  Event, deletes_selected, decides, settles, settled, on_decides, on_settles, answer, react, step,
  run,
}
use home_camera_system.EventPage.Page.Deleting.{step-react}

abbrev asked_all : Page → Page
asked_all p = record p {
  calls = (p.next_call, ask_bulk p.selected_ids) ∷ p.calls;
  next_call = p.next_call + 1;
}

abbrev sent_all : Page → Page
sent_all p = record p {
  calls = (p.next_call + 1, delete_all p.selected_ids p.events) ∷ p.calls;
  next_call = p.next_call + 1 + 1;
  bulk_deleting = true;
  events = filter (λ ev. not (among p.selected_ids ev)) p.events;
  selected_event = unless (among p.selected_ids) p.selected_event;
  deletions = p.selected_ids ++ p.deletions;
}

step-deletes_selected :
    (p : Page)
    → p.deep_link ≡ none
    → p.can_manage_events ≡ true
    → p.bulk_deleting ≡ false
    → is_empty p.selected_ids ≡ false
    → step p deletes_selected ≡ asked_all p
unfolding react
step-deletes_selected p h o b n = step-react p deletes_selected (rw (o, b, n) h) ∙ rw (o, b, n)

step-decides_all :
    (p : Page) → p.deep_link ≡ none → step (asked_all p) (decides p.next_call true) ≡ sent_all p
unfolding react answer settled on_decides
step-decides_all p h = step-react _ _ (ground arith) ∙ ground arith

-- What the several deletions leave, by the answers: all of them failed, or not.
abbrev pub left : List ℕ → List Bool → List DetectionEvent → List DetectionEvent
left ids results es =
    if leb (length ids) (failed_count results) then es else filter (λ ev. not (among ids ev)) es

pub record Outcome (p q : Page) (results : List Bool) : Type 0 where
  pub events : q.events ≡ left p.selected_ids results p.events
  pub deletions : q.deletions ≡ p.selected_ids ++ p.deletions
  pub selected_ids : q.selected_ids ≡ []
  pub selection_mode : q.selection_mode ≡ false
  pub bulk_deleting : q.bulk_deleting ≡ false

not_empty : (ids : List ℕ) → is_empty ids ≡ false → 0 < length ids
not_empty [] h = cc
not_empty (i ∷ ids) h = omega arith

settles_all :
    (p : Page) (results : List Bool)
    → p.deep_link ≡ none
    → is_empty p.selected_ids ≡ false
    → Outcome p (react (sent_all p) (settles (p.next_call + 1) results)) results
unfolding react answer settled on_settles
settles_all p results h n = ground (arith, not_empty p.selected_ids)

settles-deep_link :
    (p : Page) (results : List Bool)
    → p.deep_link ≡ none
    → (react (sent_all p) (settles (p.next_call + 1) results)).deep_link ≡ none
unfolding react answer settled on_settles
settles-deep_link p results h = ground arith

-- The owner deletes the chosen events and agrees, and every deletion ends.
abbrev pub several : Page → List Bool → List Event
several p results =
    deletes_selected ∷ decides p.next_call true ∷ settles (p.next_call + 1) results ∷ []

-- The owner of a page without a pending link deletes the chosen events, of which there are some, and
-- agrees in the dialog. Exactly those deletions are sent. If all of them fail, the list is the one
-- from before; if not, all the chosen events are gone from it, those whose deletion failed
-- included. Either way nothing is chosen any more and the next deletion is let through.
pub run-several-Outcome :
    (p : Page) (results : List Bool)
    → p.deep_link ≡ none
    → p.can_manage_events ≡ true
    → p.bulk_deleting ≡ false
    → is_empty p.selected_ids ≡ false
    → Outcome p (run p (several p results)) results
unfolding run
run-several-Outcome p results h o b n =
    let e : run p (several p results) ≡ react (sent_all p) (settles (p.next_call + 1) results) =
      ap (λ q. step (step q (decides p.next_call true)) (settles (p.next_call + 1) results))
        (step-deletes_selected p h o b n)
      ∙ (ap (λ q. step q (settles (p.next_call + 1) results)) (step-decides_all p h)
          ∙ step-react (sent_all p) (settles (p.next_call + 1) results)
              (settles-deep_link p results h)) in
    rw e (settles_all p results h n)
