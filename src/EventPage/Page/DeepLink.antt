-- ===== src/EventPage/Page/DeepLink.antt =====
-- The event that a notification asks the events page to open (client/src/pages/Events.tsx).
use home_camera_system.Prelude.{
  if◌then◌else◌, find, ℕ, ◌≡◌, refl, Bool, true, false, ◌&&◌, ◌||◌, not, Option, none, some, List,
  ◌∷◌, arith,
}
use home_camera_system.EventPage.{DetectionEvent}
use home_camera_system.EventPage.State.{
  Call, refresh, delete_all, ask_day, delete_day, not_in_list, Page, add_older,
}
use home_camera_system.EventPage.Handlers.{has_id, open_deep_link}
use home_camera_system.EventPage.Page.{
  Event, lists, decides, done, settles, fails, on_lists, on_decides, on_done, on_fails, on_settles,
  react, step,
}
use home_camera_system.EventPage.Page.Calls.{answer-keeps}

abbrev Same : Page → Page → Type 0
Same p q = q.deep_link ≡ p.deep_link

on_lists-deep_link :
    (c : Call) (es : List DetectionEvent) (cursor : Option ℕ) (p : Page)
    → (on_lists c es cursor p).deep_link ≡ p.deep_link
unfolding on_lists add_older
on_lists-deep_link (refresh q) es cursor p = ground arith
on_lists-deep_link _ es cursor p = ground arith

on_decides-deep_link :
    (c : Call) (ok : Bool) (p : Page) → (on_decides c ok p).deep_link ≡ p.deep_link
unfolding on_decides
on_decides-deep_link (ask_day day) ok p = ground arith
on_decides-deep_link _ ok p = ground arith

on_done-deep_link : (c : Call) (p : Page) → (on_done c p).deep_link ≡ p.deep_link
unfolding on_done
on_done-deep_link (delete_day day) p = ground arith
on_done-deep_link _ p = ground arith

on_settles-deep_link :
    (c : Call) (rs : List Bool) (p : Page) → (on_settles c rs p).deep_link ≡ p.deep_link
unfolding on_settles
on_settles-deep_link (delete_all ids es) rs p = ground arith
on_settles-deep_link _ rs p = ground arith

on_fails-deep_link : (c : Call) (p : Page) → (on_fails c p).deep_link ≡ p.deep_link
unfolding on_fails
on_fails-deep_link (refresh q) p = ground arith
on_fails-deep_link _ p = ground arith

react-deep_link : (p : Page) (e : Event) → (react p e).deep_link ≡ p.deep_link
unfolding react
react-deep_link p (lists n es cursor) =
    answer-keeps (Same p) _ n (λ c. on_lists c es cursor) p refl
      (λ c e h. on_lists-deep_link c es cursor _)
react-deep_link p (decides n ok) =
    answer-keeps (Same p) _ n (λ c. on_decides c ok) p refl (λ c e h. on_decides-deep_link c ok _)
react-deep_link p (done n) =
    answer-keeps (Same p) _ n on_done p refl (λ c e h. on_done-deep_link c _)
react-deep_link p (settles n rs) =
    answer-keeps (Same p) _ n (λ c. on_settles c rs) p refl (λ c e h. on_settles-deep_link c rs _)
react-deep_link p (fails n) =
    answer-keeps (Same p) _ n on_fails p refl (λ c e h. on_fails-deep_link c _)
react-deep_link p _ = ground arith

-- The page is shown and its list has come.
abbrev pub is_ready : Page → Bool
is_ready q = q.mounted && not (q.loading || q.error)

-- What a pending link asks for, in a list.
abbrev pub linked : Option ℕ → List DetectionEvent → Option DetectionEvent
linked none es = none
linked (some id) es = find (has_id id) es

-- From `q`, where something has just happened to the page, to `r`, after its effect.
pub record Linked (q r : Page) : Type 0 where
  pub waits : is_ready q ≡ false → r ≡ q
  pub consumed : is_ready q ≡ true → r.deep_link ≡ none
  pub shows :
      (e : DetectionEvent)
      → is_ready q ≡ true
      → linked q.deep_link q.events ≡ some e
      → r.selected_event ≡ some e
  pub tells :
      (id : ℕ)
      → is_ready q ≡ true
      → q.deep_link ≡ some id
      → linked q.deep_link q.events ≡ none
      → (r.notes ≡ not_in_list ∷ q.notes) × (r.selected_event ≡ q.selected_event)
  pub silent : q.deep_link ≡ none → r ≡ q

after-Linked : (q : Page) → Linked q (if q.mounted then open_deep_link q else q)
unfolding open_deep_link
after-Linked q = record {
  waits = λ h. ground arith;
  consumed = λ h. ground arith;
  shows = λ e h k. ground arith;
  tells = λ id h k n. ground arith;
  silent = λ h. ground arith;
}

-- Nothing that happens to the page touches a pending link, and after each such thing its effect does
-- this. While the list has not come, or could not be loaded, the link waits. Once it has, the link is
-- gone for good, and its event is opened if it is in the list; if it is not, a message says so and
-- the open event stays. Without a link the effect does nothing.
pub step-Linked :
    (p : Page) (e : Event) → ((react p e).deep_link ≡ p.deep_link) × Linked (react p e) (step p e)
unfolding step
step-Linked p e = (react-deep_link p e, after-Linked (react p e))
