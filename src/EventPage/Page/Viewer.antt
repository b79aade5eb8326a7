-- ===== src/EventPage/Page/Viewer.antt =====
-- What a user who is not the owner can do on the events page (client/src/pages/Events.tsx).
use home_camera_system.Prelude.{
  Bool-cases, ℕ, ◌≡◌, refl, inl, inr, Bool, false, Option, List, [], ◌∷◌, arith,
}
use home_camera_system.EventPage.{DetectionEvent}
use home_camera_system.EventPage.State.{
  Call, refresh, ask_delete, delete_one, ask_bulk, delete_all, ask_day, delete_day, export_clips,
  Page, mount, add_older,
}
use home_camera_system.EventPage.Handlers.{open_deep_link}
use home_camera_system.EventPage.Page.{
  Event, lists, decides, done, settles, fails, drop_call, on_lists, on_decides, on_done, on_fails,
  on_settles, react, step, run,
}
use home_camera_system.EventPage.Page.Calls.{Each, Each-drop_call, Each-call_of, answer-keeps}

abbrev IsHarmless : Call → Type 0
IsHarmless (ask_delete e) = ⊥
IsHarmless (delete_one id es) = ⊥
IsHarmless (ask_bulk ids) = ⊥
IsHarmless (delete_all ids es) = ⊥
IsHarmless (ask_day day) = ⊥
IsHarmless (delete_day day) = ⊥
IsHarmless _ = Unit {0}

-- Nothing was deleted, and no deletion is awaited or asked about.
pub record Barred (p : Page) : Type 0 where
  pub viewer : p.can_manage_events ≡ false
  pub nothing_deleted : p.deletions ≡ []
  pub no_day_deleted : p.days_deleted ≡ []
  pub harmless : Each IsHarmless p.calls

Barred-drop : (n : ℕ) (p : Page) → Barred p → Barred (record p { calls = drop_call n p.calls })
Barred-drop n p v = record {
  viewer = v.viewer;
  nothing_deleted = v.nothing_deleted;
  no_day_deleted = v.no_day_deleted;
  harmless = Each-drop_call IsHarmless n p.calls v.harmless;
}

on_lists-Barred :
    (c : Call) (es : List DetectionEvent) (cursor : Option ℕ) (p : Page)
    → Barred p
    → Barred (on_lists c es cursor p)
unfolding on_lists add_older
on_lists-Barred (refresh q) es cursor p v = ground arith
on_lists-Barred _ es cursor p v = ground arith

on_done-Barred : (c : Call) (p : Page) → IsHarmless c → Barred p → Barred (on_done c p)
unfolding on_done
on_done-Barred (export_clips ids n) p h v = ground arith
on_done-Barred (delete_one id es) p h v = absurd h
on_done-Barred (delete_day d) p h v = absurd h
on_done-Barred _ p h v = v

on_fails-Barred : (c : Call) (p : Page) → IsHarmless c → Barred p → Barred (on_fails c p)
unfolding on_fails
on_fails-Barred (refresh q) p h v = ground arith
on_fails-Barred _ p h v = ground arith

on_decides-Barred :
    (c : Call) (ok : Bool) (p : Page) → IsHarmless c → Barred p → Barred (on_decides c ok p)
unfolding on_decides
on_decides-Barred (refresh q) ok p h v = ground arith
on_decides-Barred _ ok p h v = ground arith

on_settles-Barred :
    (c : Call) (rs : List Bool) (p : Page) → IsHarmless c → Barred p → Barred (on_settles c rs p)
unfolding on_settles
on_settles-Barred (refresh q) rs p h v = ground arith
on_settles-Barred _ rs p h v = ground arith

react-Barred : (p : Page) (e : Event) → Barred p → Barred (react p e)
unfolding react
react-Barred p (lists n es cursor) v =
    answer-keeps Barred _ n (λ c. on_lists c es cursor) p v
      (λ c e _. on_lists-Barred c es cursor _ (Barred-drop n p v))
react-Barred p (decides n ok) v =
    answer-keeps Barred _ n (λ c. on_decides c ok) p v
      (λ c e _.
        on_decides-Barred c ok _ (Each-call_of IsHarmless n p.calls v.harmless e)
          (Barred-drop n p v))
react-Barred p (done n) v = answer-keeps Barred _ n on_done p v (λ c e _.
    on_done-Barred c _ (Each-call_of IsHarmless n p.calls v.harmless e) (Barred-drop n p v))
react-Barred p (settles n rs) v =
    answer-keeps Barred _ n (λ c. on_settles c rs) p v
      (λ c e _.
        on_settles-Barred c rs _ (Each-call_of IsHarmless n p.calls v.harmless e)
          (Barred-drop n p v))
react-Barred p (fails n) v = answer-keeps Barred _ n on_fails p v (λ c e _.
    on_fails-Barred c _ (Each-call_of IsHarmless n p.calls v.harmless e) (Barred-drop n p v))
react-Barred p _ v = ground arith

open_deep_link-Barred : (p : Page) → Barred p → Barred (open_deep_link p)
unfolding open_deep_link
open_deep_link-Barred p v = ground arith

step-Barred : (p : Page) (e : Event) → Barred p → Barred (step p e)
unfolding step
step-Barred p e v = elim (Bool-cases (react p e).mounted) [
  | inl y ↦ rw y (open_deep_link-Barred (react p e) (react-Barred p e v))
  | inr n ↦ rw n (react-Barred p e v)
]

run-Barred : (p : Page) (es : List Event) → Barred p → Barred (run p es)
unfolding run
run-Barred p [] v = v
run-Barred p (e ∷ es) v = run-Barred (step p e) es (step-Barred p e v)

-- For a user who is not the owner the page never sends a deletion, of an event or of a day, and
-- never asks for one: whatever the address it is opened with and whatever happens to it.
pub run-mount-Barred :
    (person : Option (List ℕ)) (event : Option ℕ) (es : List Event)
    → Barred (run (mount false person event) es)
unfolding mount
run-mount-Barred person event es =
    run-Barred (mount false person event) es
      (record { viewer = refl; nothing_deleted = refl; no_day_deleted = refl; harmless = (tt, tt) })
