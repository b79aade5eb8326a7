-- ===== src/EventPage/Page/Flags.antt =====
-- The flags of the events page (client/src/pages/Events.tsx) that hold back a second request.
use home_camera_system.Prelude.{
  if◌then◌else◌, Bool-cases, ℕ, ◌+◌, ◌≡◌, ◌∙◌, inl, inr, Bool, true, false, not, Option, some, List,
  [], ◌∷◌, refl, arith,
}
use home_camera_system.EventPage.{DetectionEvent}
use home_camera_system.EventPage.State.{
  Call, mount, start_refresh, await, refresh, more, delete_all, ask_day, delete_day, export_clips,
  Page, add_older,
}
use home_camera_system.EventPage.Handlers.{open_deep_link}
use home_camera_system.EventPage.Page.{
  Event, lists, decides, done, settles, fails, call_of, drop_call, on_lists, on_decides, on_done,
  on_fails, on_settles, is_listing, is_dialog, is_doing, is_several, react, step, run,
}
use home_camera_system.EventPage.Page.Calls.{count, count-drop_call, answer-keeps}

abbrev pub is_more : Call → Bool
is_more (more q n) = true
is_more _ = false

abbrev pub is_export : Call → Bool
is_export (export_clips ids n) = true
is_export _ = false

abbrev flag : Bool → ℕ
flag b = if b then 1 else 0

-- The flag is up exactly while there is one such call, and there are never two.
pub record Single (p : Page) : Type 0 where
  pub more_calls : count is_more p.calls ≡ (if p.loading_more then 1 else 0)
  pub export_calls : count is_export p.calls ≡ (if p.bulk_downloading then 1 else 0)

-- The same, while the answer of one call is being handled.
record Handling (c : Call) (p : Page) : Type 0 where
  more_calls : count is_more p.calls + flag (is_more c) ≡ flag p.loading_more
  export_calls : count is_export p.calls + flag (is_export c) ≡ flag p.bulk_downloading

Handling-drop :
    (n : ℕ) (p : Page) {c : Call}
    → call_of n p.calls ≡ some c
    → Single p
    → Handling c (record p { calls = drop_call n p.calls })
Handling-drop n p e v = record {
  more_calls = count-drop_call is_more n p.calls e ∙ v.more_calls;
  export_calls = count-drop_call is_export n p.calls e ∙ v.export_calls;
}

on_lists-Single :
    (c : Call) (es : List DetectionEvent) (cursor : Option ℕ) (p : Page)
    → is_listing c ≡ true
    → Handling c p
    → Single (on_lists c es cursor p)
unfolding on_lists add_older
on_lists-Single (refresh q) es cursor p h v = ground arith
on_lists-Single _ es cursor p h v = ground arith

on_decides-Single :
    (c : Call) (ok : Bool) (p : Page)
    → is_dialog c ≡ true
    → Handling c p
    → Single (on_decides c ok p)
unfolding on_decides
on_decides-Single (ask_day day) ok p h v = ground arith
on_decides-Single _ ok p h v = ground arith

on_done-Single : (c : Call) (p : Page) → is_doing c ≡ true → Handling c p → Single (on_done c p)
unfolding on_done
on_done-Single (delete_day day) p h v = ground arith
on_done-Single _ p h v = ground arith

on_settles-Single :
    (c : Call) (rs : List Bool) (p : Page)
    → is_several c ≡ true
    → Handling c p
    → Single (on_settles c rs p)
unfolding on_settles
on_settles-Single (delete_all ids es) rs p h v = ground arith
on_settles-Single _ rs p h v = ground arith

on_fails-Single :
    (c : Call) (p : Page) → not (is_dialog c) ≡ true → Handling c p → Single (on_fails c p)
unfolding on_fails
on_fails-Single (refresh q) p h v = ground arith
on_fails-Single _ p h v = ground arith

react-Single : (p : Page) (e : Event) → Single p → Single (react p e)
unfolding react
react-Single p (lists n es cursor) v =
    answer-keeps Single _ n (λ c. on_lists c es cursor) p v
      (λ c e h. on_lists-Single c es cursor _ h (Handling-drop n p e v))
react-Single p (decides n ok) v =
    answer-keeps Single _ n (λ c. on_decides c ok) p v
      (λ c e h. on_decides-Single c ok _ h (Handling-drop n p e v))
react-Single p (done n) v =
    answer-keeps Single _ n on_done p v (λ c e h. on_done-Single c _ h (Handling-drop n p e v))
react-Single p (settles n rs) v =
    answer-keeps Single _ n (λ c. on_settles c rs) p v
      (λ c e h. on_settles-Single c rs _ h (Handling-drop n p e v))
react-Single p (fails n) v =
    answer-keeps Single _ n on_fails p v (λ c e h. on_fails-Single c _ h (Handling-drop n p e v))
react-Single p _ v = ground arith

open_deep_link-Single : (p : Page) → Single p → Single (open_deep_link p)
unfolding open_deep_link
open_deep_link-Single p v = ground arith

step-Single : (p : Page) (e : Event) → Single p → Single (step p e)
unfolding step
step-Single p e v = elim (Bool-cases (react p e).mounted) [
  | inl y ↦ rw y (open_deep_link-Single (react p e) (react-Single p e v))
  | inr n ↦ rw n (react-Single p e v)
]

run-Single : (p : Page) (es : List Event) → Single p → Single (run p es)
unfolding run
run-Single p [] v = v
run-Single p (e ∷ es) v = run-Single (step p e) es (step-Single p e v)

-- Whatever happens from the opening of the page on, the flag of "Load more" is up exactly while one
-- page of older events is awaited, and that of the download exactly while one export is: there are
-- never two of either, and no answer and no failure leaves a flag up behind it.
pub run-mount-Single :
    (owner : Bool) (person : Option (List ℕ)) (event : Option ℕ) (es : List Event)
    → Single (run (mount owner person event) es)
unfolding mount start_refresh await
run-mount-Single owner person event es =
    run-Single (mount owner person event) es (record { more_calls = refl; export_calls = refl })
