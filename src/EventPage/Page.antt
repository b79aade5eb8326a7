-- ===== src/EventPage/Page.antt =====
-- The events page (client/src/pages/Events.tsx) as a step function over what happens to it: the
-- user's acts, the socket, and the answers to its requests and dialogs.
pub mod Calls
pub mod Viewer
pub mod Flags
pub mod Deleting
pub mod Several
pub mod Order
pub mod DeepLink
mod Tests
use home_camera_system.Prelude.{
  ◌==◌, if◌then◌else◌, filter, ℕ, Bool, true, false, not, Option, none, some, List, [], ◌∷◌,
}
use home_camera_system.EventPage.{DetectionEvent, Filters}
use home_camera_system.EventPage.State.{
  Call, refresh, day_query, recent, more, ask_delete, delete_one, ask_bulk, delete_all, ask_day,
  delete_day, export_clips, deleted, not_deleted, bulk_failed, day_removed, day_not_removed,
  download_failed, Page, notify, start_refresh, on_detection, on_select_day, on_time_bounds_change,
  retry, clear_day_filter, load_more, add_older,
}
use home_camera_system.EventPage.Handlers.{
  has_id, open_deep_link, on_select_event, on_toggle_select, exit_selection_mode,
  on_download_visible, on_exported, on_delete_one, delete_event, on_bulk_delete, delete_events,
  on_settled, on_delete_day, send_delete_day,
}

pub data Event : Type 0 where
  detects : DetectionEvent → Event
  becomes_visible unmounts : Event
  chooses : Filters → Event
  -- the local midnights of the day, and the day
  selects_day : ℕ → ℕ → ℕ → Event
  sets_times : ℕ → ℕ → Option (List ℕ) → Option (List ℕ) → Event
  clears_day retries loads_more : Event
  opens : DetectionEvent → Event
  closes : Event
  toggles : ℕ → Event
  starts_selection exits_selection downloads : Event
  deletes : DetectionEvent → Event
  deletes_selected deletes_day : Event
  -- the open event was deleted in its own view
  deleted_in_view : ℕ → Event
  -- a search or a list is answered: its events, and the cursor of the next page
  lists : ℕ → List DetectionEvent → Option ℕ → Event
  -- a dialog is answered
  decides : ℕ → Bool → Event
  -- a deletion or an export is done; every deletion of several has ended
  done : ℕ → Event
  settles : ℕ → List Bool → Event
  fails : ℕ → Event

abbrev pub call_of : ℕ → List (ℕ × Call) → Option Call
call_of n [] = none
call_of n ((i, c) ∷ cs) = let rest = call_of n cs in if i == n then some c else rest

abbrev pub drop_call : ℕ → List (ℕ × Call) → List (ℕ × Call)
drop_call n [] = []
drop_call n ((i, c) ∷ cs) = let rest = drop_call n cs in if i == n then cs else (i, c) ∷ rest

-- The awaited call of a number is over.
settled : ℕ → Page → Page
settled n p = record p { calls = drop_call n p.calls }

on_lists : Call → List DetectionEvent → Option ℕ → Page → Page
unfolding add_older
on_lists (refresh q) es cursor p =
    if p.mounted then record p { events = es; loading = false } else p
on_lists (day_query q) es cursor p = record p { events = es; loading = false }
on_lists recent es cursor p = record p { events = es; loading = false }
on_lists (more q seen) es cursor p = add_older seen es cursor p
on_lists _ es cursor p = p

on_decides : Call → Bool → Page → Page
unfolding delete_event delete_events send_delete_day
on_decides c false p = p
on_decides (ask_delete e) true p = delete_event e p
on_decides (ask_bulk ids) true p = delete_events ids p
on_decides (ask_day day) true p = send_delete_day day p
on_decides _ true p = p

on_done : Call → Page → Page
unfolding notify clear_day_filter on_exported
on_done (delete_one id snapshot) p = notify deleted p
on_done (delete_day day) p = clear_day_filter (notify (day_removed day) p)
on_done (export_clips ids shown) p = on_exported ids shown p
on_done _ p = p

on_fails : Call → Page → Page
unfolding notify
on_fails (refresh q) p = if p.mounted then record p { error = true; loading = false } else p
on_fails (day_query q) p = record p { error = true; loading = false }
on_fails recent p = record p { error = true; loading = false }
on_fails (more q seen) p = record p { has_more = false; loading_more = false }
on_fails (delete_one id snapshot) p = notify not_deleted (record p { events = snapshot })
on_fails (delete_all ids snapshot) p =
    notify bulk_failed (record p { events = snapshot; bulk_deleting = false })
on_fails (delete_day day) p = notify (day_not_removed day) p
on_fails (export_clips ids shown) p = notify download_failed (record p { bulk_downloading = false })
on_fails _ p = p

on_settles : Call → List Bool → Page → Page
unfolding on_settled
on_settles (delete_all ids snapshot) results p = on_settled ids snapshot results p
on_settles _ results p = p

abbrev pub is_listing : Call → Bool
is_listing (refresh q) = true
is_listing (day_query q) = true
is_listing recent = true
is_listing (more q n) = true
is_listing _ = false

abbrev pub is_dialog : Call → Bool
is_dialog (ask_delete e) = true
is_dialog (ask_bulk ids) = true
is_dialog (ask_day day) = true
is_dialog _ = false

abbrev pub is_doing : Call → Bool
is_doing (delete_one id es) = true
is_doing (delete_day day) = true
is_doing (export_clips ids n) = true
is_doing _ = false

abbrev pub is_several : Call → Bool
is_several (delete_all ids es) = true
is_several _ = false

-- What an answer does, if the call of its number is awaited and is of the kind that is so answered.
pub answer : Option Call → (Call → Bool) → ℕ → (Call → Page → Page) → Page → Page
unfolding settled
answer none kind n k p = p
answer (some c) kind n k p = if kind c then k c (settled n p) else p

pub react : Page → Event → Page
unfolding answer on_lists on_decides on_done on_fails on_settles on_detection start_refresh
    on_select_day on_time_bounds_change clear_day_filter retry load_more on_select_event
    on_toggle_select exit_selection_mode on_download_visible on_delete_one on_bulk_delete
    on_delete_day
react p (detects e) = if p.mounted then on_detection e p else p
react p becomes_visible = if p.mounted then start_refresh p else p
react p unmounts = record p { mounted = false }
react p (chooses f) = record p { filters = f }
react p (selects_day since until day) = on_select_day since until day p
react p (sets_times since until a b) = on_time_bounds_change since until a b p
react p clears_day = clear_day_filter p
react p retries = retry p
react p loads_more = load_more p
react p (opens e) = on_select_event e p
react p closes = record p { selected_event = none }
react p (toggles id) = on_toggle_select id p
react p starts_selection = record p { selection_mode = true }
react p exits_selection = exit_selection_mode p
react p downloads = on_download_visible p
react p (deletes e) = on_delete_one e p
react p deletes_selected = on_bulk_delete p
react p deletes_day = on_delete_day p
react p (deleted_in_view id) = record p { events = filter (λ ev. not (has_id id ev)) p.events }
react p (lists n es cursor) = answer (call_of n p.calls) is_listing n (λ c. on_lists c es cursor) p
react p (decides n ok) = answer (call_of n p.calls) is_dialog n (λ c. on_decides c ok) p
react p (done n) = answer (call_of n p.calls) is_doing n on_done p
react p (settles n results) = answer (call_of n p.calls) is_several n (λ c. on_settles c results) p
react p (fails n) = answer (call_of n p.calls) (λ c. not (is_dialog c)) n on_fails p

-- The effects run after every render.
unfoldable pub step : Page → Event → Page
unfolding react open_deep_link
step p e = let q = react p e in if q.mounted then open_deep_link q else q

unfoldable pub run : Page → List Event → Page
unfolding step
run p [] = p
run p (e ∷ es) = run (step p e) es
