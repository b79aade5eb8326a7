-- ===== src/EventPage/Handlers.antt =====
-- Opening, choosing, exporting and deleting events on the events page (client/src/pages/Events.tsx).
use home_camera_system.Prelude.{
  ltb, ◌==◌, if◌then◌else◌, length, take, filter, find, is_empty, contains, set_add, set_delete, ℕ,
  ◌+◌, ◌-◌, Bool, true, false, ◌||◌, not, Option, none, some, List, [], ◌∷◌, ◌++◌, map,
}
use home_camera_system.EventPage.{DetectionEvent, filtered}
use home_camera_system.EventPage.State.{
  ask_delete, delete_one, ask_bulk, delete_all, ask_day, delete_day, export_clips, not_in_list,
  none_deleted, deleted_all, deleted_some, downloaded, downloaded_oldest, Page, bulk_export_cap,
  await, notify,
}

abbrev pub has_id : ℕ → DetectionEvent → Bool
has_id id e = e.id == id

abbrev pub among : List ℕ → DetectionEvent → Bool
among ids e = contains e.id ids

-- `cur && p(cur) ? null : cur`
abbrev pub unless : (DetectionEvent → Bool) → Option DetectionEvent → Option DetectionEvent
unless p none = none
unless p (some e) = if p e then none else some e

-- The effect that opens the event of a notification, once the first list has come.
show_linked : Option DetectionEvent → Page → Page
unfolding notify
show_linked none p = notify not_in_list p
show_linked (some e) p = record p { selected_event = some e }

open_linked : Option ℕ → Page → Page
unfolding show_linked
open_linked none p = p
open_linked (some id) p = show_linked (find (has_id id) p.events) (record p { deep_link = none })

unfoldable pub open_deep_link : Page → Page
unfolding open_linked
open_deep_link p = if p.loading || p.error then p else open_linked p.deep_link p

unfoldable pub on_select_event : DetectionEvent → Page → Page
on_select_event e p = record p { selected_event = some e; seen = e.id ∷ p.seen }

unfoldable pub on_toggle_select : ℕ → Page → Page
on_toggle_select id p = record p {
  selected_ids =
      if contains id p.selected_ids
      then set_delete id p.selected_ids
      else set_add id p.selected_ids;
}

unfoldable pub exit_selection_mode : Page → Page
exit_selection_mode p = record p { selection_mode = false; selected_ids = [] }

abbrev pub ids_of : List DetectionEvent → List ℕ
ids_of = map (λ e. e.id)

unfoldable pub on_download_visible : Page → Page
unfolding await filtered
on_download_visible p =
    let shown = filtered p.filters p.events in
    let ids = ids_of (take bulk_export_cap shown) in
    if p.bulk_downloading || is_empty ids
    then p
    else await (export_clips ids (length shown)) (record p { bulk_downloading = true })

-- The answer of the export, and its failure.
unfoldable pub on_exported : List ℕ → ℕ → Page → Page
unfolding notify
on_exported ids shown p =
    notify
      (if ltb bulk_export_cap shown
        then downloaded_oldest bulk_export_cap shown
        else downloaded (length ids))
      (record p { bulk_downloading = false })

unfoldable pub on_delete_one : DetectionEvent → Page → Page
unfolding await
on_delete_one e p = if p.can_manage_events then await (ask_delete e) p else p

-- The owner has agreed: the event goes at once, and its deletion is sent.
unfoldable pub delete_event : DetectionEvent → Page → Page
unfolding await
delete_event e p = await (delete_one e.id p.events) (record p {
  events = filter (λ ev. not (has_id e.id ev)) p.events;
  selected_event = unless (has_id e.id) p.selected_event;
  deletions = e.id ∷ p.deletions;
})

unfoldable pub on_bulk_delete : Page → Page
unfolding await
on_bulk_delete p =
    if not p.can_manage_events || (is_empty p.selected_ids || p.bulk_deleting)
    then p
    else await (ask_bulk p.selected_ids) p

unfoldable pub delete_events : List ℕ → Page → Page
unfolding await
delete_events ids p = await (delete_all ids p.events) (record p {
  bulk_deleting = true;
  events = filter (λ ev. not (among ids ev)) p.events;
  selected_event = unless (among ids) p.selected_event;
  deletions = ids ++ p.deletions;
})

-- `results.filter((r) => r.status === 'rejected').length`; `true` is a deletion that was done.
abbrev pub failed_count : List Bool → ℕ
failed_count [] = 0
failed_count (true ∷ rs) = failed_count rs
failed_count (false ∷ rs) = failed_count rs + 1

unfoldable pub on_settled : List ℕ → List DetectionEvent → List Bool → Page → Page
unfolding notify exit_selection_mode
on_settled ids snapshot results p =
    let count = length ids in
    let failed = failed_count results in
    let told : Page =
      if failed == 0
      then notify (deleted_all count) p
      else if ltb failed count
      then notify (deleted_some (count - failed) count) p
      else notify none_deleted (record p { events = snapshot }) in
    record (exit_selection_mode told) { bulk_deleting = false }

unfoldable pub on_delete_day : Page → Page
unfolding await
on_delete_day p = elim p.selected_day [
  | none ↦ p
  | some day ↦ if p.can_manage_events then await (ask_day day) p else p
]

unfoldable pub send_delete_day : ℕ → Page → Page
unfolding await
send_delete_day day p = await (delete_day day) (record p { days_deleted = day ∷ p.days_deleted })
