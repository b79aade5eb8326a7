-- ===== src/EventPage/State.antt =====
-- The state of the events page (client/src/pages/Events.tsx) and what it loads. A handler reads the
-- state of the last render, and every step here is followed by one. A day is a number, and an error
-- is only that there is one. The requests and dialogs that are awaited stand in `calls` by number,
-- each with what its handler still needs.
use home_camera_system.Prelude.{
  ltb, leb, if◌then◌else◌, is_some, length, take, is_empty, ℕ, ◌+◌, Bool, true, false, ◌||◌, not,
  Option, none, some, List, [], ◌∷◌, ◌++◌,
}
use home_camera_system.Prelude.Text.{same_text}
use home_camera_system.EventPage.{
  DetectionEvent, Filters, everyone, Query, blank, add_person, add_filters, seed_person,
}
use home_camera_system.EventPage.DayWindow.{narrow_day_window}

pub data Call : Type 0 where
  -- `refresh`, with the search of a seeded filter
  refresh : Option Query → Call
  day_query : Query → Call
  -- `clearDayFilter` and `retry`
  recent : Call
  -- `loadMore`, with the length of the list that it saw
  more : Query → ℕ → Call
  ask_delete : DetectionEvent → Call
  -- a deletion, with the list before it
  delete_one : ℕ → List DetectionEvent → Call
  ask_bulk : List ℕ → Call
  delete_all : List ℕ → List DetectionEvent → Call
  ask_day : ℕ → Call
  delete_day : ℕ → Call
  -- `exportEvents` of some events, of so many that were shown
  export_clips : List ℕ → ℕ → Call

pub data Note : Type 0 where
  not_in_list deleted not_deleted none_deleted bulk_failed : Note
  deleted_all : ℕ → Note
  deleted_some : ℕ → ℕ → Note
  day_removed day_not_removed : ℕ → Note
  downloaded : ℕ → Note
  downloaded_oldest : ℕ → ℕ → Note
  download_failed : Note

pub record Page : Type 0 where
  pub mounted : Bool
  pub can_manage_events : Bool
  pub seeded : List ℕ
  pub events : List DetectionEvent
  pub loading : Bool
  pub error : Bool
  pub selected_event : Option DetectionEvent
  pub filters : Filters
  pub has_more : Bool
  pub loading_more : Bool
  pub selected_day : Option ℕ
  pub day_start_time : Option (List ℕ)
  pub day_end_time : Option (List ℕ)
  pub selection_mode : Bool
  pub selected_ids : List ℕ
  pub bulk_deleting : Bool
  pub bulk_downloading : Bool
  pub deep_link : Option ℕ
  pub calls : List (ℕ × Call)
  pub next_call : ℕ
  -- the events that the server was told to mark seen, and to delete
  pub seen : List ℕ
  pub deletions : List ℕ
  pub days_deleted : List ℕ
  pub notes : List Note

abbrev pub load_more_page : ℕ
load_more_page = 50

abbrev pub load_more_cap : ℕ
load_more_cap = 500

abbrev pub bulk_export_cap : ℕ
bulk_export_cap = 50

unfoldable pub await : Call → Page → Page
await c p = record p { calls = (p.next_call, c) ∷ p.calls; next_call = p.next_call + 1 }

unfoldable pub notify : Note → Page → Page
notify n p = record p { notes = n ∷ p.notes }

unfoldable pub seed_query : List ℕ → Option Query
unfolding add_person
seed_query seeded = if same_text seeded everyone then none else some (add_person seeded (blank 100))

unfoldable pub start_refresh : Page → Page
unfolding await seed_query
start_refresh p = await (refresh (seed_query p.seeded)) p

-- `?person=` and `?event=` of the address, and whether the user is the owner.
unfoldable pub mount : Bool → Option (List ℕ) → Option ℕ → Page
unfolding start_refresh seed_person
mount can_manage_events person event = start_refresh (record {
  mounted = true;
  can_manage_events = can_manage_events;
  seeded = seed_person person;
  events = [];
  loading = true;
  error = false;
  selected_event = none;
  filters = record { person = seed_person person; label = none; camera = none };
  has_more = true;
  loading_more = false;
  selected_day = none;
  day_start_time = none;
  day_end_time = none;
  selection_mode = false;
  selected_ids = [];
  bulk_deleting = false;
  bulk_downloading = false;
  deep_link = event;
  calls = [];
  next_call = 0;
  seen = [];
  deletions = [];
  days_deleted = [];
  notes = [];
})

-- The subscriber of the socket.
unfoldable pub on_detection : DetectionEvent → Page → Page
on_detection e p = record p { events = take 200 (e ∷ p.events) }

unfoldable pub run_day_query : ℕ → ℕ → Option (List ℕ) → Option (List ℕ) → Page → Page
unfolding await add_filters narrow_day_window
run_day_query since_ts until_ts start_hhmm end_hhmm p =
    let w = narrow_day_window since_ts until_ts start_hhmm end_hhmm in
    let q = record (blank 1000) { since_ts = some w.since; until_ts = some w.until } in
    await (day_query (add_filters p.filters q))
      (record p { loading = true; error = false; has_more = false })

unfoldable pub on_select_day : ℕ → ℕ → ℕ → Page → Page
unfolding run_day_query
on_select_day since_ts until_ts day p =
    run_day_query since_ts until_ts none none
      (record p { selected_day = some day; day_start_time = none; day_end_time = none })

-- The local midnights of the chosen day are given.
unfoldable pub on_time_bounds_change : ℕ → ℕ → Option (List ℕ) → Option (List ℕ) → Page → Page
unfolding run_day_query
on_time_bounds_change since until next_start next_end p =
    if is_some p.selected_day
    then run_day_query since until next_start next_end
        (record p { day_start_time = next_start; day_end_time = next_end })
    else p

unfoldable pub retry : Page → Page
unfolding await
retry p = await recent (record p { loading = true; error = false; has_more = true })

unfoldable pub clear_day_filter : Page → Page
unfolding retry
clear_day_filter p =
    retry (record p { selected_day = none; day_start_time = none; day_end_time = none })

-- `events[events.length - 1].ts`
abbrev pub oldest : ℕ → List DetectionEvent → ℕ
oldest ts [] = ts
oldest ts (e ∷ es) = oldest e.ts es

unfoldable pub load_more : Page → Page
unfolding await add_filters
load_more p =
    if p.loading_more || (not p.has_more || is_empty p.events)
    then p
    else await
        (more
          (add_filters p.filters
            (record (blank load_more_page) { before_ts = some (oldest 0 p.events) }))
          (length p.events))
        (record p { loading_more = true })

-- The answer of `load_more`: the older events, and the cursor of the page after them.
unfoldable pub add_older : ℕ → List DetectionEvent → Option ℕ → Page → Page
add_older seen_length items next_cursor p =
    let next = p.events ++ items in
    let last = not (is_some next_cursor) || leb load_more_cap (seen_length + length items) in
    record p {
      events = if ltb load_more_cap (length next) then take load_more_cap next else next;
      has_more = if last then false else p.has_more;
      loading_more = false;
    }
