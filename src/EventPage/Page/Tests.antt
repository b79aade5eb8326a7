-- ===== src/EventPage/Page/Tests.antt =====
-- Runs of the events page: two events of two people, seen by the owner.
use home_camera_system.Prelude.{
  filter, ℕ, ◌-◌, ◌≤◌, max, ◌≡◌, refl, true, false, none, some, List, [], ◌∷◌, arith,
}
use home_camera_system.Prelude.Text.{codes, same_text}
use home_camera_system.EventPage.{DetectionEvent, Filters, filtered, blank, add_filters}
use home_camera_system.EventPage.DayWindow.{narrow_day_window, hhmm, clock, narrow_day_window-hhmm}
use home_camera_system.EventPage.Asking.{asked, filtered-asked}
use home_camera_system.EventPage.State.{Page, mount}
use home_camera_system.EventPage.Page.{loads_more, deletes, lists, done, fails, run}
use home_camera_system.EventPage.Page.Viewer.{Barred, run-mount-Barred}
use home_camera_system.EventPage.Page.Flags.{Single, run-mount-Single}
use home_camera_system.EventPage.Page.Deleting.{deletion, run-deletion_outcome}
use home_camera_system.EventPage.Page.Several.{Outcome, several, run-several-Outcome}
use home_camera_system.EventPage.Page.Order.{Paged, load_more_run, run-load_more-Paged}

abbrev event_at : ℕ → ℕ → DetectionEvent
event_at id ts = record {
  id = id;
  ts = ts;
  camera_id = 0;
  label = 0;
  person_name = some (codes "Ana");
}

abbrev stranger_at : ℕ → ℕ → DetectionEvent
stranger_at id ts = record { id = id; ts = ts; camera_id = 1; label = 0; person_name = none }

abbrev two_events : List DetectionEvent
two_events = event_at 7 200 ∷ stranger_at 6 100 ∷ []

abbrev unknown_only : Filters
unknown_only = record { person = codes "__unknown__"; label = none; camera = none }

-- The first list has come.
abbrev loaded : Page
loaded = record {
  mounted = true;
  can_manage_events = true;
  seeded = codes "all";
  events = two_events;
  loading = false;
  error = false;
  selected_event = none;
  filters = record { person = codes "all"; label = none; camera = none };
  has_more = true;
  loading_more = false;
  selected_day = none;
  day_start_time = none;
  day_end_time = none;
  selection_mode = true;
  selected_ids = 6 ∷ 7 ∷ [];
  bulk_deleting = false;
  bulk_downloading = false;
  deep_link = none;
  calls = [];
  next_call = 1;
  seen = [];
  deletions = [];
  days_deleted = [];
  notes = [];
}

mount-loaded : (run (mount true none none) (lists 0 two_events none ∷ [])).events ≡ two_events
unfolding run mount
mount-loaded = refl

mount-link :
    (run (mount true none (some 6)) (lists 0 two_events none ∷ [])).selected_event
    ≡ some (stranger_at 6 100)
unfolding run mount
mount-link = refl

filtered_unknown : filtered unknown_only two_events ≡ stranger_at 6 100 ∷ []
unfolding filtered same_text
filtered_unknown = refl

filtered-asked_example :
    filtered unknown_only two_events
    ≡ filter (asked (add_filters unknown_only (blank 50))) two_events
filtered-asked_example = filtered-asked unknown_only 50 two_events refl ((λ e. cc), ((λ e. cc), tt))

run-mount-Barred_example :
    Barred (run (mount false none none) (lists 0 two_events none ∷ deletes (event_at 7 200) ∷ []))
run-mount-Barred_example =
    run-mount-Barred none none (lists 0 two_events none ∷ deletes (event_at 7 200) ∷ [])

run-mount-Single_example :
    Single (run (mount true none none) (lists 0 two_events none ∷ loads_more ∷ loads_more ∷ []))
run-mount-Single_example =
    run-mount-Single true none none (lists 0 two_events none ∷ loads_more ∷ loads_more ∷ [])

run-deletion_outcome_example :
    ((run loaded (deletion loaded (event_at 7 200) (event_at 8 300 ∷ []) (done 2))).events
      ≡ event_at 8 300 ∷ stranger_at 6 100 ∷ [])
    × ((run loaded (deletion loaded (event_at 7 200) (event_at 8 300 ∷ []) (fails 2))).events
        ≡ two_events)
run-deletion_outcome_example =
    run-deletion_outcome loaded (event_at 7 200) (event_at 8 300 ∷ []) refl refl refl

run-several-Outcome_example :
    Outcome loaded (run loaded (several loaded (true ∷ false ∷ []))) (true ∷ false ∷ [])
run-several-Outcome_example = run-several-Outcome loaded (true ∷ false ∷ []) refl refl refl refl

run-load_more-Paged_example :
    Paged loaded
      (run loaded (load_more_run loaded (event_at 8 300 ∷ []) (event_at 5 90 ∷ []) none))
      (event_at 8 300 ∷ [])
      (event_at 5 90 ∷ [])
      none
run-load_more-Paged_example =
    run-load_more-Paged loaded (event_at 8 300 ∷ []) (event_at 5 90 ∷ []) none refl refl refl refl
      refl (omega arith) (omega arith) (omega arith) (omega arith)

-- Clocks of a day that begins at 1000.
abbrev since_1000 : ℕ → ℕ
since_1000 t = t - 1000

narrow_day_window-hhmm_example :
    let w = narrow_day_window 1000 90_000 (some (hhmm 9 30)) (some (hhmm 18 5)) in
    (since_1000 w.since ≡ clock 9 30)
    × (since_1000 w.until ≡ max (clock 9 30) (clock 18 5))
    × (w.since ≤ w.until)
narrow_day_window-hhmm_example =
    narrow_day_window-hhmm since_1000 1000 90_000 9 30 18 5 (λ s h. omega arith) (omega arith)
      (omega arith) (omega arith) (omega arith)
