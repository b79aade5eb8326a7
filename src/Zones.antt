-- ===== src/Zones.antt =====
-- The editor of the detection zones (client/src/components/ZoneEditor.tsx) in the settings section that
-- saves them (`commitConfig` of client/src/pages/settings/DetectionSection.tsx). A coordinate is in
-- millionths of the frame. `zones` is what the server last answered, and a change of it is a PATCH that
-- stands in `patches` by number until it is answered.
pub mod Steps
pub mod Shape
pub mod Drawing
pub mod Dragging
mod Tests
use home_camera_system.Prelude.{
  ltb, leb, ◌==◌, if◌then◌else◌, is_some, length, is_empty, ℕ, zero, suc, ◌+◌, ◌-◌, ◌/◌, min, Bool,
  false, ◌||◌, Option, none, some, List, [], ◌∷◌, ◌++◌,
}
use home_camera_system.Prelude.Int.{ℤ, pos, negsuc}

-- A place of an array that was never written is a hole.
pub data ZonePoint : Type 0 where
  hole : ZonePoint
  point : ℕ → ℕ → ZonePoint

abbrev pub Zone : Type 0
Zone = List ZonePoint

pub data DragHandle : Type 0 where
  in_progress : ℕ → DragHandle
  -- a zone, and a vertex of it
  committed : ℕ → ℕ → DragHandle

pub data Announcement : Type 0 where
  silence polygon_cancelled : Announcement
  -- the number of the vertex, and its place in percent
  vertex_added : ℕ → ℕ → ℕ → Announcement
  polygon_committed vertex_removed zone_deleted : ℕ → Announcement

pub data Toast : Type 0 where
  not_numbers not_percents saved not_saved : Toast

pub record Editor : Type 0 where
  pub zones : List Zone
  pub drawn : Zone
  pub announce : Announcement
  pub selected_zone : Option ℕ
  pub drag : Option DragHandle
  pub flash_select : Option ℕ
  pub cursor : Option ZonePoint
  pub drag_moved : ℕ
  -- the timeouts that will reset `drag_moved`
  pub decays : ℕ
  pub patches : List (ℕ × List Zone)
  pub next_patch : ℕ
  -- everything that was sent, the last first
  pub sent : List (List Zone)
  pub toasts : List Toast

abbrev pub full : ℕ
full = 1000000

abbrev pub drag_threshold : ℕ
drag_threshold = 20000

-- Where a pointer is: its offsets in the frame over the size of the frame, which may be none.
pub data Place : Type 0 where
  unmeasured : Place
  measured : ℤ → ℤ → Place

-- `Math.max(0, Math.min(1, x))`
abbrev pub clamped : ℤ → ℕ
clamped (pos n) = min full n
clamped (negsuc n) = 0

unfoldable pub client_to_normalized : Place → ZonePoint
client_to_normalized unmeasured = point 0 0
client_to_normalized (measured x y) = point (clamped x) (clamped y)

-- `next[i] = v`: past the end the array grows.
unfoldable pub write_at : ℕ → ZonePoint → Zone → Zone
write_at zero v [] = v ∷ []
write_at (suc i) v [] = hole ∷ write_at i v []
write_at zero v (p ∷ ps) = v ∷ ps
write_at (suc i) v (p ∷ ps) = p ∷ write_at i v ps

-- `zones.map(...)`: the zone of that index, if there is one, is written to.
unfoldable pub move_vertex : ℕ → ℕ → ZonePoint → List Zone → List Zone
unfolding write_at
move_vertex zi vi v [] = []
move_vertex zero vi v (z ∷ zs) = write_at vi v z ∷ zs
move_vertex (suc zi) vi v (z ∷ zs) = z ∷ move_vertex zi vi v zs

-- `zones.filter((_, i) => i !== index)`
unfoldable pub without : ℕ → List Zone → List Zone
without i [] = []
without zero (z ∷ zs) = zs
without (suc i) (z ∷ zs) = z ∷ without i zs

-- `cur.slice(0, -1)`
unfoldable pub all_but_last : Zone → Zone
all_but_last [] = []
all_but_last (p ∷ []) = []
all_but_last (p ∷ q ∷ ps) = p ∷ all_but_last (q ∷ ps)

-- `onChange`, which the section gives to `commitConfig`.
unfoldable pub commit_config : List Zone → Editor → Editor
commit_config next ed = record ed {
  patches = (ed.next_patch, next) ∷ ed.patches;
  next_patch = ed.next_patch + 1;
  sent = next ∷ ed.sent;
}

-- `Math.round(x * 100)`
abbrev percent : ℕ → ℕ
percent x = (x + 5000) / 10000

abbrev x_of : ZonePoint → ℕ
x_of hole = 0
x_of (point x y) = x

abbrev y_of : ZonePoint → ℕ
y_of hole = 0
y_of (point x y) = y

unfoldable pub add_vertex : ZonePoint → Editor → Editor
add_vertex p ed = record ed {
  drawn = ed.drawn ++ p ∷ [];
  selected_zone = none;
  announce = vertex_added (length ed.drawn + 1) (percent (x_of p)) (percent (y_of p));
}

-- A click whose target is the frame itself.
unfoldable pub handle_svg_click : Place → Editor → Editor
unfolding add_vertex client_to_normalized
handle_svg_click at ed =
    if leb drag_threshold ed.drag_moved then ed else add_vertex (client_to_normalized at) ed

-- `Math.abs(point[0] - (cursor?.[0] ?? point[0]))`
abbrev pub moved_from : Option ZonePoint → ZonePoint → ℕ
moved_from none p = 0
moved_from (some c) p = (x_of p - x_of c) + (x_of c - x_of p)

dragged : Option DragHandle → ZonePoint → Editor → Editor
unfolding write_at move_vertex commit_config
dragged none p ed = ed
dragged (some (in_progress vi)) p ed = record ed { drawn = write_at vi p ed.drawn }
dragged (some (committed zi vi)) p ed = commit_config (move_vertex zi vi p ed.zones) ed

unfoldable pub handle_pointer_move : Place → Editor → Editor
unfolding dragged client_to_normalized
handle_pointer_move at ed =
    let p = client_to_normalized at in
    let moved = if is_some ed.drag then ed.drag_moved + moved_from ed.cursor p else ed.drag_moved in
    dragged ed.drag p (record ed { cursor = some p; drag_moved = moved })

unfoldable pub handle_vertex_pointer_down : DragHandle → Editor → Editor
handle_vertex_pointer_down (in_progress vi) ed = record ed {
  drag_moved = 0;
  drag = some (in_progress vi);
}
handle_vertex_pointer_down (committed zi vi) ed = record ed {
  drag_moved = 0;
  drag = some (committed zi vi);
  selected_zone = some zi;
}

-- The reset of `drag_moved` is left to a timeout.
unfoldable pub handle_pointer_up : Editor → Editor
handle_pointer_up ed = record ed { drag = none; decays = ed.decays + 1 }

unfoldable pub decay : Editor → Editor
decay ed = if ltb 0 ed.decays then record ed { drag_moved = 0; decays = ed.decays - 1 } else ed

-- What `parseFloat` gives for a field, over 100.
pub data Typed : Type 0 where
  not_finite : Typed
  number : ℤ → Typed

unfoldable pub handle_keyboard_add : Typed → Typed → Editor → Editor
unfolding add_vertex
handle_keyboard_add (number (pos x)) (number (pos y)) ed =
    if ltb full x || ltb full y
    then record ed { toasts = not_percents ∷ ed.toasts }
    else add_vertex (point x y) ed
handle_keyboard_add (number x) (number y) ed = record ed { toasts = not_percents ∷ ed.toasts }
handle_keyboard_add _ _ ed = record ed { toasts = not_numbers ∷ ed.toasts }

unfoldable pub finish_polygon : Editor → Editor
unfolding commit_config
finish_polygon ed =
    if ltb (length ed.drawn) 3 then ed else record (commit_config (ed.zones ++ ed.drawn ∷ []) ed) {
      drawn = [];
      announce = polygon_committed (length ed.drawn);
    }

unfoldable pub cancel_in_progress : Editor → Editor
cancel_in_progress ed = record ed { drawn = []; announce = polygon_cancelled }

unfoldable pub undo_last_vertex : Editor → Editor
unfolding all_but_last
undo_last_vertex ed = if is_empty ed.drawn then ed else record ed {
  drawn = all_but_last ed.drawn;
  announce = vertex_removed (length (all_but_last ed.drawn));
}

abbrev pub is_selected : ℕ → Option ℕ → Bool
is_selected i none = false
is_selected i (some j) = i == j

unfoldable pub delete_zone : ℕ → Editor → Editor
unfolding commit_config without
delete_zone i ed = record (commit_config (without i ed.zones) ed) {
  selected_zone = if is_selected i ed.selected_zone then none else ed.selected_zone;
  announce = zone_deleted (i + 1);
}

-- Nothing is drawn, selected or dragged, and nothing is under way.
unfoldable pub mount : List Zone → Editor
mount zones = record {
  zones = zones;
  drawn = [];
  announce = silence;
  selected_zone = none;
  drag = none;
  flash_select = none;
  cursor = none;
  drag_moved = 0;
  decays = 0;
  patches = [];
  next_patch = 0;
  sent = [];
  toasts = [];
}
