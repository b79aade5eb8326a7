-- ===== src/Zones/Shape.antt =====
-- The shape of the zones that the editor sends (client/src/components/ZoneEditor.tsx).
use home_camera_system.Prelude.{
  ltb, leb, Bool-cases, length, is_empty, All, All-append, ℕ, zero, suc, ◌≤◌, ◌≡◌, refl, inl, inr,
  ◌||◌, Option, none, some, List, [], ◌∷◌, ◌++◌, arith,
}
use home_camera_system.Prelude.Int.{ℤ, pos, negsuc}
use home_camera_system.Zones.{
  ZonePoint, hole, point, Zone, DragHandle, in_progress, committed, Toast, not_numbers,
  not_percents, Editor, full, drag_threshold, Place, unmeasured, measured, clamped,
  client_to_normalized, write_at, move_vertex, without, all_but_last, commit_config, add_vertex,
  handle_svg_click, dragged, handle_pointer_move, handle_vertex_pointer_down, handle_pointer_up,
  decay, Typed, not_finite, number, handle_keyboard_add, finish_polygon, cancel_in_progress,
  undo_last_vertex, delete_zone, mount,
}
use home_camera_system.Zones.Steps.{
  Event, clicks_frame, moves, leaves, releases, decays_now, flash_ends, clicks_polygon, grabs_drawn,
  grabs_vertex, adds_typed, finishes, undoes, cancels, deletes_selected, done_editing, clicks_row,
  deletes_row, answers, refuses, is_drawing, select_zone, click_row, grab_vertex, delete_selected,
  is_pending, step, run,
}

abbrev pub InFrame : ZonePoint → Type 0
InFrame hole = Unit
InFrame (point x y) = (x ≤ full) × (y ≤ full)

-- Three vertices at least, none of them outside the frame.
abbrev pub IsPolygon : Zone → Type 0
IsPolygon z = (3 ≤ length z) × All InFrame z

pub record Sound (ed : Editor) : Type 0 where
  pub zones : All IsPolygon ed.zones
  pub drawn : All InFrame ed.drawn
  pub sent : All (All IsPolygon) ed.sent

clamped_le : (x : ℤ) → clamped x ≤ full
clamped_le x = ground arith

pub client_to_normalized-InFrame : (p : Place) → InFrame (client_to_normalized p)
unfolding client_to_normalized
client_to_normalized-InFrame unmeasured = (omega arith, omega arith)
client_to_normalized-InFrame (measured x y) = (clamped_le x, clamped_le y)

length-write_at : (i : ℕ) (v : ZonePoint) (z : Zone) → length z ≤ length (write_at i v z)
unfolding write_at
length-write_at zero v [] = omega arith
length-write_at (suc i) v [] = omega arith
length-write_at zero v (p ∷ ps) = omega arith
length-write_at (suc i) v (p ∷ ps) = omega (arith, length-write_at i v ps)

write_at-InFrame :
    (i : ℕ) (v : ZonePoint) (z : Zone) → InFrame v → All InFrame z → All InFrame (write_at i v z)
unfolding write_at
write_at-InFrame zero v [] h k = (h, tt)
write_at-InFrame (suc i) v [] h k = (tt, write_at-InFrame i v [] h tt)
write_at-InFrame zero v (p ∷ ps) h (_, k) = (h, k)
write_at-InFrame (suc i) v (p ∷ ps) h (q, k) = (q, write_at-InFrame i v ps h k)

move_vertex-IsPolygon :
    (zi vi : ℕ) (v : ZonePoint) (zs : List Zone)
    → InFrame v
    → All IsPolygon zs
    → All IsPolygon (move_vertex zi vi v zs)
unfolding move_vertex
move_vertex-IsPolygon zi vi v [] h k = k
move_vertex-IsPolygon zero vi v (z ∷ zs) h ((l, q), k) =
    ((omega (arith, l, length-write_at vi v z), write_at-InFrame vi v z h q), k)
move_vertex-IsPolygon (suc zi) vi v (z ∷ zs) h (q, k) = (q, move_vertex-IsPolygon zi vi v zs h k)

without-IsPolygon : (i : ℕ) (zs : List Zone) → All IsPolygon zs → All IsPolygon (without i zs)
unfolding without
without-IsPolygon i [] k = k
without-IsPolygon zero (z ∷ zs) (q, k) = k
without-IsPolygon (suc i) (z ∷ zs) (q, k) = (q, without-IsPolygon i zs k)

all_but_last-InFrame : (z : Zone) → All InFrame z → All InFrame (all_but_last z)
unfolding all_but_last
all_but_last-InFrame [] k = k
all_but_last-InFrame (p ∷ []) k = tt
all_but_last-InFrame (p ∷ q ∷ ps) (h, k) = (h, all_but_last-InFrame (q ∷ ps) k)

commit_config-Sound :
    (next : List Zone) (ed : Editor) → All IsPolygon next → Sound ed → Sound (commit_config next ed)
unfolding commit_config
commit_config-Sound next ed h v = record { zones = v.zones; drawn = v.drawn; sent = (h, v.sent) }

add_vertex-Sound : (p : ZonePoint) (ed : Editor) → InFrame p → Sound ed → Sound (add_vertex p ed)
unfolding add_vertex
add_vertex-Sound p ed h v = record {
  zones = v.zones;
  drawn = All-append InFrame ed.drawn (p ∷ []) v.drawn (h, tt);
  sent = v.sent;
}

drag-Sound :
    (p : Place) (d : Option DragHandle) (ed : Editor)
    → Sound ed
    → Sound (dragged d (client_to_normalized p) ed)
unfolding dragged
drag-Sound p none ed v = v
drag-Sound p (some (in_progress vi)) ed v = record {
  zones = v.zones;
  drawn = write_at-InFrame vi _ ed.drawn (client_to_normalized-InFrame p) v.drawn;
  sent = v.sent;
}
drag-Sound p (some (committed zi vi)) ed v =
    commit_config-Sound _ ed
      (move_vertex-IsPolygon zi vi _ ed.zones (client_to_normalized-InFrame p) v.zones) v

handle_pointer_move-Sound : (p : Place) (ed : Editor) → Sound ed → Sound (handle_pointer_move p ed)
unfolding handle_pointer_move
handle_pointer_move-Sound p ed v =
    drag-Sound p ed.drag _ (record { zones = v.zones; drawn = v.drawn; sent = v.sent })

handle_svg_click-Sound : (p : Place) (ed : Editor) → Sound ed → Sound (handle_svg_click p ed)
unfolding handle_svg_click
handle_svg_click-Sound p ed v = elim (Bool-cases (leb drag_threshold ed.drag_moved)) [
  | inl y ↦ rw y v
  | inr n ↦ rw n (add_vertex-Sound _ ed (client_to_normalized-InFrame p) v)
]

told-Sound : (t : Toast) (ed : Editor) → Sound ed → Sound (record ed { toasts = t ∷ ed.toasts })
told-Sound t ed v = record { zones = v.zones; drawn = v.drawn; sent = v.sent }

handle_keyboard_add-Sound :
    (x y : Typed) (ed : Editor) → Sound ed → Sound (handle_keyboard_add x y ed)
unfolding handle_keyboard_add
handle_keyboard_add-Sound not_finite y ed v = told-Sound not_numbers ed v
handle_keyboard_add-Sound (number (pos x)) not_finite ed v = told-Sound not_numbers ed v
handle_keyboard_add-Sound (number (negsuc x)) not_finite ed v = told-Sound not_numbers ed v
handle_keyboard_add-Sound (number (pos x)) (number (negsuc y)) ed v = told-Sound not_percents ed v
handle_keyboard_add-Sound (number (negsuc x)) (number y) ed v = told-Sound not_percents ed v
handle_keyboard_add-Sound (number (pos x)) (number (pos y)) ed v =
    elim (Bool-cases (ltb full x || ltb full y)) [
      | inl b ↦ rw b (told-Sound not_percents ed v)
      | inr n ↦ rw n (add_vertex-Sound (point x y) ed (ground arith, ground arith) v)
    ]

finish_polygon-Sound : (ed : Editor) → Sound ed → Sound (finish_polygon ed)
unfolding finish_polygon
finish_polygon-Sound ed v = elim (Bool-cases (ltb (length ed.drawn) 3)) [
  | inl y ↦ rw y v
  | inr n ↦ rw n (
      let grown =
        All-append IsPolygon ed.zones (ed.drawn ∷ []) v.zones ((ground arith, v.drawn), tt) in
      let c = commit_config-Sound (ed.zones ++ ed.drawn ∷ []) ed grown v in
      record { zones = c.zones; drawn = tt; sent = c.sent })
]

undo_last_vertex-Sound : (ed : Editor) → Sound ed → Sound (undo_last_vertex ed)
unfolding undo_last_vertex
undo_last_vertex-Sound ed v = elim (Bool-cases (is_empty ed.drawn)) [
  | inl y ↦ rw y v
  | inr n ↦
      rw n
        (record { zones = v.zones; drawn = all_but_last-InFrame ed.drawn v.drawn; sent = v.sent })
]

delete_zone-Sound : (i : ℕ) (ed : Editor) → Sound ed → Sound (delete_zone i ed)
unfolding delete_zone
delete_zone-Sound i ed v =
    let c = commit_config-Sound (without i ed.zones) ed (without-IsPolygon i ed.zones v.zones) v in
    record { zones = c.zones; drawn = c.drawn; sent = c.sent }

-- What is neither a list of zones nor drawn may change.
abbrev Alike : Editor → Editor → Type 0
Alike a b = (b.zones ≡ a.zones) × (b.drawn ≡ a.drawn) × (b.sent ≡ a.sent)

Alike-Sound : (a b : Editor) → Alike a b → Sound a → Sound b
Alike-Sound a b (z, d, s) v = record {
  zones = rw z v.zones;
  drawn = rw d v.drawn;
  sent = rw s v.sent;
}

grab_vertex-Alike : (vi : ℕ) (o : Option ℕ) (ed : Editor) → Alike ed (grab_vertex vi o ed)
unfolding grab_vertex handle_vertex_pointer_down
grab_vertex-Alike vi none ed = (refl, refl, refl)
grab_vertex-Alike vi (some zi) ed = ground arith

click_row-Alike : (i : ℕ) (ed : Editor) → Alike ed (click_row i ed)
unfolding click_row select_zone
click_row-Alike i ed = ground arith

delete_selected-Sound : (o : Option ℕ) (ed : Editor) → Sound ed → Sound (delete_selected o ed)
unfolding delete_selected
delete_selected-Sound none ed v = v
delete_selected-Sound (some i) ed v = elim (Bool-cases (is_drawing ed)) [
  | inl y ↦ rw y v
  | inr n ↦ rw n (delete_zone-Sound i ed v)
]

-- The zones of an answer of the server are polygons in the frame.
abbrev pub AnswersSound : Event → Type 0
AnswersSound (answers n zones) = All IsPolygon zones
AnswersSound _ = Unit

step-Sound : (ed : Editor) (e : Event) → AnswersSound e → Sound ed → Sound (step ed e)
unfolding step handle_pointer_up decay select_zone handle_vertex_pointer_down cancel_in_progress
step-Sound ed (clicks_frame p) h v = handle_svg_click-Sound p ed v
step-Sound ed (moves p) h v = handle_pointer_move-Sound p ed v
step-Sound ed leaves h v = Alike-Sound ed _ (refl, refl, refl) v
step-Sound ed releases h v = Alike-Sound ed _ (refl, refl, refl) v
step-Sound ed decays_now h v = Alike-Sound ed _ (ground arith) v
step-Sound ed flash_ends h v = Alike-Sound ed _ (refl, refl, refl) v
step-Sound ed (clicks_polygon i) h v = Alike-Sound ed _ (ground arith) v
step-Sound ed (grabs_drawn vi) h v = Alike-Sound ed _ (ground arith) v
step-Sound ed (grabs_vertex vi) h v = Alike-Sound ed _ (grab_vertex-Alike vi ed.selected_zone ed) v
step-Sound ed (adds_typed x y) h v = handle_keyboard_add-Sound x y ed v
step-Sound ed finishes h v = finish_polygon-Sound ed v
step-Sound ed undoes h v = undo_last_vertex-Sound ed v
step-Sound ed cancels h v = elim (Bool-cases (is_drawing ed)) [
  | inl y ↦ rw y (record { zones = v.zones; drawn = tt; sent = v.sent })
  | inr n ↦ rw n v
]
step-Sound ed deletes_selected h v = delete_selected-Sound ed.selected_zone ed v
step-Sound ed done_editing h v = Alike-Sound ed _ (ground arith) v
step-Sound ed (clicks_row i) h v = Alike-Sound ed _ (click_row-Alike i ed) v
step-Sound ed (deletes_row i) h v = elim (Bool-cases (ltb i (length ed.zones))) [
  | inl y ↦ rw y (delete_zone-Sound i ed v)
  | inr n ↦ rw n v
]
step-Sound ed (answers n zones) h v = elim (Bool-cases (is_pending n ed.patches)) [
  | inl y ↦ rw y (record { zones = h; drawn = v.drawn; sent = v.sent })
  | inr n ↦ rw n v
]
step-Sound ed (refuses n) h v = Alike-Sound ed _ (ground arith) v

run-Sound : (ed : Editor) (es : List Event) → All AnswersSound es → Sound ed → Sound (run ed es)
unfolding run
run-Sound ed [] h v = v
run-Sound ed (e ∷ es) (h, hs) v = run-Sound (step ed e) es hs (step-Sound ed e h v)

-- If the zones that the section starts with, and those that the server answers, are polygons of three
-- vertices or more, none of them outside the frame, so is every zone of every PATCH that the editor
-- sends, whatever is clicked, dragged, typed and deleted, and in whatever order the answers come.
-- A vertex may be missing where a drag has written past the end of a zone.
pub run-mount-Sound :
    (zones : List Zone) (es : List Event)
    → All IsPolygon zones
    → All AnswersSound es
    → All (All IsPolygon) (run (mount zones) es).sent
unfolding mount
run-mount-Sound zones es h hs =
    (run-Sound (mount zones) es hs (record { zones = h; drawn = tt; sent = tt })).sent
