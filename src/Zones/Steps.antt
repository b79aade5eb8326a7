-- ===== src/Zones/Steps.antt =====
-- The events of the zone editor (client/src/components/ZoneEditor.tsx): which handler each control has,
-- and when it is there to be used. A click on a vertex reaches no handler that does anything.
use home_camera_system.Prelude.{
  ltb, ◌==◌, if◌then◌else◌, length, get_elem?, is_empty, ℕ, Bool, false, ◌||◌, not, Option, none,
  some, List, [], ◌∷◌,
}
use home_camera_system.Zones.{
  Zone, in_progress, committed, saved, not_saved, Editor, Place, handle_svg_click,
  handle_pointer_move, handle_vertex_pointer_down, handle_pointer_up, decay, Typed,
  handle_keyboard_add, finish_polygon, cancel_in_progress, undo_last_vertex, is_selected,
  delete_zone,
}

pub data Event : Type 0 where
  clicks_frame moves : Place → Event
  leaves releases decays_now flash_ends : Event
  clicks_polygon grabs_drawn grabs_vertex : ℕ → Event
  adds_typed : Typed → Typed → Event
  finishes undoes cancels deletes_selected done_editing : Event
  -- a row of the list, and its ✕
  clicks_row deletes_row : ℕ → Event
  -- the answer of the server to a PATCH
  answers : ℕ → List Zone → Event
  refuses : ℕ → Event

abbrev pub is_drawing : Editor → Bool
is_drawing ed = not (is_empty ed.drawn)

unfoldable pub select_zone : ℕ → Editor → Editor
select_zone i ed = record ed { selected_zone = some i; flash_select = some i }

unfoldable pub click_row : ℕ → Editor → Editor
unfolding select_zone
click_row i ed =
    if is_drawing ed || not (ltb i (length ed.zones))
    then ed
    else if is_selected i ed.selected_zone
    then record ed { selected_zone = none }
    else select_zone i ed

-- The vertices of the selected zone are handles while nothing is drawn.
grab_of : ℕ → ℕ → Option Zone → Editor → Editor
unfolding handle_vertex_pointer_down
grab_of zi vi none ed = ed
grab_of zi vi (some z) ed =
    if is_drawing ed || not (ltb vi (length z))
    then ed
    else handle_vertex_pointer_down (committed zi vi) ed

unfoldable pub grab_vertex : ℕ → Option ℕ → Editor → Editor
unfolding grab_of
grab_vertex vi none ed = ed
grab_vertex vi (some zi) ed = grab_of zi vi (get_elem? ed.zones zi) ed

unfoldable pub delete_selected : Option ℕ → Editor → Editor
unfolding delete_zone
delete_selected none ed = ed
delete_selected (some i) ed = if is_drawing ed then ed else delete_zone i ed

pub is_pending : ℕ → List (ℕ × List Zone) → Bool
is_pending n [] = false
is_pending n ((m, _) ∷ ps) = (n == m) || is_pending n ps

settled : ℕ → List (ℕ × List Zone) → List (ℕ × List Zone)
settled n [] = []
settled n ((m, z) ∷ ps) = let rest = settled n ps in if n == m then rest else (m, z) ∷ rest

unfoldable pub step : Editor → Event → Editor
unfolding handle_svg_click handle_pointer_move handle_pointer_up decay select_zone click_row
    grab_vertex handle_vertex_pointer_down handle_keyboard_add finish_polygon undo_last_vertex
    cancel_in_progress delete_selected delete_zone is_pending settled
step ed (clicks_frame p) = handle_svg_click p ed
step ed (moves p) = handle_pointer_move p ed
step ed leaves = record ed { cursor = none }
step ed releases = handle_pointer_up ed
step ed decays_now = decay ed
step ed flash_ends = record ed { flash_select = none }
step ed (clicks_polygon i) =
    if is_drawing ed || not (ltb i (length ed.zones)) then ed else select_zone i ed
step ed (grabs_drawn vi) =
    if ltb vi (length ed.drawn) then handle_vertex_pointer_down (in_progress vi) ed else ed
step ed (grabs_vertex vi) = grab_vertex vi ed.selected_zone ed
step ed (adds_typed x y) = handle_keyboard_add x y ed
step ed finishes = finish_polygon ed
step ed undoes = undo_last_vertex ed
step ed cancels = if is_drawing ed then cancel_in_progress ed else ed
step ed deletes_selected = delete_selected ed.selected_zone ed
step ed done_editing = if is_drawing ed then ed else record ed { selected_zone = none }
step ed (clicks_row i) = click_row i ed
step ed (deletes_row i) = if ltb i (length ed.zones) then delete_zone i ed else ed
step ed (answers n zones) =
    if is_pending n ed.patches
    then record ed { zones = zones; patches = settled n ed.patches; toasts = saved ∷ ed.toasts }
    else ed
step ed (refuses n) =
    if is_pending n ed.patches
    then record ed { patches = settled n ed.patches; toasts = not_saved ∷ ed.toasts }
    else ed

unfoldable pub run : Editor → List Event → Editor
unfolding step
run ed [] = ed
run ed (e ∷ es) = run (step ed e) es
