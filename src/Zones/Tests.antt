-- ===== src/Zones/Tests.antt =====
-- Runs of the zone editor.
use home_camera_system.Prelude.{All, ℕ, ◌≤◌, ◌≡◌, refl, none, some, List, [], ◌∷◌, ◌++◌, map, arith}
use home_camera_system.Prelude.Int.{pos}
use home_camera_system.Zones.{
  hole, point, Zone, Editor, full, Place, measured, client_to_normalized, write_at, move_vertex,
  without, commit_config, handle_pointer_move, handle_vertex_pointer_down, delete_zone, mount,
}
use home_camera_system.Zones.Steps.{
  moves, releases, grabs_vertex, finishes, clicks_row, deletes_row, answers, select_zone, click_row,
  grab_vertex, step, run,
}
use home_camera_system.Zones.Shape.{IsPolygon, run-mount-Sound}
use home_camera_system.Zones.Drawing.{tap, undo, stroke_event, piled, Finished, strokes-Finished}
use home_camera_system.Zones.Dragging.{requests, drag_requests}

abbrev triangle : Zone
triangle = point 0 0 ∷ point 500000 0 ∷ point 0 500000 ∷ []

abbrev square : Zone
square = point 600000 600000 ∷ point 900000 600000 ∷ point 900000 900000 ∷ point 600000 900000 ∷ []

abbrev pentagon : Zone
pentagon = point 950000 500000 ∷ square

abbrev two_zones : List Zone
two_zones = triangle ∷ square ∷ []

triangle-IsPolygon : IsPolygon triangle
triangle-IsPolygon =
    let a : 0 ≤ full = omega arith in
    let b : 500000 ≤ full = omega arith in (omega arith, ((a, a), ((b, a), ((a, b), tt))))

square-IsPolygon : IsPolygon square
square-IsPolygon =
    let a : 600000 ≤ full = omega arith in
    let b : 900000 ≤ full = omega arith in (omega arith, ((a, a), ((b, a), ((b, b), ((a, b), tt)))))

two_zones-polygons : All IsPolygon two_zones
two_zones-polygons = (triangle-IsPolygon, (square-IsPolygon, tt))

abbrev corner : ℕ → ℕ → Place
corner x y = measured (pos x) (pos y)

-- Of two deletions before the first is answered, the second brings the first zone back.
second_deletion_restores :
    (run (mount two_zones) (
      deletes_row 0
      ∷ deletes_row 1
      ∷ answers 0 (square ∷ [])
      ∷ answers 1 (triangle ∷ [])
      ∷ [])).sent
    ≡ (triangle ∷ []) ∷ (square ∷ []) ∷ []
unfolding run step mount delete_zone without commit_config
second_deletion_restores = refl

-- The zone before the selected one is deleted: another zone is selected, here none that is there.
selection_shifts :
    (run
      (mount two_zones)
      (clicks_row 1 ∷ deletes_row 0 ∷ answers 0 (square ∷ []) ∷ [])).selected_zone
    ≡ some 1
unfolding run step mount delete_zone without commit_config click_row select_zone
selection_shifts = refl

-- A drag that goes only down has not moved at all.
down_is_not_counted :
    (run (mount two_zones) (
      clicks_row 0 ∷ moves (corner 0 0) ∷ grabs_vertex 0 ∷ moves (corner 0 400000) ∷ [])).drag_moved
    ≡ 0
unfolding run step mount commit_config click_row select_zone grab_vertex handle_vertex_pointer_down
    handle_pointer_move client_to_normalized move_vertex write_at
down_is_not_counted = refl

-- An answer comes in the middle of a drag: the rest of it goes to the zone that now has the number,
-- past the end of it.
drag_leaves_a_hole :
    (run (mount (square ∷ pentagon ∷ triangle ∷ [])) (
      clicks_row 1
      ∷ deletes_row 0
      ∷ grabs_vertex 4
      ∷ answers 0 (pentagon ∷ triangle ∷ [])
      ∷ moves (corner 7 7)
      ∷ [])).sent
    ≡ (pentagon ∷ (triangle ++ hole ∷ point 7 7 ∷ []) ∷ []) ∷ (pentagon ∷ triangle ∷ []) ∷ []
unfolding run step mount delete_zone without commit_config click_row select_zone grab_vertex
    handle_vertex_pointer_down handle_pointer_move client_to_normalized move_vertex write_at
drag_leaves_a_hole = refl

run-mount-Sound_example :
    All
      (All IsPolygon)
      (run
        (mount two_zones)
        (clicks_row 0 ∷ grabs_vertex 0 ∷ moves (corner 2000000 5) ∷ answers 0 two_zones ∷ [])).sent
run-mount-Sound_example =
    run-mount-Sound two_zones
      (clicks_row 0 ∷ grabs_vertex 0 ∷ moves (corner 2000000 5) ∷ answers 0 two_zones ∷ [])
      two_zones-polygons (tt, (tt, (tt, (two_zones-polygons, tt))))

strokes-Finished_example :
    Finished
      (mount two_zones)
      (piled []
        (tap (corner 1 1) ∷ tap (corner 9 1) ∷ undo ∷ tap (corner 8 1) ∷ tap (corner 1 8) ∷ []))
      (step
        (run (mount two_zones) (
          map stroke_event (
            tap (corner 1 1) ∷ tap (corner 9 1) ∷ undo ∷ tap (corner 8 1) ∷ tap (corner 1 8) ∷ [])))
        finishes)
unfolding mount
strokes-Finished_example =
    strokes-Finished (mount two_zones)
      (tap (corner 1 1) ∷ tap (corner 9 1) ∷ undo ∷ tap (corner 8 1) ∷ tap (corner 1 8) ∷ []) refl
      refl

abbrev editing : Editor
editing = record (mount two_zones) { selected_zone = some 1 }

drag_requests_example :
    ((step
        (run (step editing (grabs_vertex 3)) (map moves (corner 5 5 ∷ corner 7 7 ∷ [])))
        releases).sent
      ≡ requests 1 3 square two_zones (corner 5 5 ∷ corner 7 7 ∷ []) [])
    × ((step
          (run (step editing (grabs_vertex 3)) (map moves (corner 5 5 ∷ corner 7 7 ∷ [])))
          releases).zones
        ≡ two_zones)
    × ((step
          (run (step editing (grabs_vertex 3)) (map moves (corner 5 5 ∷ corner 7 7 ∷ [])))
          releases).drag
        ≡ none)
unfolding mount
drag_requests_example =
    drag_requests 1 3 square (corner 5 5 ∷ corner 7 7 ∷ []) editing refl refl refl (omega arith)
