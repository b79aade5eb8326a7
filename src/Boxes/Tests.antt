-- ===== src/Boxes/Tests.antt =====
-- Runs of the search and of the drawing of boxes.
use home_camera_system.Prelude.{
  length, ℕ, zero, suc, ◌≤◌, ◌≡◌, refl, true, false, none, some, List, [], ◌∷◌, arith,
}
use home_camera_system.Boxes.{DetectionBox, Sample, search, pick_boxes_at, Drawn, draw_boxes}
use home_camera_system.Boxes.Search.{Ascending, boxes_of, pick_boxes_at-boxes_of, search_ends}
use home_camera_system.Boxes.Matched.{Chosen, draw_boxes-Chosen}

abbrev person_at : ℕ → ℕ → DetectionBox
person_at score x = record { is_person = true; score = score; x = x; y = 0; w = 100; h = 200 }

abbrev cat_at : ℕ → DetectionBox
cat_at x = record { is_person = false; score = 990; x = x; y = 0; w = 100; h = 200 }

abbrev at_start : Sample
at_start = record { ts_offset = 0; boxes = person_at 800 10 ∷ [] }

abbrev later : List Sample
later =
    record { ts_offset = 400; boxes = person_at 800 20 ∷ [] }
    ∷ record { ts_offset = 900; boxes = cat_at 30 ∷ [] }
    ∷ []

picks_the_second : pick_boxes_at [] (some (at_start ∷ later)) 700 ≡ some (person_at 800 20 ∷ [])
unfolding pick_boxes_at search
picks_the_second = refl

stale : pick_boxes_at [] (some (at_start ∷ later)) 1401 ≡ some []
unfolding pick_boxes_at search
stale = refl

ascending : Ascending (at_start ∷ later)
ascending zero zero h l = omega arith
ascending zero (suc j) h l = omega arith
ascending (suc i) zero h l = absurd (omega arith)
ascending (suc zero) (suc zero) h l = omega arith
ascending (suc zero) (suc (suc zero)) h l = omega arith
ascending (suc (suc i)) (suc zero) h l = absurd (omega arith)
ascending (suc (suc zero)) (suc (suc zero)) h l = omega arith
ascending (suc i) (suc (suc (suc j))) h l = absurd (omega arith)
ascending (suc (suc (suc i))) (suc (suc zero)) h l = absurd (omega arith)

pick_boxes_at-boxes_of_example :
    pick_boxes_at [] (some (at_start ∷ later)) 700 ≡ some (boxes_of 700 at_start later)
pick_boxes_at-boxes_of_example =
    pick_boxes_at-boxes_of 700 at_start later ascending [] (omega arith)

search_ends_example : (i : ℕ) × (search 2 (at_start ∷ later) 700 0 2 ≡ some i) × (0 ≤ i) × (i ≤ 2)
search_ends_example =
    search_ends 2 (at_start ∷ later) 700 0 2 (omega arith) (omega arith) (omega arith) (omega arith)

draw_boxes-Chosen_example :
    (ds : List Drawn) × (draw_boxes 640 480
        (cat_at 0 ∷ person_at 500 10 ∷ person_at 700 20 ∷ [])
        true
        none
      ≡ some ds)
    × (length ds ≡ 3)
    × Chosen (cat_at 0 ∷ person_at 500 10 ∷ person_at 700 20 ∷ []) ds
draw_boxes-Chosen_example =
    draw_boxes-Chosen 640 480 (cat_at 0 ∷ person_at 500 10 ∷ person_at 700 20 ∷ []) none
      (omega arith) (omega arith)
