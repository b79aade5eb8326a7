-- ===== src/Zones/Drawing.antt =====
-- Drawing a zone by clicks, with corrections (client/src/components/ZoneEditor.tsx).
use home_camera_system.Prelude.{
  ltb, leb, Bool-cases, length, length-append, is_empty, ◌≤◌, ◌<◌, ◌≡◌, refl, ap, ◌⊎◌, inl, inr,
  true, false, List, [], ◌∷◌, ◌++◌, map, arith,
}
use home_camera_system.Zones.{
  ZonePoint, Zone, Editor, drag_threshold, Place, client_to_normalized, all_but_last, commit_config,
  add_vertex, handle_svg_click, finish_polygon, undo_last_vertex,
}
use home_camera_system.Zones.Steps.{Event, clicks_frame, finishes, undoes, step, run}

pub data Stroke : Type 0 where
  tap : Place → Stroke
  undo : Stroke

abbrev pub stroke_event : Stroke → Event
stroke_event (tap p) = clicks_frame p
stroke_event undo = undoes

abbrev dropped : List ZonePoint → List ZonePoint
dropped [] = []
dropped (p ∷ ps) = ps

-- What the strokes leave on the pile of vertices, the last on top.
abbrev pub piled : List ZonePoint → List Stroke → List ZonePoint
piled pile [] = pile
piled pile (tap p ∷ ss) = piled (client_to_normalized p ∷ pile) ss
piled pile (undo ∷ ss) = piled (dropped pile) ss

-- The pile from the bottom.
abbrev pub from_first : List ZonePoint → Zone
from_first [] = []
from_first (p ∷ ps) = from_first ps ++ p ∷ []

length-from_first : (ps : List ZonePoint) → length (from_first ps) ≡ length ps
length-from_first [] = refl
length-from_first (p ∷ ps) =
    omega (arith, length-append (from_first ps) (p ∷ []), length-from_first ps)

all_but_last-append : (ps : Zone) (p : ZonePoint) → all_but_last (ps ++ p ∷ []) ≡ ps
unfolding all_but_last
all_but_last-append [] p = refl
all_but_last-append (q ∷ []) p = refl
all_but_last-append (q ∷ r ∷ ps) p = ap (λ zs. q ∷ zs) (all_but_last-append (r ∷ ps) p)

is_empty-append : (ps : Zone) (p : ZonePoint) → is_empty (ps ++ p ∷ []) ≡ false
is_empty-append [] p = refl
is_empty-append (q ∷ ps) p = refl

-- The drawing so far, in an editor that has sent nothing since `ed`.
record Traced (ed : Editor) (pile : List ZonePoint) (now : Editor) : Type 0 where
  drawn : now.drawn ≡ from_first pile
  same_zones : now.zones ≡ ed.zones
  same_sent : now.sent ≡ ed.sent
  still : now.drag_moved ≡ ed.drag_moved

tap-Traced :
    (ed now : Editor) (pile : List ZonePoint) (p : Place)
    → leb drag_threshold ed.drag_moved ≡ false
    → Traced ed pile now
    → Traced ed (client_to_normalized p ∷ pile) (step now (clicks_frame p))
unfolding step handle_svg_click add_vertex
tap-Traced ed now pile p n t =
    let m : leb drag_threshold now.drag_moved ≡ false = rw t.still n in
    rw m (record {
      drawn = ap (λ z. z ++ client_to_normalized p ∷ []) t.drawn;
      same_zones = t.same_zones;
      same_sent = t.same_sent;
      still = t.still;
    })

undo-Traced :
    (ed now : Editor) (pile : List ZonePoint)
    → Traced ed pile now
    → Traced ed (dropped pile) (step now undoes)
unfolding step undo_last_vertex
undo-Traced ed now [] t = let m : is_empty now.drawn ≡ true = rw t.drawn refl in rw m t
undo-Traced ed now (p ∷ ps) t =
    let m : is_empty now.drawn ≡ false = rw t.drawn (is_empty-append (from_first ps) p) in
    rw m (record {
      drawn = rw t.drawn (all_but_last-append (from_first ps) p);
      same_zones = t.same_zones;
      same_sent = t.same_sent;
      still = t.still;
    })

strokes-Traced :
    (ed now : Editor) (pile : List ZonePoint) (ss : List Stroke)
    → leb drag_threshold ed.drag_moved ≡ false
    → Traced ed pile now
    → Traced ed (piled pile ss) (run now (map stroke_event ss))
unfolding run
strokes-Traced ed now pile [] n t = t
strokes-Traced ed now pile (tap p ∷ ss) n t =
    strokes-Traced ed (step now (clicks_frame p)) (client_to_normalized p ∷ pile) ss n
      (tap-Traced ed now pile p n t)
strokes-Traced ed now pile (undo ∷ ss) n t =
    strokes-Traced ed (step now undoes) (dropped pile) ss n (undo-Traced ed now pile t)

-- The pile is sent as a zone after the others, and the drawing is empty again; or it is too small for
-- a zone, and stays as it is.
abbrev pub Finished : Editor → List ZonePoint → Editor → Type 0
Finished ed pile after =
    ((3 ≤ length pile)
      × (after.sent ≡ (ed.zones ++ from_first pile ∷ []) ∷ ed.sent)
      × (after.drawn ≡ []))
    ⊎ ((length pile < 3) × (after.sent ≡ ed.sent) × (after.drawn ≡ from_first pile))

finish-Finished :
    (ed now : Editor) (pile : List ZonePoint)
    → Traced ed pile now
    → Finished ed pile (step now finishes)
unfolding step finish_polygon commit_config
finish-Finished ed now pile t =
    let l : length now.drawn ≡ length pile = rw t.drawn (length-from_first pile) in
    elim (Bool-cases (ltb (length now.drawn) 3)) [
      | inl y ↦ inr (ground (arith, l), rw y t.same_sent, rw y t.drawn)
      | inr n ↦
          inl (ground (arith, l), rw n (rw (t.same_zones, t.drawn, t.same_sent) refl), rw n refl)
    ]

-- Where nothing is drawn and no drag has just ended, clicks and undone clicks, finished, send the zones
-- and after them one of exactly the clicks that were not undone, each in its place, if there are
-- three of them or more; with fewer nothing is sent and the drawing stays.
pub strokes-Finished :
    (ed : Editor) (ss : List Stroke)
    → ed.drawn ≡ []
    → leb drag_threshold ed.drag_moved ≡ false
    → Finished ed (piled [] ss) (step (run ed (map stroke_event ss)) finishes)
strokes-Finished ed ss e n = finish-Finished ed (run ed (map stroke_event ss)) (piled [] ss) (
    strokes-Traced ed ed [] ss n
      (record { drawn = e; same_zones = refl; same_sent = refl; still = refl }))
