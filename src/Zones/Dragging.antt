-- ===== src/Zones/Dragging.antt =====
-- A drag of a vertex of a saved zone (client/src/components/ZoneEditor.tsx).
use mathlib.Core.Option.{some-injective}
use home_camera_system.Prelude.{
  ltb, length, get_elem?, set, ℕ, zero, suc, ◌<◌, ◌≡◌, refl, ap, false, ◌||◌, not, Option, none,
  some, List, [], ◌∷◌, map, arith,
}
use home_camera_system.Zones.{
  ZonePoint, Zone, DragHandle, committed, Editor, Place, client_to_normalized, write_at,
  move_vertex, commit_config, dragged, handle_pointer_move, handle_vertex_pointer_down,
  handle_pointer_up,
}
use home_camera_system.Zones.Steps.{
  moves, releases, grabs_vertex, is_drawing, grab_vertex, step, run,
}

-- The zones with one vertex elsewhere.
abbrev pub replaced : ℕ → ℕ → Zone → List Zone → Place → List Zone
replaced zi vi z zs p = set zs zi (set z vi (client_to_normalized p))

-- A request for each of the places, the last first.
abbrev pub requests : ℕ → ℕ → Zone → List Zone → List Place → List (List Zone) → List (List Zone)
requests zi vi z zs [] earlier = earlier
requests zi vi z zs (p ∷ ps) earlier = requests zi vi z zs ps (replaced zi vi z zs p ∷ earlier)

write_at-set : (i : ℕ) (v : ZonePoint) (z : Zone) → i < length z → write_at i v z ≡ set z i v
unfolding write_at
write_at-set i v [] h = absurd (omega arith)
write_at-set zero v (p ∷ ps) h = refl
write_at-set (suc i) v (p ∷ ps) h = ap (λ zs. p ∷ zs) (write_at-set i v ps (omega arith))

move_vertex-set :
    (zi vi : ℕ) (v : ZonePoint) (zs : List Zone) {z : Zone}
    → get_elem? zs zi ≡ some z
    → vi < length z
    → move_vertex zi vi v zs ≡ set zs zi (set z vi v)
unfolding move_vertex
move_vertex-set zi vi v [] e h = absurd (cc e)
move_vertex-set zero vi v (y ∷ zs) {z} e h =
    let same : y ≡ z = some-injective _ _ e in ap (λ ys. ys ∷ zs) (rw same (write_at-set vi v z h))
move_vertex-set (suc zi) vi v (y ∷ zs) e h = ap (λ ys. y ∷ ys) (move_vertex-set zi vi v zs e h)

-- A drag of that vertex is under way.
record Held (zi vi : ℕ) (zs : List Zone) (earlier : List (List Zone)) (now : Editor) : Type 0 where
  drag : now.drag ≡ some (committed zi vi)
  zones : now.zones ≡ zs
  sent : now.sent ≡ earlier
  undrawn : now.drawn ≡ []

dragged-Held :
    (d : Option DragHandle) (zi vi : ℕ) (zs : List Zone) (z : Zone) (earlier : List (List Zone))
    (p : Place) (q : Editor)
    → d ≡ some (committed zi vi)
    → get_elem? zs zi ≡ some z
    → vi < length z
    → Held zi vi zs earlier q
    → Held zi vi zs (replaced zi vi z zs p ∷ earlier) (dragged d (client_to_normalized p) q)
unfolding dragged commit_config
dragged-Held d zi vi zs z earlier p q g e h t = rw g (record {
  drag = t.drag;
  zones = t.zones;
  sent =
      rw (t.zones, t.sent)
        (ap (λ y. y ∷ earlier) (move_vertex-set zi vi (client_to_normalized p) zs e h));
  undrawn = t.undrawn;
})

move-Held :
    (zi vi : ℕ) (zs : List Zone) (z : Zone) (earlier : List (List Zone)) (now : Editor) (p : Place)
    → get_elem? zs zi ≡ some z
    → vi < length z
    → Held zi vi zs earlier now
    → Held zi vi zs (replaced zi vi z zs p ∷ earlier) (step now (moves p))
unfolding step handle_pointer_move
move-Held zi vi zs z earlier now p e h t =
    dragged-Held now.drag zi vi zs z earlier p _ t.drag e h
      (record { drag = t.drag; zones = t.zones; sent = t.sent; undrawn = t.undrawn })

moves-Held :
    (zi vi : ℕ) (zs : List Zone) (z : Zone) (ps : List Place) (earlier : List (List Zone))
    (now : Editor)
    → get_elem? zs zi ≡ some z
    → vi < length z
    → Held zi vi zs earlier now
    → Held zi vi zs (requests zi vi z zs ps earlier) (run now (map moves ps))
unfolding run
moves-Held zi vi zs z [] earlier now e h t = t
moves-Held zi vi zs z (p ∷ ps) earlier now e h t =
    moves-Held zi vi zs z ps (replaced zi vi z zs p ∷ earlier) (step now (moves p)) e h
      (move-Held zi vi zs z earlier now p e h t)

grab_vertex-Held :
    (o : Option ℕ) (zi vi : ℕ) (z : Zone) (ed : Editor)
    → ed.drawn ≡ []
    → o ≡ some zi
    → get_elem? ed.zones zi ≡ some z
    → vi < length z
    → Held zi vi ed.zones ed.sent (grab_vertex vi o ed)
unfolding grab_vertex handle_vertex_pointer_down
grab_vertex-Held o zi vi z ed d s e h =
    let free : (is_drawing ed || not (ltb vi (length z))) ≡ false = ground (arith, d) in
    rw s (rw e (rw free (record { drag = refl; zones = refl; sent = refl; undrawn = d })))

-- Taking hold of a vertex of the selected zone.
grab-Held :
    (zi vi : ℕ) (z : Zone) (ed : Editor)
    → ed.drawn ≡ []
    → ed.selected_zone ≡ some zi
    → get_elem? ed.zones zi ≡ some z
    → vi < length z
    → Held zi vi ed.zones ed.sent (step ed (grabs_vertex vi))
unfolding step
grab-Held zi vi z ed d s e h = grab_vertex-Held ed.selected_zone zi vi z ed d s e h

-- While nothing is drawn, a drag of a vertex of the selected zone sends, for each place that the
-- pointer moves to, all the zones with that one vertex in that place, and ends with the release. What
-- is shown stays as it was, since no answer has come.
pub drag_requests :
    (zi vi : ℕ) (z : Zone) (ps : List Place) (ed : Editor)
    → ed.drawn ≡ []
    → ed.selected_zone ≡ some zi
    → get_elem? ed.zones zi ≡ some z
    → vi < length z
    → let after = step (run (step ed (grabs_vertex vi)) (map moves ps)) releases in
      (after.sent ≡ requests zi vi z ed.zones ps ed.sent)
      × (after.zones ≡ ed.zones)
      × (after.drag ≡ none)
unfolding step handle_pointer_up
drag_requests zi vi z ps ed d s e h =
    let t =
      moves-Held zi vi ed.zones z ps ed.sent (step ed (grabs_vertex vi)) e h
        (grab-Held zi vi z ed d s e h) in
    (t.sent, t.zones, refl)
