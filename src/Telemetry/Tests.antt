-- ===== src/Telemetry/Tests.antt =====
-- The theorem about dwell times at a concrete visit.
use home_camera_system.Prelude.{◌≡◌, refl, true, some, [], ◌∷◌}
use home_camera_system.Telemetry.{Telemetry, navigates, tab_hidden, tab_shown, run}

-- Page 1 since 1 s, after 4 s on page 2.
abbrev reading : Telemetry
reading = record {
  now = 6000;
  pathname = some 1;
  visible = true;
  span = some (1, 5000);
  finished = (2, 4000) ∷ [];
}

-- A page that is entered while the tab is hidden counts the hidden time as well.
hidden_page_counts :
    (run reading
      ((0, tab_hidden) ∷ (0, navigates 3) ∷ (60000, tab_shown) ∷ (1000, navigates 1) ∷ [])).finished
    ≡ (3, 61000) ∷ (1, 1000) ∷ (2, 4000) ∷ []
unfolding run
hidden_page_counts = refl
