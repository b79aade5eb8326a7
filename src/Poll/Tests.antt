-- ===== src/Poll/Tests.antt =====
-- The theorems about client/src/lib/useStatus.ts at concrete answers.
use home_camera_system.Prelude.{◌≡◌, refl, true, false, none, some, List, [], ◌∷◌}
use home_camera_system.Poll.{Poll, failed, step}
use home_camera_system.Poll.Readings.{Reading, payload, failure}

-- The second request is in flight, after a payload and one failure.
abbrev flaky : Poll
flaky = record {
  status = some 7;
  cancelled = false;
  in_flight = some 1;
  polling = true;
  failure_streak = 1;
  next_request = 2;
  aborted = 0 ∷ [];
}

abbrev readings : List Reading
readings = failure ∷ payload 7 ∷ []

second_failure_clears : (step flaky (failed 1)).status ≡ none
unfolding step
second_failure_clears = refl
