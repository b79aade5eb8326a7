-- ===== src/EventPage/DayWindow.antt =====
-- The hours of a day that client/src/pages/Events.tsx asks for (`_narrowDayWindow`). Times are in
-- seconds; a text is the list of its code points.
use home_camera_system.Prelude.{
  ltb, leb, ◌==◌, if◌then◌else◌, ℕ, ◌+◌, ◌-◌, ◌*◌, ◌/◌, ◌%◌, ◌≤◌, ◌<◌, max, ◌≡◌, Bool, true, false,
  ◌&&◌, ◌||◌, Option, none, some, List, [], ◌∷◌, arith,
}

pub record Window : Type 0 where
  pub since : ℕ
  pub until : ℕ

abbrev is_digit : ℕ → Bool
is_digit c = leb b'0' c && leb c b'9'

-- `hhmmRe.test(text)`
is_hhmm : List ℕ → Bool
is_hhmm (a ∷ b ∷ c ∷ d ∷ e ∷ []) =
    (((a == b'0' || a == b'1') && is_digit b) || (a == b'2' && (leb b'0' b && leb b b'3')))
    && (c == b':' && ((leb b'0' d && leb d b'5') && is_digit e))
is_hhmm _ = false

-- `h * 3600 + m * 60` of a text that passed the test.
seconds_of : List ℕ → ℕ
seconds_of (a ∷ b ∷ c ∷ d ∷ e ∷ []) =
    ((a - b'0') * 10 + (b - b'0')) * 3600 + ((d - b'0') * 10 + (e - b'0')) * 60
seconds_of _ = 0

bound : ℕ → ℕ → Option (List ℕ) → ℕ
bound midnight otherwise none = otherwise
bound midnight otherwise (some text) =
    if is_hhmm text then midnight + seconds_of text else otherwise

unfoldable pub narrow_day_window : ℕ → ℕ → Option (List ℕ) → Option (List ℕ) → Window
unfolding bound is_hhmm seconds_of
narrow_day_window since_ts until_ts start_hhmm end_hhmm =
    let since = bound since_ts since_ts start_hhmm in
    let until = bound since_ts until_ts end_hhmm in
    record { since = since; until = if ltb until since then since else until }

seconds_of_bounds : (t : List ℕ) → is_hhmm t ≡ true → seconds_of t < 86_400
unfolding is_hhmm seconds_of
seconds_of_bounds (a ∷ b ∷ c ∷ d ∷ e ∷ []) h = ground arith
seconds_of_bounds [] h = cc
seconds_of_bounds (a ∷ []) h = cc
seconds_of_bounds (a ∷ b ∷ []) h = cc
seconds_of_bounds (a ∷ b ∷ c ∷ []) h = cc
seconds_of_bounds (a ∷ b ∷ c ∷ d ∷ []) h = cc
seconds_of_bounds (a ∷ b ∷ c ∷ d ∷ e ∷ f ∷ r) h = cc

bound_bounds :
    (midnight otherwise until : ℕ) (t : Option (List ℕ))
    → midnight + 86_400 ≤ until
    → midnight ≤ otherwise
    → otherwise ≤ until
    → (midnight ≤ bound midnight otherwise t) × (bound midnight otherwise t ≤ until)
unfolding bound
bound_bounds m o u none h k l = omega arith
bound_bounds m o u (some t) h k l = ground (arith, seconds_of_bounds t)

-- Whatever is typed in the two fields, the window that is asked for is not inverted and lies
-- within the day, if the day has at least 24 hours.
pub narrow_day_window_bounds :
    (since until : ℕ) (a b : Option (List ℕ))
    → since + 86_400 ≤ until
    → (since ≤ (narrow_day_window since until a b).since)
      × ((narrow_day_window since until a b).since ≤ (narrow_day_window since until a b).until)
      × ((narrow_day_window since until a b).until ≤ until)
unfolding narrow_day_window
narrow_day_window_bounds since until a b h = ground (
  arith,
  bound_bounds since since until a h (omega arith) (omega arith),
  bound_bounds since until until b h (omega arith) (omega arith),
)

-- What a time field holds at `h`:`m`.
abbrev pub hhmm : ℕ → ℕ → List ℕ
hhmm h m = (b'0' + h / 10) ∷ (b'0' + h % 10) ∷ b':' ∷ (b'0' + m / 10) ∷ (b'0' + m % 10) ∷ []

abbrev pub clock : ℕ → ℕ → ℕ
clock h m = h * 3600 + m * 60

bound-hhmm :
    (midnight otherwise h m : ℕ)
    → h < 24
    → m < 60
    → bound midnight otherwise (some (hhmm h m)) ≡ midnight + clock h m
unfolding bound is_hhmm seconds_of
bound-hhmm midnight o h m p q = ground arith

narrow-hhmm :
    (since until h m h' m' : ℕ)
    → h < 24
    → m < 60
    → h' < 24
    → m' < 60
    → narrow_day_window since until (some (hhmm h m)) (some (hhmm h' m'))
      ≡ record { since = since + clock h m; until = since + max (clock h m) (clock h' m') }
unfolding narrow_day_window
narrow-hhmm since until h m h' m' a b c d =
    rw (bound-hhmm since since h m a b, bound-hhmm since until h' m' c d) (ground arith)

-- `wall` is the time of day, in seconds, that local clocks show at an instant. On the day that begins
-- at `since` they are not changed: so many seconds after it, they show that many.
-- On another day the code still adds those seconds to midnight.
abbrev pub Unchanged : (ℕ → ℕ) → ℕ → Type 0
Unchanged wall since = (s : ℕ) → s < 86_400 → wall (since + s) ≡ s

-- On a day without a change of the clocks, the window for the times in the two fields begins when
-- local clocks show the first of them, and ends when they show the second, or at once if the second
-- is not later.
pub narrow_day_window-hhmm :
    (wall : ℕ → ℕ) (since until h m h' m' : ℕ)
    → Unchanged wall since
    → h < 24
    → m < 60
    → h' < 24
    → m' < 60
    → let w = narrow_day_window since until (some (hhmm h m)) (some (hhmm h' m')) in
      (wall w.since ≡ clock h m)
      × (wall w.until ≡ max (clock h m) (clock h' m'))
      × (w.since ≤ w.until)
narrow_day_window-hhmm wall since until h m h' m' u a b c d =
    rw (narrow-hhmm since until h m h' m' a b c d)
      (u (clock h m) (omega arith), u (max (clock h m) (clock h' m')) (omega arith), omega arith)
