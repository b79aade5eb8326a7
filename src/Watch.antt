-- ===== src/Watch.antt =====
-- The live video of the home page, docked or full screen (client/src/pages/Watch.tsx): the controls
-- that hide by themselves, and the entry of the browser's history that going full screen adds. A
-- timeout is a number; those that are armed stand in `timeouts`. A handler reads the state of the last
-- render, and every step is followed by one.
pub mod Gestures
pub mod Steps
pub mod Chrome
pub mod Aiming
pub mod Dismissal
mod Tests
use home_camera_system.Prelude.{
  if◌then◌else◌, contains, set_delete, ℕ, ◌+◌, Bool, true, false, Option, none, some, List, [], ◌∷◌,
}
use home_camera_system.Prelude.Int.{ℤ}
use home_camera_system.Zoom.{ZoomState, zoom_identity}

pub data Mode : Type 0 where
  tapping swiping panning pinching dead : Mode

pub record GestureRef : Type 0 where
  pub mode : Mode
  -- where it began, and where the finger was last
  pub x0 : ℤ
  pub y0 : ℤ
  pub last_x : ℤ
  pub last_y : ℤ
  pub dy : ℕ
  pub pinch_dist : ℕ
  pub on_button : Bool

pub record View : Type 0 where
  pub mounted : Bool
  pub full : Bool
  pub chrome_visible : Bool
  pub chrome_timer : Option ℕ
  pub timeouts : List ℕ
  pub next_timeout : ℕ
  -- the ref of the zoom, and so the transform of the layer
  pub zoom : ZoomState
  pub gesture : Option GestureRef
  -- `translateY` of the viewport
  pub swipe_offset : ℕ
  -- the browser's history up to where it is, the top first: whether each entry has `homecamFull`
  pub entries : List Bool
  -- the entries that going forward leads to, the nearest first
  pub ahead : List Bool
  -- calls of `history.back()` that the browser has still to carry out
  pub backs : ℕ
  -- `document.fullscreenElement`, and requests for it that are not answered
  pub fullscreen_element : Bool
  pub fullscreen_requests : ℕ

-- The page has just been opened or loaded anew, anywhere in the history: after a reload in full
-- screen the entry that it is on has the marker.
unfoldable pub mount : List Bool → List Bool → View
mount entries ahead = record {
  mounted = true;
  full = false;
  chrome_visible = true;
  chrome_timer = none;
  timeouts = [];
  next_timeout = 0;
  zoom = zoom_identity;
  gesture = none;
  swipe_offset = 0;
  entries = entries;
  ahead = ahead;
  backs = 0;
  fullscreen_element = false;
  fullscreen_requests = 0;
}

-- `clearTimeout`, if the ref holds one.
abbrev pub cleared : Option ℕ → List ℕ → List ℕ
cleared none ts = ts
cleared (some n) ts = set_delete n ts

unfoldable pub poke_chrome : View → View
poke_chrome v = record v {
  chrome_visible = true;
  chrome_timer = some v.next_timeout;
  timeouts = v.next_timeout ∷ cleared v.chrome_timer v.timeouts;
  next_timeout = v.next_timeout + 1;
}

unfoldable pub cancel_chrome_timer : View → View
cancel_chrome_timer v = record v {
  chrome_timer = none;
  timeouts = cleared v.chrome_timer v.timeouts;
}

-- The callback of a timeout.
unfoldable pub hide_chrome : ℕ → View → View
hide_chrome n v =
    if contains n v.timeouts
    then record v {
      chrome_timer = none;
      timeouts = set_delete n v.timeouts;
      chrome_visible = false;
    }
    else v

unfoldable pub toggle_chrome : View → View
unfolding cancel_chrome_timer poke_chrome
toggle_chrome v =
    if v.chrome_visible
    then record (cancel_chrome_timer v) { chrome_visible = false }
    else poke_chrome v

unfoldable pub reset_zoom : View → View
reset_zoom v = record v { zoom = zoom_identity }

unfoldable pub clear_swipe_transform : View → View
clear_swipe_transform v = record v { swipe_offset = 0 }

unfoldable pub enter_full : View → View
unfolding poke_chrome
enter_full v = poke_chrome (record v {
  entries = true ∷ v.entries;
  ahead = [];
  full = true;
  fullscreen_requests = v.fullscreen_requests + 1;
})

-- The cleanup of the effects of `full`.
unfoldable pub leave_full : View → View
unfolding cancel_chrome_timer
leave_full v = cancel_chrome_timer (record v { full = false; fullscreen_element = false })

-- `window.history.state?.homecamFull`
abbrev pub is_marked : List Bool → Bool
is_marked [] = false
is_marked (b ∷ bs) = b

unfoldable pub exit_full : View → View
unfolding leave_full
exit_full v = if is_marked v.entries then record v { backs = v.backs + 1 } else leave_full v

-- The listener of `popstate`, which is there while `full`.
unfoldable pub on_pop : View → View
unfolding leave_full reset_zoom cancel_chrome_timer
on_pop v =
    if v.full
    then leave_full (reset_zoom (record (cancel_chrome_timer v) { chrome_visible = true }))
    else v

-- The page is left; the cleanups run.
unfoldable pub unmount : View → View
unfolding leave_full
unmount v = record (leave_full v) { mounted = false }

gone_back : List Bool → View → View
unfolding on_pop unmount
gone_back [] v = unmount v
gone_back (true ∷ below) v = on_pop (record v { entries = below; ahead = true ∷ v.ahead })
gone_back (false ∷ below) v = unmount (record v { entries = below; ahead = false ∷ v.ahead })

-- The browser goes back by one entry: under a marker lies the page itself.
unfoldable pub go_back : View → View
unfolding gone_back
go_back v = gone_back v.entries v

gone_forward : List Bool → View → View
unfolding on_pop unmount
gone_forward [] v = v
gone_forward (true ∷ rest) v = on_pop (record v { entries = true ∷ v.entries; ahead = rest })
gone_forward (false ∷ rest) v = unmount (record v { entries = false ∷ v.entries; ahead = rest })

-- It goes forward by one: a marker ahead was put there by the page itself, and another entry is
-- another page.
unfoldable pub go_forward : View → View
unfolding gone_forward
go_forward v = gone_forward v.ahead v
