-- ===== src/Health/WatchState.antt =====
-- client/src/lib/watchState.ts: the one name of the armed state.
use home_camera_system.Prelude.{
  if◌then◌else◌, ◌≡◌, ◌↔◌, ◌⊎◌, Bool, true, false, ◌&&◌, not, Option, none, some, arith,
}
use home_camera_system.Health.Status.{ServerStatus}

pub data WatchStateKind : Type 0 where
  offline armed reconnecting off_duty checking : WatchStateKind

-- `none` is null, or not given.
pub record WatchStateInput : Type 0 where
  pub status_known : Bool
  pub is_alive : Option Bool
  pub is_detecting : Option Bool
  pub video_playing : Option Bool

-- `o === true` and `o === false`.
abbrev pub is_true : Option Bool → Bool
is_true (some true) = true
is_true _ = false

abbrev pub is_false : Option Bool → Bool
is_false (some false) = true
is_false _ = false

unfoldable pub watch_state_of : WatchStateInput → WatchStateKind
watch_state_of i =
    if i.status_known && is_false i.is_alive
    then offline
    else if not i.status_known && is_false i.video_playing
    then offline
    else if i.status_known && is_true i.is_detecting && is_true i.is_alive
    then armed
    else if not i.status_known && is_true i.video_playing
    then reconnecting
    else if i.status_known && is_false i.is_detecting
    then off_duty
    else checking

pub data Tone : Type 0 where
  danger success warning tertiary : Tone

-- `watchStateDotClass` and `watchStateTextClass`, by the colour that their class names.
unfoldable pub dot_tone : WatchStateKind → Tone
dot_tone offline = danger
dot_tone armed = success
dot_tone reconnecting = warning
dot_tone off_duty = warning
dot_tone checking = tertiary

unfoldable pub text_tone : WatchStateKind → Tone
text_tone offline = danger
text_tone armed = success
text_tone reconnecting = warning
text_tone off_duty = warning
text_tone checking = tertiary

-- Alarm is shown exactly when a channel confirms it: the status says that the worker is dead, or the
-- status is not known and the video is confirmed dead. Video that plays while the status is not
-- known is never an alarm.
pub watch_state_of_danger :
    (i : WatchStateInput)
    → (dot_tone (watch_state_of i) ≡ danger) ↔ (
        (i.status_known ≡ true × i.is_alive ≡ some false)
        ⊎ (i.status_known ≡ false × i.video_playing ≡ some false))
unfolding watch_state_of dot_tone
watch_state_of_danger i = (λ h. ground arith, λ h. ground arith)

-- The state is `armed` exactly when the status is known, the worker is alive and detection is on,
-- whatever the video does.
pub watch_state_of_armed :
    (i : WatchStateInput)
    → (watch_state_of i ≡ armed)
      ↔ ((i.status_known ≡ true) × (i.is_alive ≡ some true) × (i.is_detecting ≡ some true))
unfolding watch_state_of
watch_state_of_armed i = (λ h. ground arith, λ h. ground arith)

-- What the ribbon of client/src/components/WatchRibbon.tsx asks for: it has no video channel.
unfoldable pub ribbon_state : Option ServerStatus → WatchStateKind
unfolding watch_state_of
ribbon_state none =
    watch_state_of
      (record { status_known = false; is_alive = none; is_detecting = none; video_playing = none })
ribbon_state (some s) = watch_state_of (record {
  status_known = true;
  is_alive = some s.worker_alive;
  is_detecting = some s.detection_active;
  video_playing = none;
})
