-- ===== src/Health/Wedge.antt =====
-- client/src/lib/wedgeLadder.ts: the rungs that the watchdog climbs. A level is whole; `none` is null
-- or undefined.
use home_camera_system.Prelude.{
  leb, if◌then◌else◌, length, get_elem?, ℕ, zero, suc, ◌-◌, ◌≤◌, min, ◌≡◌, ◌↔◌, Option, none, some,
  List, [], ◌∷◌, arith,
}

pub data Action : Type 0 where
  restart_mediamtx restart_nvargus reboot : Action

abbrev pub ladder : List Action
ladder = restart_mediamtx ∷ restart_mediamtx ∷ restart_nvargus ∷ restart_nvargus ∷ reboot ∷ []

pub data WatchdogTone : Type 0 where
  well warning down : WatchdogTone

-- `rungName`: no action on the bottom rung, else that of the ladder, its last one for higher levels.
unfoldable pub rung_name : Option ℕ → Option Action
rung_name none = none
rung_name (some level) =
    if leb level 0 then none else get_elem? ladder (min level (length ladder - 1))

unfoldable pub rung_tone : Option ℕ → WatchdogTone
rung_tone none = well
rung_tone (some level) = if leb level 0 then well else if leb level 2 then warning else down

-- `rungDisplay`: the rung's number, and its action.
unfoldable pub rung_display : Option ℕ → Option (ℕ × Option Action)
unfolding rung_name
rung_display none = none
rung_display (some level) =
    if leb level 0
    then none
    else let safe = min level (length ladder - 1) in some (safe, rung_name (some safe))

rung_name-high : (n : ℕ) → rung_name (some (suc (suc (suc (suc n))))) ≡ some reboot
unfolding rung_name
rung_name-high n =
    let top : min (suc (suc (suc (suc n)))) 4 ≡ 4 = omega arith in rw top (ground arith)

rung_display-high :
    (n : ℕ)
    → rung_display (some (suc (suc (suc (suc n)))))
      ≡ some (min (suc (suc (suc (suc n)))) 4, some reboot)
unfolding rung_display
rung_display-high n =
    let top : min (suc (suc (suc (suc n)))) 4 ≡ 4 = omega arith in rw top (ground arith)

-- The tone is `well` exactly on the bottom rung, where no action is named; a reboot is named for the
-- levels from 4 on and for no other; and above the bottom what is displayed names the same action as
-- the level does.
pub rung_name_total :
    (level : ℕ)
    → ((rung_tone (some level) ≡ well) ↔ (level ≡ 0))
      × ((rung_name (some level) ≡ none) ↔ (level ≡ 0))
      × ((rung_name (some level) ≡ some reboot) ↔ (4 ≤ level))
      × (1 ≤ level → rung_display (some level) ≡ some (min level 4, rung_name (some level)))
unfolding rung_display rung_tone
rung_name_total zero = ground arith
rung_name_total (suc zero) = ground arith
rung_name_total (suc (suc zero)) = ground arith
rung_name_total (suc (suc (suc zero))) = ground arith
rung_name_total (suc (suc (suc (suc n)))) = ground (arith, rung_name-high n, rung_display-high n)
