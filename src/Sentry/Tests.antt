-- ===== src/Sentry/Tests.antt =====
-- The theorem about the cats on watch at a concrete time.
use home_camera_system.Prelude.{◌*◌, ◌≡◌, refl, some}
use home_camera_system.Sentry.{panther, slot_ms, mulberry32, sentry_cat_at}

first_hash : mulberry32 0 ≡ 3265215041
unfolding mulberry32
first_hash = refl

-- The last cat of a block can be the first of the next one.
panther_stays :
    (sentry_cat_at (2 * slot_ms) ≡ some panther) × (sentry_cat_at (3 * slot_ms) ≡ some panther)
unfolding sentry_cat_at
panther_stays = (refl, refl)
