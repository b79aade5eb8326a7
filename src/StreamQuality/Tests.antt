-- ===== src/StreamQuality/Tests.antt =====
-- The theorem about the stored quality at a concrete storage, and the tiers of some links.
use home_camera_system.Prelude.{◌≡◌, refl, false, none, some}
use home_camera_system.Prelude.Text.{codes, same_text}
use home_camera_system.StreamQuality.{auto, path_for_quality, Storage, get_stream_quality}

abbrev junk : Storage
junk = record { throws = false; item = some (codes "4k") }

junk_is_auto : get_stream_quality junk ≡ auto
unfolding get_stream_quality same_text
junk_is_auto = refl

thin_link :
    path_for_quality auto
      (some (record { save_data = none; link_type = none; effective_type = some (codes "3g") }))
      (codes "cam")
    ≡ codes "cam_lq"
unfolding path_for_quality same_text
thin_link = refl
