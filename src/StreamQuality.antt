-- ===== src/StreamQuality.antt =====
-- The choice of the stream (client/src/lib/streamQuality.ts): the tier for a link, the path and the
-- URL of a tier, and the choice that is kept in the browser.
mod Tests
use home_camera_system.Prelude.{
  if◌then◌else◌, ℕ, ◌≡◌, Bool, true, false, ◌||◌, Option, none, some, List, [], ◌++◌, arith,
}
use home_camera_system.Prelude.Text.{codes, same_text}

pub data StreamQuality : Type 0 where
  auto hq sd xs : StreamQuality

pub data ResolvedQuality : Type 0 where
  high standard low : ResolvedQuality

-- `none` is a field that the browser does not have.
pub record ConnectionLike : Type 0 where
  pub save_data : Option Bool
  pub link_type : Option (List ℕ)
  pub effective_type : Option (List ℕ)

abbrev pub is_text : Option (List ℕ) → List ℕ → Bool
is_text none s = false
is_text (some t) s = same_text t s

abbrev saves : Option Bool → Bool
saves (some true) = true
saves _ = false

unfoldable pub resolve_auto_quality : Option ConnectionLike → ResolvedQuality
resolve_auto_quality none = high
resolve_auto_quality (some c) =
    if saves c.save_data
    then low
    else if is_text c.link_type (codes "cellular")
        || is_text c.effective_type (codes "slow-2g")
        || is_text c.effective_type (codes "2g")
    then low
    else if is_text c.effective_type (codes "3g")
    then standard
    else high

abbrev suffix : ResolvedQuality → List ℕ
suffix high = []
suffix standard = codes "_lq"
suffix low = codes "_uq"

abbrev resolved : StreamQuality → Option ConnectionLike → ResolvedQuality
resolved auto c = resolve_auto_quality c
resolved hq c = high
resolved sd c = standard
resolved xs c = low

unfoldable pub path_for_quality : StreamQuality → Option ConnectionLike → List ℕ → List ℕ
unfolding resolve_auto_quality
path_for_quality q c base_path = base_path ++ suffix (resolved q c)

-- `origin` is `window.location.origin`.
unfoldable pub whep_url_for_path : List ℕ → List ℕ → List ℕ
whep_url_for_path origin path = origin ++ codes "/whep/" ++ path ++ codes "/whep"

-- What `localStorage` holds for the key. A storage that is disabled throws on every call.
pub record Storage : Type 0 where
  pub throws : Bool
  pub item : Option (List ℕ)

abbrev pub name_of : StreamQuality → List ℕ
name_of auto = codes "auto"
name_of hq = codes "hq"
name_of sd = codes "sd"
name_of xs = codes "xs"

abbrev parse : List ℕ → StreamQuality
parse s =
    if same_text s (codes "hq")
    then hq
    else if same_text s (codes "sd")
    then sd
    else if same_text s (codes "xs")
    then xs
    else auto

unfoldable pub get_stream_quality : Storage → StreamQuality
get_stream_quality s =
    if s.throws then auto else elim s.item [ none ↦ auto | some text ↦ parse text ]

unfoldable pub set_stream_quality : StreamQuality → Storage → Storage
set_stream_quality q s = if s.throws then s else record s { item = some (name_of q) }

-- A choice that was made is read back, unless the browser keeps nothing: then it is `auto`, before
-- and after.
pub get_stream_quality-set :
    (q : StreamQuality) (s : Storage)
    → (s.throws ≡ false → get_stream_quality (set_stream_quality q s) ≡ q)
      × (s.throws ≡ true → get_stream_quality (set_stream_quality q s) ≡ auto)
unfolding get_stream_quality set_stream_quality same_text
get_stream_quality-set auto s = ground arith
get_stream_quality-set hq s = ground arith
get_stream_quality-set sd s = ground arith
get_stream_quality-set xs s = ground arith
