-- ===== src/Timelapse.antt =====
-- The wall clock over a timelapse (client/src/lib/timelapseClock.ts): from a position in the reel to
-- the time at which the footage was captured. Positions and times are whole milliseconds.
mod Tests
use mathlib.Core.Path.{subst}
use home_camera_system.Prelude.{
  ltb, leb, ◌==◌, if◌then◌else◌, Bool-cases, length, get_elem?, is_empty, ℕ, zero, suc, ◌+◌, ◌-◌,
  ◌/◌, ◌≤◌, ◌<◌, ◌≡◌, refl, sym, inl, inr, Bool, false, ◌&&◌, not, Option, none, some, List, arith,
}

pub record TimelapseSegment : Type 0 where
  pub offset_s : ℕ
  pub capture_ts : ℕ

pub record TimelapseManifest : Type 0 where
  pub v : ℕ
  pub segments : List TimelapseSegment

-- `none` is null or undefined.
unfoldable pub is_usable_manifest : Option TimelapseManifest → Bool
is_usable_manifest none = false
is_usable_manifest (some m) = m.v == 1 && not (is_empty m.segments)

-- `segments[i].offset_s`, which is only read inside of the list.
abbrev pub offset_at : List TimelapseSegment → ℕ → ℕ
offset_at segments i = elim (get_elem? segments i) [ none ↦ 0 | some s ↦ s.offset_s ]

-- The loop. `past` is `hi + 1`, so that an empty range is no negative number, and `idx` is `none`
-- for -1. Every round makes the range smaller: as many rounds as there are segments are enough. The
-- code's middle is a 32-bit shift, which is this one for up to 2 ^ 30 segments (a manifest has a day's).
search : ℕ → List TimelapseSegment → ℕ → ℕ → ℕ → Option ℕ → Option ℕ
search zero segments t lo past idx = idx
search (suc fuel) segments t lo past idx =
    let mid = (lo + past - 1) / 2 in
    let right = search fuel segments t (mid + 1) past (some mid) in
    let left = search fuel segments t lo mid idx in
    if not (ltb lo past) then idx else if leb (offset_at segments mid) t then right else left

unfoldable pub find_segment : List TimelapseSegment → ℕ → Option ℕ
unfolding search
find_segment segments t = search (length segments) segments t 0 (length segments) none

-- `none` as a position is negative or not finite.
unfoldable pub reel_time_to_capture_ts : List TimelapseSegment → Option ℕ → Option ℕ
unfolding find_segment
reel_time_to_capture_ts segments none = none
reel_time_to_capture_ts segments (some t) = elim (find_segment segments t) [
  | none ↦ none
  | some i ↦ elim (get_elem? segments i) [
    | none ↦ none
    | some s ↦ some (s.capture_ts + (t - s.offset_s))
  ]
]

-- The last segment that begins at or before a position.
abbrev pub LastBefore : List TimelapseSegment → ℕ → Option ℕ → Type 0
LastBefore segments t none = (j : ℕ) → j < length segments → t < offset_at segments j
LastBefore segments t (some i) =
    (i < length segments)
    × (offset_at segments i ≤ t)
    × ((j : ℕ) → i < j → j < length segments → t < offset_at segments j)

abbrev pub Sorted : List TimelapseSegment → Type 0
Sorted segments =
    (i j : ℕ) → i ≤ j → j < length segments → offset_at segments i ≤ offset_at segments j

abbrev before : ℕ → Option ℕ
before zero = none
before (suc k) = some k

stop_lem :
    (segments : List TimelapseSegment) (t lo past : ℕ)
    → past ≤ lo
    → lo ≤ past
    → past ≤ length segments
    → ((j : ℕ) → j < lo → offset_at segments j ≤ t)
    → ((j : ℕ) → past ≤ j → j < length segments → t < offset_at segments j)
    → LastBefore segments t (before lo)
stop_lem segments t zero past a b c below above = λ j h. above j (omega arith) h
stop_lem segments t (suc k) past a b c below above =
    (omega arith, below k (omega arith), λ j h l. above j (omega arith) l)

-- The middle of a range that is not empty lies in it.
middle_bounds :
    (lo past : ℕ) → lo < past → (lo ≤ (lo + past - 1) / 2) × ((lo + past - 1) / 2 < past)
middle_bounds lo past h = omega arith

search-stop :
    (fuel : ℕ) (segments : List TimelapseSegment) (t lo past : ℕ) (idx : Option ℕ)
    → past ≤ lo
    → search fuel segments t lo past idx ≡ idx
unfolding search
search-stop zero segments t lo past idx h = refl
search-stop (suc fuel) segments t lo past idx h = ground (arith, h)

search-right :
    (fuel : ℕ) (segments : List TimelapseSegment) (t lo past : ℕ) (idx : Option ℕ)
    → lo < past
    → let mid = (lo + past - 1) / 2 in
      offset_at segments mid ≤ t
      → search (suc fuel) segments t lo past idx ≡ search fuel segments t (mid + 1) past (some mid)
unfolding search
search-right fuel segments t lo past idx h k = ground (arith, h, k)

search-left :
    (fuel : ℕ) (segments : List TimelapseSegment) (t lo past : ℕ) (idx : Option ℕ)
    → lo < past
    → let mid = (lo + past - 1) / 2 in
      t < offset_at segments mid
      → search (suc fuel) segments t lo past idx ≡ search fuel segments t lo mid idx
unfolding search
search-left fuel segments t lo past idx h k = ground (arith, h, k)

before_next : (m : ℕ) → before (m + 1) ≡ some m
before_next m = ground arith

search_lem :
    (segments : List TimelapseSegment) (t : ℕ)
    → Sorted segments
    → (fuel lo past : ℕ) → lo ≤ past
    → past ≤ length segments
    → past ≤ fuel + lo
    → ((j : ℕ) → j < lo → offset_at segments j ≤ t)
    → ((j : ℕ) → past ≤ j → j < length segments → t < offset_at segments j)
    → LastBefore segments t (search fuel segments t lo past (before lo))
search_lem segments t sorted zero lo past a b c below above =
    let h : past ≤ lo = omega (arith, c) in
    subst (LastBefore segments t) (sym (search-stop zero segments t lo past (before lo) h))
      (stop_lem segments t lo past h a b below above)
search_lem segments t sorted (suc fuel) lo past a b c below above =
    let mid = (lo + past - 1) / 2 in
    elim (Bool-cases (ltb lo past)) [
      | inr n ↦
          let h : past ≤ lo = ground (arith, n) in
          subst (LastBefore segments t)
            (sym (search-stop (suc fuel) segments t lo past (before lo) h))
            (stop_lem segments t lo past h a b below above)
      | inl y ↦
          let h : lo < past = ground (arith, y) in
          let inside = middle_bounds lo past h in
          elim (Bool-cases (leb (offset_at segments mid) t)) [
            | inl k ↦
                let k' : offset_at segments mid ≤ t = ground (arith, k) in
                subst (LastBefore segments t)
                  (sym (search-right fuel segments t lo past (before lo) h k'))
                  (subst (λ o. LastBefore segments t (search fuel segments t (mid + 1) past o))
                    (before_next mid)
                    (search_lem segments t sorted fuel (mid + 1) past (omega (arith, inside)) b
                      (omega (arith, inside, c))
                      (λ j l.
                        let m = sorted j mid (omega (arith, l)) (omega (arith, inside, b)) in
                        omega (arith, m, k'))
                      above))
            | inr k ↦
                let k' : t < offset_at segments mid = ground (arith, k) in
                subst (LastBefore segments t)
                  (sym (search-left fuel segments t lo past (before lo) h k'))
                  (search_lem segments t sorted fuel lo mid (omega (arith, inside))
                    (omega (arith, inside, b)) (omega (arith, inside, c)) below
                    (λ j l m. let o = sorted mid j l m in omega (arith, o, k')))
          ]
    ]

-- On segments in the order of their offsets, the binary search finds the last one that begins at or
-- before the position, and none exactly if every segment begins later.
pub find_segment_lem :
    (segments : List TimelapseSegment) (t : ℕ)
    → Sorted segments
    → LastBefore segments t (find_segment segments t)
unfolding find_segment
find_segment_lem segments t sorted =
    search_lem segments t sorted (length segments) 0 (length segments) (omega arith) (omega arith)
      (omega arith) (λ j h. absurd (omega (arith, h))) (λ j h l. absurd (omega (arith, h, l)))
