-- ===== src/Whep/Candidates.antt =====
-- `summarizeCandidates` of client/src/lib/webrtc.ts, over the code points of the SDP.
use home_camera_system.Prelude.{
  ltb, ◌==◌, if◌then◌else◌, length, ℕ, ◌+◌, ◌≤◌, ◌<◌, ◌≡◌, ◌↔◌, Bool, true, false, Option, none,
  some, List, [], ◌∷◌, arith,
}
use home_camera_system.Prelude.Text.{codes, starts_with, includes}

pub data Typ : Type 0 where
  host srflx relay prflx : Typ

pub record Summary : Type 0 where
  pub total : ℕ
  pub hosts : ℕ
  pub srflxs : ℕ
  pub relays : ℕ
  pub prflxs : ℕ
  pub srflx_present : Bool

abbrev cons_first : ℕ → List (List ℕ) → List (List ℕ)
cons_first c [] = (c ∷ []) ∷ []
cons_first c (l ∷ ls) = (c ∷ l) ∷ ls

-- `sdp.split('\n')`.
pub split_lines : List ℕ → List (List ℕ)
split_lines [] = [] ∷ []
split_lines (c ∷ cs) = let rest = split_lines cs in if c == 10 then [] ∷ rest else cons_first c rest

-- The match of ` typ (host|srflx|relay|prflx)` that begins here.
typ_at : List ℕ → Option Typ
unfolding starts_with
typ_at s =
    if starts_with (codes " typ host") s
    then some host
    else if starts_with (codes " typ srflx") s
    then some srflx
    else if starts_with (codes " typ relay") s
    then some relay
    else if starts_with (codes " typ prflx") s
    then some prflx
    else none

-- The first match in the line.
match_typ : List ℕ → Option Typ
unfolding typ_at
match_typ [] = none
match_typ (c ∷ s) =
    let later = match_typ s in elim (typ_at (c ∷ s)) [ none ↦ later | some t ↦ some t ]

-- `out[typ]++`
abbrev count_typ : Option Typ → Summary → Summary
count_typ none o = o
count_typ (some host) o = record o { hosts = o.hosts + 1 }
count_typ (some srflx) o = record o { srflxs = o.srflxs + 1 }
count_typ (some relay) o = record o { relays = o.relays + 1 }
count_typ (some prflx) o = record o { prflxs = o.prflxs + 1 }

count_line : List ℕ → Summary → Summary
unfolding match_typ includes
count_line line o =
    if includes (codes "a=candidate:") line
    then count_typ (match_typ line) (record o { total = o.total + 1 })
    else o

count_lines : List (List ℕ) → Summary → Summary
unfolding count_line
count_lines [] o = o
count_lines (l ∷ ls) o = count_lines ls (count_line l o)

abbrev pub no_candidates : Summary
no_candidates = record {
  total = 0;
  hosts = 0;
  srflxs = 0;
  relays = 0;
  prflxs = 0;
  srflx_present = false;
}

-- `none` and the empty text are both falsy.
unfoldable pub summarize_candidates : Option (List ℕ) → Summary
unfolding split_lines count_lines
summarize_candidates none = no_candidates
summarize_candidates (some []) = no_candidates
summarize_candidates (some (c ∷ sdp)) =
    let o = count_lines (split_lines (c ∷ sdp)) no_candidates in
    record o { srflx_present = ltb 0 o.srflxs }

pub record Counted (n : ℕ) (o : Summary) : Type 0 where
  pub typed : o.hosts + o.srflxs + o.relays + o.prflxs ≤ o.total
  pub lines : o.total ≤ n

count_line-Counted :
    (n : ℕ) (l : List ℕ) (o : Summary) → Counted n o → Counted (n + 1) (count_line l o)
unfolding count_line
count_line-Counted n l o v = ground arith

count_lines-Counted :
    (n : ℕ) (ls : List (List ℕ)) (o : Summary)
    → Counted n o
    → Counted (n + length ls) (count_lines ls o)
unfolding count_lines
count_lines-Counted n [] o v = ground arith
count_lines-Counted n (l ∷ ls) o v =
    ground (arith, count_lines-Counted (n + 1) ls (count_line l o) (count_line-Counted n l o v))

-- Every line is counted once at most and under one type at most, and `srflxPresent` says that a
-- server-reflexive candidate was counted.
pub summarize_candidates_counts :
    (sdp : List ℕ)
    → let o = summarize_candidates (some sdp) in
      (o.hosts + o.srflxs + o.relays + o.prflxs ≤ o.total)
      × (o.total ≤ length (split_lines sdp))
      × ((o.srflx_present ≡ true) ↔ (0 < o.srflxs))
unfolding summarize_candidates
summarize_candidates_counts [] = ground arith
summarize_candidates_counts (c ∷ sdp) =
    ground (arith, count_lines-Counted 0 (split_lines (c ∷ sdp)) no_candidates (ground arith))
