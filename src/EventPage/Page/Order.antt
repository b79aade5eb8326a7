-- ===== src/EventPage/Page/Order.antt =====
-- Loading older events while new ones arrive, on the events page (client/src/pages/Events.tsx).
use mathlib.Core.Path.{subst}
use home_camera_system.Prelude.{
  ltb, if◌then◌else◌, is_some, length, take, is_empty, All, All-append, All-take, ℕ, zero, suc, ◌+◌,
  ◌≤◌, ◌≡◌, refl, sym, ap, ◌∙◌, true, false, ◌&&◌, Option, none, some, List, [], ◌∷◌, ◌++◌, map,
  arith,
}
use home_camera_system.EventPage.{DetectionEvent, Query, blank, add_filters}
use home_camera_system.EventPage.State.{
  more, Page, load_more_page, load_more_cap, oldest, load_more, add_older,
}
use home_camera_system.EventPage.Page.{
  Event, detects, loads_more, lists, settled, on_lists, answer, react, step, run,
}
use home_camera_system.EventPage.Page.Deleting.{step-react, live, run-detects}

abbrev pub NotAfter : ℕ → List DetectionEvent → Type 0
NotAfter t = All (λ (e : DetectionEvent). e.ts ≤ t)

abbrev pub NotBefore : ℕ → List DetectionEvent → Type 0
NotBefore t = All (λ (e : DetectionEvent). t ≤ e.ts)

-- The newest event stands first.
abbrev pub NewestFirst : List DetectionEvent → Type 0
NewestFirst [] = Unit {0}
NewestFirst (e ∷ es) = NotAfter e.ts es × NewestFirst es

-- Each arriving event is as new as the list that it meets.
abbrev pub Follow : List DetectionEvent → List DetectionEvent → Type 0
Follow [] es = Unit {0}
Follow (d ∷ ds) es = NotAfter d.ts es × Follow ds (take 200 (d ∷ es))

NotAfter-le : {s t : ℕ} (es : List DetectionEvent) → s ≤ t → NotAfter s es → NotAfter t es
NotAfter-le [] h k = tt
NotAfter-le (e ∷ es) h (k, ks) = (omega arith, NotAfter-le es h ks)

NewestFirst-take : (n : ℕ) (es : List DetectionEvent) → NewestFirst es → NewestFirst (take n es)
NewestFirst-take zero es h = tt
NewestFirst-take (suc n) [] h = tt
NewestFirst-take (suc n) (e ∷ es) (h, k) =
    (All-take (λ (x : DetectionEvent). x.ts ≤ e.ts) n es h, NewestFirst-take n es k)

NewestFirst-append :
    (t : ℕ) (xs ys : List DetectionEvent)
    → NewestFirst xs
    → NewestFirst ys
    → NotBefore t xs
    → NotAfter t ys
    → NewestFirst (xs ++ ys)
NewestFirst-append t [] ys h k b a = k
NewestFirst-append t (x ∷ xs) ys (h, hs) k (b, bs) a = (
  All-append (λ (e : DetectionEvent). e.ts ≤ x.ts) xs ys h (NotAfter-le ys b a),
  NewestFirst-append t xs ys hs k bs a,
)

-- No event of a list is older than its last, and `oldest` is a time of its last.
oldest-NotAfter :
    (t : ℕ) (es : List DetectionEvent) → NotAfter t es → NewestFirst es → oldest t es ≤ t
oldest-NotAfter t [] h k = omega arith
oldest-NotAfter t (e ∷ es) (h, hs) (k, ks) = omega (arith, oldest-NotAfter e.ts es k ks)

oldest-NotBefore : (t : ℕ) (es : List DetectionEvent) → NewestFirst es → NotBefore (oldest t es) es
oldest-NotBefore t [] h = tt
oldest-NotBefore t (e ∷ es) (h, hs) = (oldest-NotAfter e.ts es h hs, oldest-NotBefore e.ts es hs)

-- A list that is not empty has an event at or after `t`, so an event as new as it is not before.
not_before :
    (t s : ℕ) (es : List DetectionEvent)
    → is_empty es ≡ false
    → NotBefore t es
    → NotAfter s es
    → t ≤ s
not_before t s [] h b a = cc
not_before t s (e ∷ es) h (b, _) (a, _) = omega arith

record Kept (t : ℕ) (es : List DetectionEvent) : Type 0 where
  sorted : NewestFirst es
  some_event : is_empty es ≡ false
  after : NotBefore t es

live-Kept : (t : ℕ) (ds es : List DetectionEvent) → Follow ds es → Kept t es → Kept t (live ds es)
live-Kept t [] es h v = v
live-Kept t (d ∷ ds) es (h, hs) v = live-Kept t ds (take 200 (d ∷ es)) hs (record {
  sorted = NewestFirst-take 200 (d ∷ es) (h, v.sorted);
  some_event = refl;
  after =
      All-take (λ (e : DetectionEvent). t ≤ e.ts) 200 (d ∷ es)
        (not_before t d.ts es v.some_event v.after h, v.after);
})

-- The request of `load_more`.
abbrev older_query : Page → Query
older_query p =
    add_filters p.filters (record (blank load_more_page) { before_ts = some (oldest 0 p.events) })

abbrev paging : Page → Page
paging p = record p {
  calls = (p.next_call, more (older_query p) (length p.events)) ∷ p.calls;
  next_call = p.next_call + 1;
  loading_more = true;
}

step-loads_more :
    (p : Page)
    → p.deep_link ≡ none
    → p.loading_more ≡ false
    → p.has_more ≡ true
    → is_empty p.events ≡ false
    → step p loads_more ≡ paging p
unfolding react load_more
step-loads_more p h l m n = step-react p loads_more (rw (l, m, n) h) ∙ rw (l, m, n)

pub record Paged (p q : Page) (ds items : List DetectionEvent) (cursor : Option ℕ) : Type 0 where
  pub events : q.events ≡ take load_more_cap (live ds p.events ++ items)
  pub newest_first : NewestFirst q.events
  pub loading_more : q.loading_more ≡ false
  pub has_more : q.has_more ≡ (is_some cursor && ltb (length p.events + length items) load_more_cap)

take_all {ℓ} : {A : Type ℓ} (n : ℕ) (xs : List A) → length xs ≤ n → take n xs ≡ xs
take_all zero [] h = refl
take_all zero (x ∷ xs) h = absurd (omega arith)
take_all (suc n) [] h = refl
take_all (suc n) (x ∷ xs) h = ap (x ∷◌) (take_all n xs (omega arith))

capped :
    (n : ℕ) (xs : List DetectionEvent) → (if ltb n (length xs) then take n xs else xs) ≡ take n xs
capped n xs = ground (arith, take_all n xs)

lists_more-events :
    (p : Page) (ds items : List DetectionEvent) (cursor : Option ℕ)
    → (react
        (record (paging p) { events = live ds p.events })
        (lists p.next_call items cursor)).events
      ≡ take load_more_cap (live ds p.events ++ items)
unfolding react answer settled on_lists add_older
lists_more-events p ds items cursor =
    ground (arith, capped load_more_cap (live ds p.events ++ items))

lists_more :
    (p : Page) (ds items : List DetectionEvent) (cursor : Option ℕ)
    → p.has_more ≡ true
    → NewestFirst (live ds p.events ++ items)
    → Paged p
        (react (record (paging p) { events = live ds p.events }) (lists p.next_call items cursor))
        ds
        items
        cursor
unfolding react answer settled on_lists add_older
lists_more p ds items cursor m s =
    let e = lists_more-events p ds items cursor in
    record {
      events = e;
      newest_first =
          subst NewestFirst (sym e) (NewestFirst-take load_more_cap (live ds p.events ++ items) s);
      loading_more = ground arith;
      has_more = ground arith;
    }

lists-deep_link :
    (p : Page) (es items : List DetectionEvent) (cursor : Option ℕ)
    → p.deep_link ≡ none
    → (react (record (paging p) { events = es }) (lists p.next_call items cursor)).deep_link ≡ none
unfolding react answer settled on_lists add_older
lists-deep_link p es items cursor h = ground arith

-- A click on "Load more", some events that arrive, and the answer.
abbrev pub load_more_run : Page → List DetectionEvent → List DetectionEvent → Option ℕ → List Event
load_more_run p ds items cursor =
    loads_more ∷ (map detects ds ++ lists p.next_call items cursor ∷ [])

run-load_more_run :
    (p : Page) (ds items : List DetectionEvent) (cursor : Option ℕ)
    → p.deep_link ≡ none
    → p.mounted ≡ true
    → p.loading_more ≡ false
    → p.has_more ≡ true
    → is_empty p.events ≡ false
    → run p (load_more_run p ds items cursor)
      ≡ react (record (paging p) { events = live ds p.events }) (lists p.next_call items cursor)
unfolding run
run-load_more_run p ds items cursor h m l a n =
    ap (λ q. run q (map detects ds ++ lists p.next_call items cursor ∷ []))
      (step-loads_more p h l a n)
    ∙ (run-detects (paging p) ds (lists p.next_call items cursor ∷ []) h m
        ∙ step-react (record (paging p) { events = live ds p.events })
            (lists p.next_call items cursor) (lists-deep_link p (live ds p.events) items cursor h))

-- A click on "Load more" is answered after some events have arrived. If the list had the newest
-- event first, each arriving event was as new as the list that it met, and the answer has the
-- newest first and nothing newer than the last event of the list at the click, then the list is
-- again newest first: the live list with the answer behind it, cut to 500. The live list is the old
-- one with each arriving event put before it and all but its newest 200 then dropped: if any event
-- has arrived, old events past the 200th are gone. More is offered exactly if the answer names a
-- next page and the old list with the answer is below 500.
pub run-load_more-Paged :
    (p : Page) (ds items : List DetectionEvent) (cursor : Option ℕ)
    → p.deep_link ≡ none
    → p.mounted ≡ true
    → p.loading_more ≡ false
    → p.has_more ≡ true
    → is_empty p.events ≡ false
    → NewestFirst p.events
    → Follow ds p.events
    → NewestFirst items
    → NotAfter (oldest 0 p.events) items
    → Paged p (run p (load_more_run p ds items cursor)) ds items cursor
run-load_more-Paged p ds items cursor h m l a n s f t u =
    let v =
      live-Kept (oldest 0 p.events) ds p.events f
        (record { sorted = s; some_event = n; after = oldest-NotBefore 0 p.events s }) in
    rw (run-load_more_run p ds items cursor h m l a n) (
      lists_more p ds items cursor a
        (NewestFirst-append (oldest 0 p.events) (live ds p.events) items v.sorted t v.after u))
