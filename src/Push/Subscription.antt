-- ===== src/Push/Subscription.antt =====
-- Enabling and disabling push (ensurePushSubscription and disablePushSubscription of
-- client/src/lib/push.ts): the browser's subscription, by its endpoint, and the server's list.
use home_camera_system.Prelude.{
  if◌then◌else◌, Bool-cases, contains, set_add, set_delete, contains-set_add, contains-set_delete,
  ℕ, ◌+◌, ◌≡◌, refl, ◌⊎◌, inl, inr, Bool, true, false, not, Option, none, some, List, ◌∷◌, arith,
}

-- The steps that a failure is logged under.
pub data EnableStep : Type 0 where
  permission vapid_key subscribing server_persist server_unsubscribe : EnableStep

pub record Registry : Type 0 where
  pub subscription : Option ℕ
  pub server : List ℕ
  pub failures : List EnableStep
  pub alerts : ℕ

-- What the browser and the server answer. `subscribed` is the endpoint of a new subscription.
pub record Enabling : Type 0 where
  pub supported : Bool
  pub granted : Bool
  pub key_served : Bool
  pub subscribed : Option ℕ
  pub persisted : Bool

pub data Outcome : Type 0 where
  returned : Bool → Outcome
  threw : Outcome

abbrev log_failure : EnableStep → Registry → Registry
log_failure s g = record g { failures = s ∷ g.failures }

persist : Bool → ℕ → Registry → Outcome × Registry
persist ok endpoint g =
    if ok
    then (returned true, record g { server = set_add endpoint g.server })
    else (threw, log_failure server_persist g)

subscribe : Enabling → Option ℕ → Registry → Outcome × Registry
unfolding persist
subscribe a none g = (threw, log_failure subscribing g)
subscribe a (some endpoint) g =
    persist a.persisted endpoint (record g { subscription = some endpoint })

-- An existing subscription is not replaced.
enable : Enabling → Option ℕ → Registry → Outcome × Registry
unfolding subscribe persist
enable a (some endpoint) g = persist a.persisted endpoint g
enable a none g =
    if a.key_served then subscribe a a.subscribed g else (threw, log_failure vapid_key g)

unfoldable pub ensure_push_subscription : Enabling → Registry → Outcome × Registry
unfolding enable
ensure_push_subscription a g =
    if not a.supported
    then (returned false, record g { alerts = g.alerts + 1 })
    else if not a.granted
    then (returned false, log_failure permission g)
    else enable a g.subscription g

-- `unsubscribe` resolves to whether there was something to end, or rejects.
pub data Unsubscribing : Type 0 where
  ended kept refused : Unsubscribing

forget : Bool → ℕ → Registry → Registry
forget ok endpoint g =
    if ok
    then record g { server = set_delete endpoint g.server }
    else log_failure server_unsubscribe g

disable : Unsubscribing → Bool → Option ℕ → Registry → Outcome × Registry
unfolding forget
disable u ok none g = (returned true, g)
disable ended ok (some endpoint) g =
    (returned true, forget ok endpoint (record g { subscription = none }))
disable kept ok (some endpoint) g = (returned true, forget ok endpoint g)
disable refused ok (some endpoint) g = (threw, g)

unfoldable pub disable_push_subscription :
    Bool → Unsubscribing → Bool → Registry → Outcome × Registry
unfolding disable
disable_push_subscription supported u ok g =
    if supported then disable u ok g.subscription g else (returned true, g)

abbrev pub Registered : Registry → Type 0
Registered g =
    (endpoint : ℕ) × (g.subscription ≡ some endpoint) × (contains endpoint g.server ≡ true)

abbrev pub Explained : Registry → Outcome × Registry → Type 0
Explained g (returned true, g') = Registered g' × (g'.failures ≡ g.failures)
Explained g (returned false, g') =
    (g'.subscription ≡ g.subscription)
    × (g'.server ≡ g.server)
    × ((g'.alerts ≡ g.alerts + 1) ⊎ (g'.failures ≡ permission ∷ g.failures))
Explained g (threw, g') =
    (g'.server ≡ g.server) × ((s : EnableStep) × (g'.failures ≡ s ∷ g.failures))

contains_added : (x : ℕ) (xs : List ℕ) → contains x (set_add x xs) ≡ true
contains_added x xs = ground (arith, contains-set_add x x xs)

persist-Explained :
    (ok : Bool) (endpoint : ℕ) (g : Registry) (s : Option ℕ)
    → s ≡ some endpoint
    → Explained g (persist ok endpoint (record g { subscription = s }))
unfolding persist
persist-Explained true endpoint g s h = ((endpoint, h, contains_added endpoint g.server), refl)
persist-Explained false endpoint g s h = (refl, (server_persist, refl))

subscribe-Explained : (a : Enabling) (o : Option ℕ) (g : Registry) → Explained g (subscribe a o g)
unfolding subscribe
subscribe-Explained a none g = (refl, (subscribing, refl))
subscribe-Explained a (some endpoint) g =
    persist-Explained a.persisted endpoint g (some endpoint) refl

enable-Explained :
    (a : Enabling) (o : Option ℕ) (g : Registry) → g.subscription ≡ o → Explained g (enable a o g)
unfolding enable
enable-Explained a (some endpoint) g h = persist-Explained a.persisted endpoint g g.subscription h
enable-Explained a none g h = elim (Bool-cases a.key_served) [
  | inl y ↦ rw y (subscribe-Explained a a.subscribed g)
  | inr n ↦ rw n (refl, (vapid_key, refl))
]

-- Enabling push always says what came of it. It returns true only if the browser has a subscription
-- and the server knows it. It returns false with nothing changed, after an alert or with the
-- permission logged, and it throws with the server's list unchanged and exactly one step logged.
pub ensure_push_subscription_explains :
    (a : Enabling) (g : Registry) → Explained g (ensure_push_subscription a g)
unfolding ensure_push_subscription
ensure_push_subscription_explains a g = elim (Bool-cases a.supported) [
  | inl y ↦ elim (Bool-cases a.granted) [
    | inl k ↦ rw (y, k) (enable-Explained a g.subscription g refl)
    | inr n ↦ rw (y, n) (refl, refl, inr refl)
  ]
  | inr n ↦ rw n (refl, refl, inl refl)
]

contains_deleted : (x : ℕ) (xs : List ℕ) → contains x (set_delete x xs) ≡ false
contains_deleted x xs = ground (arith, contains-set_delete x x xs)

disable-forgets :
    (o : Option ℕ) (g : Registry)
    → g.subscription ≡ o
    → let g' = (disable ended true o g).1 in
      (g'.subscription ≡ none)
      × ((endpoint : ℕ) → o ≡ some endpoint → contains endpoint g'.server ≡ false)
unfolding disable forget
disable-forgets none g h = (h, λ e k. ground (arith, k))
disable-forgets (some endpoint) g h =
    (refl, λ e k. ground (arith, k, contains_deleted endpoint g.server))

-- Disabling push leaves neither a subscription in the browser nor its endpoint at the server, if the
-- browser supports push and ends the subscription and the server answers.
pub disable_push_subscription_forgets :
    (g : Registry)
    → let g' = (disable_push_subscription true ended true g).1 in
      (g'.subscription ≡ none)
      × ((endpoint : ℕ) → g.subscription ≡ some endpoint → contains endpoint g'.server ≡ false)
unfolding disable_push_subscription
disable_push_subscription_forgets g = disable-forgets g.subscription g refl
