-- ===== src/Trips/History/Runs.antt =====
-- Histories of trips: any sequence of calls, in any order.
use transport_backend.Base.{◌≡◌, ◌∙◌, refl, sym, ap, true, false, Option, none, some, by_id, arith}
use mathlib.Core.Path.{subst}
use transport_backend.Entities.{Uuid}
use transport_backend.Entities.Trip.{
  CargoListing, CargoRequest, CargoRequestStatus, delivered, listing_is_open,
}
use transport_backend.Fares.{is_started}
use transport_backend.Trips.Store.{TripTables}
use transport_backend.Trips.History.Moves.{follows, Succeeds, Becomes}
use transport_backend.Trips.History.Sound.{Sound, IsNew, is_first, Keeps}
use transport_backend.Trips.History.Steps.{Step, step-Keeps}

-- Any number of calls, one after another.
pub data Runs : TripTables → TripTables → Type 0 where
  done : {t : TripTables} → Runs t t
  and_then : {t mid end : TripTables} → Step t mid → Runs mid end → Runs t end

-- Along every history from tables that are sound, every request is for a load of its company, the
-- load of a trip that is under way or delivered is not open, and no load has two such trips.
pub Runs-Sound : (t t' : TripTables) → Sound t → Runs t t' → Sound t'
Runs-Sound t _ i done = i
Runs-Sound t t' i (and_then {mid} step rest) =
    Runs-Sound mid t' ((step-Keeps t mid i step).sound) rest

-- The abstract life of one request: what the company, the driver and the load of it are, and its
-- state; nothing, before it is made.
pub record Life : Type 0 where
  pub listing : Uuid
  pub company : Uuid
  pub driver : Uuid
  pub state : CargoRequestStatus

abbrev pub life : Option CargoRequest → Option Life
life none = none
life (some r) = some (record {
  listing = r.listing_id;
  company = r.company_user_id;
  driver = r.driver_user_id;
  state = r.status;
})

-- A step of the abstract life: a request is made, waiting or offered, or its state moves as
-- `follows` says, and nothing else of it changes; a request never goes away.
pub data LifeStep : Option Life → Option Life → Type 0 where
  absent : LifeStep none none
  made : (a : Life) → is_first a.state ≡ true → LifeStep none (some a)
  moves :
      (a : Life) (s : CargoRequestStatus)
      → follows a.state s ≡ true
      → LifeStep (some a) (some (record a { state = s }))

Becomes-life :
    (N : CargoRequest → Type 0) (o o' : Option CargoRequest)
    → ((r : CargoRequest) → N r → is_first r.status ≡ true)
    → Becomes Succeeds N o o'
    → LifeStep (life o) (life o')
Becomes-life N none none first h = absent
Becomes-life N none (some b) first h = made _ (first b h)
Becomes-life N (some a) none first h = absurd h
Becomes-life N (some a) (some b) first h =
    let la : Life = record {
      listing = a.listing_id;
      company = a.company_user_id;
      driver = a.driver_user_id;
      state = a.status;
    } in
    rw (h.same_listing, h.same_company, h.same_driver) (moves la b.status h.moved)

-- On sound tables each call does to each request one step of its abstract life, whatever the call
-- is about.
pub step_refines_life :
    (t t' : TripTables) (k : Uuid)
    → Sound t
    → Step t t'
    → LifeStep
        (life (by_id CargoRequest.id k t.requests))
        (life (by_id CargoRequest.id k t'.requests))
step_refines_life t t' k i step =
    Becomes-life (IsNew t.listings) (by_id CargoRequest.id k t.requests)
      (by_id CargoRequest.id k t'.requests) (λ r n. n.first) ((step-Keeps t t' i step).moves k)

after_delivered : (s : CargoRequestStatus) → follows delivered s ≡ true → s ≡ delivered
unfolding follows
after_delivered delivered h = refl
after_delivered _ h = absurd (ground arith)

-- A delivered request, as it stands in the tables.
pub record IsDelivered (k listing : Uuid) (t : TripTables) : Type 0 where
  pub row : CargoRequest
  pub found : by_id CargoRequest.id k t.requests ≡ some row
  pub of_listing : row.listing_id ≡ listing
  pub is_delivered : row.status ≡ delivered

Becomes-delivered :
    (N : CargoRequest → Type 0) (a : CargoRequest) (o : Option CargoRequest)
    → Becomes Succeeds N (some a) o
    → a.status ≡ delivered
    → (b : CargoRequest) × (o ≡ some b) × (b.listing_id ≡ a.listing_id) × (b.status ≡ delivered)
Becomes-delivered N a none h d = absurd h
Becomes-delivered N a (some b) h d = (
  b,
  refl,
  h.same_listing,
  after_delivered b.status (subst (λ s. follows s b.status ≡ true) d h.moved),
)

step-IsDelivered :
    (k listing : Uuid) (t t' : TripTables)
    → Keeps t t'
    → IsDelivered k listing t
    → IsDelivered k listing t'
step-IsDelivered k listing t t' keeps d =
    let (b, found, same, state) =
      Becomes-delivered (IsNew t.listings) d.row (by_id CargoRequest.id k t'.requests)
        (subst (λ o. Becomes Succeeds (IsNew t.listings) o (by_id CargoRequest.id k t'.requests))
          d.found (keeps.moves k))
        d.is_delivered in
    record { row = b; found = found; of_listing = same ∙ d.of_listing; is_delivered = state }

Runs-IsDelivered :
    (k listing : Uuid) (t t' : TripTables)
    → Sound t
    → Runs t t'
    → IsDelivered k listing t
    → IsDelivered k listing t'
Runs-IsDelivered k listing t _ i done d = d
Runs-IsDelivered k listing t t' i (and_then {mid} step rest) d =
    let keeps = step-Keeps t mid i step in
    Runs-IsDelivered k listing mid t' keeps.sound rest (step-IsDelivered k listing t mid keeps d)

-- From sound tables, once a load is delivered, no history opens it again or makes it another trip:
-- its request stays delivered, the load is not open, and any request of it that is under way or
-- delivered is that request.
pub closed_for_good :
    (k listing : Uuid) (t t' : TripTables)
    → Sound t
    → Runs t t'
    → IsDelivered k listing t
    → IsDelivered k listing t'
      × ((l : CargoListing)
          → by_id CargoListing.id listing t'.listings ≡ some l
          → listing_is_open l.status ≡ false)
      × ((j : Uuid) (r : CargoRequest)
          → by_id CargoRequest.id j t'.requests ≡ some r
          → r.listing_id ≡ listing
          → is_started r.status ≡ true
          → j ≡ k)
unfolding is_started
closed_for_good k listing t t' i runs d =
    let e = Runs-IsDelivered k listing t t' i runs d in
    let s = Runs-Sound t t' i runs in
    let started : is_started e.row.status ≡ true = rw e.is_delivered refl in
    (
      e,
      λ l found.
          let h = s.held k e.row e.found started in
          let at : by_id CargoListing.id listing t'.listings ≡ some h.listing =
            ap (λ j. by_id CargoListing.id j t'.listings) (sym e.of_listing) ∙ h.found in
          let same : h.listing ≡ l = ground (arith, at, found) in
          subst (λ (x : CargoListing). listing_is_open x.status ≡ false) same h.closed,
      λ j r found same go.
          s.one_trip j k r e.row found e.found go started (same ∙ sym e.of_listing),
    )
