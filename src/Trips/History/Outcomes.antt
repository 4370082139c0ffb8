-- ===== src/Trips/History/Outcomes.antt =====
-- What the handlers of trips bring about: a trip that begins, the others when it is called off, and
-- what a broker earns.
use mathlib.Core.Option
use transport_backend.Base.{
  ◌≡◌, ◌∙◌, refl, ap, true, Bool-cases, ◌&&◌, ◌==◌, if◌then◌else◌, Option, none, some, List, by_id,
  by_id_key, by_id-save, by_id-update_where, save, find, find_sound, find-by_id, ok, arith, inl,
  inr, Option-cases,
}
use transport_backend.Entities.{Uuid, Time}
use transport_backend.Entities.Trip.{
  CargoListing, taken, CargoRequest, pending, accepted, rejected, TripFare, TripFareValues,
  BrokerPayModel, listing_is_open, request_is_pending,
}
use transport_backend.Fares.{is_started, record_agreed}
use transport_backend.Trips.Store.{
  TripTables, find_active_offer, is_other_trip, owned, save_request,
}
use transport_backend.Trips.Listing.{change_status, with_status}
use transport_backend.Trips.Company.{
  TripMoments, accepted_row, check_decision, plan_accept, accept, is_other_pending, turned_down,
  turn_down_others,
}
use transport_backend.Trips.History.Sound.{Sound, Published}
use transport_backend.Trips.History.Asking.{open_not_started}
use transport_backend.Trips.History.Begins.{begun, start_trip-begun}

-- A request that the company may accept now.
pub record MayAccept (m : TripMoments) (company : Uuid) (t : TripTables) (r : CargoRequest)
    : Type 0 where
  pub found : by_id CargoRequest.id r.id t.requests ≡ some r
  pub owner : r.company_user_id ≡ company
  pub waits : r.status ≡ pending
  pub load : CargoListing
  pub load_found : by_id CargoListing.id r.listing_id t.listings ≡ some load
  pub load_open : listing_is_open load.status ≡ true
  pub not_reserved : find_active_offer m.looked_up_at r.listing_id t ≡ none

no_other_trip :
    (t : TripTables) (l : CargoListing) (r : CargoRequest)
    → Sound t
    → by_id CargoListing.id r.listing_id t.listings ≡ some l
    → listing_is_open l.status ≡ true
    → find (is_other_trip r) t.requests ≡ none
unfolding is_other_trip
no_other_trip t l r i load opn = elim (Option-cases (find (is_other_trip r) t.requests)) [
  | inl e ↦ e
  | inr (x, e) ↦
      let meets = find_sound (is_other_trip r) t.requests e in
      let same : x.listing_id ≡ r.listing_id = ground arith in
      let quiet =
        open_not_started t l x i (ap (λ k. by_id CargoListing.id k t.listings) same ∙ load) opn
          (find-by_id CargoRequest.id (is_other_trip r) t.requests i.distinct e) in
      absurd (ground arith)
]

check_decision-MayAccept :
    (m : TripMoments) (company : Uuid) (t : TripTables) (r : CargoRequest)
    → MayAccept m company t r
    → check_decision m company r.id true t ≡ ok r
unfolding check_decision owned
check_decision-MayAccept m company t r a =
    let owns : (r.company_user_id == company) ≡ true = ground (arith, a.owner) in
    let waits : request_is_pending r.status ≡ true = rw (a.waits) refl in
    rw (a.found, owns, waits, a.load_found, a.load_open, a.not_reserved) refl

accepted_row-Published :
    (m : TripMoments) (pick : Option BrokerPayModel) (t : TripTables) (r : CargoRequest)
    → Published t.listings r
    → Published t.listings (accepted_row m pick t r)
unfolding accepted_row
accepted_row-Published m pick t r p = record {
  listing = p.listing;
  found = p.found;
  publisher = p.publisher;
}

other_of_accepted :
    (m : TripMoments) (pick : Option BrokerPayModel) (t : TripTables) (r : CargoRequest)
    → find (is_other_trip r) t.requests ≡ none
    → find (is_other_trip (accepted_row m pick t r)) t.requests ≡ none
unfolding is_other_trip accepted_row
other_of_accepted m pick t r e = e

-- What becomes of another request: one that waits for the load is rejected then.
abbrev pub passed_over : Time → Uuid → CargoRequest → CargoRequest
passed_over now listing x =
    if (x.listing_id == listing) && request_is_pending x.status
    then record x { status = rejected; decided_at = some now }
    else x

-- A trip that has begun with the row, seen row by row in the tables before and after.
pub record HasBegun (m : TripMoments) (row : CargoRequest) (load : CargoListing)
    (fares : List TripFare) (t t' : TripTables) : Type 0 where
  pub requests :
      (k : Uuid)
      → by_id CargoRequest.id k t'.requests ≡ (
          if row.id == k
          then some row
          else Option.map
              (passed_over m.followed_at row.listing_id)
              (by_id CargoRequest.id k t.requests))
  pub listings :
      (k : Uuid)
      → by_id CargoListing.id k t'.listings ≡ (
          if row.listing_id == k
          then some (record load { status = taken; taken_at = some m.followed_at })
          else by_id CargoListing.id k t.listings)
  pub agreed : t'.fares ≡ fares
  pub credits : t'.brokers ≡ t.brokers

begun_requests :
    (m : TripMoments) (row : CargoRequest) (t : TripTables) (k : Uuid)
    → by_id CargoRequest.id k (begun m row t).requests ≡ (
        if row.id == k
        then some row
        else Option.map
            (passed_over m.followed_at row.listing_id)
            (by_id CargoRequest.id k t.requests))
unfolding turn_down_others change_status save_request turned_down is_other_pending
begun_requests m row t k =
    let down =
      by_id-update_where CargoRequest.id (is_other_pending row.listing_id row.id)
        (turned_down m.followed_at) k (save CargoRequest.id row t.requests) (λ x. refl) in
    let kept = by_id-save CargoRequest.id k row t.requests in
    elim (Bool-cases (row.id == k)) [
      | inl e ↦ ground (arith, down, kept, e)
      | inr e ↦ elim (Option-cases (by_id CargoRequest.id k t.requests)) [
        | inl none_there ↦ ground (arith, down, kept, e, none_there)
        | inr (x, found) ↦
            let key = by_id_key CargoRequest.id k t.requests found in
            ground (arith, down, kept, e, found, key)
      ]
    ]

begun_listings :
    (m : TripMoments) (row : CargoRequest) (load : CargoListing) (t : TripTables) (k : Uuid)
    → by_id CargoListing.id row.listing_id t.listings ≡ some load
    → listing_is_open load.status ≡ true
    → by_id CargoListing.id k (begun m row t).listings ≡ (
        if row.listing_id == k
        then some (record load { status = taken; taken_at = some m.followed_at })
        else by_id CargoListing.id k t.listings)
unfolding turn_down_others change_status save_request with_status
begun_listings m row load t k found opn =
    let moved =
      by_id-update_where CargoListing.id (λ l. (l.id == row.listing_id) && listing_is_open l.status)
        (with_status m.followed_at taken) k t.listings (λ x. refl) in
    elim (Option-cases (by_id CargoListing.id k t.listings)) [
      | inl none_there ↦ ground (arith, moved, none_there, found, opn)
      | inr (x, there) ↦
          let key = by_id_key CargoListing.id k t.listings there in
          ground (arith, moved, there, key, found, opn)
    ]

begun_fares :
    (m : TripMoments) (row : CargoRequest) (t : TripTables) → (begun m row t).fares ≡ t.fares
unfolding turn_down_others change_status save_request
begun_fares m row t = refl

begun_brokers :
    (m : TripMoments) (row : CargoRequest) (t : TripTables) → (begun m row t).brokers ≡ t.brokers
unfolding turn_down_others change_status save_request
begun_brokers m row t = refl

-- On sound tables a company that may accept a request, with a fare that is in order, begins the
-- trip, and the index that guards the trips of a load never refuses it. The request is accepted at
-- that moment, and only how its broker is paid may change besides; its load is taken; every other
-- request that waits for the load is rejected, every other request and load is as it was; the fare
-- is kept and the credits of brokers stay.
pub accept_begins :
    (m : TripMoments) (fare_id company : Uuid) (fare : TripFareValues)
    (pick : Option BrokerPayModel) (t : TripTables) (r : CargoRequest) (fares : List TripFare)
    → Sound t
    → (a : MayAccept m company t r) → record_agreed fare_id r fare company t.fares ≡ ok fares
    → (row : CargoRequest) × ((accept m fare_id company r.id (ok fare) pick t).0 ≡ ok row)
      × (row ≡ record r {
        status = accepted;
        decided_at = some m.decided_at;
        broker_pay_model = row.broker_pay_model;
      })
      × HasBegun m row a.load fares t (accept m fare_id company r.id (ok fare) pick t).1
unfolding accept plan_accept is_started accepted_row
accept_begins m fare_id company fare pick t r fares i a kept =
    let t1 : TripTables = record t { fares = fares } in
    let row = accepted_row m pick t r in
    let runs : accept m fare_id company r.id (ok fare) pick t ≡ (ok row, begun m row t1) =
      rw (check_decision-MayAccept m company t r a, kept, accept, plan_accept)
        (start_trip-begun m row t1 (accepted_row-Published m pick t r (i.published r.id r a.found))
          refl
          (other_of_accepted m pick t r (no_other_trip t a.load r i a.load_found a.load_open))) in
    (
      row,
      ap (λ p. p.0) runs,
      refl,
      record {
        requests =
            λ k. ap (λ p. by_id CargoRequest.id k p.1.requests) runs ∙ begun_requests m row t1 k;
        listings = λ k.
            ap (λ p. by_id CargoListing.id k p.1.listings) runs
            ∙ begun_listings m row a.load t1 k a.load_found a.load_open;
        agreed = ap (λ p. p.1.fares) runs ∙ begun_fares m row t1;
        credits = ap (λ p. p.1.brokers) runs ∙ begun_brokers m row t1;
      },
    )
