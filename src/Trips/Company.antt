-- ===== src/Trips/Company.antt =====
-- The company answers a request or hands a load to a driver: `decide`, `completeAssignment`,
-- `offer`, `respondOffer` and `expireOffers`.
use transport_backend.Base.{
  ℕ, zero, suc, ◌+◌, Bool, true, false, ◌&&◌, not, Option, none, some, List, [], ◌∷◌, ◌==◌, ltb,
  leb, if◌then◌else◌, is_some, or_else, by_id, update_where, Result, ok, err, ◌>>=◌, ◌>>◌, found_or,
  refuse_if, not_found, conflict,
}
use transport_backend.Entities.{Uuid, Time}
use transport_backend.Entities.Trip.{
  CargoListing, CargoRequest, CargoRequestStatus, offered, accepted, rejected, declined, expired,
  taken, TripFare, TripFareValues, BrokerPayModel, commission, listing_is_open, request_is_pending,
  request_is_offered,
}
use transport_backend.Fares.{record_agreed}
use transport_backend.Trips.Store.{
  TripTables, Outcome, find_by_listing_and_driver, find_active_offer, save_request, save_trip,
  owned, is_company, is_requester,
}
use transport_backend.Trips.Listing.{find_one_for_publisher, set_status}
use transport_backend.Trips.Requests.{row_for, saved_or}

-- The readings of the clock in a handler, in their order.
pub record TripMoments : Type 0 where
  pub looked_up_at : Time
  pub decided_at : Time
  pub followed_at : Time

-- The other requests of the load that wait.
unfoldable pub is_other_pending : Uuid → Uuid → CargoRequest → Bool
is_other_pending listing except r =
    (r.listing_id == listing) && request_is_pending r.status && not (r.id == except)

unfoldable pub turned_down : Time → CargoRequest → CargoRequest
turned_down now r = record r { status = rejected; decided_at = some now }

unfoldable pub turn_down_others : Time → CargoRequest → TripTables → TripTables
turn_down_others now r t = record t {
  requests = update_where (is_other_pending r.listing_id r.id) (turned_down now) t.requests;
}

-- The request is saved as a trip, then `completeAssignment`: the load is taken, and the requests
-- that wait for it are turned down.
unfoldable pub start_trip : TripMoments → CargoRequest → TripTables → Outcome
start_trip m r t = elim (save_trip r t) [
  | err e ↦ (err e, t)
  | ok t1 ↦ elim (set_status m.followed_at r.company_user_id r.listing_id taken t1) [
    | err e ↦ (err e, t1)
    | ok t2 ↦ (ok r, turn_down_others m.followed_at r t2)
  ]
]

-- `lastPayModel`: of the company's requests with a model, the one decided last; a row with no time
-- of decision comes first, as Postgres sorts it.
abbrev pub is_decided_later : Option Time → Option Time → Bool
is_decided_later none b = true
is_decided_later (some a) none = false
is_decided_later (some a) (some b) = leb b a

abbrev pub later_model : CargoRequest → Option CargoRequest → CargoRequest
later_model r none = r
later_model r (some s) = if is_decided_later r.decided_at s.decided_at then r else s

unfoldable pub last_with_model : Uuid → List CargoRequest → Option CargoRequest
last_with_model company [] = none
last_with_model company (r ∷ rs) =
    let rest = last_with_model company rs in
    if (r.company_user_id == company) && is_some r.broker_pay_model
    then some (later_model r rest)
    else rest

abbrev pub model_of : Option CargoRequest → Option BrokerPayModel
model_of none = some commission
model_of (some r) = or_else r.broker_pay_model (some commission)

unfoldable pub last_pay_model : Uuid → TripTables → Option BrokerPayModel
last_pay_model company t = model_of (last_with_model company t.requests)

abbrev pub is_listing_open : Option CargoListing → Bool
is_listing_open none = false
is_listing_open (some l) = listing_is_open l.status

-- The checks of `decide`.
unfoldable pub check_decision : TripMoments → Uuid → Uuid → Bool → TripTables → Result CargoRequest
check_decision m company id accept t = do
  r ← owned id (is_company company) t
  refuse_if (not (request_is_pending r.status)) (conflict "notPending")
  refuse_if (accept && not (is_listing_open (by_id CargoListing.id r.listing_id t.listings)))
      (conflict "taken")
  refuse_if (accept && is_some (find_active_offer m.looked_up_at r.listing_id t))
      (conflict "reserved")
  ok r

-- The request and the fares, as an acceptance writes them; `deal` is the fare as read, or why it is
-- refused, and `pick` the model that the company chose.
unfoldable pub accepted_row :
    TripMoments → Option BrokerPayModel → TripTables → CargoRequest → CargoRequest
accepted_row m pick t r = record r {
  status = accepted;
  decided_at = some m.decided_at;
  broker_pay_model =
      if is_some r.for_driver
      then or_else pick (last_pay_model r.company_user_id t)
      else r.broker_pay_model;
}

unfoldable pub plan_accept :
    TripMoments
    → Uuid
    → Uuid
    → Uuid
    → Result TripFareValues
    → TripTables
    → Result (CargoRequest × List TripFare)
plan_accept m fare_id company id deal t = do
  fare ← deal
  r ← check_decision m company id true t
  fares ← record_agreed fare_id r fare company t.fares
  ok (r, fares)

-- `decide`, with `accept` and without: the fare is written before the request is.
unfoldable pub accept :
    TripMoments
    → Uuid
    → Uuid
    → Uuid
    → Result TripFareValues
    → Option BrokerPayModel
    → TripTables
    → Outcome
accept m fare_id company id deal pick t = elim (plan_accept m fare_id company id deal t) [
  | err e ↦ (err e, t)
  | ok (r, fares) ↦ start_trip m (accepted_row m pick t r) (record t { fares = fares })
]

unfoldable pub plan_reject : TripMoments → Uuid → Uuid → TripTables → Result CargoRequest
plan_reject m company id t = do
  r ← check_decision m company id false t
  ok (record r { status = rejected; decided_at = some m.decided_at })

unfoldable pub reject : TripMoments → Uuid → Uuid → TripTables → Outcome
reject m company id t = saved_or t (plan_reject m company id t)

-- `OFFER_TTL_MINUTES`
abbrev pub offer_ttl : Time
offer_ttl = 1800000

-- `ownOpenListing`
unfoldable pub own_open_listing : Uuid → Uuid → TripTables → Result CargoListing
own_open_listing company id t = do
  listing ← found_or (not_found "Cargo listing not found.") (find_one_for_publisher id company t)
  refuse_if (not (listing_is_open listing.status)) (conflict "taken")
  ok listing

-- The checks of `offer`; `is_driver` is `profiles.isDriver`.
unfoldable pub plan_offer :
    (is_driver : Uuid → Bool)
    → TripMoments
    → (new_id company listing_id user : Uuid) → TripTables
    → Result CargoRequest
plan_offer is_driver m new_id company listing_id user t = do
  listing ← own_open_listing company listing_id t
  refuse_if (user == company) (conflict "own")
  refuse_if (not (is_driver user)) (conflict "notDriver")
  refuse_if (is_some (find_active_offer m.looked_up_at listing.id t)) (conflict "reserved")
  ok (record (row_for new_id user listing (find_by_listing_and_driver listing.id user t)) {
    status = offered;
    decided_at = some m.decided_at;
    offer_expires_at = some (m.decided_at + offer_ttl);
  })

-- The fare of an offer is written after the request.
abbrev pub with_fares : CargoRequest → TripTables → Result (List TripFare) → Outcome
with_fares r t (err e) = (err e, t)
with_fares r t (ok fares) = (ok r, record t { fares = fares })

unfoldable pub agree_offer :
    Uuid → CargoRequest → Uuid → Option TripFareValues → TripTables → Outcome
agree_offer fare_id r company none t = (ok r, t)
agree_offer fare_id r company (some fare) t =
    with_fares r t (record_agreed fare_id r fare company t.fares)

-- `offer`
unfoldable pub offer :
    (is_driver : Uuid → Bool)
    → TripMoments
    → (new_id fare_id company listing_id user : Uuid) → Result (Option TripFareValues)
    → TripTables
    → Outcome
offer is_driver m new_id fare_id company listing_id user deal t = elim deal [
  | err e ↦ (err e, t)
  | ok fare ↦ elim (plan_offer is_driver m new_id company listing_id user t) [
    | err e ↦ (err e, t)
    | ok r ↦ agree_offer fare_id r company fare (save_request r t)
  ]
]

unfoldable pub ended : CargoRequest → CargoRequest
ended r = record r { status = expired; offer_expires_at = none }

abbrev pub is_over : Option Time → Time → Bool
is_over none now = false
is_over (some end) now = ltb end now

unfoldable pub check_response : Uuid → Uuid → TripTables → Result CargoRequest
check_response user id t = do
  r ← owned id (is_requester user) t
  refuse_if (not (request_is_offered r.status)) (conflict "notOffered")
  ok r

unfoldable pub answered : TripMoments → CargoRequestStatus → CargoRequest → CargoRequest
answered m status r = record r {
  status = status;
  decided_at = some m.decided_at;
  offer_expires_at = none;
}

-- `respondOffer`: a late answer ends the offer and is refused.
unfoldable pub respond_offer : TripMoments → Uuid → Uuid → Bool → TripTables → Outcome
respond_offer m user id accept t = elim (check_response user id t) [
  | err e ↦ (err e, t)
  | ok r ↦
      if is_over r.offer_expires_at m.looked_up_at
      then (err (conflict "offerExpired"), save_request (ended r) t)
      else if accept
      then start_trip m (answered m accepted r) t
      else (ok (answered m declined r), save_request (answered m declined r) t)
]

unfoldable pub is_expired_offer : Time → CargoRequest → Bool
is_expired_offer now r = request_is_offered r.status && is_over r.offer_expires_at now

-- `expireOffers`: the first rows found, a hundred at most.
unfoldable pub expire_first : ℕ → Time → List CargoRequest → List CargoRequest
expire_first zero now rs = rs
expire_first (suc n) now [] = []
expire_first (suc n) now (r ∷ rs) = elim (is_expired_offer now r) [
  | true ↦ ended r ∷ expire_first n now rs
  | false ↦ r ∷ expire_first (suc n) now rs
]

unfoldable pub expire_offers : Time → TripTables → TripTables
expire_offers now t = record t { requests = expire_first 100 now t.requests }
