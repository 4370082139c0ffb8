-- ===== src/Trips/Requests.antt =====
-- A driver or broker asks for a load, or takes the request back: `request` and `cancel`.
use transport_backend.Base.{
  Bool, true, false, not, Option, none, some, ◌==◌, if◌then◌else◌, is_some, by_id, Text, Result, ok,
  err, ◌>>=◌, ◌>>◌, found_or, refuse_if, not_found, conflict,
}
use transport_backend.Entities.{Uuid, Time}
use transport_backend.Entities.Trip.{
  CargoListing, CargoRequest, CargoRequestStatus, pending, offered, accepted, cancelled,
  BrokerDriver, listing_is_open, request_is_pending, request_is_rejected, request_is_trip_cancelled,
}
use transport_backend.Brokers.{BrokerTables, BrokerRules, can_see, use_request, refund_request}
use transport_backend.Trips.Store.{
  TripTables, Outcome, find_by_listing_and_driver, find_active_offer, save_request, owned,
  is_requester,
}

-- What the code reads from outside: the driver that a broker names, or what is missing in a
-- driver's profile; the border picked for a load; and whether the row can be written.
pub record Asked : Type 0 where
  pub new_id : Uuid
  pub source : Option Text
  pub for_driver : Result (Option BrokerDriver)
  pub border : CargoListing → Result (Option Text)
  pub saved : Result (Unit {0})

-- A request that still waits or runs.
abbrev pub is_live : CargoRequestStatus → Bool
is_live pending = true
is_live offered = true
is_live accepted = true
is_live _ = false

abbrev pub status_is : (CargoRequestStatus → Bool) → Option CargoRequest → Bool
status_is test none = false
status_is test (some r) = test r.status

-- The row of the driver for this load: the one that is there, or a new one.
abbrev pub row_for : Uuid → Uuid → CargoListing → Option CargoRequest → CargoRequest
row_for new_id user listing (some r) = r
row_for new_id user listing none = record {
  id = new_id;
  listing_id = listing.id;
  driver_user_id = user;
  company_user_id = listing.publisher_user_id;
  status = pending;
  decided_at = none;
  offer_expires_at = none;
  delivered_at = none;
  delivery_reported_at = none;
  delivery_reminded_at = none;
  source = none;
  for_driver = none;
  exit_border = none;
  broker_pay_model = none;
  broker_commission = none;
  broker_commission_percent = none;
  broker_margin = none;
}

unfoldable pub asking :
    Option Text → Option BrokerDriver → Option Text → CargoRequest → CargoRequest
asking source for_driver border r = record r {
  status = pending;
  decided_at = none;
  source = source;
  for_driver = for_driver;
  exit_border = border;
}

-- The checks of `request`: the row to save, and the packages after one request was taken off.
unfoldable pub plan_request :
    BrokerRules
    → Time
    → Uuid
    → Uuid
    → Asked
    → TripTables
    → Result (CargoRequest × Bool × BrokerTables)
plan_request rules now user listing_id asked t = do
  for_driver ← asked.for_driver
  listing ←
      found_or (not_found "Cargo listing not found.") (by_id CargoListing.id listing_id t.listings)
  refuse_if (not (listing_is_open listing.status)) (conflict "taken")
  refuse_if (listing.publisher_user_id == user) (conflict "own")
  refuse_if (not (can_see rules now user listing.publisher_user_id t.brokers))
      (conflict "notPurchased")
  border ← asked.border listing
  let earlier = find_by_listing_and_driver listing_id user t
  refuse_if (status_is is_live earlier) (conflict "already")
  refuse_if (is_some (find_active_offer now listing_id t)) (conflict "reserved")
  refuse_if (status_is request_is_rejected earlier) (conflict "rejected")
  refuse_if (status_is request_is_trip_cancelled earlier) (conflict "tripCancelled")
  charge ← use_request rules user t.brokers
  ok (
    asking asked.source for_driver border (row_for asked.new_id user listing earlier),
    charge.0,
    charge.1,
  )

-- `request`: a request that is not saved is given back.
unfoldable pub request : BrokerRules → Time → Uuid → Uuid → Asked → TripTables → Outcome
request rules now user listing_id asked t = elim (plan_request rules now user listing_id asked t) [
  | err e ↦ (err e, t)
  | ok (row, charged, brokers) ↦ elim (asked.saved) [
    | ok done ↦ (ok row, save_request row (record t { brokers = brokers }))
    | err e ↦
        (err e, record t { brokers = if charged then refund_request user brokers else brokers })
  ]
]

-- `cancel`
unfoldable pub plan_cancel : Uuid → Uuid → TripTables → Result CargoRequest
plan_cancel user id t = do
  r ← owned id (is_requester user) t
  refuse_if (not (request_is_pending r.status)) (conflict "notPending")
  ok (record r { status = cancelled })

-- The end of a handler that saves one row.
abbrev pub saved_or : TripTables → Result CargoRequest → Outcome
saved_or t (err e) = (err e, t)
saved_or t (ok r) = (ok r, save_request r t)

unfoldable pub cancel : Uuid → Uuid → TripTables → Outcome
cancel user id t = saved_or t (plan_cancel user id t)
