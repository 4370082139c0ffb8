-- ===== src/Trips/Store.antt =====
-- CargoRequestRepository (src/infrastructure/repositories/notification/cargoRequest.repository.ts):
-- the queries and writes that trips use.
use transport_backend.Base.{
  Bool, false, ◌&&◌, not, Option, none, some, List, ◌==◌, leb, if◌then◌else◌, is_some, find, by_id,
  save, Result, ok, err, conflict, not_found, found_or, refuse_if, ◌>>=◌, ◌>>◌,
}
use transport_backend.Entities.{Uuid, Time}
use transport_backend.Entities.Trip.{CargoListing, CargoRequest, TripFare, request_is_offered}
use transport_backend.Brokers.{BrokerTables}
use transport_backend.Fares.{is_started}

pub record TripTables : Type 0 where
  pub listings : List CargoListing
  pub requests : List CargoRequest
  pub fares : List TripFare
  pub brokers : BrokerTables

-- What a handler answers, and the tables after it. An exception keeps what was written before it.
abbrev pub Outcome : Type 0
Outcome = Result CargoRequest × TripTables

unfoldable pub is_of_driver : Uuid → Uuid → CargoRequest → Bool
is_of_driver listing user r = (r.listing_id == listing) && (r.driver_user_id == user)

-- `findByListingAndDriver`
unfoldable pub find_by_listing_and_driver : Uuid → Uuid → TripTables → Option CargoRequest
find_by_listing_and_driver listing user t = find (is_of_driver listing user) t.requests

abbrev pub is_due : Option Time → Time → Bool
is_due none now = false
is_due (some end) now = leb now end

-- An offer that the driver may still answer.
unfoldable pub is_active_offer : Time → Uuid → CargoRequest → Bool
is_active_offer now listing r =
    (r.listing_id == listing) && request_is_offered r.status && is_due r.offer_expires_at now

-- `findActiveOffer`
unfoldable pub find_active_offer : Time → Uuid → TripTables → Option CargoRequest
find_active_offer now listing t = find (is_active_offer now listing) t.requests

unfoldable pub save_request : CargoRequest → TripTables → TripTables
save_request r t = record t { requests = save CargoRequest.id r t.requests }

-- Another request of the load that is a trip: the unique index UQ_CargoRequest_listing_trip.
unfoldable pub is_other_trip : CargoRequest → CargoRequest → Bool
is_other_trip r x = not (x.id == r.id) && (x.listing_id == r.listing_id) && is_started x.status

-- `saveTrip`
unfoldable pub save_trip : CargoRequest → TripTables → Result TripTables
save_trip r t =
    if is_started r.status && is_some (find (is_other_trip r) t.requests)
    then err (conflict "taken")
    else ok (save_request r t)

-- `owned`
unfoldable pub owned : Uuid → (CargoRequest → Bool) → TripTables → Result CargoRequest
owned id allowed t = do
  r ← found_or (not_found "Cargo request not found.") (by_id CargoRequest.id id t.requests)
  refuse_if (not (allowed r)) (not_found "Cargo request not found.")
  ok r

abbrev pub is_company : Uuid → CargoRequest → Bool
is_company user r = r.company_user_id == user

abbrev pub is_requester : Uuid → CargoRequest → Bool
is_requester user r = r.driver_user_id == user
