-- ===== src/Trips/History/Steps.antt =====
-- Every handler of CargoTripService, of CargoListingService.setStatus and of a published load as
-- one step, and the histories that the steps make.
use transport_backend.Base.{◌≡◌, sym, Bool, Option, none, List, by_id, Result, ok, ℕ}
use mathlib.Core.Path.{subst}
use transport_backend.Entities.{Uuid, Time}
use transport_backend.Entities.Trip.{
  CargoListing, CargoListingStatus, CargoRequest, TripFare, TripFareValues, BrokerPayModel,
}
use transport_backend.Brokers.{BrokerTables, BrokerRules}
use transport_backend.Trips.Store.{TripTables}
use transport_backend.Trips.Listing.{set_status, publish_listing}
use transport_backend.Trips.Requests.{Asked, request, cancel}
use transport_backend.Trips.Company.{
  TripMoments, accept, reject, offer, respond_offer, expire_offers,
}
use transport_backend.Trips.Delivery.{
  deliver, cancel_trip, reject_delivery_report, remind_deliveries,
}
use transport_backend.Trips.History.Moves.{Succeeds, Succeeds-refl, Becomes-refl, Each}
use transport_backend.Trips.History.Sound.{Sound, IsNew, Keeps, Quiet-Keeps}
use transport_backend.Trips.History.Handlers.{cancel-Quiet, reject-Quiet}
use transport_backend.Trips.History.Reports.{reject_delivery_report-Quiet}
use transport_backend.Trips.History.Deliveries.{deliver-Quiet, remind_deliveries-Quiet}
use transport_backend.Trips.History.Offers.{expire_offers-Quiet}
use transport_backend.Trips.History.Statuses.{
  set_status-Sound, set_status-requests, publish_listing-Sound,
}
use transport_backend.Trips.History.Accepting.{accept-Keeps, respond_offer-Keeps}
use transport_backend.Trips.History.Offering.{offer-Quiet}
use transport_backend.Trips.History.Requesting.{request-Quiet}
use transport_backend.Trips.History.Ending.{cancel_trip-Keeps}

-- One call, whatever it answers. The database gives a new row a new id, and the other tables change
-- freely between the calls.
pub data Step (t : TripTables) : TripTables → Type 0 where
  requests :
      (rules : BrokerRules) (now : Time) (user listing_id : Uuid) (asked : Asked)
      → by_id CargoRequest.id asked.new_id t.requests ≡ none
      → Step t (request rules now user listing_id asked t).1
  cancels : (user id : Uuid) → Step t (cancel user id t).1
  accepts :
      (m : TripMoments) (fare_id company id : Uuid) (deal : Result TripFareValues)
      (pick : Option BrokerPayModel)
      → Step t (accept m fare_id company id deal pick t).1
  rejects : (m : TripMoments) (company id : Uuid) → Step t (reject m company id t).1
  offers :
      (is_driver : Uuid → Bool) (m : TripMoments) (new_id fare_id company listing_id user : Uuid)
      (deal : Result (Option TripFareValues))
      → by_id CargoRequest.id new_id t.requests ≡ none
      → Step t (offer is_driver m new_id fare_id company listing_id user deal t).1
  responds :
      (m : TripMoments) (user id : Uuid) (accept : Bool)
      → Step t (respond_offer m user id accept t).1
  expires : (now : Time) → Step t (expire_offers now t)
  delivers :
      (now : Time) (fare_id user : Uuid) (percent : ℕ) (id : Uuid) (deal : Result TripFareValues)
      → Step t (deliver now fare_id user percent id deal t).1
  calls_off : (m : TripMoments) (company id : Uuid) → Step t (cancel_trip m company id t).1
  disputes : (company id : Uuid) → Step t (reject_delivery_report company id t).1
  reminds : (before now : Time) → Step t (remind_deliveries before now t)
  sets_status :
      (now : Time) (user id : Uuid) (status : CargoListingStatus) (t' : TripTables)
      → set_status now user id status t ≡ ok t'
      → Step t t'
  publishes :
      (new_id user : Uuid)
      → by_id CargoListing.id new_id t.listings ≡ none
      → Step t (publish_listing new_id user t)
  others :
      (fares : List TripFare) (brokers : BrokerTables)
      → Step t (record t { fares = fares; brokers = brokers })

same_rows : (N : CargoRequest → Type 0) (rs : List CargoRequest) → Each Succeeds N rs rs
same_rows N rs k = Becomes-refl Succeeds N Succeeds-refl (by_id CargoRequest.id k rs)

pub step-Keeps : (t t' : TripTables) → Sound t → Step t t' → Keeps t t'
unfolding publish_listing
step-Keeps t _ i (requests rules now user listing_id asked fresh) =
    Quiet-Keeps t _ i (request-Quiet rules now user listing_id asked t i fresh)
step-Keeps t _ i (cancels user id) = Quiet-Keeps t _ i (cancel-Quiet user id t i)
step-Keeps t _ i (accepts m fare_id company id deal pick) =
    accept-Keeps m fare_id company id deal pick t i
step-Keeps t _ i (rejects m company id) = Quiet-Keeps t _ i (reject-Quiet m company id t i)
step-Keeps t _ i (offers is_driver m new_id fare_id company listing_id user deal fresh) =
    Quiet-Keeps t _ i
      (offer-Quiet is_driver m new_id fare_id company listing_id user t i fresh deal)
step-Keeps t _ i (responds m user id accept) = respond_offer-Keeps m user id accept t i
step-Keeps t _ i (expires now) = Quiet-Keeps t _ i (expire_offers-Quiet now t i)
step-Keeps t _ i (delivers now fare_id user percent id deal) =
    Quiet-Keeps t _ i (deliver-Quiet now fare_id user percent id deal t i)
step-Keeps t _ i (calls_off m company id) = cancel_trip-Keeps m company id t i
step-Keeps t _ i (disputes company id) =
    Quiet-Keeps t _ i (reject_delivery_report-Quiet company id t i)
step-Keeps t _ i (reminds before now) = Quiet-Keeps t _ i (remind_deliveries-Quiet before now t i)
step-Keeps t t' i (sets_status now user id status _ h) = record {
  sound = set_status-Sound now user id status t t' i h;
  moves =
      subst (λ rs. Each Succeeds (IsNew t.listings) t.requests rs)
        (sym (set_status-requests now user id status t t' h))
        (same_rows (IsNew t.listings) t.requests);
}
step-Keeps t _ i (publishes new_id user fresh) = record {
  sound = publish_listing-Sound new_id user t i fresh;
  moves = same_rows (IsNew t.listings) t.requests;
}
step-Keeps t _ i (others fares brokers) = record {
  sound = i;
  moves = same_rows (IsNew t.listings) t.requests;
}
