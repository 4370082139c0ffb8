-- ===== src/Trips/Listing.antt =====
-- CargoListingService.setStatus (src/services/notification/cargoListing.service.ts) and the update
-- behind it (src/infrastructure/repositories/notification/cargoListing.repository.ts).
use transport_backend.Base.{
  Bool, ◌&&◌, ◌||◌, not, Option, none, some, ◌==◌, if◌then◌else◌, is_some, find, by_id, save,
  update_where, Result, ok, ◌>>=◌, ◌>>◌, found_or, refuse_if, not_found, conflict,
}
use transport_backend.Entities.{Uuid, Time}
use transport_backend.Entities.Trip.{
  CargoListing, CargoListingStatus, opened, taken, CargoRequest, listing_is_open,
  request_is_accepted, request_is_delivered,
}
use transport_backend.Trips.Store.{TripTables, is_active_offer}

abbrev pub of_publisher : Uuid → Option CargoListing → Option CargoListing
of_publisher user none = none
of_publisher user (some l) = if l.publisher_user_id == user then some l else none

-- `findOneForPublisher`
unfoldable pub find_one_for_publisher : Uuid → Uuid → TripTables → Option CargoListing
find_one_for_publisher id user t = of_publisher user (by_id CargoListing.id id t.listings)

unfoldable pub holds_load : Time → Uuid → CargoRequest → Bool
holds_load now listing r =
    ((r.listing_id == listing) && request_is_accepted r.status) || is_active_offer now listing r

-- `hasActiveTrip`
unfoldable pub has_active_trip : Time → Uuid → TripTables → Bool
has_active_trip now listing t = is_some (find (holds_load now listing) t.requests)

unfoldable pub was_delivered : Uuid → CargoRequest → Bool
was_delivered listing r = (r.listing_id == listing) && request_is_delivered r.status

-- `hasDelivered`
unfoldable pub has_delivered : Uuid → TripTables → Bool
has_delivered listing t = is_some (find (was_delivered listing) t.requests)

unfoldable pub with_status : Time → CargoListingStatus → CargoListing → CargoListing
with_status now opened l = record l { status = opened; taken_at = none }
with_status now taken l = record l { status = taken; taken_at = some now }

-- `changeStatus`: only a row with the other status is updated.
unfoldable pub change_status : Time → Uuid → CargoListingStatus → TripTables → TripTables
change_status now id status t = record t {
  listings =
      update_where
        (λ l. (l.id == id) && elim status [
          | opened ↦ not (listing_is_open l.status)
          | taken ↦ listing_is_open l.status
        ])
        (with_status now status) t.listings;
}

-- `setStatus`, without the messages that are edited after it.
unfoldable pub set_status : Time → Uuid → Uuid → CargoListingStatus → TripTables → Result TripTables
set_status now user id status t = do
  listing ← found_or (not_found "Cargo listing not found.") (find_one_for_publisher id user t)
  refuse_if (listing_is_open status && has_active_trip now listing.id t) (conflict "activeTrip")
  refuse_if (listing_is_open status && has_delivered listing.id t) (conflict "delivered")
  ok (change_status now listing.id status t)

-- `publishListing`: the row that it saves.
unfoldable pub publish_listing : Uuid → Uuid → TripTables → TripTables
publish_listing new_id user t = record t {
  listings =
      save CargoListing.id
        (record { id = new_id; publisher_user_id = user; status = opened; taken_at = none })
        t.listings;
}
