-- ===== src/Tests/Loads.antt =====
-- One load: asked for by two drivers, accepted, delivered; and the theorems on histories at it.
use transport_backend.Base.{
  true, false, ◌≡◌, refl, none, some, [], ◌∷◌, by_id, save, update_where, find, ok,
}
use transport_backend.Entities.{Uuid, Time}
use transport_backend.Entities.Trip.{
  agreed, CargoListing, opened, CargoRequest, CargoRequestStatus, TripFare, TripFareValues, whole,
  toman, listing_is_open,
}
use transport_backend.Fares.{
  record_agreed, record_delivered, fare_at, upsert, is_row, is_started, fare_changed, changed_from,
}
use transport_backend.Brokers.{BrokerRules, can_see, visible_publishers, use_request, is_counted}
use transport_backend.Trips.{
  TripTables, Asked, TripMoments, request, accept, deliver, cancel_trip, plan_request, accepted_row,
  find_trip, owned, plan_accept, check_decision, find_by_listing_and_driver, find_active_offer,
  save_request, asking, is_active_offer, is_other_pending, start_trip, turn_down_others,
  turned_down, confirm_delivery, delivered_row, is_party, plan_confirm, change_status,
  find_one_for_publisher, set_status, with_status, is_of_driver, is_other_trip, save_trip,
}
use transport_backend.Trips.History.Sound.{Sound, no_requests-Sound}
use transport_backend.Trips.History.Steps.{requests, accepts, delivers, calls_off}
use transport_backend.Trips.History.Runs.{
  Runs, done, and_then, Runs-Sound, step_refines_life, closed_for_good, LifeStep, life, IsDelivered,
}
use transport_backend.Trips.History.Begins.{begun}
use transport_backend.Trips.History.Outcomes.{HasBegun, accept_begins}
use transport_backend.Trips.History.Restored.{called_off_restores}

abbrev rules : BrokerRules
rules = record {
  brokers_open = true;
  policy = record {
    max_companies = none;
    packages_enabled = false;
    package_size = 10;
    package_price = 5000;
    currency = [];
    commission_percent = 250;
  };
  is_broker = λ user. false;
  companies = [];
}

abbrev load : CargoListing
load = record { id = 1; publisher_user_id = 10; status = opened; taken_at = none }

abbrev start : TripTables
start = record {
  listings = load ∷ [];
  requests = [];
  fares = [];
  brokers = record { credits = []; orders = []; periods = [] };
}

abbrev asked : Uuid → Asked
asked new_id = record {
  new_id = new_id;
  source = none;
  for_driver = ok none;
  border = λ l. ok none;
  saved = ok tt;
}

abbrev moments : Time → TripMoments
moments now = record { looked_up_at = now; decided_at = now; followed_at = now }

abbrev deal : TripFareValues
deal = record {
  basis = whole;
  rate = 45000000;
  weight_tons = 2500;
  currency = toman;
  total = 45000000;
  change_reason = none;
  note = none;
}

abbrev once : TripTables
once = (request rules 100 20 1 (asked 5) start).1

abbrev trip_tables : TripTables
trip_tables = (accept (moments 200) 7 10 5 (ok deal) none once).1

abbrev arrived : TripTables
arrived = (deliver 300 8 10 250 5 (ok deal) trip_tables).1

abbrev refused : TripTables
refused = (cancel_trip (moments 400) 10 5 arrived).1

start-Sound : Sound start
start-Sound = no_requests-Sound start refl

start_fresh : by_id CargoRequest.id 5 start.requests ≡ none
unfolding by_id
start_fresh = refl

until_arrived : Runs start arrived
unfolding by_id
until_arrived = and_then (requests rules 100 20 1 (asked 5) start_fresh) (
    and_then (accepts (moments 200) 7 10 5 (ok deal) none)
      (and_then (delivers 300 8 10 250 5 (ok deal)) done))

Runs-Sound_example : Sound arrived
Runs-Sound_example = Runs-Sound start arrived start-Sound until_arrived

step_refines_life_example :
    LifeStep
      (life (by_id CargoRequest.id 5 start.requests))
      (life (by_id CargoRequest.id 5 once.requests))
unfolding by_id
step_refines_life_example =
    step_refines_life start once 5 start-Sound (requests rules 100 20 1 (asked 5) start_fresh)

abbrev asked_row : CargoRequest
asked_row = record {
  id = 5;
  listing_id = 1;
  driver_user_id = 20;
  company_user_id = 10;
  status = CargoRequestStatus.pending;
  decided_at = none;
  offer_expires_at = none;
  delivered_at = none;
  delivery_reported_at = none;
  delivery_reminded_at = none;
  source = none;
  for_driver = none;
  exit_border = none;
  broker_pay_model = none;
  broker_commission = none;
  broker_commission_percent = none;
  broker_margin = none;
}

arrived_row :
    by_id CargoRequest.id 5 arrived.requests
    ≡ some (record asked_row {
      status = CargoRequestStatus.delivered;
      decided_at = some 200;
      delivered_at = some 300;
    })
unfolding by_id save find deliver find_trip owned accept plan_accept check_decision request
    plan_request can_see visible_publishers find_by_listing_and_driver find_active_offer use_request
    is_counted save_request asking is_active_offer update_where changed_from fare_at fare_changed
    is_row is_started record_agreed record_delivered upsert accepted_row is_other_pending start_trip
    turn_down_others turned_down confirm_delivery delivered_row is_party plan_confirm change_status
    find_one_for_publisher set_status with_status is_of_driver is_other_trip save_trip
arrived_row = refl

arrived-IsDelivered : IsDelivered 5 1 arrived
arrived-IsDelivered = record {
  row = record asked_row {
    status = CargoRequestStatus.delivered;
    decided_at = some 200;
    delivered_at = some 300;
  };
  found = arrived_row;
  of_listing = refl;
  is_delivered = refl;
}

closed_for_good_example :
    IsDelivered 5 1 refused
    × ((l : CargoListing)
        → by_id CargoListing.id 1 refused.listings ≡ some l
        → listing_is_open l.status ≡ false)
    × ((j : Uuid) (r : CargoRequest)
        → by_id CargoRequest.id j refused.requests ≡ some r
        → r.listing_id ≡ 1
        → is_started r.status ≡ true
        → j ≡ 5)
closed_for_good_example =
    closed_for_good 5 1 arrived refused (Runs-Sound start arrived start-Sound until_arrived)
      (and_then (calls_off (moments 400) 10 5) done) arrived-IsDelivered

abbrev second_row : CargoRequest
second_row = record asked_row { id = 6; driver_user_id = 21 }

-- Two drivers wait for the load.
abbrev both : TripTables
both = record start { requests = asked_row ∷ second_row ∷ [] }

abbrev accepted_one : CargoRequest
accepted_one = record asked_row { status = CargoRequestStatus.accepted; decided_at = some 200 }

called_off_restores_example :
    by_id CargoRequest.id 6
      ((cancel_trip (moments 500) 10 5 (begun (moments 200) accepted_one both)).1).requests
    ≡ some second_row
unfolding by_id
called_off_restores_example =
    called_off_restores (moments 200) (moments 500) 10 6 200 accepted_one second_row both refl refl
      refl refl
      (record { found = refl; other = refl; same_load = refl; waits = refl; undecided = refl })

-- Both drivers ask, one after the other.
abbrev twice : TripTables
twice = (request rules 110 21 1 (asked 6) once).1

twice-Sound : Sound twice
unfolding by_id save find request plan_request can_see visible_publishers find_by_listing_and_driver
    find_active_offer use_request is_counted save_request asking is_of_driver is_active_offer
twice-Sound = Runs-Sound start twice start-Sound (
    and_then (requests rules 100 20 1 (asked 5) start_fresh)
      (and_then (requests rules 110 21 1 (asked 6) refl) done))

abbrev kept_fare : TripFare
kept_fare = record { id = 7; request_id = 5; stage = agreed; fare = deal; entered_by_user_id = 10 }

accept_begins_example :
    (row : CargoRequest) × ((accept (moments 200) 7 10 5 (ok deal) none twice).0 ≡ ok row)
    × (row ≡ record asked_row {
      status = CargoRequestStatus.accepted;
      decided_at = some 200;
      broker_pay_model = row.broker_pay_model;
    })
    × HasBegun
        (moments 200)
        row
        load
        (kept_fare ∷ [])
        twice
        (accept (moments 200) 7 10 5 (ok deal) none twice).1
unfolding by_id save find request plan_request can_see visible_publishers find_by_listing_and_driver
    find_active_offer use_request is_counted save_request asking record_agreed fare_at is_row
    is_started upsert is_of_driver is_active_offer
accept_begins_example =
    accept_begins (moments 200) 7 10 deal none twice asked_row (kept_fare ∷ []) twice-Sound
      (record {
        found = refl;
        owner = refl;
        waits = refl;
        load = load;
        load_found = refl;
        load_open = refl;
        not_reserved = refl;
      })
      refl
