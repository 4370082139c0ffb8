-- ===== src/Tests/Trips.antt =====
-- A fare agreed for a trip, and the other fare of its delivery.
use transport_backend.Base.{◌≡◌, refl, none, some, List, [], ◌∷◌, find}
use transport_backend.Entities.Trip.{
  CargoRequest, CargoRequestStatus, TripFareStage, agreed, TripFareValues, TripFare, whole, toman,
  shortage,
}
use transport_backend.Fares.{Call, fare_at, run, is_row, is_started}
use transport_backend.Fares.Laws.{agreed_fixed}

abbrev trip : CargoRequest
trip = record {
  id = 7;
  listing_id = 1;
  driver_user_id = 2;
  company_user_id = 3;
  status = CargoRequestStatus.accepted;
  decided_at = some 100;
  offer_expires_at = none;
  delivered_at = none;
  delivery_reported_at = none;
  delivery_reminded_at = none;
  source = none;
  for_driver = none;
  exit_border = none;
  broker_pay_model = none;
  broker_commission = none;
  broker_commission_percent = none;
  broker_margin = none;
}

abbrev deal : TripFareValues
deal = record {
  basis = whole;
  rate = 45000000;
  weight_tons = 2500;
  currency = toman;
  total = 45000000;
  change_reason = none;
  note = none;
}

abbrev short_deal : TripFareValues
short_deal = record deal { rate = 44000000; total = 44000000; change_reason = some shortage }

abbrev agreed_row : TripFare
agreed_row = record { id = 1; request_id = 7; stage = agreed; fare = deal; entered_by_user_id = 3 }

abbrev arrival_row : TripFare
arrival_row = record {
  id = 2;
  request_id = 7;
  stage = TripFareStage.delivered;
  fare = short_deal;
  entered_by_user_id = 3;
}

abbrev calls : List Call
calls =
    record { stage = agreed; new_id = 4; request = trip; values = short_deal; user = 3 }
    ∷ record {
      stage = TripFareStage.delivered;
      new_id = 2;
      request = trip;
      values = short_deal;
      user = 3;
    }
    ∷ []

agreed_fixed_example : fare_at 7 agreed (run calls (agreed_row ∷ [])) ≡ some agreed_row
unfolding fare_at find is_row is_started
agreed_fixed_example =
    agreed_fixed 7 calls (agreed_row ∷ []) agreed_row ((λ e. refl), ((λ e. refl), tt)) refl
