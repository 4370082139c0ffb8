-- ===== src/Entities/Trip.antt =====
-- src/domain/entities/notification/CargoRequest.ts, CargoListing.ts and TripFare.ts, with the enums
-- of src/domain/enums/notification.ts and tripFare.ts. A weight is a number of hundredths of a ton
-- and a percent a number of hundredths, as the columns keep two decimals.
use Prim.Native.Nat.{ℕ}
use mathlib.Core.Bool.{Bool, true, false}
use mathlib.Core.Option.{Option}
use transport_backend.Base.{Text, ℤ}
use transport_backend.Entities.Payment.{Uuid, Time}

pub data CargoListingStatus : Type 0 where
  opened taken : CargoListingStatus

pub data CargoRequestStatus : Type 0 where
  pending offered accepted rejected declined expired cancelled delivered trip_cancelled :
      CargoRequestStatus

pub data TripFareStage : Type 0 where
  agreed delivered : TripFareStage

pub data FareBasis : Type 0 where
  whole per_ton : FareBasis

pub data FareCurrency : Type 0 where
  toman dollar euro dirham lira : FareCurrency

pub data FareChangeReason : Type 0 where
  shortage waiting overweight extra_cost discount weight other : FareChangeReason

pub data BrokerPayModel : Type 0 where
  commission margin : BrokerPayModel

-- The columns of a load that trips read or write.
pub record CargoListing : Type 0 where
  pub id : Uuid
  pub publisher_user_id : Uuid
  pub status : CargoListingStatus
  pub taken_at : Option Time

pub record BrokerDriver : Type 0 where
  pub name : Text
  pub national_code : Text
  pub mobile : Text
  pub plate : Text
  pub transit_plate : Option Text
  pub company_name : Option Text
  pub fare : Option Text
  pub referrer : Option Text

pub record CargoRequest : Type 0 where
  pub id : Uuid
  pub listing_id : Uuid
  pub driver_user_id : Uuid
  pub company_user_id : Uuid
  pub status : CargoRequestStatus
  pub decided_at : Option Time
  pub offer_expires_at : Option Time
  pub delivered_at : Option Time
  pub delivery_reported_at : Option Time
  pub delivery_reminded_at : Option Time
  pub source : Option Text
  pub for_driver : Option BrokerDriver
  pub exit_border : Option Text
  pub broker_pay_model : Option BrokerPayModel
  pub broker_commission : Option ℕ
  pub broker_commission_percent : Option ℕ
  pub broker_margin : Option ℤ

pub record TripFareValues : Type 0 where
  pub basis : FareBasis
  pub rate : ℕ
  pub weight_tons : ℕ
  pub currency : FareCurrency
  pub total : ℕ
  pub change_reason : Option FareChangeReason
  pub note : Option Text

pub record TripFare : Type 0 where
  pub id : Uuid
  pub request_id : Uuid
  pub stage : TripFareStage
  pub fare : TripFareValues
  pub entered_by_user_id : Uuid

abbrev pub listing_is_open : CargoListingStatus → Bool
listing_is_open opened = true
listing_is_open _ = false

abbrev pub request_is_pending : CargoRequestStatus → Bool
request_is_pending pending = true
request_is_pending _ = false

abbrev pub request_is_offered : CargoRequestStatus → Bool
request_is_offered offered = true
request_is_offered _ = false

abbrev pub request_is_accepted : CargoRequestStatus → Bool
request_is_accepted accepted = true
request_is_accepted _ = false

abbrev pub request_is_rejected : CargoRequestStatus → Bool
request_is_rejected rejected = true
request_is_rejected _ = false

abbrev pub request_is_delivered : CargoRequestStatus → Bool
request_is_delivered CargoRequestStatus.delivered = true
request_is_delivered _ = false

abbrev pub request_is_trip_cancelled : CargoRequestStatus → Bool
request_is_trip_cancelled trip_cancelled = true
request_is_trip_cancelled _ = false

abbrev pub stage_eq : TripFareStage → TripFareStage → Bool
stage_eq agreed agreed = true
stage_eq TripFareStage.delivered TripFareStage.delivered = true
stage_eq _ _ = false

abbrev pub currency_eq : FareCurrency → FareCurrency → Bool
currency_eq toman toman = true
currency_eq dollar dollar = true
currency_eq euro euro = true
currency_eq dirham dirham = true
currency_eq lira lira = true
currency_eq _ _ = false
