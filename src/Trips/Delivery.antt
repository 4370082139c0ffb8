-- ===== src/Trips/Delivery.antt =====
-- The end of a trip: `deliver`, `settleBroker`, `cancelTrip`, `rejectDeliveryReport` and
-- `remindDeliveries`, with brokerEarning of src/domain/helper/tripFare.ts and fareAmount of
-- src/domain/helper/brokerDriver.ts, computed without rounding before the last step.
use transport_backend.Base.{
  ℕ, ◌+◌, ◌-◌, ◌*◌, ◌/◌, Bool, false, ◌&&◌, ◌||◌, not, Option, none, some, List, [], ◌∷◌, ◌==◌, ltb,
  leb, if◌then◌else◌, is_some, all, update_where, is_digit, is_empty, Text, ℤ, sub_ℕ, Result, ok,
  err, ◌>>=◌, ◌>>◌, refuse_if, conflict,
}
use transport_backend.Entities.{Uuid, Time}
use transport_backend.Entities.Trip.{
  CargoRequest, pending, delivered, trip_cancelled, opened, TripFare, TripFareValues, BrokerDriver,
  BrokerPayModel, commission, margin, FareCurrency, toman, request_is_accepted, request_is_rejected,
  currency_eq,
}
use transport_backend.Fares.{record_delivered}
use transport_backend.Trips.Store.{
  TripTables, Outcome, save_request, owned, is_company, is_requester,
}
use transport_backend.Trips.Listing.{set_status}
use transport_backend.Trips.Requests.{saved_or}
use transport_backend.Trips.Company.{TripMoments}

abbrev pub digits_value : ℕ → Text → ℕ
digits_value n [] = n
digits_value n (c ∷ cs) = digits_value (n * 10 + (c - 48)) cs

-- `Number.MAX_SAFE_INTEGER + 1`
abbrev pub unsafe_amount : ℕ
unsafe_amount = 9007199254740992

-- `fareAmount`
unfoldable pub fare_amount : Option Text → Option ℕ
fare_amount none = none
fare_amount (some t) =
    if not (is_empty t) && all is_digit t && ltb (digits_value 0 t) unsafe_amount
    then some (digits_value 0 t)
    else none

-- `Math.round((total * percent) / 100)`, for a percent in hundredths.
unfoldable pub share_of : ℕ → ℕ → ℕ
share_of total percent = (total * percent + 5000) / 10000

-- `brokerEarning`: the commission and the margin.
unfoldable pub broker_earning :
    BrokerPayModel → ℕ → FareCurrency → Option ℕ → ℕ → Option ℕ × Option ℤ
broker_earning commission total currency driver_fare percent =
    (if currency_eq currency toman then some (share_of total percent) else none, none)
broker_earning margin total currency none percent = (none, none)
broker_earning margin total currency (some fare) percent =
    (none, if currency_eq currency toman then some (sub_ℕ total fare) else none)

abbrev pub model_or : Option BrokerPayModel → BrokerPayModel
model_or none = commission
model_or (some model) = model

abbrev pub percent_for : BrokerPayModel → ℕ → Option ℕ
percent_for commission percent = some percent
percent_for margin percent = none

abbrev pub fare_of : Option BrokerDriver → Option Text
fare_of none = none
fare_of (some d) = d.fare

-- `settleBroker`, with the fare that the company confirmed.
unfoldable pub settle_broker : ℕ → TripFareValues → CargoRequest → CargoRequest
settle_broker percent fare r =
    let model = model_or r.broker_pay_model in
    let earning =
      broker_earning model fare.total fare.currency (fare_amount (fare_of r.for_driver)) percent in
    record r {
      broker_pay_model = some model;
      broker_commission_percent = percent_for model percent;
      broker_commission = earning.0;
      broker_margin = earning.1;
    }

unfoldable pub is_party : Uuid → CargoRequest → Bool
is_party user r = is_requester user r || is_company user r

-- The trip that is to be delivered, reported or called off.
unfoldable pub find_trip : Uuid → (CargoRequest → Bool) → TripTables → Result CargoRequest
find_trip id allowed t = do
  r ← owned id allowed t
  refuse_if (not (request_is_accepted r.status)) (conflict "notActive")
  ok r

-- The driver or broker reports the delivery, once.
unfoldable pub report_delivery : Time → CargoRequest → TripTables → Outcome
report_delivery now r t = if is_some r.delivery_reported_at then (ok r, t) else (
  ok (record r { delivery_reported_at = some now }),
  save_request (record r { delivery_reported_at = some now }) t,
)

unfoldable pub delivered_row : Time → ℕ → TripFareValues → CargoRequest → CargoRequest
delivered_row now percent fare r =
    let done = record r { status = delivered; delivered_at = some now } in
    if is_some r.for_driver then settle_broker percent fare done else done

-- The company confirms it, with the final fare as read.
unfoldable pub plan_confirm :
    Time
    → Uuid
    → Uuid
    → ℕ
    → Result TripFareValues
    → CargoRequest
    → TripTables
    → Result (CargoRequest × List TripFare)
plan_confirm now fare_id user percent deal r t = do
  fare ← deal
  fares ← record_delivered fare_id r fare user t.fares
  ok (delivered_row now percent fare r, fares)

unfoldable pub confirm_delivery :
    Time → Uuid → Uuid → ℕ → Result TripFareValues → CargoRequest → TripTables → Outcome
confirm_delivery now fare_id user percent deal r t =
    elim (plan_confirm now fare_id user percent deal r t) [
      | err e ↦ (err e, t)
      | ok (row, fares) ↦ (ok row, save_request row (record t { fares = fares }))
    ]

-- `deliver`
unfoldable pub deliver :
    Time → Uuid → Uuid → ℕ → Uuid → Result TripFareValues → TripTables → Outcome
deliver now fare_id user percent id deal t = elim (find_trip id (is_party user) t) [
  | err e ↦ (err e, t)
  | ok r ↦
      if user == r.driver_user_id
      then report_delivery now r t
      else confirm_delivery now fare_id user percent deal r t
]

abbrev pub not_before : Option Time → Time → Bool
not_before none since = false
not_before (some t) since = leb since t

-- `findTakenOver`: turned down when the trip started, or later.
unfoldable pub is_taken_over : Uuid → Uuid → Time → CargoRequest → Bool
is_taken_over listing except since r =
    (r.listing_id == listing)
    && request_is_rejected r.status
    && not (r.id == except)
    && not_before r.decided_at since

unfoldable pub waiting_again : CargoRequest → CargoRequest
waiting_again r = record r { status = pending; decided_at = none }

unfoldable pub reopen_others : Option Time → CargoRequest → TripTables → TripTables
reopen_others none r t = t
reopen_others (some since) r t = record t {
  requests = update_where (is_taken_over r.listing_id r.id since) waiting_again t.requests;
}

unfoldable pub called_off : Time → CargoRequest → CargoRequest
called_off now r = record r {
  status = trip_cancelled;
  delivery_reported_at = none;
  decided_at = some now;
}

-- `cancelTrip`: the trip ends, the requests turned down for it wait again, and the load is open.
unfoldable pub cancel_trip : TripMoments → Uuid → Uuid → TripTables → Outcome
cancel_trip m company id t = elim (find_trip id (is_company company) t) [
  | err e ↦ (err e, t)
  | ok r ↦
      let after = reopen_others r.decided_at r (save_request (called_off m.decided_at r) t) in
      elim (set_status m.followed_at company r.listing_id opened after) [
        | err e ↦ (err e, after)
        | ok t' ↦ (ok (called_off m.decided_at r), t')
      ]
]

-- `rejectDeliveryReport`
unfoldable pub plan_reject_report : Uuid → Uuid → TripTables → Result CargoRequest
plan_reject_report company id t = do
  r ← find_trip id (is_company company) t
  refuse_if (not (is_some r.delivery_reported_at)) (conflict "notReported")
  ok (record r { delivery_reported_at = none })

unfoldable pub reject_delivery_report : Uuid → Uuid → TripTables → Outcome
reject_delivery_report company id t = saved_or t (plan_reject_report company id t)

abbrev pub first_time : Option Time → Option Time → Time → Bool
first_time (some t) b before = ltb t before
first_time none (some t) before = ltb t before
first_time none none before = false

-- `findTripsDueDeliveryReminder`, for trips with a time of decision, as every trip has.
unfoldable pub is_overdue : Time → CargoRequest → Bool
is_overdue before r =
    request_is_accepted r.status && first_time r.delivery_reminded_at r.decided_at before

-- `remindDeliveries`: what it writes.
unfoldable pub remind_deliveries : Time → Time → TripTables → TripTables
remind_deliveries before now t = record t {
  requests =
      update_where (is_overdue before) (λ r. record r { delivery_reminded_at = some now })
        t.requests;
}
