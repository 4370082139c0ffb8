-- ===== src/Trips/History/Deliveries.antt =====
-- `deliver` and `remindDeliveries`: a trip goes on, or is delivered.
use transport_backend.Base.{
  ℕ, refl, some, ◌==◌, is_some, Distinct-update_where, Result, Result-cases, ok, err, Bool-cases,
  inl, inr,
}
use transport_backend.Entities.{Uuid, Time}
use transport_backend.Entities.Trip.{CargoRequest, accepted, TripFareValues}
use transport_backend.Fares.{record_delivered}
use transport_backend.Trips.Store.{TripTables, save_request}
use transport_backend.Trips.Delivery.{
  find_trip, is_party, settle_broker, report_delivery, delivered_row, plan_confirm,
  confirm_delivery, deliver, is_overdue, remind_deliveries,
}
use transport_backend.Trips.History.Moves.{
  follows, follows_refl, Turns, Turns-refl, update_where-Each,
}
use transport_backend.Trips.History.Sound.{Sound, IsNew, Quiet, Quiet-refl}
use transport_backend.Trips.History.Handlers.{Moved, turns, saved-Quiet}
use transport_backend.Trips.History.Reports.{UnderWay, find_trip-UnderWay, goes_on}

report_delivery-Quiet :
    (now : Time) (r : CargoRequest) (t : TripTables)
    → Sound t
    → UnderWay t r
    → Quiet t (report_delivery now r t).1
unfolding report_delivery
report_delivery-Quiet now r t i w = elim (Bool-cases (is_some r.delivery_reported_at)) [
  | inl e ↦ rw e (Quiet-refl t i)
  | inr e ↦ rw e (
      saved-Quiet t (record r { delivery_reported_at = some now }) i
        (goes_on t r _ w refl refl refl refl (rw w.is_accepted (follows_refl accepted))))
]

delivered_row-Moved :
    (now : Time) (percent : ℕ) (fare : TripFareValues) (r : CargoRequest) (t : TripTables)
    → UnderWay t r
    → Moved t Turns (delivered_row now percent fare r)
unfolding delivered_row settle_broker follows
delivered_row-Moved now percent fare r t w = elim (Bool-cases (is_some r.for_driver)) [
  | inl e ↦ rw e (goes_on t r _ w refl refl refl refl refl)
  | inr e ↦ rw e (goes_on t r _ w refl refl refl refl refl)
]

-- The fares that are written beside the request do not matter here.
confirm_delivery-Quiet :
    (now : Time) (fare_id user : Uuid) (percent : ℕ) (deal : Result TripFareValues)
    (r : CargoRequest) (t : TripTables)
    → Sound t
    → UnderWay t r
    → Quiet t (confirm_delivery now fare_id user percent deal r t).1
unfolding confirm_delivery plan_confirm save_request
confirm_delivery-Quiet now fare_id user percent (err e) r t i w = Quiet-refl t i
confirm_delivery-Quiet now fare_id user percent (ok fare) r t i w =
    elim (Result-cases (record_delivered fare_id r fare user t.fares)) [
      | inr (e, f) ↦ rw (f, confirm_delivery, plan_confirm) (Quiet-refl t i)
      | inl (fares, f) ↦
          rw (f, confirm_delivery, plan_confirm)
            (let q =
                saved-Quiet t (delivered_row now percent fare r) i
                  (delivered_row-Moved now percent fare r t w) in
              record { loads = refl; keys = q.keys; each = q.each })
    ]

pub deliver-Quiet :
    (now : Time) (fare_id user : Uuid) (percent : ℕ) (id : Uuid) (deal : Result TripFareValues)
    (t : TripTables)
    → Sound t
    → Quiet t (deliver now fare_id user percent id deal t).1
unfolding deliver
deliver-Quiet now fare_id user percent id deal t i =
    elim (Result-cases (find_trip id (is_party user) t)) [
      | inr (e, f) ↦ rw (f, deliver) (Quiet-refl t i)
      | inl (r, f) ↦
          rw (f, deliver)
            (let w = find_trip-UnderWay id (is_party user) t r f in
              elim (Bool-cases (user == r.driver_user_id)) [
                | inl e ↦ rw e (report_delivery-Quiet now r t i w)
                | inr e ↦ rw e (confirm_delivery-Quiet now fare_id user percent deal r t i w)
              ])
    ]

pub remind_deliveries-Quiet :
    (before now : Time) (t : TripTables) → Sound t → Quiet t (remind_deliveries before now t)
unfolding remind_deliveries
remind_deliveries-Quiet before now t i = record {
  loads = refl;
  keys =
      Distinct-update_where CargoRequest.id (is_overdue before) _ t.requests (λ a. refl) i.distinct;
  each =
      update_where-Each Turns (IsNew t.listings) Turns-refl (is_overdue before) _ t.requests
        (λ a. refl) (λ a e. turns a _ refl refl refl (follows_refl a.status) (λ h. h));
}
