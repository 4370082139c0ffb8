-- ===== src/Fares.antt =====
-- TripFareService (src/services/notification/tripFare.service.ts): the fare of a trip at its two
-- stages. The time of entry of a row is left out. A message that the source has in Persian is given
-- in English.
pub mod Laws
use transport_backend.Base.{
  ℕ, Bool, true, false, ◌&&◌, ◌||◌, not, Option, none, some, List, [], ◌∷◌, ◌==◌, if◌then◌else◌,
  is_some, find, Text, Result, ok, err, conflict, bad_request,
}
use transport_backend.Entities.{Uuid}
use transport_backend.Entities.Trip.{
  CargoRequestStatus, accepted, CargoRequest, TripFareStage, agreed, delivered, TripFareValues,
  TripFare, stage_eq, currency_eq,
}

-- `STARTED`
unfoldable pub is_started : CargoRequestStatus → Bool
is_started accepted = true
is_started CargoRequestStatus.delivered = true
is_started _ = false

-- `where: { requestId, stage }`, which a unique index allows one row.
unfoldable pub is_row : Uuid → TripFareStage → TripFare → Bool
is_row request stage r = (r.request_id == request) && stage_eq r.stage stage

-- `stages`, one at a time
unfoldable pub fare_at : Uuid → TripFareStage → List TripFare → Option TripFare
fare_at request stage fares = find (is_row request stage) fares

-- `fareChanged`
unfoldable pub fare_changed : TripFareValues → TripFareValues → Bool
fare_changed a d =
    not (a.total == d.total)
    || not (currency_eq a.currency d.currency)
    || not (a.weight_tons == d.weight_tons)

-- `upsert`: the row of the request and stage takes the values, else a new row has them.
unfoldable pub upsert :
    Uuid → Uuid → TripFareStage → TripFareValues → Uuid → List TripFare → List TripFare
upsert new_id request stage values user [] =
    record {
      id = new_id;
      request_id = request;
      stage = stage;
      fare = values;
      entered_by_user_id = user;
    }
    ∷ []
upsert new_id request stage values user (r ∷ rs) =
    if is_row request stage r
    then record r { fare = values; entered_by_user_id = user } ∷ rs
    else r ∷ upsert new_id request stage values user rs

-- `recordAgreed`: the table after it.
unfoldable pub record_agreed :
    Uuid → CargoRequest → TripFareValues → Uuid → List TripFare → Result (List TripFare)
record_agreed new_id request values user fares =
    if is_started request.status && is_some (fare_at request.id agreed fares)
    then err (conflict "fareLocked")
    else ok (upsert new_id request.id agreed (record values { change_reason = none }) user fares)

-- Whether the values differ from the agreed ones, where there are any.
unfoldable pub changed_from : Option TripFare → TripFareValues → Bool
changed_from none values = false
changed_from (some r) values = fare_changed r.fare values

-- `recordDelivered`
unfoldable pub record_delivered :
    Uuid → CargoRequest → TripFareValues → Uuid → List TripFare → Result (List TripFare)
record_delivered new_id request values user fares =
    let changed = changed_from (fare_at request.id agreed fares) values in
    if changed && not (is_some values.change_reason)
    then err (
        bad_request
          "The fare or the weight differs from the agreed one: choose the reason of the change.")
    else ok (
        upsert new_id request.id TripFareStage.delivered
          (record values { change_reason = if changed then values.change_reason else none }) user
          fares)

-- A call of the service, and the table after a list of calls; a refused call leaves it as it was.
pub record Call : Type 0 where
  pub stage : TripFareStage
  pub new_id : Uuid
  pub request : CargoRequest
  pub values : TripFareValues
  pub user : Uuid

unfoldable pub answer_to : Call → List TripFare → Result (List TripFare)
answer_to c fares = elim (c.stage) [
  | agreed ↦ record_agreed c.new_id c.request c.values c.user fares
  | delivered ↦ record_delivered c.new_id c.request c.values c.user fares
]

abbrev pub table_or : List TripFare → Result (List TripFare) → List TripFare
table_or fares (ok after) = after
table_or fares (err e) = fares

unfoldable pub run : List Call → List TripFare → List TripFare
run [] fares = fares
run (c ∷ cs) fares = run cs (table_or fares (answer_to c fares))
