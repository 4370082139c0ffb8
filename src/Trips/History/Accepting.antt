-- ===== src/Trips/History/Accepting.antt =====
-- The handlers that begin a trip: `accept` and `respondOffer`.
use transport_backend.Base.{
  ◌≡◌, refl, Bool, true, false, Option, List, if◌then◌else◌, Result, Result-cases, ok, err,
  Bool-cases, inl, inr, arith,
}
use mathlib.Core.Path.{subst}
use transport_backend.Entities.{Uuid}
use transport_backend.Entities.Trip.{
  CargoRequest, pending, offered, accepted, declined, TripFare, TripFareValues, BrokerPayModel,
}
use transport_backend.Fares.{is_started, record_agreed}
use transport_backend.Trips.Store.{TripTables, save_request}
use transport_backend.Trips.Company.{
  TripMoments, start_trip, accepted_row, plan_accept, accept, ended, is_over, check_response,
  answered, respond_offer,
}
use transport_backend.Trips.History.Moves.{follows, Succeeds}
use transport_backend.Trips.History.Sound.{Sound, Keeps, Quiet-Keeps, Keeps-refl}
use transport_backend.Trips.History.Handlers.{Waits, check_decision-Waits}
use transport_backend.Trips.History.Offers.{
  IsOffered, check_response-IsOffered, ended-Quiet, declined-Quiet,
}
use transport_backend.Trips.History.Begun.{start_trip-Keeps}
use transport_backend.Trips.Company.{check_decision}

accepted_row-Succeeds :
    (m : TripMoments) (pick : Option BrokerPayModel) (t : TripTables) (r : CargoRequest)
    → r.status ≡ pending
    → Succeeds r (accepted_row m pick t r)
unfolding accepted_row follows
accepted_row-Succeeds m pick t r e = record {
  same_listing = refl;
  same_company = refl;
  same_driver = refl;
  moved = rw e refl;
}

-- What an acceptance found before it wrote.
pub plan_accept-Waits :
    (m : TripMoments) (fare_id company id : Uuid) (deal : Result TripFareValues) (t : TripTables)
    (r : CargoRequest) (fares : List TripFare)
    → plan_accept m fare_id company id deal t ≡ ok (r, fares)
    → Waits t r
unfolding plan_accept
plan_accept-Waits m fare_id company id (err e) t r fares h = absurd (ground arith)
plan_accept-Waits m fare_id company id (ok fare) t r fares h =
    elim (Result-cases (check_decision m company id true t)) [
      | inr (e, f) ↦ absurd (ground arith)
      | inl (a, f) ↦ elim (Result-cases (record_agreed fare_id a fare company t.fares)) [
        | inr (e, g) ↦ absurd (ground arith)
        | inl (b, g) ↦
            let same : a ≡ r = ground arith in
            subst (λ x. Waits t x) same (check_decision-Waits m company id true t a f)
      ]
    ]

pub accept-Keeps :
    (m : TripMoments) (fare_id company id : Uuid) (deal : Result TripFareValues)
    (pick : Option BrokerPayModel) (t : TripTables)
    → Sound t
    → Keeps t (accept m fare_id company id deal pick t).1
unfolding accept is_started accepted_row
accept-Keeps m fare_id company id deal pick t i =
    elim (Result-cases (plan_accept m fare_id company id deal t)) [
      | inr (e, f) ↦ rw (f, accept) (Keeps-refl t i)
      | inl ((r, fares), f) ↦
          let w = plan_accept-Waits m fare_id company id deal t r fares f in
          rw (f, accept)
            (let k =
                start_trip-Keeps m r (accepted_row m pick t r) (record t { fares = fares }) i
                  w.found (accepted_row-Succeeds m pick t r w.is_pending) refl in
              record { sound = k.sound; moves = k.moves })
    ]

answered-Succeeds :
    (m : TripMoments) (r : CargoRequest) → r.status ≡ offered → Succeeds r (answered m accepted r)
unfolding answered follows
answered-Succeeds m r e = record {
  same_listing = refl;
  same_company = refl;
  same_driver = refl;
  moved = rw e refl;
}

answer-Keeps :
    (m : TripMoments) (accept : Bool) (r : CargoRequest) (t : TripTables)
    → Sound t
    → IsOffered t r
    → Keeps t
        (if accept
          then start_trip m (answered m accepted r) t
          else (ok (answered m declined r), save_request (answered m declined r) t)).1
unfolding is_started answered
answer-Keeps m true r t i o =
    start_trip-Keeps m r (answered m accepted r) t i o.found (answered-Succeeds m r o.is_offered)
      refl
answer-Keeps m false r t i o =
    Quiet-Keeps t (save_request (answered m declined r) t) i (declined-Quiet m t r i o)

pub respond_offer-Keeps :
    (m : TripMoments) (user id : Uuid) (accept : Bool) (t : TripTables)
    → Sound t
    → Keeps t (respond_offer m user id accept t).1
unfolding respond_offer
respond_offer-Keeps m user id accept t i = elim (Result-cases (check_response user id t)) [
  | inr (e, f) ↦ rw (f, respond_offer) (Keeps-refl t i)
  | inl (r, f) ↦
      let o = check_response-IsOffered user id t r f in
      rw (f, respond_offer)
        (elim (Bool-cases (is_over r.offer_expires_at m.looked_up_at)) [
          | inl e ↦ rw e (Quiet-Keeps t (save_request (ended r) t) i (ended-Quiet t r i o))
          | inr e ↦ rw e (answer-Keeps m accept r t i o)
        ])
]
