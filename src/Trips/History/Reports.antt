-- ===== src/Trips/History/Reports.antt =====
-- The handlers of a trip that goes on, and `rejectDeliveryReport`.
use transport_backend.Base.{
  ◌≡◌, refl, Bool, true, none, some, by_id, Result-cases, ok, Bool-cases, inl, inr, arith,
}
use mathlib.Core.Path.{subst}
use transport_backend.Entities.{Uuid}
use transport_backend.Entities.Trip.{CargoRequest, accepted, request_is_accepted}
use transport_backend.Fares.{is_started}
use transport_backend.Trips.Store.{TripTables, owned, is_company}
use transport_backend.Trips.Delivery.{find_trip, plan_reject_report, reject_delivery_report}
use transport_backend.Trips.History.Moves.{follows, follows_refl, Turns}
use transport_backend.Trips.History.Sound.{Sound, Quiet}
use transport_backend.Trips.History.Handlers.{
  eq-accepted, Moved, owned-found, turns, saved_or-Quiet, Moved-to,
}

-- A trip that is found is under way.
pub record UnderWay (t : TripTables) (r : CargoRequest) : Type 0 where
  pub found : by_id CargoRequest.id r.id t.requests ≡ some r
  pub is_accepted : r.status ≡ accepted

pub find_trip-UnderWay :
    (id : Uuid) (allowed : CargoRequest → Bool) (t : TripTables) (r : CargoRequest)
    → find_trip id allowed t ≡ ok r
    → UnderWay t r
unfolding find_trip
find_trip-UnderWay id allowed t r h = elim (Result-cases (owned id allowed t)) [
  | inr (e, f) ↦ absurd (ground arith)
  | inl (a, f) ↦ elim (Bool-cases (request_is_accepted a.status)) [
    | inr g ↦ absurd (ground arith)
    | inl g ↦
        let same : a ≡ r = ground arith in
        subst (λ x. UnderWay t x) same
          (record { found = owned-found id allowed t a f; is_accepted = eq-accepted a.status g })
  ]
]

-- A trip that stays a trip.
pub goes_on :
    (t : TripTables) (a b : CargoRequest)
    → UnderWay t a
    → b.id ≡ a.id
    → b.listing_id ≡ a.listing_id
    → b.company_user_id ≡ a.company_user_id
    → b.driver_user_id ≡ a.driver_user_id
    → follows accepted b.status ≡ true
    → Moved t Turns b
unfolding is_started
goes_on t a b w same l c d moved =
    Moved-to t a b w.found same
      (turns a b l c d (rw w.is_accepted moved) (λ h. rw w.is_accepted refl))

plan_reject_report-Moved :
    (company id : Uuid) (t : TripTables) (r : CargoRequest)
    → plan_reject_report company id t ≡ ok r
    → Moved t Turns r
unfolding plan_reject_report
plan_reject_report-Moved company id t r h =
    elim (Result-cases (find_trip id (is_company company) t)) [
      | inr (e, f) ↦ absurd (ground arith)
      | inl (a, f) ↦
          let w = find_trip-UnderWay id (is_company company) t a f in
          let made : record a { delivery_reported_at = none } ≡ r = ground arith in
          subst (λ x. Moved t Turns x) made
            (goes_on t a _ w refl refl refl refl (rw w.is_accepted (follows_refl accepted)))
    ]

pub reject_delivery_report-Quiet :
    (company id : Uuid) (t : TripTables) → Sound t → Quiet t (reject_delivery_report company id t).1
unfolding reject_delivery_report
reject_delivery_report-Quiet company id t i =
    saved_or-Quiet t (plan_reject_report company id t) i
      (λ r. plan_reject_report-Moved company id t r)
