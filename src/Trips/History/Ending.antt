-- ===== src/Trips/History/Ending.antt =====
-- A trip is called off: `cancelTrip`.
use transport_backend.Base.{
  ◌≡◌, refl, sym, true, false, Option, none, some, Distinct-save, Distinct-update_where, save,
  Result-cases, inl, inr, arith,
}
use mathlib.Core.Path.{subst}
use transport_backend.Entities.{Uuid, Time}
use transport_backend.Entities.Trip.{opened, CargoRequest, pending, accepted, rejected}
use transport_backend.Fares.{is_started}
use transport_backend.Trips.Store.{TripTables, save_request, is_company}
use transport_backend.Trips.Listing.{set_status}
use transport_backend.Trips.Company.{TripMoments}
use transport_backend.Trips.Delivery.{
  find_trip, is_taken_over, waiting_again, reopen_others, called_off, cancel_trip,
}
use transport_backend.Trips.History.Moves.{
  follows, Succeeds, Turns, Turns-refl, Each, update_where-save-Each,
}
use transport_backend.Trips.History.Sound.{Sound, IsNew, Quiet, Keeps, Quiet-Keeps, Keeps-refl}
use transport_backend.Trips.History.Handlers.{eq-rejected, turns, turn_to, Moved-to, saved-Quiet}
use transport_backend.Trips.History.Reports.{UnderWay, find_trip-UnderWay}
use transport_backend.Trips.History.Statuses.{set_status-Sound, set_status-requests}

reopened-Turns :
    (listing except : Uuid) (since : Time) (a : CargoRequest)
    → is_taken_over listing except since a ≡ true
    → Turns a (waiting_again a)
unfolding is_taken_over waiting_again follows is_started
reopened-Turns listing except since a h =
    turn_to rejected pending a _ (eq-rejected a.status (ground arith)) refl refl refl refl refl refl

not_taken_over :
    (now since : Time) (r : CargoRequest)
    → is_taken_over r.listing_id r.id since (called_off now r) ≡ false
unfolding is_taken_over called_off
not_taken_over now since r = ground arith

-- The tables before the load opens again.
abbrev pub called_off_tables : TripMoments → CargoRequest → TripTables → TripTables
called_off_tables m r t = reopen_others r.decided_at r (save_request (called_off m.decided_at r) t)

called_off-Turns :
    (now : Time) (r : CargoRequest) → r.status ≡ accepted → Turns r (called_off now r)
unfolding called_off follows is_started
called_off-Turns now r e = turns r _ refl refl refl (rw e refl) (λ s. absurd (ground arith))

reopened-Quiet :
    (now : Time) (since : Option Time) (r : CargoRequest) (t : TripTables)
    → Sound t
    → UnderWay t r
    → Quiet t (reopen_others since r (save_request (called_off now r) t))
unfolding reopen_others save_request called_off waiting_again
reopened-Quiet now none r t i w =
    saved-Quiet t (called_off now r) i
      (Moved-to t r _ w.found refl (called_off-Turns now r w.is_accepted))
reopened-Quiet now (some since) r t i w = record {
  loads = refl;
  keys =
      Distinct-update_where CargoRequest.id (is_taken_over r.listing_id r.id since) waiting_again
        (save CargoRequest.id (called_off now r) t.requests) (λ x. refl)
        (Distinct-save CargoRequest.id (called_off now r) t.requests i.distinct);
  each =
      update_where-save-Each Turns (IsNew t.listings) Turns-refl
        (is_taken_over r.listing_id r.id since) waiting_again r (called_off now r) t.requests
        (λ x. refl) w.found (called_off-Turns now r w.is_accepted) (not_taken_over now since r)
        (reopened-Turns r.listing_id r.id since);
}

pub cancel_trip-Keeps :
    (m : TripMoments) (company id : Uuid) (t : TripTables)
    → Sound t
    → Keeps t (cancel_trip m company id t).1
unfolding cancel_trip
cancel_trip-Keeps m company id t i = elim (Result-cases (find_trip id (is_company company) t)) [
  | inr (e, f) ↦ rw (f, cancel_trip) (Keeps-refl t i)
  | inl (r, f) ↦
      let w = find_trip-UnderWay id (is_company company) t r f in
      let after = called_off_tables m r t in
      let k = Quiet-Keeps t after i (reopened-Quiet m.decided_at r.decided_at r t i w) in
      elim (Result-cases (set_status m.followed_at company r.listing_id opened after)) [
        | inr (e, g) ↦ rw (f, cancel_trip, g) k
        | inl (t', g) ↦
            rw (f, cancel_trip, g)
              (record {
                sound =
                    set_status-Sound m.followed_at company r.listing_id opened after t' k.sound g;
                moves =
                    subst (λ rs. Each Succeeds (IsNew t.listings) t.requests rs)
                      (sym
                        (set_status-requests m.followed_at company r.listing_id opened after t' g))
                      k.moves;
              })
      ]
]
