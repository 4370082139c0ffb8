-- ===== src/Trips/History/Asking.antt =====
-- A request or an offer is made: `request` and `offer`.
use transport_backend.Base.{
  ◌+◌, ◌≡◌, ◌∙◌, refl, ap, true, false, Option, none, some, by_id, find_sound, find-by_id,
  Distinct-save, Bool-cases, inl, inr, arith,
}
use mathlib.Core.Path.{subst}
use transport_backend.Entities.{Uuid}
use transport_backend.Entities.Trip.{
  CargoListing, CargoRequest, CargoRequestStatus, pending, offered, rejected, declined, expired,
  cancelled, trip_cancelled, listing_is_open,
}
use transport_backend.Fares.{is_started}
use transport_backend.Trips.Store.{
  TripTables, is_of_driver, find_by_listing_and_driver, save_request,
}
use transport_backend.Trips.Requests.{row_for}
use transport_backend.Trips.Company.{TripMoments, offer_ttl}
use transport_backend.Trips.History.Moves.{follows, Turns, Turns-refl, save-Each}
use transport_backend.Trips.History.Sound.{is_first, Sound, IsNew, Quiet}
use transport_backend.Trips.History.Handlers.{turns, Moved-to, saved-Quiet}

-- The row that a request or an offer writes: a new one, or the one of the driver for this load.
pub saved_row-Quiet :
    (t : TripTables) (r : CargoRequest)
    → Sound t
    → ((a : CargoRequest) → by_id CargoRequest.id r.id t.requests ≡ some a → Turns a r)
    → (by_id CargoRequest.id r.id t.requests ≡ none → IsNew t.listings r)
    → Quiet t (save_request r t)
unfolding save_request
saved_row-Quiet t r i old fresh = record {
  loads = refl;
  keys = Distinct-save CargoRequest.id r t.requests i.distinct;
  each = save-Each Turns (IsNew t.listings) Turns-refl r t.requests old fresh;
}

-- No request of an open load is a trip.
pub open_not_started :
    (t : TripTables) (l : CargoListing) (r : CargoRequest)
    → Sound t
    → by_id CargoListing.id r.listing_id t.listings ≡ some l
    → listing_is_open l.status ≡ true
    → by_id CargoRequest.id r.id t.requests ≡ some r
    → is_started r.status ≡ false
open_not_started t l r i load opn found = elim (Bool-cases (is_started r.status)) [
  | inr e ↦ e
  | inl e ↦
      let h = i.held r.id r found e in
      let same : h.listing ≡ l = ground (arith, h.found) in
      let no : listing_is_open l.status ≡ false =
        subst (λ (x : CargoListing). listing_is_open x.status ≡ false) same h.closed in
      absurd (ground arith)
]

-- The row of a driver for a load, as it is found.
pub record IsEarlier (listing user : Uuid) (t : TripTables) (r : CargoRequest) : Type 0 where
  pub found : by_id CargoRequest.id r.id t.requests ≡ some r
  pub of_listing : r.listing_id ≡ listing
  pub of_driver : r.driver_user_id ≡ user

pub find_by_listing_and_driver-IsEarlier :
    (listing user : Uuid) (t : TripTables) (r : CargoRequest)
    → Sound t
    → find_by_listing_and_driver listing user t ≡ some r
    → IsEarlier listing user t r
unfolding find_by_listing_and_driver is_of_driver
find_by_listing_and_driver-IsEarlier listing user t r i h =
    let meets = find_sound (is_of_driver listing user) t.requests h in
    record {
      found = find-by_id CargoRequest.id (is_of_driver listing user) t.requests i.distinct h;
      of_listing = ground arith;
      of_driver = ground arith;
    }

-- To an offer from any state that is no trip.
offer_follows : (s : CargoRequestStatus) → is_started s ≡ false → follows s offered ≡ true
unfolding follows is_started
offer_follows pending h = refl
offer_follows offered h = refl
offer_follows rejected h = refl
offer_follows declined h = refl
offer_follows expired h = refl
offer_follows cancelled h = refl
offer_follows trip_cancelled h = refl
offer_follows _ h = absurd (ground arith)

-- The row that an offer writes, from the one that is there.
abbrev pub as_offer : TripMoments → CargoRequest → CargoRequest
as_offer m r = record r {
  status = offered;
  decided_at = some m.decided_at;
  offer_expires_at = some (m.decided_at + offer_ttl);
}

pub offer_row-Quiet :
    (m : TripMoments) (new_id user : Uuid) (l : CargoListing) (earlier : Option CargoRequest)
    (t : TripTables)
    → Sound t
    → by_id CargoListing.id l.id t.listings ≡ some l
    → listing_is_open l.status ≡ true
    → by_id CargoRequest.id new_id t.requests ≡ none
    → ((r : CargoRequest) → earlier ≡ some r → IsEarlier l.id user t r)
    → Quiet t (save_request (as_offer m (row_for new_id user l earlier)) t)
unfolding is_started is_first
offer_row-Quiet m new_id user l none t i load opn fresh h =
    saved_row-Quiet t (as_offer m (row_for new_id user l none)) i (λ a e. absurd (ground arith))
      (λ n. record {
        published = record { listing = l; found = load; publisher = refl };
        no_trip = refl;
        first = refl;
      })
offer_row-Quiet m new_id user l (some r) t i load opn fresh h =
    let w = h r refl in
    let quiet =
      open_not_started t l r i (ap (λ k. by_id CargoListing.id k t.listings) w.of_listing ∙ load)
        opn w.found in
    saved-Quiet t (as_offer m r) i (
      Moved-to t r _ w.found refl
        (turns r _ refl refl refl (offer_follows r.status quiet) (λ s. absurd (ground arith))))
