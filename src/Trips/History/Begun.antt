-- ===== src/Trips/History/Begun.antt =====
-- What a trip that begins keeps, and the handlers that begin one: `accept` and `respond_offer`.
use transport_backend.Base.{
  ◌≡◌, refl, true, false, none, some, by_id, find, Distinct-update_where, save, inl, inr, arith,
}
use transport_backend.Entities.{Uuid, Time}
use transport_backend.Entities.Trip.{taken, CargoRequest, pending, rejected}
use transport_backend.Fares.{is_started}
use transport_backend.Trips.Store.{TripTables, save_request, is_other_trip}
use transport_backend.Trips.Listing.{change_status}
use transport_backend.Trips.Company.{
  TripMoments, is_other_pending, turned_down, turn_down_others, start_trip,
}
use transport_backend.Trips.History.Moves.{
  follows, Succeeds, Turns, Turns-refl, Each, update_where-Each, update_where-save-Each,
  Succeeds-refl,
}
use transport_backend.Trips.History.Sound.{
  Published-Succeeds, IsSound, Sound, IsNew, Held, Each-IsSound, Keeps, Keeps-refl,
}
use transport_backend.Trips.History.Handlers.{eq-pending, turn_to}
use transport_backend.Trips.History.Loads.{take-IsSound}
use transport_backend.Trips.History.Begins.{
  begin-IsSound, no_other, taken-Held, begun, start_trip_cases,
}

turned_down-Turns :
    (now : Time) (listing except : Uuid) (a : CargoRequest)
    → is_other_pending listing except a ≡ true
    → Turns a (turned_down now a)
unfolding is_other_pending turned_down follows is_started
turned_down-Turns now listing except a h =
    turn_to pending rejected a _ (eq-pending a.status (ground arith)) refl refl refl refl refl refl

begun-Sound :
    (m : TripMoments) (a r : CargoRequest) (t : TripTables)
    → Sound t
    → by_id CargoRequest.id r.id t.requests ≡ some a
    → Succeeds a r
    → find (is_other_trip r) t.requests ≡ none
    → Sound (begun m r t)
unfolding turn_down_others change_status save_request turned_down
begun-Sound m a r t i found move alone =
    let p = Published-Succeeds t.listings a r move (i.published r.id a found) in
    let ls = (change_status m.followed_at r.listing_id taken t).listings in
    let closed : Held ls r = taken-Held m.followed_at t.listings r t refl p in
    let loads : IsSound ls t.requests = take-IsSound m.followed_at r.listing_id t i in
    let trip =
      begin-IsSound ls t.requests a r loads found move closed (no_other r t.requests alone) in
    Each-IsSound ls (save CargoRequest.id r t.requests) (begun m r t).requests trip
      (Distinct-update_where CargoRequest.id (is_other_pending r.listing_id r.id)
        (turned_down m.followed_at) (save CargoRequest.id r t.requests) (λ x. refl) trip.distinct)
      (update_where-Each Turns (IsNew ls) Turns-refl (is_other_pending r.listing_id r.id)
        (turned_down m.followed_at) (save CargoRequest.id r t.requests) (λ x. refl)
        (turned_down-Turns m.followed_at r.listing_id r.id))

not_other : (r : CargoRequest) → is_other_pending r.listing_id r.id r ≡ false
unfolding is_other_pending
not_other r = ground arith

begun_moves :
    (m : TripMoments) (a r : CargoRequest) (t : TripTables)
    → by_id CargoRequest.id r.id t.requests ≡ some a
    → Succeeds a r
    → Each Succeeds (IsNew t.listings) t.requests (begun m r t).requests
unfolding turn_down_others change_status save_request turned_down
begun_moves m a r t found move =
    update_where-save-Each Succeeds (IsNew t.listings) Succeeds-refl
      (is_other_pending r.listing_id r.id) (turned_down m.followed_at) a r t.requests (λ x. refl)
      found move (not_other r)
      (λ x e. (turned_down-Turns m.followed_at r.listing_id r.id x e).succeeds)

pub begun-Keeps :
    (m : TripMoments) (a r : CargoRequest) (t : TripTables)
    → Sound t
    → by_id CargoRequest.id r.id t.requests ≡ some a
    → Succeeds a r
    → find (is_other_trip r) t.requests ≡ none
    → Keeps t (begun m r t)
begun-Keeps m a r t i found move alone = record {
  sound = begun-Sound m a r t i found move alone;
  moves = begun_moves m a r t found move;
}

pub start_trip-Keeps :
    (m : TripMoments) (a r : CargoRequest) (t : TripTables)
    → Sound t
    → by_id CargoRequest.id r.id t.requests ≡ some a
    → Succeeds a r
    → is_started r.status ≡ true
    → Keeps t (start_trip m r t).1
start_trip-Keeps m a r t i found move s =
    elim (start_trip_cases m r t (Published-Succeeds t.listings a r move (i.published r.id a found))
      s) [
        | inl e ↦ rw e (Keeps-refl t i)
        | inr (e, alone) ↦ rw e (begun-Keeps m a r t i found move alone)
      ]
