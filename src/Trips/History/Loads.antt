-- ===== src/Trips/History/Loads.antt =====
-- What an update of the loads keeps: a load that is taken, or opened again.
use transport_backend.Base.{
  ◌≡◌, ◌∙◌, refl, ap, Bool, true, false, none, some, List, if◌then◌else◌, by_id, by_id_key,
  by_id-update_where, by_id-find-none, find, update_where, Bool-cases, inl, inr, arith, ◌⊎◌,
}
use mathlib.Core.Option
use transport_backend.Entities.{Uuid, Time}
use transport_backend.Entities.Trip.{
  CargoListing, CargoListingStatus, opened, taken, CargoRequest, CargoRequestStatus, accepted,
  delivered, listing_is_open, request_is_accepted, request_is_delivered,
}
use transport_backend.Fares.{is_started}
use transport_backend.Trips.Store.{TripTables}
use transport_backend.Trips.Listing.{
  holds_load, has_active_trip, was_delivered, has_delivered, with_status, change_status,
}
use transport_backend.Trips.History.Sound.{IsSound, Sound, Published, Held}

-- A load after an update of its status.
updated_listing :
    (p : CargoListing → Bool) (f : CargoListing → CargoListing) (k : Uuid) (ls : List CargoListing)
    (l : CargoListing)
    → ((x : CargoListing) → (f x).id ≡ x.id)
    → by_id CargoListing.id k ls ≡ some l
    → by_id CargoListing.id k (update_where p f ls) ≡ some (if p l then f l else l)
updated_listing p f k ls l keys e =
    by_id-update_where CargoListing.id p f k ls keys
    ∙ ap (Option.map (λ r. if p r then f r else r)) e

Published-update_where :
    (p : CargoListing → Bool) (f : CargoListing → CargoListing) (ls : List CargoListing)
    (r : CargoRequest)
    → ((x : CargoListing) → (f x).id ≡ x.id)
    → ((x : CargoListing) → (f x).publisher_user_id ≡ x.publisher_user_id)
    → Published ls r
    → Published (update_where p f ls) r
Published-update_where p f ls r keys same h = record {
  listing = if p h.listing then f h.listing else h.listing;
  found = updated_listing p f r.listing_id ls h.listing keys h.found;
  publisher = elim (Bool-cases (p h.listing)) [
    | inl e ↦ rw e (same h.listing ∙ h.publisher)
    | inr e ↦ rw e h.publisher
  ];
}

Held-update_where :
    (p : CargoListing → Bool) (f : CargoListing → CargoListing) (ls : List CargoListing)
    (r : CargoRequest)
    → ((x : CargoListing) → (f x).id ≡ x.id)
    → ((x : CargoListing) → p x ≡ true → x.id ≡ r.listing_id → listing_is_open (f x).status ≡ false)
    → Held ls r
    → Held (update_where p f ls) r
Held-update_where p f ls r keys closed h = record {
  listing = if p h.listing then f h.listing else h.listing;
  found = updated_listing p f r.listing_id ls h.listing keys h.found;
  closed = elim (Bool-cases (p h.listing)) [
    | inl e ↦ rw e (closed h.listing e (by_id_key CargoListing.id r.listing_id ls h.found))
    | inr e ↦ rw e h.closed
  ];
}

-- An update of the loads that opens no load of a trip.
pub update_where-IsSound :
    (p : CargoListing → Bool) (f : CargoListing → CargoListing) (ls : List CargoListing)
    (rs : List CargoRequest)
    → IsSound ls rs
    → ((x : CargoListing) → (f x).id ≡ x.id)
    → ((x : CargoListing) → (f x).publisher_user_id ≡ x.publisher_user_id)
    → ((k : Uuid) (r : CargoRequest)
        → by_id CargoRequest.id k rs ≡ some r
        → is_started r.status ≡ true
        → (x : CargoListing) → p x ≡ true
        → x.id ≡ r.listing_id
        → listing_is_open (f x).status ≡ false)
    → IsSound (update_where p f ls) rs
update_where-IsSound p f ls rs i keys same closed = record {
  distinct = i.distinct;
  published = λ k r e. Published-update_where p f ls r keys same (i.published k r e);
  held = λ k r e s. Held-update_where p f ls r keys (closed k r e s) (i.held k r e s);
  one_trip = i.one_trip;
}

with_status-id :
    (now : Time) (status : CargoListingStatus) (x : CargoListing)
    → (with_status now status x).id ≡ x.id
unfolding with_status
with_status-id now opened x = refl
with_status-id now taken x = refl

with_status-publisher :
    (now : Time) (status : CargoListingStatus) (x : CargoListing)
    → (with_status now status x).publisher_user_id ≡ x.publisher_user_id
unfolding with_status
with_status-publisher now opened x = refl
with_status-publisher now taken x = refl

-- A load that is taken stays sound, whatever the requests are.
pub take-IsSound :
    (now : Time) (id : Uuid) (t : TripTables)
    → Sound t
    → IsSound (change_status now id taken t).listings t.requests
unfolding change_status with_status
take-IsSound now id t i =
    update_where-IsSound _ (with_status now taken) t.listings t.requests i
      (with_status-id now taken) (with_status-publisher now taken) (λ k r e s x p same. refl)

-- A started request is a trip under way or delivered.
started_cases :
    (s : CargoRequestStatus)
    → is_started s ≡ true
    → (request_is_accepted s ≡ true) ⊎ (request_is_delivered s ≡ true)
unfolding is_started
started_cases accepted h = inl refl
started_cases delivered h = inr refl
started_cases _ h = absurd (ground arith)

pub open-IsSound :
    (now : Time) (at : Time) (id : Uuid) (t : TripTables)
    → Sound t
    → has_active_trip now id t ≡ false
    → has_delivered id t ≡ false
    → IsSound (change_status at id opened t).listings t.requests
unfolding change_status with_status has_active_trip has_delivered holds_load was_delivered
open-IsSound now at id t i active done =
    update_where-IsSound _ (with_status at opened) t.listings t.requests i
      (with_status-id at opened) (with_status-publisher at opened)
      (λ k r e s x p same.
        let load : r.listing_id ≡ id = ground arith in
        let none_held : find (holds_load now id) t.requests ≡ none = ground arith in
        let none_done : find (was_delivered id) t.requests ≡ none = ground arith in
        let a = by_id-find-none CargoRequest.id (holds_load now id) k t.requests none_held e in
        let b = by_id-find-none CargoRequest.id (was_delivered id) k t.requests none_done e in
        absurd (elim (started_cases r.status s) [ inl h ↦ ground arith | inr h ↦ ground arith ]))
