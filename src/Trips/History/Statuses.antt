-- ===== src/Trips/History/Statuses.antt =====
-- `setStatus` and a published load: what they keep.
use transport_backend.Base.{
  ◌≡◌, refl, sym, ap, ◌&&◌, none, some, ◌==◌, by_id, by_id_key, by_id-save, save, ok, Bool-cases,
  Option-cases, inl, inr, arith,
}
use mathlib.Core.Path.{subst}
use transport_backend.Entities.{Uuid, Time}
use transport_backend.Entities.Trip.{
  CargoListing, CargoListingStatus, opened, taken, CargoRequest, listing_is_open,
}
use transport_backend.Trips.Store.{TripTables}
use transport_backend.Trips.Listing.{
  find_one_for_publisher, has_active_trip, has_delivered, change_status, set_status,
  publish_listing,
}
use transport_backend.Trips.History.Sound.{Sound, Published}
use transport_backend.Trips.History.Loads.{take-IsSound, open-IsSound}

pub found_listing :
    (id user : Uuid) (t : TripTables) (l : CargoListing)
    → find_one_for_publisher id user t ≡ some l
    → by_id CargoListing.id id t.listings ≡ some l
unfolding find_one_for_publisher
found_listing id user t l h = elim (Option-cases (by_id CargoListing.id id t.listings)) [
  | inl e ↦ absurd (ground arith)
  | inr (x, e) ↦ elim (Bool-cases (x.publisher_user_id == user)) [
    | inl f ↦ ground arith
    | inr f ↦ absurd (ground arith)
  ]
]

pub find_one_for_publisher-Published :
    (t : TripTables) (r : CargoRequest) (p : Published t.listings r)
    → find_one_for_publisher r.listing_id r.company_user_id t ≡ some p.listing
unfolding find_one_for_publisher
find_one_for_publisher-Published t r p = ground (arith, p.found, p.publisher)

-- To take the load of a request, for its company, succeeds.
pub set_status-taken :
    (now : Time) (t : TripTables) (r : CargoRequest)
    → Published t.listings r
    → set_status now r.company_user_id r.listing_id taken t
      ≡ ok (change_status now r.listing_id taken t)
unfolding set_status
set_status-taken now t r p =
    let key : p.listing.id ≡ r.listing_id =
      by_id_key CargoListing.id r.listing_id t.listings p.found in
    rw (find_one_for_publisher-Published t r p, key) refl

set_status-opened :
    (now : Time) (user id : Uuid) (t t' : TripTables)
    → Sound t
    → set_status now user id opened t ≡ ok t'
    → Sound t'
unfolding set_status change_status
set_status-opened now user id t t' i h = elim (Option-cases (find_one_for_publisher id user t)) [
  | inl e ↦ absurd (ground arith)
  | inr (l, e) ↦ elim (Bool-cases (has_active_trip now l.id t)) [
    | inl f ↦ absurd (ground arith)
    | inr f ↦ elim (Bool-cases (has_delivered l.id t)) [
      | inl g ↦ absurd (ground arith)
      | inr g ↦
          let made : change_status now l.id opened t ≡ t' = ground arith in
          subst Sound made (open-IsSound now now l.id t i f g)
    ]
  ]
]

set_status-take :
    (now : Time) (user id : Uuid) (t t' : TripTables)
    → Sound t
    → set_status now user id taken t ≡ ok t'
    → Sound t'
unfolding set_status change_status
set_status-take now user id t t' i h = elim (Option-cases (find_one_for_publisher id user t)) [
  | inl e ↦ absurd (ground arith)
  | inr (l, e) ↦
      let made : change_status now l.id taken t ≡ t' = ground arith in
      subst Sound made (take-IsSound now l.id t i)
]

pub set_status-Sound :
    (now : Time) (user id : Uuid) (status : CargoListingStatus) (t t' : TripTables)
    → Sound t
    → set_status now user id status t ≡ ok t'
    → Sound t'
set_status-Sound now user id opened t t' i h = set_status-opened now user id t t' i h
set_status-Sound now user id taken t t' i h = set_status-take now user id t t' i h

pub set_status-requests :
    (now : Time) (user id : Uuid) (status : CargoListingStatus) (t t' : TripTables)
    → set_status now user id status t ≡ ok t'
    → t'.requests ≡ t.requests
unfolding set_status change_status
set_status-requests now user id status t t' h =
    elim (Option-cases (find_one_for_publisher id user t)) [
      | inl e ↦ absurd (ground arith)
      | inr (l, e) ↦ elim (Bool-cases (listing_is_open status && has_active_trip now l.id t)) [
        | inl f ↦ absurd (ground arith)
        | inr f ↦ elim (Bool-cases (listing_is_open status && has_delivered l.id t)) [
          | inl g ↦ absurd (ground arith)
          | inr g ↦
              let made : change_status now l.id status t ≡ t' = ground arith in
              ap (λ (x : TripTables). x.requests) (sym made)
        ]
      ]
    ]

-- A load with a new id is published.
pub publish_listing-Sound :
    (new_id user : Uuid) (t : TripTables)
    → Sound t
    → by_id CargoListing.id new_id t.listings ≡ none
    → Sound (publish_listing new_id user t)
unfolding publish_listing
publish_listing-Sound new_id user t i fresh =
    let row : CargoListing = record {
      id = new_id;
      publisher_user_id = user;
      status = opened;
      taken_at = none;
    } in
    let kept : (k : Uuid) (l : CargoListing)
        → by_id CargoListing.id k t.listings ≡ some l
        → by_id CargoListing.id k (save CargoListing.id row t.listings) ≡ some l =
      λ k l e. rw (by_id-save CargoListing.id k row t.listings) (ground arith) in
    record {
      distinct = i.distinct;
      published = λ k r e.
          let p = i.published k r e in
          record {
            listing = p.listing;
            found = kept r.listing_id p.listing p.found;
            publisher = p.publisher;
          };
      held = λ k r e s.
          let p = i.held k r e s in
          record {
            listing = p.listing;
            found = kept r.listing_id p.listing p.found;
            closed = p.closed;
          };
      one_trip = i.one_trip;
    }
