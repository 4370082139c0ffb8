-- ===== src/Trips/History/Offering.antt =====
-- The handlers `offer` and `request`: what they write where their checks pass.
use transport_backend.Base.{
  ◌≡◌, ◌∙◌, ap, Bool, true, Option, none, some, ◌==◌, is_some, by_id, by_id_key, Result,
  Result-cases, ok, err, Bool-cases, Option-cases, inl, inr, arith,
}
use mathlib.Core.Path.{subst}
use transport_backend.Entities.{Uuid}
use transport_backend.Entities.Trip.{CargoListing, CargoRequest, TripFareValues, listing_is_open}
use transport_backend.Fares.{record_agreed}
use transport_backend.Trips.Store.{
  TripTables, find_by_listing_and_driver, find_active_offer, save_request,
}
use transport_backend.Trips.Listing.{find_one_for_publisher}
use transport_backend.Trips.Requests.{row_for}
use transport_backend.Trips.Company.{TripMoments, own_open_listing, plan_offer, agree_offer, offer}
use transport_backend.Trips.History.Sound.{Sound, Quiet, Quiet-refl}
use transport_backend.Trips.History.Statuses.{found_listing}
use transport_backend.Trips.History.Asking.{
  find_by_listing_and_driver-IsEarlier, offer_row-Quiet, as_offer,
}

-- A load of this company that is open.
record IsOwnOpen (company : Uuid) (t : TripTables) (l : CargoListing) : Type 0 where
  found : by_id CargoListing.id l.id t.listings ≡ some l
  is_open : listing_is_open l.status ≡ true

-- A load that is found stands under its own key.
load_found :
    (id : Uuid) (t : TripTables) (l : CargoListing)
    → by_id CargoListing.id id t.listings ≡ some l
    → by_id CargoListing.id l.id t.listings ≡ some l
load_found id t l e =
    ap (λ k. by_id CargoListing.id k t.listings) (by_id_key CargoListing.id id t.listings e) ∙ e

own_open_listing-IsOwnOpen :
    (company id : Uuid) (t : TripTables) (l : CargoListing)
    → own_open_listing company id t ≡ ok l
    → IsOwnOpen company t l
unfolding own_open_listing
own_open_listing-IsOwnOpen company id t l h =
    elim (Option-cases (find_one_for_publisher id company t)) [
      | inl e ↦ absurd (ground arith)
      | inr (x, e) ↦ elim (Bool-cases (listing_is_open x.status)) [
        | inr g ↦ absurd (ground arith)
        | inl g ↦
            let same : x ≡ l = ground arith in
            subst (λ y. IsOwnOpen company t y) same
              (record { found = load_found id t x (found_listing id company t x e); is_open = g })
      ]
    ]

module _ (is_driver : Uuid → Bool) (m : TripMoments) (new_id fare_id company listing_id user : Uuid)
    (t : TripTables) (i : Sound t) (fresh : by_id CargoRequest.id new_id t.requests ≡ none) where
  plan_offer-Quiet :
      (r : CargoRequest)
      → plan_offer is_driver m new_id company listing_id user t ≡ ok r
      → Quiet t (save_request r t)
  unfolding plan_offer
  plan_offer-Quiet r h = elim (Result-cases (own_open_listing company listing_id t)) [
    | inr (e, f) ↦ absurd (ground arith)
    | inl (l, f) ↦ elim (Bool-cases (user == company)) [
      | inl a ↦ absurd (ground arith)
      | inr a ↦ elim (Bool-cases (is_driver user)) [
        | inr b ↦ absurd (ground arith)
        | inl b ↦ elim (Bool-cases (is_some (find_active_offer m.looked_up_at l.id t))) [
          | inl c ↦ absurd (ground arith)
          | inr c ↦
              let w = own_open_listing-IsOwnOpen company listing_id t l f in
              let earlier = find_by_listing_and_driver l.id user t in
              let made : as_offer m (row_for new_id user l earlier) ≡ r = ground arith in
              subst (λ x. Quiet t (save_request x t)) made
                (offer_row-Quiet m new_id user l earlier t i w.found w.is_open fresh
                  (λ x e. find_by_listing_and_driver-IsEarlier l.id user t x i e))
        ]
      ]
    ]
  ]

  agree_offer-Quiet :
      (r : CargoRequest) (fare : Option TripFareValues)
      → Quiet t (save_request r t)
      → Quiet t (agree_offer fare_id r company fare (save_request r t)).1
  unfolding agree_offer
  agree_offer-Quiet r none q = q
  agree_offer-Quiet r (some fare) q =
      elim (Result-cases (record_agreed fare_id r fare company (save_request r t).fares)) [
        | inr (e, f) ↦ rw (f, agree_offer) q
        | inl (fares, f) ↦
            rw (f, agree_offer) (record { loads = q.loads; keys = q.keys; each = q.each })
      ]

  pub offer-Quiet :
      (deal : Result (Option TripFareValues))
      → Quiet t (offer is_driver m new_id fare_id company listing_id user deal t).1
  unfolding offer
  offer-Quiet (err e) = Quiet-refl t i
  offer-Quiet (ok fare) =
      elim (Result-cases (plan_offer is_driver m new_id company listing_id user t)) [
        | inr (e, f) ↦ rw (f, offer) (Quiet-refl t i)
        | inl (r, f) ↦ rw (f, offer) (agree_offer-Quiet r fare (plan_offer-Quiet r f))
      ]
