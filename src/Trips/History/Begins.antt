-- ===== src/Trips/History/Begins.antt =====
-- A trip begins: `start_trip`, `accept` and an offer that is accepted.
use transport_backend.Base.{
  ◌≡◌, ◌∙◌, refl, sym, ap, true, false, ◌&&◌, none, some, List, ◌==◌, if◌then◌else◌, by_id,
  by_id_key, by_id-save, by_id-update_where, by_id-find-none, find, Distinct-save, save, ok, err,
  conflict, Bool-cases, Option-cases, inl, inr, arith, ◌⊎◌,
}
use mathlib.Core.Path.{subst}
use transport_backend.Entities.{Uuid, Time}
use transport_backend.Entities.Trip.{CargoListing, taken, CargoRequest, listing_is_open}
use transport_backend.Fares.{is_started}
use transport_backend.Trips.Store.{TripTables, save_request, is_other_trip, save_trip}
use transport_backend.Trips.Listing.{with_status, change_status}
use transport_backend.Trips.Company.{TripMoments, turn_down_others, start_trip}
use transport_backend.Trips.History.Moves.{Succeeds}
use transport_backend.Trips.History.Sound.{Published-Succeeds, IsSound, Published, Held}
use transport_backend.Trips.History.Statuses.{set_status-taken}

-- The request that is saved, by its key.
data Place (k : Uuid) (r x : CargoRequest) (rs : List CargoRequest) : Type 0 where
  here : r.id ≡ k → x ≡ r → Place k r x rs
  there : (r.id ≡ k → ⊥) → by_id CargoRequest.id k rs ≡ some x → Place k r x rs

Place-save :
    (k : Uuid) (r x : CargoRequest) (rs : List CargoRequest)
    → by_id CargoRequest.id k (save CargoRequest.id r rs) ≡ some x
    → Place k r x rs
Place-save k r x rs e =
    let e' : (if r.id == k then some r else by_id CargoRequest.id k rs) ≡ some x =
      sym (by_id-save CargoRequest.id k r rs) ∙ e in
    elim (Bool-cases (r.id == k)) [
      | inl f ↦ here (ground arith) (ground arith)
      | inr f ↦ there (λ h. absurd (ground arith)) (ground arith)
    ]

-- No other request of the load is a trip.
abbrev NoOther : CargoRequest → List CargoRequest → Type 0
NoOther r rs =
    (k : Uuid) (x : CargoRequest)
    → by_id CargoRequest.id k rs ≡ some x
    → (r.id ≡ k → ⊥)
    → is_started x.status ≡ true
    → x.listing_id ≡ r.listing_id
    → ⊥

pub no_other :
    (r : CargoRequest) (rs : List CargoRequest) → find (is_other_trip r) rs ≡ none → NoOther r rs
unfolding is_other_trip
no_other r rs n k x e other s same =
    let key = by_id_key CargoRequest.id k rs e in
    let missed = by_id-find-none CargoRequest.id (is_other_trip r) k rs n e in
    let differ : (x.id == r.id) ≡ false = elim (Bool-cases (x.id == r.id)) [
      | inl f ↦ absurd (other (ground arith))
      | inr f ↦ f
    ] in
    ground arith

-- A request becomes the trip of its load, once the load is not open.
pub begin-IsSound :
    (ls : List CargoListing) (rs : List CargoRequest) (a r : CargoRequest)
    → IsSound ls rs
    → by_id CargoRequest.id r.id rs ≡ some a
    → Succeeds a r
    → Held ls r
    → NoOther r rs
    → IsSound ls (save CargoRequest.id r rs)
begin-IsSound ls rs a r i found move closed alone = record {
  distinct = Distinct-save CargoRequest.id r rs i.distinct;
  published = λ k x e. elim (Place-save k r x rs e) [
    | here same made ↦
        subst (λ y. Published ls y) (sym made)
          (Published-Succeeds ls a r move (i.published r.id a found))
    | there other e' ↦ i.published k x e'
  ];
  held = λ k x e s. elim (Place-save k r x rs e) [
    | here same made ↦ subst (λ y. Held ls y) (sym made) closed
    | there other e' ↦ i.held k x e' s
  ];
  one_trip = λ j k x y e f u v same. elim (Place-save j r x rs e) [
    | here p q ↦ elim (Place-save k r y rs f) [
      | here p' q' ↦ sym p ∙ p'
      | there other f' ↦
          absurd (alone k y f' other v (sym same ∙ ap (λ (z : CargoRequest). z.listing_id) q))
    ]
    | there other e' ↦ elim (Place-save k r y rs f) [
      | here p' q' ↦
          absurd (alone j x e' other u (same ∙ ap (λ (z : CargoRequest). z.listing_id) q'))
      | there other' f' ↦ i.one_trip j k x y e' f' u v same
    ]
  ];
}

-- A load that is taken is not open.
pub taken-Held :
    (now : Time) (ls : List CargoListing) (r : CargoRequest) (t : TripTables)
    → t.listings ≡ ls
    → Published ls r
    → Held (change_status now r.listing_id taken t).listings r
unfolding change_status with_status
taken-Held now ls r t same p =
    let key = by_id_key CargoListing.id r.listing_id ls p.found in
    let now_at =
      by_id-update_where CargoListing.id (λ l. (l.id == r.listing_id) && listing_is_open l.status)
        (with_status now taken) r.listing_id t.listings (λ x. refl) in
    elim (Bool-cases (listing_is_open p.listing.status)) [
      | inl e ↦ record {
        listing = with_status now taken p.listing;
        found =
            let hit : ((p.listing.id == r.listing_id) && listing_is_open p.listing.status) ≡ true =
              ground arith in
            now_at ∙ rw (same, p.found, hit) refl;
        closed = refl;
      }
      | inr e ↦ record {
        listing = p.listing;
        found =
            let miss : ((p.listing.id == r.listing_id) && listing_is_open p.listing.status)
                ≡ false =
              ground arith in
            now_at ∙ rw (same, p.found, miss) refl;
        closed = e;
      }
    ]

-- The tables after a trip began.
abbrev pub begun : TripMoments → CargoRequest → TripTables → TripTables
begun m r t =
    turn_down_others m.followed_at r
      (change_status m.followed_at r.listing_id taken (save_request r t))

saved_trip :
    (r : CargoRequest) (t : TripTables)
    → is_started r.status ≡ true
    → find (is_other_trip r) t.requests ≡ none
    → save_trip r t ≡ ok (save_request r t)
unfolding save_trip
saved_trip r t s e = rw (s, e) refl

refused_trip :
    (r x : CargoRequest) (t : TripTables)
    → is_started r.status ≡ true
    → find (is_other_trip r) t.requests ≡ some x
    → save_trip r t ≡ err (conflict "taken")
unfolding save_trip
refused_trip r x t s e = rw (s, e) refl

-- `start_trip` begins the trip, unless another request of the load is one.
pub start_trip-begun :
    (m : TripMoments) (r : CargoRequest) (t : TripTables)
    → Published t.listings r
    → is_started r.status ≡ true
    → find (is_other_trip r) t.requests ≡ none
    → start_trip m r t ≡ (ok r, begun m r t)
unfolding start_trip save_request
start_trip-begun m r t p s e =
    let done = set_status-taken m.followed_at (save_request r t) r p in
    rw (saved_trip r t s e, start_trip, done) refl

pub start_trip_cases :
    (m : TripMoments) (r : CargoRequest) (t : TripTables)
    → Published t.listings r
    → is_started r.status ≡ true
    → (start_trip m r t ≡ (err (conflict "taken"), t))
      ⊎ ((start_trip m r t ≡ (ok r, begun m r t)) × (find (is_other_trip r) t.requests ≡ none))
unfolding start_trip
start_trip_cases m r t p s = elim (Option-cases (find (is_other_trip r) t.requests)) [
  | inr (x, e) ↦ inl (rw (refused_trip r x t s e, start_trip) refl)
  | inl e ↦ inr (start_trip-begun m r t p s e, e)
]
