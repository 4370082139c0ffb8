-- ===== src/Trips/History/Sound.antt =====
-- What holds between the requests and the loads, and the writes that keep it.
use transport_backend.Base.{
  Bool, true, false, ◌≡◌, ◌∙◌, refl, sym, ap, true, false, Option, none, some, List, [], by_id,
  Distinct, inl, inr, arith, ◌⊎◌,
}
use mathlib.Core.Path.{subst}
use transport_backend.Entities.{Uuid}
use transport_backend.Entities.Trip.{
  CargoListing, CargoRequest, CargoRequestStatus, pending, offered, listing_is_open,
}
use transport_backend.Fares.{is_started}
use transport_backend.Trips.Store.{TripTables}
use transport_backend.Trips.History.Moves.{Succeeds, Turns, Turns-refl, Becomes, Becomes-refl, Each}

-- The load of a request, with the request's company as its publisher.
pub record Published (listings : List CargoListing) (r : CargoRequest) : Type 0 where
  pub listing : CargoListing
  pub found : by_id CargoListing.id r.listing_id listings ≡ some listing
  pub publisher : listing.publisher_user_id ≡ r.company_user_id

-- Its load is not open.
pub record Held (listings : List CargoListing) (r : CargoRequest) : Type 0 where
  pub listing : CargoListing
  pub found : by_id CargoListing.id r.listing_id listings ≡ some listing
  pub closed : listing_is_open listing.status ≡ false

abbrev pub AllPublished : List CargoListing → List CargoRequest → Type 0
AllPublished ls rs =
    (k : Uuid) (r : CargoRequest) → by_id CargoRequest.id k rs ≡ some r → Published ls r

abbrev pub AllHeld : List CargoListing → List CargoRequest → Type 0
AllHeld ls rs =
    (k : Uuid) (r : CargoRequest)
    → by_id CargoRequest.id k rs ≡ some r
    → is_started r.status ≡ true
    → Held ls r

abbrev pub OneTrip : List CargoRequest → Type 0
OneTrip rs =
    (j k : Uuid) (r s : CargoRequest)
    → by_id CargoRequest.id j rs ≡ some r
    → by_id CargoRequest.id k rs ≡ some s
    → is_started r.status ≡ true
    → is_started s.status ≡ true
    → r.listing_id ≡ s.listing_id
    → j ≡ k

-- Every request is for a load of its company; the load of a trip, under way or delivered, is not
-- open; and a load has one trip at most.
pub record IsSound (ls : List CargoListing) (rs : List CargoRequest) : Type 0 where
  pub distinct : Distinct CargoRequest.id rs
  pub published : AllPublished ls rs
  pub held : AllHeld ls rs
  pub one_trip : OneTrip rs

abbrev pub Sound : TripTables → Type 0
Sound t = IsSound t.listings t.requests

-- The states that a new request has.
unfoldable pub is_first : CargoRequestStatus → Bool
is_first pending = true
is_first offered = true
is_first _ = false

-- A new request is for a load of its company, waits or is offered, and is no trip.
pub record IsNew (listings : List CargoListing) (r : CargoRequest) : Type 0 where
  pub published : Published listings r
  pub no_trip : is_started r.status ≡ false
  pub first : is_first r.status ≡ true

-- Where a row comes from.
came_from :
    (P : CargoRequest → CargoRequest → Type 0) (N : CargoRequest → Type 0) (o : Option CargoRequest)
    (b : CargoRequest)
    → Becomes P N o (some b)
    → ((a : CargoRequest) × (o ≡ some a) × P a b) ⊎ N b
came_from P N none b h = inr h
came_from P N (some a) b h = inl (a, refl, h)

pub row_came :
    (P : CargoRequest → CargoRequest → Type 0) (N : CargoRequest → Type 0)
    (rs rs' : List CargoRequest)
    → Each P N rs rs'
    → (k : Uuid) (b : CargoRequest) → by_id CargoRequest.id k rs' ≡ some b
    → ((a : CargoRequest) × (by_id CargoRequest.id k rs ≡ some a) × P a b) ⊎ N b
row_came P N rs rs' each k b e =
    came_from P N (by_id CargoRequest.id k rs) b
      (subst (λ o. Becomes P N (by_id CargoRequest.id k rs) o) e (each k))

pub Published-Succeeds :
    (ls : List CargoListing) (a b : CargoRequest) → Succeeds a b → Published ls a → Published ls b
Published-Succeeds ls a b s p = record {
  listing = p.listing;
  found = ap (λ j. by_id CargoListing.id j ls) s.same_listing ∙ p.found;
  publisher = p.publisher ∙ sym s.same_company;
}

Held-Succeeds : (ls : List CargoListing) (a b : CargoRequest) → Succeeds a b → Held ls a → Held ls b
Held-Succeeds ls a b s p = record {
  listing = p.listing;
  found = ap (λ j. by_id CargoListing.id j ls) s.same_listing ∙ p.found;
  closed = p.closed;
}

-- A row that is a trip after a write that begins none was one before.
was_trip :
    (ls : List CargoListing) (rs rs' : List CargoRequest)
    → Each Turns (IsNew ls) rs rs'
    → (k : Uuid) (b : CargoRequest) → by_id CargoRequest.id k rs' ≡ some b
    → is_started b.status ≡ true
    → (a : CargoRequest) × (by_id CargoRequest.id k rs ≡ some a)
      × Succeeds a b
      × (is_started a.status ≡ true)
was_trip ls rs rs' each k b e s = elim (row_came Turns (IsNew ls) rs rs' each k b e) [
  | inl (a, found, turn) ↦ (a, found, turn.succeeds, turn.starts_none s)
  | inr fresh ↦ let no : is_started b.status ≡ false = fresh.no_trip in absurd (ground arith)
]

-- A write that begins no trip keeps it all.
pub Each-IsSound :
    (ls : List CargoListing) (rs rs' : List CargoRequest)
    → IsSound ls rs
    → Distinct CargoRequest.id rs'
    → Each Turns (IsNew ls) rs rs'
    → IsSound ls rs'
Each-IsSound ls rs rs' i d each = record {
  distinct = d;
  published = λ k b e. elim (row_came Turns (IsNew ls) rs rs' each k b e) [
    | inl (a, found, turn) ↦ Published-Succeeds ls a b turn.succeeds (i.published k a found)
    | inr fresh ↦ fresh.published
  ];
  held = λ k b e s.
      let (a, found, move, was) = was_trip ls rs rs' each k b e s in
      Held-Succeeds ls a b move (i.held k a found was);
  one_trip = λ j k x y e f u v same.
      let (a, found_a, move_a, was_a) = was_trip ls rs rs' each j x e u in
      let (b, found_b, move_b, was_b) = was_trip ls rs rs' each k y f v in
      i.one_trip j k a b found_a found_b was_a was_b
        (sym move_a.same_listing ∙ same ∙ move_b.same_listing);
}

-- What a handler does that begins no trip and leaves the loads alone.
pub record Quiet (t t' : TripTables) : Type 0 where
  pub loads : t'.listings ≡ t.listings
  pub keys : Distinct CargoRequest.id t'.requests
  pub each : Each Turns (IsNew t.listings) t.requests t'.requests

pub Quiet-Sound : (t t' : TripTables) → Sound t → Quiet t t' → Sound t'
Quiet-Sound t t' i q =
    subst (λ ls. IsSound ls t'.requests) (sym q.loads)
      (Each-IsSound t.listings t.requests t'.requests i q.keys q.each)

pub Quiet-refl : (t : TripTables) → Sound t → Quiet t t
Quiet-refl t i = record {
  loads = refl;
  keys = i.distinct;
  each = λ k. Becomes-refl Turns (IsNew t.listings) Turns-refl (by_id CargoRequest.id k t.requests);
}

-- What every handler keeps: the tables stay sound, and every request moves along its life.
pub record Keeps (t t' : TripTables) : Type 0 where
  pub sound : Sound t'
  pub moves : Each Succeeds (IsNew t.listings) t.requests t'.requests

weaker :
    (N : CargoRequest → Type 0) (o o' : Option CargoRequest)
    → Becomes Turns N o o'
    → Becomes Succeeds N o o'
weaker N none none h = tt
weaker N none (some b) h = h
weaker N (some a) none h = h
weaker N (some a) (some b) h = h.succeeds

pub Quiet-Keeps : (t t' : TripTables) → Sound t → Quiet t t' → Keeps t t'
Quiet-Keeps t t' i q = record {
  sound = Quiet-Sound t t' i q;
  moves = λ k.
      weaker (IsNew t.listings) (by_id CargoRequest.id k t.requests)
        (by_id CargoRequest.id k t'.requests) (q.each k);
}

pub Keeps-refl : (t : TripTables) → Sound t → Keeps t t
Keeps-refl t i = Quiet-Keeps t t i (Quiet-refl t i)

-- With no requests nothing can be amiss.
pub no_requests-Sound : (t : TripTables) → t.requests ≡ [] → Sound t
unfolding by_id
no_requests-Sound t e =
    subst (λ rs. IsSound t.listings rs) (sym e)
      (record {
        distinct = tt;
        published = λ k r h. absurd (ground arith);
        held = λ k r h s. absurd (ground arith);
        one_trip = λ j k r s h h' u v same. absurd (ground arith);
      })
