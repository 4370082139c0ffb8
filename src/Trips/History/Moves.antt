-- ===== src/Trips/History/Moves.antt =====
-- The states of a request and the moves between them, and what a write does to each row of a table.
use transport_backend.Base.{
  ◌≡◌, refl, sym, Bool, true, false, Option, none, some, List, ◌==◌, if◌then◌else◌, by_id,
  by_id-save, by_id-update_where, save, update_where, Bool-cases, inl, inr, arith,
}
use mathlib.Core.Option
use mathlib.Core.Path.{subst}
use transport_backend.Entities.{Uuid}
use transport_backend.Entities.Trip.{
  CargoRequest, CargoRequestStatus, pending, offered, accepted, rejected, declined, expired,
  cancelled, delivered, trip_cancelled,
}
use transport_backend.Fares.{is_started}

-- The life of a request: it waits and is answered, offered and answered in time or not, a trip that
-- is delivered or called off; one that came to nothing may be asked or offered again.
unfoldable pub follows : CargoRequestStatus → CargoRequestStatus → Bool
follows pending pending = true
follows pending offered = true
follows pending accepted = true
follows pending rejected = true
follows pending cancelled = true
follows offered offered = true
follows offered accepted = true
follows offered declined = true
follows offered expired = true
follows accepted accepted = true
follows accepted delivered = true
follows accepted trip_cancelled = true
follows rejected rejected = true
follows rejected pending = true
follows rejected offered = true
follows declined declined = true
follows declined pending = true
follows declined offered = true
follows expired expired = true
follows expired pending = true
follows expired offered = true
follows cancelled cancelled = true
follows cancelled pending = true
follows cancelled offered = true
follows delivered delivered = true
follows trip_cancelled trip_cancelled = true
follows trip_cancelled offered = true
follows _ _ = false

pub follows_refl : (s : CargoRequestStatus) → follows s s ≡ true
unfolding follows
follows_refl pending = refl
follows_refl offered = refl
follows_refl accepted = refl
follows_refl rejected = refl
follows_refl declined = refl
follows_refl expired = refl
follows_refl cancelled = refl
follows_refl delivered = refl
follows_refl trip_cancelled = refl

-- The same request, one move on.
pub record Succeeds (a b : CargoRequest) : Type 0 where
  pub same_listing : b.listing_id ≡ a.listing_id
  pub same_company : b.company_user_id ≡ a.company_user_id
  pub same_driver : b.driver_user_id ≡ a.driver_user_id
  pub moved : follows a.status b.status ≡ true

-- The same, where no trip begins.
pub record Turns (a b : CargoRequest) : Type 0 where
  pub succeeds : Succeeds a b
  pub starts_none : is_started b.status ≡ true → is_started a.status ≡ true

pub Turns-refl : (a : CargoRequest) → Turns a a
Turns-refl a = record {
  succeeds = record {
    same_listing = refl;
    same_company = refl;
    same_driver = refl;
    moved = follows_refl a.status;
  };
  starts_none = λ h. h;
}

-- What becomes of a row: it is changed as `P` says, or it is new and as `N` says.
abbrev pub Becomes :
    (CargoRequest → CargoRequest → Type 0)
    → (CargoRequest → Type 0)
    → Option CargoRequest
    → Option CargoRequest
    → Type 0
Becomes P N none none = Unit
Becomes P N none (some b) = N b
Becomes P N (some a) none = ⊥
Becomes P N (some a) (some b) = P a b

-- So for every row of a table.
abbrev pub Each :
    (CargoRequest → CargoRequest → Type 0)
    → (CargoRequest → Type 0)
    → List CargoRequest
    → List CargoRequest
    → Type 0
Each P N rs rs' =
    (k : Uuid) → Becomes P N (by_id CargoRequest.id k rs) (by_id CargoRequest.id k rs')

module _ (P : CargoRequest → CargoRequest → Type 0) (N : CargoRequest → Type 0)
    (P_refl : (a : CargoRequest) → P a a) where
  pub Becomes-refl : (o : Option CargoRequest) → Becomes P N o o
  Becomes-refl none = tt
  Becomes-refl (some a) = P_refl a

  Becomes-saved :
      (r : CargoRequest) (o : Option CargoRequest)
      → ((a : CargoRequest) → o ≡ some a → P a r)
      → (o ≡ none → N r)
      → Becomes P N o (some r)
  Becomes-saved r none p n = n refl
  Becomes-saved r (some a) p n = p a refl

  pub save-Each :
      (r : CargoRequest) (rs : List CargoRequest)
      → ((a : CargoRequest) → by_id CargoRequest.id r.id rs ≡ some a → P a r)
      → (by_id CargoRequest.id r.id rs ≡ none → N r)
      → Each P N rs (save CargoRequest.id r rs)
  save-Each r rs p n k = rw (by_id-save CargoRequest.id k r rs) (elim (Bool-cases (r.id == k)) [
    | inl e ↦
        let same : r.id ≡ k = ground arith in
        rw e (
          subst (λ j. Becomes P N (by_id CargoRequest.id j rs) (some r)) same
            (Becomes-saved r (by_id CargoRequest.id r.id rs) p n))
    | inr e ↦ rw e (Becomes-refl (by_id CargoRequest.id k rs))
  ])

  Becomes-updated :
      (p : CargoRequest → Bool) (f : CargoRequest → CargoRequest) (o : Option CargoRequest)
      → ((a : CargoRequest) → p a ≡ true → P a (f a))
      → Becomes P N o (Option.map (λ r. if p r then f r else r) o)
  Becomes-updated p f none h = tt
  Becomes-updated p f (some a) h = elim (Bool-cases (p a)) [
    | inl e ↦ rw e (h a e)
    | inr e ↦ rw e (P_refl a)
  ]

  pub update_where-Each :
      (p : CargoRequest → Bool) (f : CargoRequest → CargoRequest) (rs : List CargoRequest)
      → ((a : CargoRequest) → (f a).id ≡ a.id)
      → ((a : CargoRequest) → p a ≡ true → P a (f a))
      → Each P N rs (update_where p f rs)
  update_where-Each p f rs keys h k =
      rw (by_id-update_where CargoRequest.id p f k rs keys)
        (Becomes-updated p f (by_id CargoRequest.id k rs) h)

  -- One row is saved, and of the others some are updated.
  pub update_where-save-Each :
      (p : CargoRequest → Bool) (f : CargoRequest → CargoRequest) (a r : CargoRequest)
      (rs : List CargoRequest)
      → ((x : CargoRequest) → (f x).id ≡ x.id)
      → by_id CargoRequest.id r.id rs ≡ some a
      → P a r
      → p r ≡ false
      → ((x : CargoRequest) → p x ≡ true → P x (f x))
      → Each P N rs (update_where p f (save CargoRequest.id r rs))
  update_where-save-Each p f a r rs keys found move kept others k =
      let saved = by_id-save CargoRequest.id k r rs in
      subst (λ o. Becomes P N (by_id CargoRequest.id k rs) o)
        (sym (by_id-update_where CargoRequest.id p f k (save CargoRequest.id r rs) keys))
        (elim (Bool-cases (r.id == k)) [
          | inl e ↦
              let mine : by_id CargoRequest.id k rs ≡ some a =
                subst (λ j. by_id CargoRequest.id j rs ≡ some a) (ground arith) found in
              rw (saved, e, mine, kept) move
          | inr e ↦ rw (saved, e) (Becomes-updated p f (by_id CargoRequest.id k rs) others)
        ])

pub Succeeds-refl : (a : CargoRequest) → Succeeds a a
Succeeds-refl a = (Turns-refl a).succeeds
