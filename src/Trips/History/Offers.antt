-- ===== src/Trips/History/Offers.antt =====
-- Offers: `offer`, an answer that is late or no, and `expireOffers`.
use transport_backend.Base.{
  ℕ, zero, suc, ◌≡◌, refl, true, none, some, List, [], ◌∷◌, ◌==◌, by_id, Distinct, Result-cases, ok,
  Bool-cases, inl, inr, arith,
}
use mathlib.Core.Path.{subst}
use transport_backend.Entities.{Uuid, Time}
use transport_backend.Entities.Trip.{CargoRequest, offered, declined, expired, request_is_offered}
use transport_backend.Fares.{is_started}
use transport_backend.Trips.Store.{TripTables, save_request, owned, is_requester}
use transport_backend.Trips.Company.{
  TripMoments, ended, check_response, answered, is_expired_offer, expire_first, expire_offers,
}
use transport_backend.Trips.History.Moves.{follows, Turns, Turns-refl, Becomes-refl, Each}
use transport_backend.Trips.History.Sound.{Sound, IsNew, Quiet}
use transport_backend.Trips.History.Handlers.{
  eq-offered, owned-found, turn_to, Moved-to, saved-Quiet,
}

-- An offer that the driver may answer.
pub record IsOffered (t : TripTables) (r : CargoRequest) : Type 0 where
  pub found : by_id CargoRequest.id r.id t.requests ≡ some r
  pub is_offered : r.status ≡ offered

pub check_response-IsOffered :
    (user id : Uuid) (t : TripTables) (r : CargoRequest)
    → check_response user id t ≡ ok r
    → IsOffered t r
unfolding check_response
check_response-IsOffered user id t r h = elim (Result-cases (owned id (is_requester user) t)) [
  | inr (e, f) ↦ absurd (ground arith)
  | inl (a, f) ↦ elim (Bool-cases (request_is_offered a.status)) [
    | inr g ↦ absurd (ground arith)
    | inl g ↦
        let same : a ≡ r = ground arith in
        subst (λ x. IsOffered t x) same
          (record {
            found = owned-found id (is_requester user) t a f;
            is_offered = eq-offered a.status g;
          })
  ]
]

pub ended-Quiet :
    (t : TripTables) (r : CargoRequest)
    → Sound t
    → IsOffered t r
    → Quiet t (save_request (ended r) t)
unfolding ended follows is_started
ended-Quiet t r i o = saved-Quiet t (ended r) i (
    Moved-to t r _ o.found refl
      (turn_to offered expired r _ o.is_offered refl refl refl refl refl refl))

pub declined-Quiet :
    (m : TripMoments) (t : TripTables) (r : CargoRequest)
    → Sound t
    → IsOffered t r
    → Quiet t (save_request (answered m declined r) t)
unfolding answered follows is_started
declined-Quiet m t r i o = saved-Quiet t (answered m declined r) i (
    Moved-to t r _ o.found refl
      (turn_to offered declined r _ o.is_offered refl refl refl refl refl refl))

ended-Turns : (now : Time) (r : CargoRequest) → is_expired_offer now r ≡ true → Turns r (ended r)
unfolding is_expired_offer ended follows is_started
ended-Turns now r e =
    turn_to offered expired r _ (eq-offered r.status (ground arith)) refl refl refl refl refl refl

expire_first-Each :
    (N : CargoRequest → Type 0) (n : ℕ) (now : Time) (rs : List CargoRequest)
    → Each Turns N rs (expire_first n now rs)
unfolding expire_first by_id ended
expire_first-Each N zero now rs k = Becomes-refl Turns N Turns-refl (by_id CargoRequest.id k rs)
expire_first-Each N (suc n) now [] k = tt
expire_first-Each N (suc n) now (r ∷ rs) k = elim (Bool-cases (is_expired_offer now r)) [
  | inl e ↦
      rw (e, expire_first)
        (elim (Bool-cases (r.id == k)) [
          | inl f ↦ rw f (ended-Turns now r e)
          | inr f ↦ rw f (expire_first-Each N n now rs k)
        ])
  | inr e ↦
      rw (e, expire_first)
        (elim (Bool-cases (r.id == k)) [
          | inl f ↦ rw f (Turns-refl r)
          | inr f ↦ rw f (expire_first-Each N (suc n) now rs k)
        ])
]

by_id-expire_first :
    (n : ℕ) (now : Time) (k : Uuid) (rs : List CargoRequest)
    → by_id CargoRequest.id k rs ≡ none
    → by_id CargoRequest.id k (expire_first n now rs) ≡ none
unfolding expire_first by_id ended
by_id-expire_first zero now k rs h = h
by_id-expire_first (suc n) now k [] h = refl
by_id-expire_first (suc n) now k (r ∷ rs) h =
    ground (arith, by_id-expire_first n now k rs, by_id-expire_first (suc n) now k rs)

Distinct-expire_first :
    (n : ℕ) (now : Time) (rs : List CargoRequest)
    → Distinct CargoRequest.id rs
    → Distinct CargoRequest.id (expire_first n now rs)
unfolding expire_first ended
Distinct-expire_first zero now rs d = d
Distinct-expire_first (suc n) now [] d = tt
Distinct-expire_first (suc n) now (r ∷ rs) (h, d) = elim (Bool-cases (is_expired_offer now r)) [
  | inl e ↦
      rw (e, expire_first) (by_id-expire_first n now r.id rs h, Distinct-expire_first n now rs d)
  | inr e ↦
      rw (e, expire_first)
        (by_id-expire_first (suc n) now r.id rs h, Distinct-expire_first (suc n) now rs d)
]

pub expire_offers-Quiet : (now : Time) (t : TripTables) → Sound t → Quiet t (expire_offers now t)
unfolding expire_offers
expire_offers-Quiet now t i = record {
  loads = refl;
  keys = Distinct-expire_first 100 now t.requests i.distinct;
  each = expire_first-Each (IsNew t.listings) 100 now t.requests;
}
