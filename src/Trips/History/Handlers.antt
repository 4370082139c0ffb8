-- ===== src/Trips/History/Handlers.antt =====
-- What the handlers that begin no trip share, and `cancel` and `reject`: a request moves along its
-- life.
use transport_backend.Base.{
  ◌≡◌, ◌∙◌, refl, sym, ap, Bool, true, false, some, by_id, by_id_key, Distinct-save, Result,
  Result-cases, ok, err, Bool-cases, Option-cases, inl, inr, arith,
}
use mathlib.Core.Path.{subst}
use transport_backend.Entities.{Uuid}
use transport_backend.Entities.Trip.{
  CargoRequest, CargoRequestStatus, pending, offered, accepted, rejected, cancelled,
  request_is_pending, request_is_offered, request_is_accepted, request_is_rejected,
}
use transport_backend.Fares.{is_started}
use transport_backend.Trips.Store.{TripTables, save_request, owned, is_company, is_requester}
use transport_backend.Trips.Requests.{saved_or, plan_cancel, cancel}
use transport_backend.Trips.Company.{TripMoments, check_decision, plan_reject, reject}
use transport_backend.Trips.History.Moves.{follows, Turns, Turns-refl, save-Each}
use transport_backend.Trips.History.Sound.{Sound, IsNew, Quiet, Quiet-refl}

pub eq-pending : (s : CargoRequestStatus) → request_is_pending s ≡ true → s ≡ pending
eq-pending pending h = refl
eq-pending _ h = absurd (ground arith)

pub eq-offered : (s : CargoRequestStatus) → request_is_offered s ≡ true → s ≡ offered
eq-offered offered h = refl
eq-offered _ h = absurd (ground arith)

pub eq-accepted : (s : CargoRequestStatus) → request_is_accepted s ≡ true → s ≡ accepted
eq-accepted accepted h = refl
eq-accepted _ h = absurd (ground arith)

pub eq-rejected : (s : CargoRequestStatus) → request_is_rejected s ≡ true → s ≡ rejected
eq-rejected rejected h = refl
eq-rejected _ h = absurd (ground arith)

-- A row of the table, and what it becomes.
pub record Moved (t : TripTables) (P : CargoRequest → CargoRequest → Type 0) (r : CargoRequest)
    : Type 0 where
  pub before : CargoRequest
  pub found : by_id CargoRequest.id r.id t.requests ≡ some before
  pub change : P before r

pub owned-found :
    (id : Uuid) (allowed : CargoRequest → Bool) (t : TripTables) (r : CargoRequest)
    → owned id allowed t ≡ ok r
    → by_id CargoRequest.id r.id t.requests ≡ some r
unfolding owned
owned-found id allowed t r h = elim (Option-cases (by_id CargoRequest.id id t.requests)) [
  | inl e ↦ absurd (ground arith)
  | inr (x, e) ↦
      let key : x.id ≡ id = by_id_key CargoRequest.id id t.requests e in
      let same : x ≡ r = ground arith in
      ap (λ (y : CargoRequest). by_id CargoRequest.id y.id t.requests) (sym same)
      ∙ ap (λ k. by_id CargoRequest.id k t.requests) key
      ∙ e
      ∙ ap some same
]

-- A turn in which only the state of the request and its notes change.
pub turns :
    (a b : CargoRequest)
    → b.listing_id ≡ a.listing_id
    → b.company_user_id ≡ a.company_user_id
    → b.driver_user_id ≡ a.driver_user_id
    → follows a.status b.status ≡ true
    → (is_started b.status ≡ true → is_started a.status ≡ true)
    → Turns a b
turns a b l c d f s = record {
  succeeds = record { same_listing = l; same_company = c; same_driver = d; moved = f };
  starts_none = s;
}

pub saved-Quiet :
    (t : TripTables) (r : CargoRequest) → Sound t → Moved t Turns r → Quiet t (save_request r t)
unfolding save_request
saved-Quiet t r i m = record {
  loads = refl;
  keys = Distinct-save CargoRequest.id r t.requests i.distinct;
  each =
      save-Each Turns (IsNew t.listings) Turns-refl r t.requests
        (λ a e.
          let same : m.before ≡ a = ground (arith, m.found) in subst (λ x. Turns x r) same m.change)
        (λ n. absurd (ground (arith, m.found)));
}

pub saved_or-Quiet :
    (t : TripTables) (plan : Result CargoRequest)
    → Sound t
    → ((r : CargoRequest) → plan ≡ ok r → Moved t Turns r)
    → Quiet t (saved_or t plan).1
saved_or-Quiet t (err e) i h = Quiet-refl t i
saved_or-Quiet t (ok r) i h = saved-Quiet t r i (h r refl)

-- From one state to another that is no trip.
pub turn_to :
    (from to : CargoRequestStatus) (a b : CargoRequest)
    → a.status ≡ from
    → b.status ≡ to
    → b.listing_id ≡ a.listing_id
    → b.company_user_id ≡ a.company_user_id
    → b.driver_user_id ≡ a.driver_user_id
    → follows from to ≡ true
    → is_started to ≡ false
    → Turns a b
turn_to from to a b e f l c d moved quiet =
    turns a b l c d (rw (e, f) moved) (λ h. absurd (ground arith))

-- A row that is found and moved.
pub Moved-to :
    (t : TripTables) (a b : CargoRequest)
    → by_id CargoRequest.id a.id t.requests ≡ some a
    → b.id ≡ a.id
    → Turns a b
    → Moved t Turns b
Moved-to t a b found same turn = record {
  before = a;
  found = ap (λ k. by_id CargoRequest.id k t.requests) same ∙ found;
  change = turn;
}

plan_cancel-Moved :
    (user id : Uuid) (t : TripTables) (r : CargoRequest)
    → plan_cancel user id t ≡ ok r
    → Moved t Turns r
unfolding plan_cancel follows is_started
plan_cancel-Moved user id t r h = elim (Result-cases (owned id (is_requester user) t)) [
  | inr (e, f) ↦ absurd (ground arith)
  | inl (a, f) ↦ elim (Bool-cases (request_is_pending a.status)) [
    | inr g ↦ absurd (ground arith)
    | inl g ↦
        let made : record a { status = cancelled } ≡ r = ground arith in
        subst (λ x. Moved t Turns x) made
          (Moved-to t a _ (owned-found id (is_requester user) t a f) refl
            (turn_to pending cancelled a _ (eq-pending a.status g) refl refl refl refl refl refl))
  ]
]

pub cancel-Quiet : (user id : Uuid) (t : TripTables) → Sound t → Quiet t (cancel user id t).1
unfolding cancel
cancel-Quiet user id t i =
    saved_or-Quiet t (plan_cancel user id t) i (λ r. plan_cancel-Moved user id t r)

-- A request that passes the checks of `decide` waits.
pub record Waits (t : TripTables) (r : CargoRequest) : Type 0 where
  pub found : by_id CargoRequest.id r.id t.requests ≡ some r
  pub is_pending : r.status ≡ pending

pub check_decision-Waits :
    (m : TripMoments) (company id : Uuid) (accept : Bool) (t : TripTables) (r : CargoRequest)
    → check_decision m company id accept t ≡ ok r
    → Waits t r
unfolding check_decision
check_decision-Waits m company id accept t r h =
    elim (Result-cases (owned id (is_company company) t)) [
      | inr (e, f) ↦ absurd (ground arith)
      | inl (a, f) ↦ elim (Bool-cases (request_is_pending a.status)) [
        | inr g ↦ absurd (ground arith)
        | inl g ↦
            let same : a ≡ r = ground arith in
            subst (λ x. Waits t x) same
              (record {
                found = owned-found id (is_company company) t a f;
                is_pending = eq-pending a.status g;
              })
      ]
    ]

plan_reject-Moved :
    (m : TripMoments) (company id : Uuid) (t : TripTables) (r : CargoRequest)
    → plan_reject m company id t ≡ ok r
    → Moved t Turns r
unfolding plan_reject follows is_started
plan_reject-Moved m company id t r h = elim (Result-cases (check_decision m company id false t)) [
  | inr (e, f) ↦ absurd (ground arith)
  | inl (a, f) ↦
      let w = check_decision-Waits m company id false t a f in
      let made : record a { status = rejected; decided_at = some m.decided_at } ≡ r =
        ground arith in
      subst (λ x. Moved t Turns x) made
        (Moved-to t a _ w.found refl
          (turn_to pending rejected a _ w.is_pending refl refl refl refl refl refl))
]

pub reject-Quiet :
    (m : TripMoments) (company id : Uuid) (t : TripTables)
    → Sound t
    → Quiet t (reject m company id t).1
unfolding reject
reject-Quiet m company id t i =
    saved_or-Quiet t (plan_reject m company id t) i (λ r. plan_reject-Moved m company id t r)
