-- ===== src/Trips/History/Restored.antt =====
-- A trip that is called off again leaves the requests that it turned down as they were.
use transport_backend.Base.{
  leb, ◌≡◌, ◌∙◌, refl, sym, ap, Bool, true, false, ◌==◌, Option, none, some, List, by_id, by_id_key,
  by_id-save, by_id-update_where, save, update_where, ok, arith, inl, inr, Result-cases,
}
use transport_backend.Entities.{Uuid, Time}
use transport_backend.Entities.Trip.{
  CargoRequest, CargoRequestStatus, pending, accepted, opened, request_is_pending,
  request_is_accepted,
}
use transport_backend.Trips.Store.{TripTables, save_request, owned, is_company}
use transport_backend.Trips.Listing.{change_status, set_status}
use transport_backend.Trips.Company.{TripMoments, is_other_pending, turned_down, turn_down_others}
use transport_backend.Trips.Delivery.{
  find_trip, is_taken_over, waiting_again, reopen_others, called_off, cancel_trip,
}
use transport_backend.Trips.History.Begins.{begun}
use transport_backend.Trips.History.Statuses.{set_status-requests}

-- What `cancelTrip` does to the requests, whether or not the load opens.
cancel_trip-requests :
    (n : TripMoments) (company : Uuid) (r : CargoRequest) (t : TripTables)
    → by_id CargoRequest.id r.id t.requests ≡ some r
    → r.company_user_id ≡ company
    → r.status ≡ accepted
    → ((cancel_trip n company r.id t).1).requests
      ≡ (reopen_others r.decided_at r (save_request (called_off n.decided_at r) t)).requests
unfolding cancel_trip find_trip owned
cancel_trip-requests n company r t found owner state =
    let owns : (r.company_user_id == company) ≡ true = ground (arith, owner) in
    let goes : request_is_accepted r.status ≡ true = rw state refl in
    let after = reopen_others r.decided_at r (save_request (called_off n.decided_at r) t) in
    let trip : find_trip r.id (is_company company) t ≡ ok r = rw (found, owns, goes) refl in
    elim (Result-cases (set_status n.followed_at company r.listing_id opened after)) [
      | inr (e, g) ↦ rw (trip, cancel_trip, g) refl
      | inl (t', g) ↦
          rw (trip, cancel_trip, g)
            (set_status-requests n.followed_at company r.listing_id opened after t' g)
    ]

-- A row that no write names stays; one that an update names is changed.
kept_by_save :
    (k : Uuid) (r x : CargoRequest) (rs : List CargoRequest)
    → (r.id == k) ≡ false
    → by_id CargoRequest.id k rs ≡ some x
    → by_id CargoRequest.id k (save CargoRequest.id r rs) ≡ some x
kept_by_save k r x rs other e = by_id-save CargoRequest.id k r rs ∙ rw other e

changed_by_update :
    (p : CargoRequest → Bool) (f : CargoRequest → CargoRequest) (k : Uuid) (x : CargoRequest)
    (rs : List CargoRequest)
    → ((a : CargoRequest) → (f a).id ≡ a.id)
    → p x ≡ true
    → by_id CargoRequest.id k rs ≡ some x
    → by_id CargoRequest.id k (update_where p f rs) ≡ some (f x)
changed_by_update p f k x rs keys hit e =
    by_id-update_where CargoRequest.id p f k rs keys ∙ rw (e, hit) refl

kept_by_update :
    (p : CargoRequest → Bool) (f : CargoRequest → CargoRequest) (k : Uuid) (x : CargoRequest)
    (rs : List CargoRequest)
    → ((a : CargoRequest) → (f a).id ≡ a.id)
    → p x ≡ false
    → by_id CargoRequest.id k rs ≡ some x
    → by_id CargoRequest.id k (update_where p f rs) ≡ some x
kept_by_update p f k x rs keys miss e =
    by_id-update_where CargoRequest.id p f k rs keys ∙ rw (e, miss) refl

back_to_itself :
    (now : Time) (x : CargoRequest)
    → x.status ≡ pending
    → x.decided_at ≡ none
    → waiting_again (turned_down now x) ≡ x
unfolding waiting_again turned_down
back_to_itself now x e f =
    ap (λ (s : CargoRequestStatus). record x { status = s; decided_at = none }) (sym e)
    ∙ ap (λ (d : Option Time). record x { decided_at = d }) (sym f)

-- The request of a trip that began.
begun-found :
    (m : TripMoments) (r : CargoRequest) (t : TripTables)
    → by_id CargoRequest.id r.id (begun m r t).requests ≡ some r
unfolding turn_down_others change_status save_request turned_down is_other_pending
begun-found m r t =
    let saved : by_id CargoRequest.id r.id (save CargoRequest.id r t.requests) ≡ some r =
      by_id-save CargoRequest.id r.id r t.requests ∙ ground arith in
    kept_by_update (is_other_pending r.listing_id r.id) (turned_down m.followed_at) r.id r
      (save CargoRequest.id r t.requests) (λ a. refl) (ground arith) saved

-- Another request for the load that waits.
pub record WaitsToo (k : Uuid) (r x : CargoRequest) (t : TripTables) : Type 0 where
  pub found : by_id CargoRequest.id k t.requests ≡ some x
  pub other : (r.id == k) ≡ false
  pub same_load : x.listing_id ≡ r.listing_id
  pub waits : x.status ≡ pending
  pub undecided : x.decided_at ≡ none

begun-turned_down :
    (m : TripMoments) (k : Uuid) (r x : CargoRequest) (t : TripTables)
    → WaitsToo k r x t
    → by_id CargoRequest.id k (begun m r t).requests ≡ some (turned_down m.followed_at x)
unfolding turn_down_others change_status save_request turned_down is_other_pending
begun-turned_down m k r x t w =
    let key : x.id ≡ k = by_id_key CargoRequest.id k t.requests w.found in
    let waits : request_is_pending x.status ≡ true = rw (w.waits) refl in
    changed_by_update (is_other_pending r.listing_id r.id) (turned_down m.followed_at) k x
      (save CargoRequest.id r t.requests) (λ a. refl) (ground (arith, w.same_load, w.other))
      (kept_by_save k r x t.requests w.other w.found)

-- Where the clock does not run backwards, a trip that begins and is called off by the company
-- leaves every other request for the load that waited before, with no answer, just as it was,
-- whether or not the load could be opened again.
pub called_off_restores :
    (m n : TripMoments) (company k : Uuid) (since : Time) (r x : CargoRequest) (t : TripTables)
    → r.status ≡ accepted
    → r.company_user_id ≡ company
    → r.decided_at ≡ some since
    → leb since m.followed_at ≡ true
    → WaitsToo k r x t
    → by_id CargoRequest.id k ((cancel_trip n company r.id (begun m r t)).1).requests ≡ some x
unfolding reopen_others save_request called_off waiting_again is_taken_over turned_down
called_off_restores m n company k since r x t state owner decided later w =
    let rows = (begun m r t).requests in
    let key : x.id ≡ k = by_id_key CargoRequest.id k t.requests w.found in
    let down = begun-turned_down m k r x t w in
    let off =
      kept_by_save k (called_off n.decided_at r) (turned_down m.followed_at x) rows w.other down in
    ap (by_id CargoRequest.id k)
      (cancel_trip-requests n company r (begun m r t) (begun-found m r t) owner state)
    ∙ ap
        (λ (d : Option Time).
          by_id CargoRequest.id k
            (reopen_others d r (save_request (called_off n.decided_at r) (begun m r t))).requests)
        decided
    ∙ changed_by_update (is_taken_over r.listing_id r.id since) waiting_again k
        (turned_down m.followed_at x) (save CargoRequest.id (called_off n.decided_at r) rows)
        (λ a. refl) (ground (arith, w.same_load, w.other)) off
    ∙ ap some (back_to_itself m.followed_at x w.waits w.undecided)
