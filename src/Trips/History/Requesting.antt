-- ===== src/Trips/History/Requesting.antt =====
-- The handler `request`: what it writes where its checks pass.
use transport_backend.Base.{
  Text, ◌≡◌, ◌∙◌, refl, sym, ap, Bool, true, false, Option, none, some, ◌==◌, is_some, by_id,
  by_id_key, Result-cases, ok, Bool-cases, Option-cases, inl, inr, arith,
}
use mathlib.Core.Path.{subst}
use transport_backend.Entities.{Uuid, Time}
use transport_backend.Entities.Trip.{
  CargoListing, CargoRequest, CargoRequestStatus, pending, declined, expired, cancelled,
  BrokerDriver, listing_is_open, request_is_rejected, request_is_trip_cancelled,
}
use transport_backend.Fares.{is_started}
use transport_backend.Brokers.{BrokerTables, BrokerRules, can_see, use_request}
use transport_backend.Trips.Store.{
  TripTables, find_by_listing_and_driver, find_active_offer, save_request,
}
use transport_backend.Trips.Requests.{
  Asked, is_live, status_is, row_for, asking, plan_request, request,
}
use transport_backend.Trips.History.Moves.{follows}
use transport_backend.Trips.History.Sound.{is_first, Sound, Quiet, Quiet-refl}
use transport_backend.Trips.History.Handlers.{turns, Moved-to, saved-Quiet}
use transport_backend.Trips.History.Asking.{
  saved_row-Quiet, open_not_started, IsEarlier, find_by_listing_and_driver-IsEarlier,
}

-- To a request that waits, from a state that the checks let pass.
asking_follows :
    (s : CargoRequestStatus)
    → is_live s ≡ false
    → request_is_rejected s ≡ false
    → request_is_trip_cancelled s ≡ false
    → is_started s ≡ false
    → follows s pending ≡ true
unfolding follows is_started
asking_follows declined a b c d = refl
asking_follows expired a b c d = refl
asking_follows cancelled a b c d = refl
asking_follows _ a b c d = absurd (ground arith)

-- The row that was there, if any, is one that may be asked for again.
abbrev MayAsk : Option CargoRequest → Type 0
MayAsk o =
    (status_is is_live o ≡ false)
    × (status_is request_is_rejected o ≡ false)
    × (status_is request_is_trip_cancelled o ≡ false)

asked_row-Quiet :
    (source : Option Text) (for_driver : Option BrokerDriver) (border : Option Text)
    (new_id user : Uuid) (l : CargoListing) (earlier : Option CargoRequest) (t : TripTables)
    → Sound t
    → by_id CargoListing.id l.id t.listings ≡ some l
    → listing_is_open l.status ≡ true
    → by_id CargoRequest.id new_id t.requests ≡ none
    → MayAsk earlier
    → ((r : CargoRequest) → earlier ≡ some r → IsEarlier l.id user t r)
    → Quiet t (save_request (asking source for_driver border (row_for new_id user l earlier)) t)
unfolding is_started is_first asking
asked_row-Quiet source for_driver border new_id user l none t i load opn fresh may h =
    saved_row-Quiet t (asking source for_driver border (row_for new_id user l none)) i
      (λ a e. absurd (ground arith))
      (λ n. record {
        published = record { listing = l; found = load; publisher = refl };
        no_trip = refl;
        first = refl;
      })
asked_row-Quiet source for_driver border new_id user l (some r) t i load opn fresh
      (live, turned, off) h =
    let w = h r refl in
    let quiet =
      open_not_started t l r i (ap (λ k. by_id CargoListing.id k t.listings) w.of_listing ∙ load)
        opn w.found in
    saved-Quiet t (asking source for_driver border r) i (
      Moved-to t r _ w.found refl (
        turns r _ refl refl refl (asking_follows r.status live turned off quiet)
          (λ s. absurd (ground arith))))

module _ (rules : BrokerRules) (now : Time) (user listing_id : Uuid) (asked : Asked)
    (t : TripTables) (i : Sound t)
    (fresh : by_id CargoRequest.id asked.new_id t.requests ≡ none) where
  -- What the checks found.
  record Passed (row : CargoRequest) : Type 0 where
    load : CargoListing
    found : by_id CargoListing.id listing_id t.listings ≡ some load
    is_open : listing_is_open load.status ≡ true
    may_ask : MayAsk (find_by_listing_and_driver listing_id user t)
    for_driver : Option BrokerDriver
    border : Option Text
    made :
        asking asked.source for_driver border
          (row_for asked.new_id user load (find_by_listing_and_driver listing_id user t))
        ≡ row

  plan_request-Passed :
      (row : CargoRequest) (charged : Bool) (brokers : BrokerTables)
      → plan_request rules now user listing_id asked t ≡ ok (row, charged, brokers)
      → Passed row
  unfolding plan_request
  plan_request-Passed row charged brokers h = elim (Result-cases asked.for_driver) [
    | inr (e, f) ↦ absurd (ground arith)
    | inl (d, f) ↦ elim (Option-cases (by_id CargoListing.id listing_id t.listings)) [
      | inl e ↦ absurd (ground arith)
      | inr (l, g) ↦ elim (Bool-cases (listing_is_open l.status)) [
        | inr e ↦ absurd (ground arith)
        | inl opn ↦ elim (Bool-cases (l.publisher_user_id == user)) [
          | inl e ↦ absurd (ground arith)
          | inr own ↦ elim (Bool-cases (can_see rules now user l.publisher_user_id t.brokers)) [
            | inr e ↦ absurd (ground arith)
            | inl sees ↦ elim (Result-cases (asked.border l)) [
              | inr (e, k) ↦ absurd (ground arith)
              | inl (b, k) ↦
                  elim (Bool-cases
                    (status_is is_live (find_by_listing_and_driver listing_id user t))) [
                      | inl e ↦ absurd (ground arith)
                      | inr live ↦
                          elim (Bool-cases (is_some (find_active_offer now listing_id t))) [
                            | inl e ↦ absurd (ground arith)
                            | inr free ↦
                                elim (Bool-cases (
                                  status_is request_is_rejected
                                    (find_by_listing_and_driver listing_id user t))) [
                                      | inl e ↦ absurd (ground arith)
                                      | inr turned ↦
                                          elim (Bool-cases (
                                            status_is request_is_trip_cancelled
                                              (find_by_listing_and_driver listing_id user t))) [
                                                | inl e ↦ absurd (ground arith)
                                                | inr off ↦
                                                    elim (Result-cases
                                                      (use_request rules user t.brokers)) [
                                                        | inr (e, u) ↦ absurd (ground arith)
                                                        | inl (c, u) ↦ record {
                                                          load = l;
                                                          found = g;
                                                          is_open = opn;
                                                          may_ask = (live, turned, off);
                                                          for_driver = d;
                                                          border = b;
                                                          made = ground arith;
                                                        }
                                                      ]
                                              ]
                                    ]
                          ]
                    ]
            ]
          ]
        ]
      ]
    ]
  ]

  plan_request-Quiet :
      (row : CargoRequest) (charged : Bool) (brokers : BrokerTables)
      → plan_request rules now user listing_id asked t ≡ ok (row, charged, brokers)
      → Quiet t (save_request row t)
  plan_request-Quiet row charged brokers h =
      let p = plan_request-Passed row charged brokers h in
      let earlier = find_by_listing_and_driver listing_id user t in
      let key = by_id_key CargoListing.id listing_id t.listings p.found in
      subst (λ x. Quiet t (save_request x t)) p.made
        (asked_row-Quiet asked.source p.for_driver p.border asked.new_id user p.load earlier t i
          (ap (λ k. by_id CargoListing.id k t.listings) key ∙ p.found) p.is_open fresh p.may_ask
          (λ x e.
            let w = find_by_listing_and_driver-IsEarlier listing_id user t x i e in
            record {
              found = w.found;
              of_listing = w.of_listing ∙ sym key;
              of_driver = w.of_driver;
            }))

  pub request-Quiet : Quiet t (request rules now user listing_id asked t).1
  unfolding request save_request
  request-Quiet = elim (Result-cases (plan_request rules now user listing_id asked t)) [
    | inr (e, f) ↦ rw (f, request) (Quiet-refl t i)
    | inl ((row, charged, brokers), f) ↦ elim (Result-cases asked.saved) [
      | inr (e, g) ↦
          rw (f, request, g)
            (let q = Quiet-refl t i in record { loads = q.loads; keys = q.keys; each = q.each })
      | inl (done, g) ↦
          rw (f, request, g)
            (let q = plan_request-Quiet row charged brokers f in
              record { loads = q.loads; keys = q.keys; each = q.each })
    ]
  ]
