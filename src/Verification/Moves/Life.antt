-- ===== src/Verification/Moves/Life.antt =====
-- Histories of the check of accounts of src/services/company/accountVerification.service.ts, on any
-- accounts and in any order.
use transport_backend.Base.{
  ℕ, ◌+◌, ◌≤◌, ◌≡◌, refl, ap, ◌∙◌, Bool, true, false, ◌&&◌, Option, none, some, List, [], ◌∷◌,
  arith, by_id,
}
use transport_backend.Entities.{Uuid}
use transport_backend.Auth.Accounts.{Account, is_approved, is_awaiting, is_askable}
use transport_backend.Verification.Profile.{Profile}
use transport_backend.Verification.Requests.{CheckTables, asked_row, approved_row, rejected_row}
use transport_backend.Verification.Moves.{
  CheckEvent, Move, stays, asked, approved_by, rejected_by, after, event_moves,
}

-- A condition on the row of an account, false without one.
abbrev pub row_is : (Account → Bool) → Option Account → Bool
row_is p none = false
row_is p (some u) = p u

abbrev pub asks_again : Account → Bool
asks_again u = is_askable u.verification_status

abbrev pub waits_for_answer : Account → Bool
waits_for_answer u = is_awaiting u.verification_status

abbrev pub one_if : Bool → ℕ
one_if true = 1
one_if false = 0

module _ (driver_verification : Bool) (profile : Uuid → Profile) where
  unfoldable pub after_all : List CheckEvent → CheckTables → CheckTables
  after_all [] t = t
  after_all (e ∷ es) t = after_all es (after driver_verification profile e t)

  -- Whether an event puts a request of the account before the parent companies.
  unfoldable pub puts_request : Uuid → CheckEvent → CheckTables → Bool
  puts_request k e t =
      row_is asks_again (by_id Account.id k t.users)
      && row_is waits_for_answer (by_id Account.id k (after driver_verification profile e t).users)

  unfoldable pub requests_in : Uuid → List CheckEvent → CheckTables → ℕ
  requests_in k [] t = 0
  requests_in k (e ∷ es) t =
      one_if (puts_request k e t) + requests_in k es (after driver_verification profile e t)

  counted :
      (t : CheckTables) (u u' : Account) (e : CheckEvent)
      → Move t u e u'
      → u.verification_requests ≤ 4
      → (one_if (asks_again u && waits_for_answer u') + u.verification_requests
          ≡ u'.verification_requests)
        × (u'.verification_requests ≤ 4)
  unfolding asked_row approved_row rejected_row
  counted t u u' e (stays _) h = ground arith
  counted t u u' e (asked now user same askable few) h = ground arith
  counted t u u' e (approved_by now parent user same boss waiting) h = ground arith
  counted t u u' e (rejected_by now parent user reason same boss waiting) h = ground arith

  -- From an account that has asked at most four times, whatever is requested, approved and rejected
  -- afterwards, in whatever order and by whom: its row counts each request that it puts before the
  -- parent companies, and with those counted before they are never more than four.
  pub requests_end :
      (k : Uuid) (es : List CheckEvent) (t : CheckTables) (u : Account)
      → by_id Account.id k t.users ≡ some u
      → u.verification_requests ≤ 4
      → (u' : Account) × (by_id Account.id k (after_all es t).users ≡ some u')
        × (requests_in k es t + u.verification_requests ≡ u'.verification_requests)
        × (u'.verification_requests ≤ 4)
  unfolding after_all requests_in puts_request
  requests_end k [] t u f h = (u, f, omega arith, h)
  requests_end k (e ∷ es) t u f h =
      let moved = event_moves driver_verification profile e t k u f in
      let u1 = moved.0 in
      let step = counted t u u1 e moved.2 h in
      let rest = requests_end k es (after driver_verification profile e t) u1 moved.1 step.1 in
      (rest.0, rest.1, rw (f, moved.1) (omega (arith, step.0, rest.2)), rest.3)

  abbrev approved_account : Account → Bool
  approved_account u = is_approved u.verification_status

  stays_approved :
      (t : CheckTables) (u u' : Account) (e : CheckEvent)
      → Move t u e u'
      → approved_account u ≡ true
      → approved_account u' ≡ true
  unfolding approved_row
  stays_approved t u u' e (stays _) y = y
  stays_approved t u u' e (asked now user same askable few) y = absurd (ground (arith, askable, y))
  stays_approved t u u' e (approved_by now parent user same boss waiting) y = refl
  stays_approved t u u' e (rejected_by now parent user reason same boss waiting) y =
      absurd (ground (arith, waiting, y))

  -- An account that is approved stays so, whatever is requested, approved and rejected.
  pub approved_for_good :
      (k : Uuid) (es : List CheckEvent) (t : CheckTables) (u : Account)
      → by_id Account.id k t.users ≡ some u
      → approved_account u ≡ true
      → row_is approved_account (by_id Account.id k (after_all es t).users) ≡ true
  unfolding after_all
  approved_for_good k [] t u f y = ap (row_is approved_account) f ∙ y
  approved_for_good k (e ∷ es) t u f y =
      let moved = event_moves driver_verification profile e t k u f in
      approved_for_good k es (after driver_verification profile e t) moved.0 moved.1
        (stays_approved t u moved.0 e moved.2 y)
