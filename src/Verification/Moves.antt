-- ===== src/Verification/Moves.antt =====
-- How an account comes to be approved: every operation of
-- src/services/company/accountVerification.service.ts makes one of four moves with each account.
pub mod Life
pub mod Ways
pub mod Deeds
use transport_backend.Base.{
  ℕ, suc, ◌<◌, ◌≡◌, refl, ap, ◌∙◌, inl, inr, Bool, true, false, ◌&&◌, not, Option, none, some, List,
  Text, ◌==◌, ltb, arith, by_id, by_id_key, update_where, by_id-update_where, count_where,
  if◌then◌else◌, Result, ok, err, ◌>>=◌, Bool-cases, Option-cases, Result-cases,
}
use mathlib.Core.Option
use mathlib.Core.Path.{subst, sym}
use transport_backend.Entities.{Uuid, Time}
use transport_backend.Auth.Accounts.{
  Account, VerificationStatus, is_approved, is_awaiting, is_askable,
}
use transport_backend.Verification.Profile.{VerifiedKind, Profile, kind_of}
use transport_backend.Verification.Requests.{
  CheckTables, VerificationState, request_check, approve_check, reject_check, state, may_request,
  state_of, assert_parent, is_parent_account, asked_row, approved_row, rejected_row, may_ask, waits,
  max_verification_requests,
}

pub data CheckEvent : Type 0 where
  requests : Time → Uuid → CheckEvent
  approves : Time → Uuid → Uuid → CheckEvent
  rejects : Time → Uuid → Uuid → Text → CheckEvent

-- What an operation may make of the row of an account: it leaves it; it takes the account's own
-- request, if it may ask and has asked less than four times; or a parent company decides a request
-- that waits.
pub data Move (t : CheckTables) (u : Account) : CheckEvent → Account → Type 0 where
  stays : (e : CheckEvent) → Move t u e u
  asked :
      (now : Time) (user : Uuid)
      → u.id ≡ user
      → is_askable u.verification_status ≡ true
      → u.verification_requests < 4
      → Move t u (requests now user) (asked_row now u)
  approved_by :
      (now : Time) (parent user : Uuid)
      → u.id ≡ user
      → is_parent_account parent t ≡ true
      → is_awaiting u.verification_status ≡ true
      → Move t u (approves now parent user) (approved_row now parent (kind_of u.roles) u)
  rejected_by :
      (now : Time) (parent user : Uuid) (reason : Text)
      → u.id ≡ user
      → is_parent_account parent t ≡ true
      → is_awaiting u.verification_status ≡ true
      → Move t u (rejects now parent user reason) (rejected_row now parent reason u)

-- The row after an update of the rows of one condition.
pub updated :
    (p : Account → Bool) (f : Account → Account) (k : Uuid) (users : List Account) (u : Account)
    → ((r : Account) → (f r).id ≡ r.id)
    → by_id Account.id k users ≡ some u
    → by_id Account.id k (update_where p f users) ≡ some (if p u then f u else u)
updated p f k users u h e =
    by_id-update_where Account.id p f k users h ∙ ap (Option.map (λ r. if p r then f r else r)) e

module _ (driver_verification : Bool) (profile : Uuid → Profile) where
  unfoldable pub after : CheckEvent → CheckTables → CheckTables
  after (requests now user) t = (request_check driver_verification profile now user t).1
  after (approves now parent user) t =
      (approve_check driver_verification profile now parent user t).1
  after (rejects now parent user reason) t =
      (reject_check driver_verification profile now parent user reason t).1

  -- The row of an account after an operation, and the move to it.
  abbrev pub Moved : Uuid → CheckTables → Account → CheckEvent → CheckTables → Type 0
  Moved k t u e t' = (u' : Account) × (by_id Account.id k t'.users ≡ some u') × Move t u e u'

  -- A request that its guards let through has a request left.
  may_request_left :
      (u : Account)
      → may_request driver_verification profile (state_of driver_verification profile u) ≡ ok tt
      → u.verification_requests < 4
  unfolding may_request state_of
  may_request_left u e = ground arith

  checked_left :
      (user : Uuid) (t : CheckTables) (u : Account)
      → by_id Account.id user t.users ≡ some u
      → (state driver_verification profile user t
          >>= (λ s. may_request driver_verification profile s))
        ≡ ok tt
      → u.verification_requests < 4
  unfolding state
  checked_left user t u f e = may_request_left u (rw f at e)

  asked_or_not :
      (now : Time) (user : Uuid) (t : CheckTables) (k : Uuid) (u : Account)
      → by_id Account.id k t.users ≡ some u
      → (passed : Unit {0})
      → (state driver_verification profile user t
          >>= (λ s. may_request driver_verification profile s))
        ≡ ok passed
      → Moved k t u
          (requests now user)
          (record t { users = update_where (may_ask user) (asked_row now) t.users })
  unfolding asked_row may_ask
  asked_or_not now user t k u f passed e =
      let row = updated (may_ask user) (asked_row now) k t.users u (λ r. refl) f in
      elim (Bool-cases (may_ask user u)) [
        | inr other ↦ (u, rw other at row, stays _)
        | inl own ↦
            let same : u.id ≡ user = ground (arith, own) in
            let here : by_id Account.id user t.users ≡ some u =
              subst (λ j. by_id Account.id j t.users ≡ some u)
                (sym (by_id_key Account.id k t.users f) ∙ same) f in
            (
              asked_row now u,
              rw own at row,
              asked now user same (ground (arith, own)) (checked_left user t u here e),
            )
      ]

  request_moves :
      (now : Time) (user : Uuid) (t : CheckTables) (k : Uuid) (u : Account)
      → by_id Account.id k t.users ≡ some u
      → Moved k t u (requests now user) (request_check driver_verification profile now user t).1
  unfolding request_check
  request_moves now user t k u f =
      elim (Result-cases (
        state driver_verification profile user t
        >>= (λ s. may_request driver_verification profile s))) [
          | inr (thrown, e) ↦ rw (e, request_check) (u, f, stays _)
          | inl (passed, e) ↦ elim (Bool-cases (count_where (may_ask user) t.users == 0)) [
            | inl nobody ↦ rw (e, request_check, nobody) (u, f, stays _)
            | inr somebody ↦
                rw (e, request_check, somebody) (asked_or_not now user t k u f passed e)
          ]
        ]

  approved_or_not :
      (now : Time) (parent user : Uuid) (t : CheckTables) (k : Uuid) (u row : Account)
      → by_id Account.id k t.users ≡ some u
      → by_id Account.id user t.users ≡ some row
      → is_parent_account parent t ≡ true
      → is_awaiting row.verification_status ≡ true
      → (u' : Account) × (by_id Account.id k
            (update_where (λ r. r.id == user) (approved_row now parent (kind_of row.roles)) t.users)
          ≡ some u')
        × Move t u (approves now parent user) u'
  unfolding approved_row
  approved_or_not now parent user t k u row f found boss waiting =
      let moved =
        updated (λ r. r.id == user) (approved_row now parent (kind_of row.roles)) k t.users u
          (λ r. refl) f in
      elim (Bool-cases (u.id == user)) [
        | inr other ↦ (u, rw other at moved, stays _)
        | inl own ↦
            let same : u.id ≡ user = ground (arith, own) in
            let here : by_id Account.id user t.users ≡ some u =
              subst (λ j. by_id Account.id j t.users ≡ some u)
                (sym (by_id_key Account.id k t.users f) ∙ same) f in
            let one : row ≡ u = ground (arith, sym found ∙ here) in
            (
              approved_row now parent (kind_of row.roles) u,
              rw own at moved,
              subst
                  (λ r.
                    Move t u (approves now parent user)
                      (approved_row now parent (kind_of r.roles) u))
                  (sym one)
                  (approved_by now parent user same boss
                    (subst (λ r. is_awaiting r.verification_status ≡ true) one waiting)),
            )
      ]

  approve_moves :
      (now : Time) (parent user : Uuid) (t : CheckTables) (k : Uuid) (u : Account)
      → by_id Account.id k t.users ≡ some u
      → Moved k t u
          (approves now parent user)
          (approve_check driver_verification profile now parent user t).1
  unfolding approve_check assert_parent
  approve_moves now parent user t k u f = elim (Bool-cases (is_parent_account parent t)) [
    | inr stranger ↦ rw (stranger, approve_check) (u, f, stays _)
    | inl boss ↦ elim (Option-cases (by_id Account.id user t.users)) [
      | inl missing ↦ rw (boss, approve_check, missing) (u, f, stays _)
      | inr (row, found) ↦ elim (Bool-cases (is_awaiting row.verification_status)) [
        | inr idle ↦ rw (boss, approve_check, found, idle) (u, f, stays _)
        | inl waiting ↦
            rw (boss, approve_check, found, waiting)
              (approved_or_not now parent user t k u row f found boss waiting)
      ]
    ]
  ]

  reject_moves :
      (now : Time) (parent user : Uuid) (reason : Text) (t : CheckTables) (k : Uuid) (u : Account)
      → by_id Account.id k t.users ≡ some u
      → Moved k t u
          (rejects now parent user reason)
          (reject_check driver_verification profile now parent user reason t).1
  unfolding reject_check assert_parent rejected_row waits
  reject_moves now parent user reason t k u f = elim (Bool-cases (is_parent_account parent t)) [
    | inr stranger ↦ rw (stranger, reject_check) (u, f, stays _)
    | inl boss ↦ elim (Bool-cases (count_where (waits user) t.users == 0)) [
      | inl nobody ↦ rw (boss, reject_check, nobody) (u, f, stays _)
      | inr somebody ↦
          let row =
            updated (waits user) (rejected_row now parent reason) k t.users u (λ r. refl) f in
          rw (boss, reject_check, somebody)
            (elim (Bool-cases (waits user u)) [
              | inr other ↦ (u, rw other at row, stays _)
              | inl own ↦ (
                rejected_row now parent reason u,
                rw own at row,
                rejected_by now parent user reason (ground (arith, own)) boss (ground (arith, own)),
              )
            ])
    ]
  ]

  -- Whatever a request, an approval or a rejection is answered, each account of the table stays as
  -- it is, or makes the one move that its status allows: a request of its own, if it has asked less
  -- than four times, or the decision of a parent company on its waiting request.
  pub event_moves :
      (e : CheckEvent) (t : CheckTables) (k : Uuid) (u : Account)
      → by_id Account.id k t.users ≡ some u
      → (u' : Account) × (by_id Account.id k (after e t).users ≡ some u') × Move t u e u'
  unfolding after
  event_moves (requests now user) t k u f = request_moves now user t k u f
  event_moves (approves now parent user) t k u f = approve_moves now parent user t k u f
  event_moves (rejects now parent user reason) t k u f = reject_moves now parent user reason t k u f
