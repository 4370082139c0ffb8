-- ===== src/Verification/Requests.antt =====
-- The operations of src/services/company/accountVerification.service.ts on the accounts: `state`,
-- `request`, `approve`, `reject` and `isApproved`. The profiles, which other parts of the program
-- write, are a parameter. The announcements, whose failure is swallowed, are left out.
use transport_backend.Base.{
  ℕ, suc, ◌-◌, Bool, true, false, ◌&&◌, ◌||◌, not, Option, none, some, List, [], ◌∷◌, Text, ◌==◌,
  ltb, any, by_id, update_where, count_where, if◌then◌else◌, Result, ok, err, ◌>>=◌, ◌>>◌,
  refuse_if, found_or, conflict, forbidden, not_found, bad_request,
}
use transport_backend.Entities.{Uuid, Time}
use transport_backend.Auth.Accounts.{
  Account, VerificationStatus, pending, approved, rejected, is_approved, is_awaiting, is_askable,
}
use transport_backend.Verification.Profile.{
  VerifiedKind, Profile, Missing, kind_of, is_company_kind, is_factory, is_checked, missing,
}

abbrev pub max_verification_requests : ℕ
max_verification_requests = 4

-- A row of FactoryCompany: a factory and the company that it belongs to.
abbrev pub FactoryCompany : Type 0
FactoryCompany = Uuid × Uuid

pub record CheckTables : Type 0 where
  pub users : List Account
  pub factory_companies : List FactoryCompany

pub record VerificationState : Type 0 where
  pub status : VerificationStatus
  pub can_request : Bool
  pub remaining : ℕ
  pub missing_fields : List Missing
  pub note : Option Text
  pub requested_at : Option Time
  pub decided_at : Option Time

-- `features.isParent`
unfoldable pub is_parent_account : Uuid → CheckTables → Bool
is_parent_account user t = elim (by_id Account.id user t.users) [
  | none ↦ false
  | some u ↦ u.is_parent_company
]

-- `assertParent`
unfoldable pub assert_parent : Uuid → CheckTables → Result (Unit {0})
assert_parent user t =
    refuse_if (not (is_parent_account user t))
      (forbidden "Only the parent company sees the requests.")

abbrev pub none_missing : List Missing → Bool
none_missing [] = true
none_missing (m ∷ ms) = false

-- What a row is once it is asked about, approved or rejected.
unfoldable pub asked_row : Time → Account → Account
asked_row now u = record u {
  verification_status = pending;
  verification_requests = suc u.verification_requests;
  verification_requested_at = some now;
  verification_note = none;
}

unfoldable pub approved_row : Time → Uuid → VerifiedKind → Account → Account
approved_row now parent kind u = record u {
  verification_status = approved;
  verification_decided_at = some now;
  verification_decided_by = some parent;
  verification_note = none;
  invited_by_company_user_id =
      if is_company_kind kind then some parent else u.invited_by_company_user_id;
}

unfoldable pub rejected_row : Time → Uuid → Text → Account → Account
rejected_row now parent reason u = record u {
  verification_status = rejected;
  verification_note = some reason;
  verification_decided_at = some now;
  verification_decided_by = some parent;
}

-- `INSERT … ON CONFLICT DO NOTHING`
unfoldable pub add_factory : Uuid → Uuid → List FactoryCompany → List FactoryCompany
add_factory factory company rows =
    if any (λ row. (row.0 == factory) && (row.1 == company)) rows
    then rows
    else (factory, company) ∷ rows

-- The rows that an update of `request` and of `reject` is for.
unfoldable pub may_ask : Uuid → Account → Bool
may_ask user u = (u.id == user) && is_askable u.verification_status

unfoldable pub waits : Uuid → Account → Bool
waits user u = (u.id == user) && is_awaiting u.verification_status

module _ (driver_verification : Bool) (profile : Uuid → Profile) where
  unfoldable pub state_of : Account → VerificationState
  state_of u =
      let remaining = max_verification_requests - u.verification_requests in
      if not (is_checked driver_verification (kind_of u.roles))
      then record {
        status = approved;
        can_request = false;
        remaining = remaining;
        missing_fields = [];
        note = none;
        requested_at = u.verification_requested_at;
        decided_at = u.verification_decided_at;
      }
      else record {
        status = u.verification_status;
        can_request = is_askable u.verification_status && ltb 0 remaining;
        remaining = remaining;
        missing_fields = missing (kind_of u.roles) (profile u.id);
        note = u.verification_note;
        requested_at = u.verification_requested_at;
        decided_at = u.verification_decided_at;
      }

  -- `state`
  unfoldable pub state : Uuid → CheckTables → Result VerificationState
  state user t = do
    u ← found_or (not_found "The account was not found.") (by_id Account.id user t.users)
    ok (state_of u)

  -- The guards of `request`, in their order.
  unfoldable pub may_request : VerificationState → Result (Unit {0})
  may_request s =
      refuse_if (is_approved s.status) (conflict "Your account is approved.")
      >> refuse_if (is_awaiting s.status) (conflict "Your request_check is being checked.")
      >> refuse_if (not s.can_request) (forbidden "You have no requests left.")
      >> refuse_if (not (none_missing s.missing_fields)) (bad_request "Fill in your profile first.")

  -- `request`
  unfoldable pub request_check : Time → Uuid → CheckTables → Result VerificationState × CheckTables
  request_check now user t =
      let checked = state user t >>= (λ s. may_request s) in
      let asked = record t { users = update_where (may_ask user) (asked_row now) t.users } in
      elim checked [
        | err thrown ↦ (err thrown, t)
        | ok passed ↦
            if count_where (may_ask user) t.users == 0
            then (err (conflict "Your request_check is being checked."), t)
            else (state user asked, asked)
      ]

  -- `approve`
  unfoldable pub approve_check : Time → Uuid → Uuid → CheckTables → Result Uuid × CheckTables
  approve_check now parent user t =
      let found =
        assert_parent parent t
        >> found_or (not_found "The account was not found.") (by_id Account.id user t.users)
        >>= (λ u.
            if is_awaiting u.verification_status
            then ok (kind_of u.roles)
            else err (conflict "This request_check is not waiting.")) in
      elim found [
        | err thrown ↦ (err thrown, t)
        | ok kind ↦ (
          ok user,
          record {
            users = update_where (λ u. u.id == user) (approved_row now parent kind) t.users;
            factory_companies =
                if is_factory kind
                then add_factory user parent t.factory_companies
                else t.factory_companies;
          },
        )
      ]

  -- `reject`, which answers the requests that are left.
  unfoldable pub reject_check : Time → Uuid → Uuid → Text → CheckTables → Result ℕ × CheckTables
  reject_check now parent user reason t =
      let done = record t {
        users = update_where (waits user) (rejected_row now parent reason) t.users;
      } in
      let answer = state user done >>= (λ s. ok s.remaining) in
      elim (assert_parent parent t) [
        | err thrown ↦ (err thrown, t)
        | ok passed ↦
            if count_where (waits user) t.users == 0
            then (err (conflict "This request_check is not waiting."), t)
            else (answer, done)
      ]

  -- `isApproved`
  unfoldable pub is_approved_account : Uuid → CheckTables → Bool
  is_approved_account user t = elim (by_id Account.id user t.users) [
    | none ↦ true
    | some u ↦
        is_approved u.verification_status || not (is_checked driver_verification (kind_of u.roles))
  ]
