-- ===== src/Verification/Menus.antt =====
-- What the check of a company means for its menus: `approve` of
-- src/services/company/accountVerification.service.ts with `standing` and `lockedFeatures` of
-- src/services/company/companyFeature.service.ts, which read the same row of User.
use transport_backend.Base.{
  ◌≡◌, refl, ap, ◌∙◌, inl, inr, Bool, true, false, not, some, List, [], ◌∷◌, map, ◌==◌, arith,
  is_some, by_id, by_id_key, ok, Bool-cases,
}
use mathlib.Core.Option
use transport_backend.Entities.{Uuid, Time}
use transport_backend.Features.{
  CompanyFeature, CompanyUser, FeatureTables, Standing, standing, standing_of, is_locked,
  open_until,
}
use transport_backend.Auth.Accounts.{Account, is_approved, is_awaiting}
use transport_backend.Verification.Profile.{Profile, kind_of, company}
use transport_backend.Verification.Moves.{updated}
use transport_backend.Verification.Requests.{
  CheckTables, approve_check, assert_parent, is_parent_account, approved_row,
}

-- The columns of User that decide the menus.
unfoldable pub company_user : Account → CompanyUser
company_user u = record {
  id = u.id;
  is_parent_company = u.is_parent_company;
  invited_by_company_user_id = u.invited_by_company_user_id;
  is_verified = is_approved u.verification_status;
}

company_row :
    (k : Uuid) (users : List Account)
    → by_id CompanyUser.id k (map company_user users)
      ≡ Option.map company_user (by_id Account.id k users)
unfolding by_id company_user
company_row k [] = refl
company_row k (u ∷ users) = ground (arith, company_row k users)

company_standing :
    (user : Uuid) (users : List Account) (menus : FeatureTables) (u : Account)
    → by_id Account.id user users ≡ some u
    → standing user (record menus { users = map company_user users })
      ≡ standing_of (some (company_user u))
unfolding standing
company_standing user users menus u f =
    ap standing_of (company_row user users ∙ ap (Option.map company_user) f)

locked_unchecked :
    (menu_purchase : Bool) (now : Time) (user : Uuid) (feature : CompanyFeature) (t : FeatureTables)
    → (standing user t).is_parent ≡ false
    → (standing user t).verified ≡ false
    → is_locked menu_purchase now user feature t ≡ true
unfolding is_locked
locked_unchecked menu_purchase now user feature t p v = rw (p, v) refl

locked_invited :
    (menu_purchase : Bool) (now : Time) (user : Uuid) (feature : CompanyFeature) (t : FeatureTables)
    → (standing user t).is_parent ≡ false
    → (standing user t).verified ≡ true
    → (standing user t).invited ≡ true
    → is_locked menu_purchase now user feature t
      ≡ not (is_some (open_until now user feature t.grants))
unfolding is_locked
locked_invited menu_purchase now user feature t p v i = rw (p, v, i) refl

module _ (driver_verification : Bool) (profile : Uuid → Profile) where
  -- The row that an approval leaves.
  approve_ok :
      (now : Time) (parent user : Uuid) (t : CheckTables) (u : Account)
      → by_id Account.id user t.users ≡ some u
      → (approve_check driver_verification profile now parent user t).0 ≡ ok user
      → (by_id Account.id user (approve_check driver_verification profile now parent user t).1.users
          ≡ some (approved_row now parent (kind_of u.roles) u))
        × (is_awaiting u.verification_status ≡ true)
  unfolding approve_check assert_parent approved_row
  approve_ok now parent user t u f e =
      let same : (u.id == user) ≡ true = ground (arith, by_id_key Account.id user t.users f) in
      elim (Bool-cases (is_parent_account parent t)) [
        | inr stranger ↦ absurd (ground (arith, rw (stranger, approve_check) at e))
        | inl boss ↦ elim (Bool-cases (is_awaiting u.verification_status)) [
          | inr idle ↦ absurd (ground (arith, rw (boss, approve_check, f, idle) at e))
          | inl waiting ↦ (
            rw (boss, approve_check, f, waiting)
                (updated (λ r. r.id == user) (approved_row now parent (kind_of u.roles)) user
                    t.users u (λ r. refl) f
                  ∙ rw same refl),
            waiting,
          )
        ]
      ]

  -- Of a company that is no parent company and whose approval by a parent company is accepted:
  -- before it all menus are locked, bought or not; after it each menu is locked exactly if none of
  -- the company's own grants has it open, whether the menu is on sale or not.
  pub approved_company_menus :
      (now later : Time) (menu_purchase : Bool) (parent user : Uuid) (t : CheckTables)
      (menus : FeatureTables) (u : Account)
      → by_id Account.id user t.users ≡ some u
      → kind_of u.roles ≡ company
      → u.is_parent_company ≡ false
      → (approve_check driver_verification profile now parent user t).0 ≡ ok user
      → (feature : CompanyFeature)
      → let after = (approve_check driver_verification profile now parent user t).1 in
        (is_locked menu_purchase later user feature
            (record menus { users = map company_user t.users })
          ≡ true)
        × (is_locked menu_purchase later user feature
              (record menus { users = map company_user after.users })
            ≡ not (is_some (open_until later user feature menus.grants)))
  unfolding company_user approved_row
  approved_company_menus now later menu_purchase parent user t menus u f c p e feature =
      let done = approve_ok now parent user t u f e in
      let users = (approve_check driver_verification profile now parent user t).1.users in
      let row = company_standing user t.users menus u f in
      let row' = company_standing user users menus _ done.0 in
      (
        locked_unchecked menu_purchase later user feature
            (record menus { users = map company_user t.users }) (ap Standing.is_parent row ∙ p)
            (ap Standing.verified row ∙ ground (arith, done.1)),
        locked_invited menu_purchase later user feature
            (record menus { users = map company_user users }) (ap Standing.is_parent row' ∙ p)
            (ap Standing.verified row') (ap Standing.invited row' ∙ rw (p, c) refl),
      )
