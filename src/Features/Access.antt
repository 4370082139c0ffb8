-- ===== src/Features/Access.antt =====
-- Which menus a company has: `standing`, `lockedFeatures`, `paidFeatures`, `openGrants` and
-- `hasFeature`.
use transport_backend.Base.{
  Bool, true, false, ◌&&◌, ◌||◌, not, Option, none, some, List, [], ◌∷◌, ◌==◌, ltb, leb,
  if◌then◌else◌, is_some, any, find, by_id,
}
use transport_backend.Entities.{Uuid, Time, record_is_active}
use transport_backend.Features.Tables.{
  CompanyFeature, feature_eq, CompanyTier, bronze, silver, gold, tier_eq, CompanyFeatureGrant,
  CompanyUser, FeatureTables,
}

pub record Standing : Type 0 where
  pub is_parent : Bool
  pub invited : Bool
  pub verified : Bool

abbrev pub standing_of : Option CompanyUser → Standing
standing_of none = record { is_parent = false; invited = false; verified = true }
standing_of (some u) = record {
  is_parent = u.is_parent_company;
  invited = not u.is_parent_company && is_some u.invited_by_company_user_id;
  verified = u.is_verified;
}

-- `standing`
unfoldable pub standing : Uuid → FeatureTables → Standing
standing user t = standing_of (by_id CompanyUser.id user t.users)

abbrev pub has_menu : CompanyFeature → List CompanyFeature → Bool
has_menu feature fs = any (λ f. feature_eq f feature) fs

-- The tier on sale, and whether it has the menu.
unfoldable pub sells : CompanyFeature → CompanyTier → FeatureTables → Bool
sells feature tier t =
    elim (find (λ row. tier_eq row.tier tier && record_is_active row.record_status) t.tiers) [
      | none ↦ false
      | some row ↦ has_menu feature row.features
    ]

-- `paidFeatures`, as a test; `menu_purchase` is menuPurchaseOn().
unfoldable pub is_paid : (menu_purchase : Bool) → CompanyFeature → FeatureTables → Bool
is_paid menu_purchase feature t =
    any (λ tier. sells feature tier t) (bronze ∷ silver ∷ gold ∷ [])
    || (menu_purchase
        && any (λ plan. feature_eq plan.feature feature && record_is_active plan.record_status)
            t.plans)

-- A grant of this menu that has not ended.
unfoldable pub is_running_grant : Time → Uuid → CompanyFeature → CompanyFeatureGrant → Bool
is_running_grant now user feature g =
    (g.user_id == user) && feature_eq g.feature feature && ltb now g.expire_at

abbrev pub later_end : Time → Option Time → Time
later_end a none = a
later_end a (some b) = if ltb a b then b else a

-- The last end of the grants that have not ended.
unfoldable pub latest_expiry : Time → Uuid → CompanyFeature → List CompanyFeatureGrant → Option Time
latest_expiry now user feature [] = none
latest_expiry now user feature (g ∷ gs) =
    let rest = latest_expiry now user feature gs in
    if is_running_grant now user feature g then some (later_end g.expire_at rest) else rest

-- One of them has started.
unfoldable pub has_started : Time → Uuid → CompanyFeature → List CompanyFeatureGrant → Bool
has_started now user feature gs =
    any (λ g. is_running_grant now user feature g && leb g.start_at now) gs

-- `openGrants`: the end of an open menu, if it is open.
unfoldable pub open_until : Time → Uuid → CompanyFeature → List CompanyFeatureGrant → Option Time
open_until now user feature gs =
    if has_started now user feature gs then latest_expiry now user feature gs else none

-- `lockedFeatures`, as a test.
unfoldable pub is_locked :
    (menu_purchase : Bool) → Time → Uuid → CompanyFeature → FeatureTables → Bool
is_locked menu_purchase now user feature t =
    let s = standing user t in
    if s.is_parent
    then false
    else if not s.verified
    then true
    else (s.invited || is_paid menu_purchase feature t)
      && not (is_some (open_until now user feature t.grants))

-- `hasFeature`
unfoldable pub has_feature :
    (menu_purchase : Bool) → Time → Uuid → CompanyFeature → FeatureTables → Bool
has_feature menu_purchase now user feature t = not (is_locked menu_purchase now user feature t)
