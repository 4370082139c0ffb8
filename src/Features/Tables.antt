-- ===== src/Features/Tables.antt =====
-- The menus that companies buy and the tables behind them: src/domain/enums/companyFeature.ts and
-- CompanyFeatureGrant.ts, CompanyFeatureOrder.ts, CompanyTierPlan.ts and CompanyFeaturePlan.ts of
-- src/domain/entities/company.
use transport_backend.Base.{ℕ, Bool, Option, List, Text, ◌==◌, true, false}
use transport_backend.Entities.{Uuid, Time, OrderStatus, RecordStatus}

pub data CompanyFeature : Type 0 where
  suggestions create_load published_loads driver_requests trips drivers channels agent factories :
      CompanyFeature

-- The place of a menu in the enum.
abbrev pub feature_place : CompanyFeature → ℕ
feature_place suggestions = 0
feature_place create_load = 1
feature_place published_loads = 2
feature_place driver_requests = 3
feature_place trips = 4
feature_place drivers = 5
feature_place channels = 6
feature_place agent = 7
feature_place factories = 8

abbrev pub feature_eq : CompanyFeature → CompanyFeature → Bool
feature_eq a b = feature_place a == feature_place b

pub data CompanyTier : Type 0 where
  bronze silver gold : CompanyTier

abbrev pub tier_eq : CompanyTier → CompanyTier → Bool
tier_eq bronze bronze = true
tier_eq silver silver = true
tier_eq gold gold = true
tier_eq _ _ = false

pub data TierMonths : Type 0 where
  one_month three_months six_months twelve_months : TierMonths

-- `TIER_MONTH_DAYS`
abbrev pub tier_month_days : TierMonths → ℕ
tier_month_days one_month = 30
tier_month_days three_months = 90
tier_month_days six_months = 180
tier_month_days twelve_months = 365

abbrev pub months_eq : TierMonths → TierMonths → Bool
months_eq a b = tier_month_days a == tier_month_days b

pub record CompanyFeatureGrant : Type 0 where
  pub id : Uuid
  pub user_id : Uuid
  pub feature : CompanyFeature
  pub start_at : Time
  pub expire_at : Time
  pub order_id : Option Uuid
  pub granted_by : Option Uuid

pub record CompanyFeatureOrder : Type 0 where
  pub id : Uuid
  pub user_id : Uuid
  pub plan_id : Option Uuid
  pub feature : Option CompanyFeature
  pub tier : Option CompanyTier
  pub features : Option (List CompanyFeature)
  pub duration_days : ℕ
  pub amount : ℕ
  pub currency : Text
  pub status : OrderStatus
  pub receipt_path : Text
  pub rejection_reason : Option Text
  pub reviewed_by : Option Uuid
  pub reviewed_at : Option Time

pub record TierOption : Type 0 where
  pub months : TierMonths
  pub price : ℕ

pub record CompanyTierPlan : Type 0 where
  pub tier : CompanyTier
  pub features : List CompanyFeature
  pub options : List TierOption
  pub currency : Text
  pub record_status : RecordStatus

pub record CompanyFeaturePlan : Type 0 where
  pub id : Uuid
  pub feature : CompanyFeature
  pub duration_days : ℕ
  pub price : ℕ
  pub currency : Text
  pub record_status : RecordStatus

-- The columns of a company's User that decide its menus.
pub record CompanyUser : Type 0 where
  pub id : Uuid
  pub is_parent_company : Bool
  pub invited_by_company_user_id : Option Uuid
  pub is_verified : Bool

pub record FeatureTables : Type 0 where
  pub users : List CompanyUser
  pub plans : List CompanyFeaturePlan
  pub tiers : List CompanyTierPlan
  pub orders : List CompanyFeatureOrder
  pub grants : List CompanyFeatureGrant
