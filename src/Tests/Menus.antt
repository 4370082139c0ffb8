-- ===== src/Tests/Menus.antt =====
-- A company buys a tier of menus, and gets another month as a gift.
use transport_backend.Base.{
  ◌≡◌, refl, true, false, none, some, List, [], ◌∷◌, by_id, arith, update_where,
}
use transport_backend.Entities.{OrderStatus}
use transport_backend.Features.{
  trips, agent, gold, CompanyFeatureOrder, CompanyUser, FeatureTables, latest_expiry, open_until,
  has_feature, standing, approve_menus, approved_menus, grant_all, ordered_menus,
}
use transport_backend.Features.Chain.{GrantCall, run_grants, open_until_last_end}
use transport_backend.Features.Approved.{approve_menus_opens}

abbrev gifts : List GrantCall
gifts =
    record {
      new_id = 1;
      user = 10;
      feature = trips;
      days = 30;
      now = 1000;
      order_id = none;
      by = some 99;
    }
    ∷ record {
      new_id = 2;
      user = 10;
      feature = trips;
      days = 30;
      now = 2000;
      order_id = none;
      by = some 99;
    }
    ∷ []

abbrev company_user : CompanyUser
company_user = record {
  id = 10;
  is_parent_company = false;
  invited_by_company_user_id = some 11;
  is_verified = true;
}

abbrev tier_order : CompanyFeatureOrder
tier_order = record {
  id = 5;
  user_id = 10;
  plan_id = none;
  feature = none;
  tier = some gold;
  features = some (trips ∷ agent ∷ []);
  duration_days = 90;
  amount = 1000000;
  currency = [];
  status = OrderStatus.receipt_submitted;
  receipt_path = [];
  rejection_reason = none;
  reviewed_by = none;
  reviewed_at = none;
}

abbrev menu_tables : FeatureTables
menu_tables = record {
  users = company_user ∷ [];
  plans = [];
  tiers = [];
  orders = tier_order ∷ [];
  grants = run_grants gifts [];
}

open_until_last_end_example :
    open_until 3000 10 trips (run_grants gifts [])
    ≡ latest_expiry 3000 10 trips (run_grants gifts [])
open_until_last_end_example =
    open_until_last_end gifts 0 3000 10 trips (omega arith, (omega arith, tt)) (omega arith)

abbrev approved_tables : FeatureTables
approved_tables = record menu_tables {
  orders =
      record tier_order {
        status = OrderStatus.approved;
        reviewed_by = some 99;
        reviewed_at = some 3000;
      }
      ∷ [];
  grants = grant_all 3 tier_order 99 3000 (trips ∷ agent ∷ []) (run_grants gifts []);
}

approve_menus_opens_example : has_feature false 3000 10 agent approved_tables ≡ true
unfolding standing by_id approve_menus update_where approved_menus ordered_menus
approve_menus_opens_example =
    approve_menus_opens false gifts 0 3 5 99 3000 tier_order agent menu_tables approved_tables
      (omega arith, (omega arith, tt)) (omega arith) refl refl (omega arith) refl refl refl
