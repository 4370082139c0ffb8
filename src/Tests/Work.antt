-- ===== src/Tests/Work.antt =====
-- A driver who buys, earns a bonus and works.
use transport_backend.Base.{
  ℕ, ◌≡◌, ◌↔◌, refl, true, false, Option, none, some, List, [], ◌∷◌, Text, codes, All, arith, by_id,
  find, save, trim, Result,
}
use transport_backend.Entities.{
  Uuid, Time, User, Role, SubscriptionStatus, OrderStatus, RecordStatus, Database,
}
use transport_backend.Policy.Settings.{DriverReward, default_policy}
use transport_backend.Rewards.{
  grant_tiers, sum_paid, paid_for, rials_of, push_granted, grant_tier, new_bonus, free_from,
  grant_earned, is_driver, is_reached, paid_rials,
}
use transport_backend.Rewards.Laws.{Orderly, IsGrant, grant_earned-Orderly}
use transport_backend.Rewards.Complete.{IsGiven, grant_earned_complete, grant_earned_once}
use transport_backend.Access.{check, subscribed}
use transport_backend.Access.Laws.{IsEntitled, check_iff}
use transport_backend.Access.Granted.{approved_buyer_may_work}
use transport_backend.Phones.{account_phone}
use transport_backend.Provisioning.Buyer.{
  resolve_buyer, active_role, account_of, existing_user, linked_user, with_role, add_user,
  role_name, new_account, has_role, has_number,
}
use transport_backend.Provisioning.Approval.{
  approve_order, check_order, check_receipt, check_tracking_code, provision, subscribe, start_of,
  last_running, is_running, expire_date, Provisioned,
}
use transport_backend.Tests.Data.{
  order_of, empty_shop, rows, moments, no_sale, result_or, reviewed_shop,
}

abbrev driver_role : Role
driver_role = record { id = 6; name = codes "DRIVER"; record_status = RecordStatus.active }

abbrev driver_user : User
driver_user = record {
  id = 50;
  username = codes "09120000000";
  mobile = none;
  record_status = RecordStatus.active;
  is_parent_company = false;
  created_at = 1000;
}

abbrev driver_shop : Database
driver_shop = record empty_shop {
  users = driver_user ∷ [];
  roles = driver_role ∷ [];
  user_roles = record { id = 51; user_id = 50; role_id = 6 } ∷ [];
  orders = order_of OrderStatus.approved ∷ [];
  subscriptions =
      record {
        id = 60;
        user_id = 50;
        subscription_plan_id = 1;
        order_id = 10;
        start_at = 1000;
        expire_at = 2000;
        status = SubscriptionStatus.active;
      }
      ∷ [];
}

abbrev tiers : List DriverReward
tiers =
    record { min_tomans = 400000; free_days = 7 }
    ∷ record { min_tomans = 900000; free_days = 30 }
    ∷ []

abbrev new_id : ℕ → Uuid
new_id amount = amount

abbrev starts_at_once : Text → Option Time
starts_at_once t = some 500

-- The bonus of the reached tier begins where the subscription ends.
granted_after_subscription :
    (grant_earned new_id 1500 50 tiers driver_shop).0
    ≡ record { min_tomans = 400000; days = 7; start_at = 2000; expire_at = 604802000 } ∷ []
unfolding grant_earned is_driver is_reached paid_rials by_id grant_tiers sum_paid paid_for rials_of
    push_granted grant_tier find new_bonus free_from
granted_after_subscription = refl

grant_earned-Orderly_example :
    Orderly ((grant_earned new_id 1500 50 tiers driver_shop).1.bonuses)
    × All
        (IsGrant 1500 50 driver_shop.subscriptions)
        ((grant_earned new_id 1500 50 tiers driver_shop).0)
grant_earned-Orderly_example = grant_earned-Orderly new_id 1500 50 tiers driver_shop tt

grant_earned_complete_example :
    All
      (λ tier.
        is_reached (paid_rials 50 driver_shop) tier ≡ true
        → IsGiven 50 ((grant_earned new_id 1500 50 tiers driver_shop).1.bonuses) tier)
      tiers
unfolding is_driver by_id
grant_earned_complete_example = grant_earned_complete new_id 1500 50 tiers driver_shop refl

grant_earned_once_example :
    grant_earned new_id 1600 50 tiers ((grant_earned new_id 1500 50 tiers driver_shop).1)
    ≡ ([], (grant_earned new_id 1500 50 tiers driver_shop).1)
grant_earned_once_example = grant_earned_once new_id new_id 1500 1600 50 tiers driver_shop

check_iff_example :
    ((check starts_at_once 1500 1500 default_policy 50 driver_shop).allowed ≡ true)
    ↔ IsEntitled starts_at_once 1500 1500 default_policy 50 driver_shop
check_iff_example = check_iff starts_at_once 1500 1500 default_policy 50 driver_shop

abbrev purchased : Result (Provisioned × Database)
purchased = approve_order rows moments 10 20 1 reviewed_shop

approved_buyer_may_work_example :
    ((check starts_at_once 2500 2500 default_policy 30 (result_or no_sale purchased).1).allowed
      ≡ true)
    × ((check starts_at_once 2500 2500 default_policy 30 (result_or no_sale purchased).1).reason
        ≡ subscribed)
unfolding approve_order check_order check_receipt check_tracking_code resolve_buyer active_role
    account_of existing_user linked_user with_role add_user find by_id save role_name new_account
    has_role provision subscribe has_number account_phone trim start_of last_running is_running
    expire_date
approved_buyer_may_work_example =
    approved_buyer_may_work starts_at_once rows moments 10 20 1 reviewed_shop
      (result_or no_sale purchased).0 (result_or no_sale purchased).1 2500 2500 default_policy refl
      (omega arith) (omega arith)
