-- ===== src/Features/Orders.antt =====
-- The purchase of menus and the grants: `submitOrder`, `submitTierOrder`, `approveOrder`,
-- `rejectOrder`, `grant`, `addGrant`.
use transport_backend.Base.{
  ℕ, suc, ◌+◌, ◌*◌, Bool, true, false, ◌&&◌, not, Option, none, some, List, [], ◌∷◌, ◌++◌, ◌==◌,
  if◌then◌else◌, is_some, length, find, by_id, update_where, count_where, Text, Result, ok, err,
  ◌>>=◌, ◌>>◌, found_or, refuse_if, bad_request, not_found, conflict,
}
use transport_backend.Entities.{Uuid, Time, OrderStatus, record_is_active}
use transport_backend.Rewards.{day_ms}
use transport_backend.Features.Tables.{
  CompanyFeature, feature_eq, CompanyTier, tier_eq, TierMonths, tier_month_days, months_eq,
  CompanyFeatureGrant, CompanyFeatureOrder, CompanyTierPlan, FeatureTables,
}
use transport_backend.Features.Access.{standing, latest_expiry}

abbrev pub is_in_review : OrderStatus → Bool
is_in_review OrderStatus.receipt_submitted = true
is_in_review _ = false

abbrev pub is_for_feature : CompanyFeature → Option CompanyFeature → Bool
is_for_feature feature none = false
is_for_feature feature (some f) = feature_eq f feature

-- `submitOrder`
unfoldable pub submit_menu_order :
    (menu_purchase : Bool)
    → (new_id user plan_id : Uuid) → Text
    → FeatureTables
    → Result FeatureTables
submit_menu_order menu_purchase new_id user plan_id path t = do
  refuse_if (not menu_purchase) (bad_request "Menus are not sold one by one now.")
  refuse_if ((standing user t).is_parent) (bad_request "A parent company has all menus.")
  plan ←
      found_or (not_found "This plan is not active.")
        (find (λ p. (p.id == plan_id) && record_is_active p.record_status) t.plans)
  refuse_if
      (is_some (
        find
          (λ o.
            (o.user_id == user) && is_for_feature plan.feature o.feature && is_in_review o.status)
          t.orders))
      (conflict "Your earlier receipt is being reviewed.")
  ok (record t {
    orders =
        t.orders
        ++ record {
          id = new_id;
          user_id = user;
          plan_id = some plan.id;
          feature = some plan.feature;
          tier = none;
          features = none;
          duration_days = plan.duration_days;
          amount = plan.price;
          currency = plan.currency;
          status = OrderStatus.receipt_submitted;
          receipt_path = path;
          rejection_reason = none;
          reviewed_by = none;
          reviewed_at = none;
        }
          ∷ [];
  })

-- A tier without menus is refused like one that is not there.
abbrev pub with_menus : Option CompanyTierPlan → Option CompanyTierPlan
with_menus none = none
with_menus (some p) = if length p.features == 0 then none else some p

-- `submitTierOrder`
unfoldable pub submit_tier_order :
    (new_id user : Uuid) → CompanyTier → TierMonths → Text → FeatureTables → Result FeatureTables
submit_tier_order new_id user tier months path t = do
  refuse_if ((standing user t).is_parent) (bad_request "A parent company has all menus.")
  plan ←
      found_or (not_found "This tier is not active.")
        (with_menus (find (λ p. tier_eq p.tier tier && record_is_active p.record_status) t.tiers))
  option ←
      found_or (not_found "This tier is not sold for this period.")
        (find (λ o. months_eq o.months months) plan.options)
  refuse_if
      (is_some
        (find (λ o. (o.user_id == user) && is_some o.tier && is_in_review o.status) t.orders))
      (conflict "Your earlier receipt is being reviewed.")
  ok (record t {
    orders =
        t.orders
        ++ record {
          id = new_id;
          user_id = user;
          plan_id = none;
          feature = none;
          tier = some tier;
          features = some plan.features;
          duration_days = tier_month_days months;
          amount = option.price;
          currency = plan.currency;
          status = OrderStatus.receipt_submitted;
          receipt_path = path;
          rejection_reason = none;
          reviewed_by = none;
          reviewed_at = none;
        }
          ∷ [];
  })

abbrev pub start_or : Option Time → Time → Time
start_or none now = now
start_or (some end) now = end

-- `addGrant`: behind the last running grant of the menu, or from now.
unfoldable pub new_grant :
    (new_id user : Uuid)
    → CompanyFeature
    → ℕ
    → Time
    → (order_id by : Option Uuid) → List CompanyFeatureGrant
    → CompanyFeatureGrant
new_grant new_id user feature days now order_id by gs =
    let start = start_or (latest_expiry now user feature gs) now in
    record {
      id = new_id;
      user_id = user;
      feature = feature;
      start_at = start;
      expire_at = start + days * day_ms;
      order_id = order_id;
      granted_by = by;
    }

unfoldable pub add_grant :
    (new_id user : Uuid)
    → CompanyFeature
    → ℕ
    → Time
    → (order_id by : Option Uuid) → List CompanyFeatureGrant
    → List CompanyFeatureGrant
add_grant new_id user feature days now order_id by gs =
    gs ++ new_grant new_id user feature days now order_id by gs ∷ []

-- `grant`: a gift of the admin.
unfoldable pub grant :
    (new_id user : Uuid) → CompanyFeature → ℕ → Uuid → Time → FeatureTables → FeatureTables
grant new_id user feature days admin now t = record t {
  grants = add_grant new_id user feature days now none (some admin) t.grants;
}

abbrev pub menus_or_none : Option (List CompanyFeature) → List CompanyFeature
menus_or_none none = []
menus_or_none (some fs) = fs

abbrev pub one_menu : Option CompanyFeature → List CompanyFeature
one_menu none = []
one_menu (some f) = f ∷ []

-- The menus of an order.
unfoldable pub ordered_menus : CompanyFeatureOrder → List CompanyFeature
ordered_menus o = if is_some o.tier then menus_or_none o.features else one_menu o.feature

-- The loop of `approveOrder`; the new rows get the ids that follow `new_id`.
unfoldable pub grant_all :
    Uuid
    → CompanyFeatureOrder
    → Uuid
    → Time
    → List CompanyFeature
    → List CompanyFeatureGrant
    → List CompanyFeatureGrant
grant_all new_id o admin now [] gs = gs
grant_all new_id o admin now (f ∷ fs) gs =
    grant_all (suc new_id) o admin now fs
      (add_grant new_id o.user_id f o.duration_days now (some o.id) (some admin) gs)

unfoldable pub approved_menus : Uuid → Time → CompanyFeatureOrder → CompanyFeatureOrder
approved_menus admin now o = record o {
  status = OrderStatus.approved;
  reviewed_by = some admin;
  reviewed_at = some now;
}

-- `approveOrder`: one transaction.
unfoldable pub approve_menus :
    (new_id order_id admin : Uuid) → Time → FeatureTables → Result FeatureTables
approve_menus new_id order_id admin now t = do
  o ←
      found_or (not_found "The order was not found.")
        (by_id CompanyFeatureOrder.id order_id t.orders)
  refuse_if (not (is_in_review o.status)) (conflict "This order was reviewed before.")
  refuse_if (length (ordered_menus o) == 0) (conflict "This order has no menu.")
  ok (record t {
    grants = grant_all new_id o admin now (ordered_menus o) t.grants;
    orders = update_where (λ x. x.id == o.id) (approved_menus admin now) t.orders;
  })

abbrev pub waits_review : Uuid → CompanyFeatureOrder → Bool
waits_review order_id o = (o.id == order_id) && is_in_review o.status

unfoldable pub rejected_menus : Uuid → Text → Time → CompanyFeatureOrder → CompanyFeatureOrder
rejected_menus admin reason now o = record o {
  status = OrderStatus.rejected;
  rejection_reason = some reason;
  reviewed_by = some admin;
  reviewed_at = some now;
}

-- `rejectOrder`
unfoldable pub reject_menus :
    (order_id admin : Uuid) → Text → Time → FeatureTables → Result FeatureTables
reject_menus order_id admin reason now t =
    if count_where (waits_review order_id) t.orders == 0
    then err (conflict "No order with this id waits for a review.")
    else ok (record t {
      orders = update_where (waits_review order_id) (rejected_menus admin reason now) t.orders;
    })
