-- ===== src/Provisioning/Approval.antt =====
-- `approveOrder`
pub mod Inversion
pub mod Laws
pub mod Renewal
use transport_backend.Base.{
  ℕ, ◌+◌, ◌*◌, Bool, true, false, ◌&&◌, ◌||◌, not, Option, none, some, List, [], ◌∷◌, ◌==◌, ltb,
  if◌then◌else◌, is_some, find, by_id, save, Text, text_eq, is_empty, Result, ok, ◌>>=◌, ◌>>◌,
  refuse_if, found_or, bad_request, not_found, conflict,
}
use transport_backend.Entities.{
  Uuid, Time, AccountType, active, approved, OrderStatus, ReceiptStatus, SubscriptionStatus,
  SubscriptionPlan, SubscriptionOrder, PaymentReceipt, Subscription, User, Database,
  order_is_approved, order_is_cancelled, receipt_is_approved, receipt_is_rejected,
  subscription_is_active,
}
use transport_backend.Provisioning.Buyer.{NewRows, Buyer, resolve_buyer}

-- 2. and 5.: the states that refuse an approval.
unfoldable pub check_order : SubscriptionOrder → Result (Unit {0})
check_order order = do
  refuse_if (order_is_approved order.status)
      (conflict "Subscription order has already been approved")
  refuse_if (order_is_cancelled order.status)
      (bad_request "Cancelled subscription order cannot be approved")

unfoldable pub check_receipt : SubscriptionOrder → PaymentReceipt → Result (Unit {0})
check_receipt order receipt = do
  refuse_if (not (receipt.order_id == order.id))
      (bad_request "Payment receipt does not belong to this subscription order")
  refuse_if (receipt_is_rejected receipt.status)
      (bad_request "Rejected payment receipt cannot be approved")
  refuse_if (receipt_is_approved receipt.status)
      (conflict "Payment receipt has already been approved")

abbrev pub has_code : Option Text → Text → Bool
has_code none code = false
has_code (some c) code = text_eq c code

-- 6.: another approved receipt with this tracking code.
unfoldable pub is_used_code : Text → Uuid → PaymentReceipt → Bool
is_used_code code receipt_id r =
    has_code r.tracking_code code && not (r.id == receipt_id) && receipt_is_approved r.status

unfoldable pub check_tracking_code : PaymentReceipt → Database → Result (Unit {0})
check_tracking_code receipt db = elim receipt.tracking_code [
  | none ↦ ok tt
  | some code ↦
      if is_empty code
      then ok tt
      else refuse_if (is_some (find (is_used_code code receipt.id) db.receipts))
          (conflict "This payment tracking code has already been used")
]

-- The three times that an approval reads from the clock.
pub record Moments : Type 0 where
  pub looked_up_at : Time
  pub started_at : Time
  pub decided_at : Time

abbrev pub day_ms : ℕ
day_ms = 86400000

-- 14.: the running subscription of the user that ends last.
unfoldable pub is_running : Time → Uuid → Subscription → Bool
is_running now user s = s.user_id == user && subscription_is_active s.status && ltb now s.expire_at

abbrev pub ends_later : Subscription → Option Subscription → Subscription
ends_later s none = s
ends_later s (some t) = if ltb s.expire_at t.expire_at then t else s

unfoldable pub last_running : (Subscription → Bool) → List Subscription → Option Subscription
last_running p [] = none
last_running p (s ∷ ss) =
    let rest = last_running p ss in if p s then some (ends_later s rest) else rest

abbrev pub end_of : Option Subscription → Time → Time
end_of none now = now
end_of (some s) now = s.expire_at

-- A renewal starts where the running subscription ends.
unfoldable pub start_of : Moments → Uuid → Database → Time
start_of m user db =
    end_of (last_running (is_running m.looked_up_at user) db.subscriptions) m.started_at

-- `calculateExpireDate`, where a day has 24 hours.
unfoldable pub expire_date : Time → ℕ → Time
expire_date start days = start + days * day_ms

-- 15.
unfoldable pub subscribe :
    NewRows → Moments → SubscriptionOrder → SubscriptionPlan → Buyer → Subscription
subscribe rows m order plan b =
    let start = start_of m b.user.id b.db in
    record {
      id = rows.subscription_id;
      user_id = b.user.id;
      subscription_plan_id = plan.id;
      order_id = order.id;
      start_at = start;
      expire_at = expire_date start plan.duration_days;
      status = active;
    }

-- 16.
unfoldable pub approved_receipt : Moments → Uuid → PaymentReceipt → PaymentReceipt
approved_receipt m admin r = record r {
  status = approved;
  reviewed_by_user_id = some admin;
  reviewed_at = some m.decided_at;
}

-- 17.
unfoldable pub approved_order : Moments → Uuid → User → SubscriptionOrder → SubscriptionOrder
approved_order m admin buyer o = record o {
  status = approved;
  created_user_id = some buyer.id;
  approved_by_user_id = some admin;
  approved_at = some m.decided_at;
}

-- 18.
pub record Provisioned : Type 0 where
  pub user_id : Uuid
  pub username : Text
  pub account_type : AccountType
  pub provider_user_id : Text
  pub new_user : Bool
  pub subscription_id : Uuid
  pub expire_at : Time

-- The writes of 15. to 17. and the result.
unfoldable pub provision :
    NewRows
    → Moments
    → Uuid
    → SubscriptionOrder
    → PaymentReceipt
    → SubscriptionPlan
    → Buyer
    → Provisioned × Database
provision rows m admin order receipt plan b =
    let s = subscribe rows m order plan b in
    (
      record {
        user_id = b.user.id;
        username = b.user.username;
        account_type = order.account_type;
        provider_user_id = order.provider_user_id;
        new_user = b.new_user;
        subscription_id = s.id;
        expire_at = s.expire_at;
      },
      record (b.db) {
        subscriptions = save Subscription.id s b.db.subscriptions;
        receipts = save PaymentReceipt.id (approved_receipt m admin receipt) b.db.receipts;
        orders = save SubscriptionOrder.id (approved_order m admin b.user order) b.db.orders;
      },
    )

-- 1. to 6.: what an approval reads and checks, once the row of its order is locked. Only that row
-- is: the other receipts that the check of the tracking code reads may change before the writes.
unfoldable pub check_approval :
    (order_id receipt_id : Uuid) → Database → Result (SubscriptionOrder × PaymentReceipt)
check_approval order_id receipt_id db = do
  order ←
      found_or (not_found "Subscription order not found")
        (by_id SubscriptionOrder.id order_id db.orders)
  check_order order
  receipt ←
      found_or (not_found "Payment receipt not found")
        (by_id PaymentReceipt.id receipt_id db.receipts)
  check_receipt order receipt
  check_tracking_code receipt db
  ok (order, receipt)

-- 7. to 18.: the rest, on the tables as they are by then.
unfoldable pub finish_approval :
    NewRows
    → Moments
    → Uuid
    → SubscriptionOrder
    → PaymentReceipt
    → Database
    → Result (Provisioned × Database)
finish_approval rows m admin order receipt db = do
  b ← resolve_buyer rows order db
  plan ←
      found_or (not_found "Subscription plan not found")
        (by_id SubscriptionPlan.id order.subscription_plan_id b.db.plans)
  ok (provision rows m admin order receipt plan b)

-- `approveOrder` when no other writes come between its checks and its writes; Payments.History lets
-- them come between.
unfoldable pub approve_order :
    NewRows
    → Moments
    → (order_id receipt_id admin : Uuid) → Database
    → Result (Provisioned × Database)
unfolding check_approval finish_approval
approve_order rows m order_id receipt_id admin db = do
  checked ← check_approval order_id receipt_id db
  finish_approval rows m admin checked.0 checked.1 db
