-- ===== src/Provisioning/Approval/Inversion.antt =====
-- What a successful approval has read and checked, and what it leaves alone.
use transport_backend.Base.{◌≡◌, some, by_id, ok, Result-cases, Option-cases, inl, inr, arith}
use transport_backend.Entities.{
  Uuid, SubscriptionPlan, SubscriptionOrder, PaymentReceipt, Role, Database,
}
use transport_backend.Provisioning.Buyer.{
  NewRows, Buyer, account_of, with_role, resolve_buyer, add_user, active_role, role_name,
}
use transport_backend.Provisioning.Approval.{
  check_order, check_receipt, check_tracking_code, Moments, Provisioned, provision, approve_order,
}

-- The tables of payments are as they were: finding or making the account writes others.
pub record SamePayments (db db' : Database) : Type 0 where
  pub plans : db'.plans ≡ db.plans
  pub orders : db'.orders ≡ db.orders
  pub receipts : db'.receipts ≡ db.receipts
  pub subscriptions : db'.subscriptions ≡ db.subscriptions
  pub bonuses : db'.bonuses ≡ db.bonuses

account_of-SamePayments :
    (rows : NewRows) (order : SubscriptionOrder) (db : Database) (b : Buyer)
    → account_of rows order db ≡ ok b
    → SamePayments db b.db
unfolding account_of add_user
account_of-SamePayments rows order db b h = ground arith

with_role-SamePayments :
    (rows : NewRows) (role : Role) (b : Buyer) → SamePayments b.db (with_role rows role b).db
unfolding with_role
with_role-SamePayments rows role b = ground arith

pub resolve_buyer-SamePayments :
    (rows : NewRows) (order : SubscriptionOrder) (db : Database) (b : Buyer)
    → resolve_buyer rows order db ≡ ok b
    → SamePayments db b.db
unfolding resolve_buyer
resolve_buyer-SamePayments rows order db b h = elim (Result-cases (account_of rows order db)) [
  | inr (e, failed) ↦ absurd (ground arith)
  | inl (c, made) ↦ elim (Option-cases (active_role (role_name order.account_type) db)) [
    | inl missing ↦ absurd (ground arith)
    | inr (role, found) ↦
        let same : with_role rows role c ≡ b = ground arith in
        ground
          (arith, account_of-SamePayments rows order db c made, with_role-SamePayments rows role c)
  ]
]

pub record IsApproval (rows : NewRows) (m : Moments) (order_id receipt_id admin : Uuid)
    (db : Database) (res : Provisioned) (db' : Database) : Type 0 where
  pub order : SubscriptionOrder
  pub receipt : PaymentReceipt
  pub plan : SubscriptionPlan
  pub buyer : Buyer
  pub found_order : by_id SubscriptionOrder.id order_id db.orders ≡ some order
  pub checked_order : check_order order ≡ ok tt
  pub found_receipt : by_id PaymentReceipt.id receipt_id db.receipts ≡ some receipt
  pub checked_receipt : check_receipt order receipt ≡ ok tt
  pub checked_code : check_tracking_code receipt db ≡ ok tt
  pub resolved : resolve_buyer rows order db ≡ ok buyer
  pub found_plan : by_id SubscriptionPlan.id order.subscription_plan_id db.plans ≡ some plan
  pub outcome : provision rows m admin order receipt plan buyer ≡ (res, db')

pub approve-IsApproval :
    (rows : NewRows) (m : Moments) (order_id receipt_id admin : Uuid) (db : Database)
    (res : Provisioned) (db' : Database)
    → approve_order rows m order_id receipt_id admin db ≡ ok (res, db')
    → IsApproval rows m order_id receipt_id admin db res db'
unfolding approve_order
approve-IsApproval rows m order_id receipt_id admin db res db' h =
    elim (Option-cases (by_id SubscriptionOrder.id order_id db.orders)) [
      | inl e ↦ absurd (ground arith)
      | inr (o, fo) ↦ elim (Option-cases (by_id PaymentReceipt.id receipt_id db.receipts)) [
        | inl e ↦ absurd (ground arith)
        | inr (r, fr) ↦ elim (Result-cases (resolve_buyer rows o db)) [
          | inr (e, failed) ↦ absurd (ground arith)
          | inl (b, rb) ↦
              elim (Option-cases (by_id SubscriptionPlan.id o.subscription_plan_id b.db.plans)) [
                | inl e ↦ absurd (ground arith)
                | inr (p, fp) ↦ record {
                  order = o;
                  receipt = r;
                  plan = p;
                  buyer = b;
                  found_order = fo;
                  checked_order = ground arith;
                  found_receipt = fr;
                  checked_receipt = ground arith;
                  checked_code = ground arith;
                  resolved = rb;
                  found_plan = rw (← (resolve_buyer-SamePayments rows o db b rb).plans) fp;
                  outcome = ground arith;
                }
              ]
        ]
      ]
    ]
