-- ===== src/Provisioning/Approval/Laws.antt =====
-- What a successful approval writes, and that it happens once.
use transport_backend.Base.{
  ◌+◌, ◌*◌, ◌≡◌, ◌∙◌, refl, sym, ap, some, ◌==◌, ==_refl, if◌then◌else◌, by_id, by_id_key,
  by_id-save, ok, err, bad_request, conflict, arith, Text,
}
use transport_backend.Entities.{
  Uuid, Time, approved, SubscriptionPlan, SubscriptionOrder, PaymentReceipt, Subscription, Database,
  SubscriptionStatus,
}
use transport_backend.Provisioning.Buyer.{NewRows}
use transport_backend.Provisioning.Approval.{
  Moments, day_ms, start_of, expire_date, subscribe, approved_receipt, approved_order, Provisioned,
  provision, approve_order, check_order, check_receipt,
}
use transport_backend.Provisioning.Approval.Inversion.{
  approve-IsApproval, resolve_buyer-SamePayments,
}
use transport_backend.Provisioning.Rejection.{reject_receipt}

-- What an approval leaves in the tables of payments.
pub record IsProvisioned (rows : NewRows) (m : Moments) (order_id receipt_id admin : Uuid)
    (db : Database) (res : Provisioned) (db' : Database) : Type 0 where
  pub order : SubscriptionOrder
  pub receipt : PaymentReceipt
  pub plan : SubscriptionPlan
  pub subscription : Subscription
  pub stored_order : by_id SubscriptionOrder.id order_id db.orders ≡ some order
  pub stored_receipt : by_id PaymentReceipt.id receipt_id db.receipts ≡ some receipt
  pub of_order : receipt.order_id ≡ order_id
  pub listed_plan : by_id SubscriptionPlan.id order.subscription_plan_id db.plans ≡ some plan
  pub orders :
      (k : Uuid)
      → by_id SubscriptionOrder.id k db'.orders ≡ (
          if order_id == k
          then some (record order {
            status = approved;
            created_user_id = some res.user_id;
            approved_by_user_id = some admin;
            approved_at = some m.decided_at;
          })
          else by_id SubscriptionOrder.id k db.orders)
  pub receipts :
      (k : Uuid)
      → by_id PaymentReceipt.id k db'.receipts ≡ (
          if receipt_id == k
          then some (record receipt {
            status = approved;
            reviewed_by_user_id = some admin;
            reviewed_at = some m.decided_at;
          })
          else by_id PaymentReceipt.id k db.receipts)
  pub subscriptions :
      (k : Uuid)
      → by_id Subscription.id k db'.subscriptions ≡ (
          if rows.subscription_id == k
          then some subscription
          else by_id Subscription.id k db.subscriptions)
  pub buyer : subscription.user_id ≡ res.user_id
  pub paid_by : subscription.order_id ≡ order_id
  pub of_plan : subscription.subscription_plan_id ≡ plan.id
  pub is_active : subscription.status ≡ SubscriptionStatus.active
  pub lasts : subscription.expire_at ≡ subscription.start_at + plan.duration_days * day_ms
  pub begins : subscription.start_at ≡ start_of m res.user_id db
  pub told : res.expire_at ≡ subscription.expire_at

check_receipt_order :
    (o : SubscriptionOrder) (r : PaymentReceipt) → check_receipt o r ≡ ok tt → r.order_id ≡ o.id
unfolding check_receipt
check_receipt_order o r h = ground arith

start_of_same :
    (m : Moments) (user : Uuid) (db db' : Database)
    → db'.subscriptions ≡ db.subscriptions
    → start_of m user db' ≡ start_of m user db
unfolding start_of
start_of_same m user db db' e = rw e

-- A successful approval that runs alone marks exactly its order and its receipt as approved, by this
-- admin and at this time, and leaves whatever else was stored in the two rows as it was; it adds
-- exactly one subscription: for the buyer, of the order's plan, running for the plan's days from its
-- start. Every other order, receipt and subscription stays.
pub approve_order-IsProvisioned :
    (rows : NewRows) (m : Moments) (order_id receipt_id admin : Uuid) (db : Database)
    (res : Provisioned) (db' : Database)
    → approve_order rows m order_id receipt_id admin db ≡ ok (res, db')
    → IsProvisioned rows m order_id receipt_id admin db res db'
unfolding provision subscribe approved_order approved_receipt expire_date
approve_order-IsProvisioned rows m order_id receipt_id admin db res db' h =
    let a = approve-IsApproval rows m order_id receipt_id admin db res db' h in
    let same = resolve_buyer-SamePayments rows a.order db a.buyer a.resolved in
    let own_order : a.order.id ≡ order_id =
      by_id_key SubscriptionOrder.id order_id db.orders a.found_order in
    let own_receipt : a.receipt.id ≡ receipt_id =
      by_id_key PaymentReceipt.id receipt_id db.receipts a.found_receipt in
    let given : res ≡ (provision rows m admin a.order a.receipt a.plan a.buyer).0 =
      ap (λ p. p.0) (sym a.outcome) in
    let wrote : db' ≡ (provision rows m admin a.order a.receipt a.plan a.buyer).1 =
      ap (λ p. p.1) (sym a.outcome) in
    rw (given, wrote)
      (record {
        order = a.order;
        receipt = a.receipt;
        plan = a.plan;
        subscription = subscribe rows m a.order a.plan a.buyer;
        stored_order = a.found_order;
        stored_receipt = a.found_receipt;
        of_order = check_receipt_order a.order a.receipt a.checked_receipt ∙ own_order;
        listed_plan = a.found_plan;
        orders = λ k.
            by_id-save SubscriptionOrder.id k _ a.buyer.db.orders ∙ rw (own_order, same.orders);
        receipts = λ k.
            by_id-save PaymentReceipt.id k _ a.buyer.db.receipts ∙ rw (own_receipt, same.receipts);
        subscriptions =
            λ k. by_id-save Subscription.id k _ a.buyer.db.subscriptions ∙ rw same.subscriptions;
        buyer = refl;
        paid_by = own_order;
        of_plan = refl;
        is_active = refl;
        lasts = refl;
        begins = start_of_same m a.buyer.user.id db a.buyer.db same.subscriptions;
        told = refl;
      })

approved_again :
    (rows : NewRows) (m : Moments) (order_id receipt_id admin : Uuid) (db : Database)
    (o : SubscriptionOrder)
    → by_id SubscriptionOrder.id order_id db.orders ≡ some o
    → o.status ≡ approved
    → approve_order rows m order_id receipt_id admin db
      ≡ err (conflict "Subscription order has already been approved")
unfolding approve_order check_order
approved_again rows m order_id receipt_id admin db o found was = ground arith

rejected_after :
    (now : Time) (order_id receipt_id admin : Uuid) (reason : Text) (db : Database)
    (o : SubscriptionOrder)
    → by_id SubscriptionOrder.id order_id db.orders ≡ some o
    → o.status ≡ approved
    → reject_receipt now order_id receipt_id admin reason db
      ≡ err (bad_request "Approved subscription order cannot be rejected")
unfolding reject_receipt
rejected_after now order_id receipt_id admin reason db o found was = ground arith

-- Right after an approval the same order cannot be approved again, with whatever receipt and by
-- whichever admin, nor can any of its receipts be rejected.
pub approve_once :
    (rows rows' : NewRows) (m m' : Moments)
    (order_id receipt_id admin other_receipt other_admin : Uuid) (reason : Text) (db : Database)
    (res : Provisioned) (db' : Database)
    → approve_order rows m order_id receipt_id admin db ≡ ok (res, db')
    → (approve_order rows' m' order_id other_receipt other_admin db'
        ≡ err (conflict "Subscription order has already been approved"))
      × (reject_receipt m'.decided_at order_id other_receipt other_admin reason db'
          ≡ err (bad_request "Approved subscription order cannot be rejected"))
approve_once rows rows' m m' order_id receipt_id admin other_receipt other_admin reason db res db'
      h =
    let p = approve_order-IsProvisioned rows m order_id receipt_id admin db res db' h in
    let o : SubscriptionOrder = record (p.order) {
      status = approved;
      created_user_id = some res.user_id;
      approved_by_user_id = some admin;
      approved_at = some m.decided_at;
    } in
    let stored : by_id SubscriptionOrder.id order_id db'.orders ≡ some o =
      p.orders order_id ∙ rw (==_refl order_id) in
    (
      approved_again rows' m' order_id other_receipt other_admin db' o stored refl,
      rejected_after m'.decided_at order_id other_receipt other_admin reason db' o stored refl,
    )
