-- ===== src/Payments/History/Writes.antt =====
-- What the operations on payments write to the receipts, and what an approval has checked.
use transport_backend.Base.{
  ◌≡◌, refl, false, by_id, save, ok, Result-cases, Option-cases, inl, inr, arith, Text,
}
use transport_backend.Entities.{
  Uuid, Time, SubscriptionPlan, PaymentReceipt, SubscriptionOrder, Database, receipt_is_approved,
}
use transport_backend.Orders.{create_order, build_order, NewRow, CreateOrder}
use transport_backend.Receipts.Submission.{
  SubmitReceipt, Submitted, submit_receipt, save_submission, new_receipt, order_to_pay,
}
use transport_backend.Provisioning.Buyer.{NewRows, resolve_buyer}
use transport_backend.Provisioning.Approval.{
  Moments, Provisioned, check_approval, finish_approval, provision, approved_receipt, check_receipt,
  check_tracking_code,
}
use transport_backend.Provisioning.Approval.Inversion.{resolve_buyer-SamePayments}
use transport_backend.Provisioning.Rejection.{reject_receipt, rejected_receipt}

pub create_receipts :
    (row : NewRow) (params : CreateOrder) (db db' : Database) (o : SubscriptionOrder)
    → create_order row params db ≡ ok (o, db')
    → db'.receipts ≡ db.receipts
unfolding create_order
create_receipts row params db db' o h = elim (Result-cases (build_order row params db)) [
  | inl (x, e) ↦ ground arith
  | inr (x, e) ↦ absurd (ground arith)
]

pub submit_receipts :
    (order_row receipt_row : NewRow) (params : SubmitReceipt) (db : Database) (sub : Submitted)
    → submit_receipt order_row receipt_row params db ≡ ok sub
    → (sub.db.receipts ≡ save PaymentReceipt.id sub.receipt db.receipts)
      × (receipt_is_approved sub.receipt.status ≡ false)
unfolding submit_receipt
submit_receipts order_row receipt_row params db sub h =
    elim (Result-cases (order_to_pay order_row params db)) [
      | inr (x, e) ↦ absurd (ground arith)
      | inl (o, e) ↦
          let same : save_submission receipt_row params o db ≡ sub = ground arith in
          rw (← same) (unfold save_submission new_receipt in (refl, refl))
    ]

pub rejected_receipts :
    (now : Time) (order_id receipt_id admin : Uuid) (reason : Text) (db db' : Database)
    → reject_receipt now order_id receipt_id admin reason db ≡ ok db'
    → (r : PaymentReceipt) × (db'.receipts
        ≡ save PaymentReceipt.id (rejected_receipt now admin reason r) db.receipts)
unfolding reject_receipt
rejected_receipts now order_id receipt_id admin reason db db' h =
    elim (Option-cases (by_id SubscriptionOrder.id order_id db.orders)) [
      | inl e ↦ absurd (ground arith)
      | inr (o, listed) ↦ elim (Option-cases (by_id PaymentReceipt.id receipt_id db.receipts)) [
        | inl e ↦ absurd (ground arith)
        | inr (r, found) ↦ (r, ground arith)
      ]
    ]

-- What an approval has checked when it begins.
pub checked_approval :
    (order_id receipt_id : Uuid) (db : Database) (o : SubscriptionOrder) (r : PaymentReceipt)
    → check_approval order_id receipt_id db ≡ ok (o, r)
    → (r.order_id ≡ o.id) × (check_tracking_code r db ≡ ok tt)
unfolding check_approval check_receipt
checked_approval order_id receipt_id db o r h =
    elim (Option-cases (by_id SubscriptionOrder.id order_id db.orders)) [
      | inl e ↦ absurd (ground arith)
      | inr (x, fo) ↦ elim (Option-cases (by_id PaymentReceipt.id receipt_id db.receipts)) [
        | inl e ↦ absurd (ground arith)
        | inr (y, fr) ↦ (ground arith, ground arith)
      ]
    ]

-- What it has written to the receipts when it ends.
pub approved_receipts :
    (rows : NewRows) (m : Moments) (admin : Uuid) (o : SubscriptionOrder) (r : PaymentReceipt)
    (db db' : Database) (res : Provisioned)
    → finish_approval rows m admin o r db ≡ ok (res, db')
    → db'.receipts ≡ save PaymentReceipt.id (approved_receipt m admin r) db.receipts
unfolding finish_approval provision
approved_receipts rows m admin o r db db' res h = elim (Result-cases (resolve_buyer rows o db)) [
  | inr (e, failed) ↦ absurd (ground arith)
  | inl (b, rb) ↦
      elim (Option-cases (by_id SubscriptionPlan.id o.subscription_plan_id b.db.plans)) [
        | inl e ↦ absurd (ground arith)
        | inr (p, fp) ↦
            let same = resolve_buyer-SamePayments rows o db b rb in ground (arith, same.receipts)
      ]
]
