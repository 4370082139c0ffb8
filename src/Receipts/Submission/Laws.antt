-- ===== src/Receipts/Submission/Laws.antt =====
-- What a submission stores, and which submissions are refused.
use mathlib.Core.Path.{subst}
use transport_backend.Base.{
  Result-cases, ◌≡◌, inl, inr, refl, false, some, [], ◌∷◌, ◌==◌, if◌then◌else◌, ok, by_id,
  by_id-save, arith,
}
use transport_backend.Entities.{
  Uuid, pending_analysis, receipt_submitted, PaymentReceipt, SubscriptionOrder, Database,
}
use transport_backend.Orders.{NewRow}
use transport_backend.Receipts.Submission.{
  SubmitReceipt, process, announce, Submitted, order_to_pay, is_closed, save_submission,
  submit_receipt,
}

-- What a successful submission leaves behind: one order and one receipt are written, nothing else.
pub record IsStored (receipt_row : NewRow) (order : SubscriptionOrder) (db : Database)
    (s : Submitted) : Type 0 where
  pub open_order : is_closed order ≡ false
  pub pending : s.receipt.status ≡ pending_analysis
  pub of_order : s.receipt.order_id ≡ order.id
  pub own_id : s.receipt.id ≡ receipt_row.id
  pub orders :
      (k : Uuid)
      → by_id SubscriptionOrder.id k s.db.orders ≡ (
          if order.id == k
          then some (record order { status = receipt_submitted })
          else by_id SubscriptionOrder.id k db.orders)
  pub receipts :
      (k : Uuid)
      → by_id PaymentReceipt.id k s.db.receipts
        ≡ (if receipt_row.id == k then some s.receipt else by_id PaymentReceipt.id k db.receipts)
  pub subscriptions : s.db.subscriptions ≡ db.subscriptions
  pub told : s.effects ≡ process s.receipt.id ∷ announce order.id s.receipt.id ∷ []

save_submission-IsStored :
    (row : NewRow) (params : SubmitReceipt) (order : SubscriptionOrder) (db : Database)
    → is_closed order ≡ false
    → IsStored row order db (save_submission row params order db)
unfolding save_submission
save_submission-IsStored row params order db h = record {
  open_order = h;
  pending = refl;
  of_order = refl;
  own_id = refl;
  orders = λ k. by_id-save SubscriptionOrder.id k _ db.orders;
  receipts = λ k. by_id-save PaymentReceipt.id k _ db.receipts;
  subscriptions = refl;
  told = refl;
}

-- A submission that succeeds paid for an order that was not closed. That order is then waiting for
-- its review with the new receipt pending; every other order and receipt, and every subscription,
-- stays; the analysis is started and the admins are told, once each.
pub submit_receipt-IsStored :
    (order_row receipt_row : NewRow) (params : SubmitReceipt) (db : Database) (s : Submitted)
    → submit_receipt order_row receipt_row params db ≡ ok s
    → (order : SubscriptionOrder) × (order_to_pay order_row params db ≡ ok order)
      × IsStored receipt_row order db s
unfolding submit_receipt
submit_receipt-IsStored order_row receipt_row params db s h =
    elim (Result-cases (order_to_pay order_row params db)) [
      | inr (e, failed) ↦ absurd (ground arith)
      | inl (order, found) ↦ (
        order,
        found,
        subst (IsStored receipt_row order db) (ground arith)
            (save_submission-IsStored receipt_row params order db (ground arith)),
      )
    ]
