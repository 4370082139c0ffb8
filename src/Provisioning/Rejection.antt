-- ===== src/Provisioning/Rejection.antt =====
-- `rejectReceipt`
use transport_backend.Base.{
  not, some, ◌==◌, Text, by_id, save, Result, ok, ◌>>=◌, ◌>>◌, refuse_if, found_or, bad_request,
  not_found,
}
use transport_backend.Entities.{
  Uuid, Time, rejected, SubscriptionOrder, PaymentReceipt, Database, order_is_approved,
}

unfoldable pub rejected_receipt : Time → Uuid → Text → PaymentReceipt → PaymentReceipt
rejected_receipt now admin reason r = record r {
  status = rejected;
  reviewed_by_user_id = some admin;
  reviewed_at = some now;
  review_note = some reason;
}

unfoldable pub rejected_order : Time → Text → SubscriptionOrder → SubscriptionOrder
rejected_order now reason o = record o {
  status = rejected;
  rejected_at = some now;
  rejection_reason = some reason;
}

unfoldable pub reject_receipt :
    Time → (order_id receipt_id admin : Uuid) → Text → Database → Result Database
reject_receipt now order_id receipt_id admin reason db = do
  order ←
      found_or (not_found "Subscription order not found")
        (by_id SubscriptionOrder.id order_id db.orders)
  refuse_if (order_is_approved order.status)
      (bad_request "Approved subscription order cannot be rejected")
  receipt ←
      found_or (not_found "Payment receipt not found")
        (by_id PaymentReceipt.id receipt_id db.receipts)
  refuse_if (not (receipt.order_id == order.id))
      (bad_request "Payment receipt does not belong to this subscription order")
  ok (record db {
    receipts = save PaymentReceipt.id (rejected_receipt now admin reason receipt) db.receipts;
    orders = save SubscriptionOrder.id (rejected_order now reason order) db.orders;
  })
