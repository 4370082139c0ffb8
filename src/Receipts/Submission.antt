-- ===== src/Receipts/Submission.antt =====
-- `submitReceipt` of PaymentReceiptService (paymentreceipt.service.ts).
pub mod Laws
use transport_backend.Base.{
  Bool, true, false, ◌||◌, not, Option, none, some, List, [], ◌∷◌, is_some, Text, is_empty, trim,
  by_id, Result, ok, ◌>>=◌, ◌>>◌, refuse_if, found_or, bad_request, not_found, if◌then◌else◌,
}
use transport_backend.Entities.{
  Uuid, pending_analysis, receipt_submitted, PaymentReceipt, SubscriptionOrder, Database,
  order_is_approved, order_is_rejected, order_is_cancelled,
}
use transport_backend.Orders.{CreateOrder, NewRow, build_order}
use transport_backend.Receipts.Queue.{save_with_order}

-- A blank `orderId` is none: the code trims it before the test.
pub record SubmitReceipt : Type 0 where
  pub order_id : Option Uuid
  pub new_order : Option CreateOrder
  pub image_url : Text
  pub provider_file_id : Option Text

-- What happens after the answer: the analysis starts, and the admins hear of the receipt.
pub data Effect : Type 0 where
  process : Uuid → Effect
  announce : Uuid → Uuid → Effect

pub record Submitted : Type 0 where
  pub receipt : PaymentReceipt
  pub effects : List Effect
  pub db : Database

abbrev pub same_bool : Bool → Bool → Bool
same_bool true b = b
same_bool false b = not b

-- The order that the receipt pays for, new or existing.
unfoldable pub order_to_pay : NewRow → SubmitReceipt → Database → Result SubscriptionOrder
order_to_pay row params db = elim params.new_order [
  | some new ↦ build_order row new db
  | none ↦
      found_or (not_found "Subscription order not found")
        (elim params.order_id [ none ↦ none | some k ↦ by_id SubscriptionOrder.id k db.orders ])
]

unfoldable pub is_closed : SubscriptionOrder → Bool
is_closed o =
    order_is_approved o.status || order_is_rejected o.status || order_is_cancelled o.status

unfoldable pub new_receipt : NewRow → SubmitReceipt → PaymentReceipt
new_receipt row params = record {
  id = row.id;
  order_id = 0;
  provider_file_id = params.provider_file_id;
  image_url = params.image_url;
  status = pending_analysis;
  analysis_attempts = 0;
  analysis_started_at = none;
  extracted_amount = none;
  tracking_code = none;
  transaction_date = none;
  transaction_time = none;
  source_card = none;
  destination_card = none;
  destination_name = none;
  extracted_payment_status = none;
  ai_confidence = none;
  amount_matched = none;
  destination_card_matched = none;
  destination_name_matched = none;
  duplicate_tracking_code = none;
  ai_raw_result = none;
  analyzed_at = none;
  reviewed_by_user_id = none;
  reviewed_at = none;
  review_note = none;
  created_at = row.created_at;
}

unfoldable pub save_submission : NewRow → SubmitReceipt → SubscriptionOrder → Database → Submitted
unfolding new_receipt save_with_order
save_submission row params order db =
    let (saved, db') =
      save_with_order (new_receipt row params) (record order { status = receipt_submitted }) db in
    record {
      receipt = saved;
      effects = process saved.id ∷ announce saved.order_id saved.id ∷ [];
      db = db';
    }

-- The two new rows are the order's, if it is new, and the receipt's.
unfoldable pub submit_receipt : NewRow → NewRow → SubmitReceipt → Database → Result Submitted
submit_receipt order_row receipt_row params db = do
  refuse_if (same_bool (is_some params.order_id) (is_some params.new_order))
      (bad_request "Exactly one of order id or new order is required")
  refuse_if (is_empty (trim params.image_url)) (bad_request "Receipt image is required")
  order ← order_to_pay order_row params db
  refuse_if (is_closed order) (bad_request "Receipt cannot be submitted for this order")
  ok (save_submission receipt_row params order db)
