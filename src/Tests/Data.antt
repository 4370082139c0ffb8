-- ===== src/Tests/Data.antt =====
-- A company account, a plan, an order with two receipts, and the rest of a small database.
use transport_backend.Base.{
  ℕ, false, none, some, List, [], ◌∷◌, Text, codes, Result, ok, err, failure,
}
use transport_backend.Entities.{
  SubscriptionPlan, SubscriptionOrder, PaymentReceipt, Role, Database, company, bale, RecordStatus,
  analyzing, needs_review, OrderStatus, ReceiptStatus, success, pending_analysis,
}
use transport_backend.Orders.{NewRow, CreateOrder}
use transport_backend.Receipts.Submission.{SubmitReceipt, Submitted}
use transport_backend.Receipts.Analysis.{Config, AnalysisResult}
use transport_backend.Provisioning.Buyer.{NewRows}
use transport_backend.Provisioning.Approval.{Moments, Provisioned}

abbrev pub monthly : SubscriptionPlan
monthly = record {
  id = 1;
  title = codes "monthly";
  account_type = company;
  duration_days = 30;
  price = 500000;
  currency = codes "IRT";
  record_status = RecordStatus.active;
  sort_order = 0;
}

abbrev pub order_row : NewRow
order_row = record { id = 10; created_at = 1000 }

abbrev pub receipt_row : NewRow
receipt_row = record { id = 20; created_at = 1001 }

abbrev pub purchase : CreateOrder
purchase = record {
  provider = bale;
  provider_user_id = codes " bale:7 ";
  phone_number = codes "+98 912-345 6789";
  account_type = company;
  subscription_plan_id = 1;
}

abbrev pub payment : SubmitReceipt
payment = record {
  order_id = none;
  new_order = some purchase;
  image_url = codes "r1.jpg";
  provider_file_id = none;
}

abbrev pub company_role : Role
company_role = record { id = 5; name = codes "COMPANY"; record_status = RecordStatus.active }

abbrev pub empty_shop : Database
empty_shop = record {
  plans = monthly ∷ [];
  orders = [];
  receipts = [];
  subscriptions = [];
  bonuses = [];
  users = [];
  roles = company_role ∷ [];
  user_roles = [];
  links = [];
}

abbrev pub order_of : OrderStatus → SubscriptionOrder
order_of s = record {
  id = 10;
  provider = bale;
  provider_user_id = codes "bale:7";
  phone_number = codes "09123456789";
  account_type = company;
  subscription_plan_id = 1;
  amount = 500000;
  currency = codes "IRT";
  status = s;
  created_user_id = none;
  approved_at = none;
  approved_by_user_id = none;
  rejected_at = none;
  rejection_reason = none;
  created_at = 1000;
}

abbrev pub receipt_of : ℕ → ReceiptStatus → ℕ → PaymentReceipt
receipt_of k s attempts = record {
  id = k;
  order_id = 10;
  provider_file_id = none;
  image_url = codes "r.jpg";
  status = s;
  analysis_attempts = attempts;
  analysis_started_at = none;
  extracted_amount = none;
  tracking_code = none;
  transaction_date = none;
  transaction_time = none;
  source_card = none;
  destination_card = none;
  destination_name = none;
  extracted_payment_status = none;
  ai_confidence = none;
  amount_matched = none;
  destination_card_matched = none;
  destination_name_matched = none;
  duplicate_tracking_code = none;
  ai_raw_result = none;
  analyzed_at = none;
  reviewed_by_user_id = none;
  reviewed_at = none;
  review_note = none;
  created_at = 1001;
}

abbrev pub shop_with : OrderStatus → List PaymentReceipt → Database
shop_with s receipts = record empty_shop { orders = order_of s ∷ []; receipts = receipts }

abbrev pub config : Config
config = record {
  max_attempts = some 3;
  card_no = codes "6037-9911-2233-4455";
  card_owner = codes "Ali Rezaei";
}

abbrev pub reading : AnalysisResult
reading = record {
  amount = some 5000000;
  tracking_code = some (codes "T1");
  transaction_date = none;
  transaction_time = none;
  source_card = none;
  destination_card = some (codes "603799******4455");
  destination_name = some (codes "Rezaei");
  payment_status = success;
  confidence = 9000;
  raw_result = codes "{}";
}

abbrev pub reads : Text → Result AnalysisResult
reads image = ok reading

abbrev pub rows : NewRows
rows = record { user_id = 30; user_role_id = 31; subscription_id = 32; created_at = 2000 }

abbrev pub later_rows : NewRows
later_rows = record { user_id = 40; user_role_id = 41; subscription_id = 42; created_at = 3000 }

abbrev pub moments : Moments
moments = record { looked_up_at = 2000; started_at = 2001; decided_at = 2002 }

abbrev pub later_moments : Moments
later_moments = record { looked_up_at = 3000; started_at = 3001; decided_at = 3002 }

-- What a run returned, or a default.
abbrev pub result_or {ℓ} : {A : Type ℓ} → A → Result A → A
result_or d (ok a) = a
result_or d (err e) = d

-- The payment of a shop where the order has one receipt, read and waiting for the admin.
abbrev pub reviewed_shop : Database
reviewed_shop = shop_with OrderStatus.under_review (receipt_of 20 needs_review 1 ∷ [])

-- The same with a second receipt, whose analysis has begun, after the approval of the first.
abbrev pub approved_shop : Database
approved_shop =
    shop_with OrderStatus.approved
      (receipt_of 20 ReceiptStatus.approved 1 ∷ receipt_of 21 analyzing 1 ∷ [])

abbrev pub no_sale : Provisioned × Database
no_sale = (
  record {
    user_id = 0;
    username = [];
    account_type = company;
    provider_user_id = [];
    new_user = false;
    subscription_id = 0;
    expire_at = 0;
  },
  empty_shop,
)

abbrev pub no_submission : Submitted
no_submission = record { receipt = receipt_of 0 pending_analysis 0; effects = []; db = empty_shop }

abbrev pub breaks : Text → Result AnalysisResult
breaks image = err (failure (codes "timeout"))
