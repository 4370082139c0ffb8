-- ===== src/Receipts/Analysis.antt =====
-- The analysis of a receipt: `analyzeReceipt`, `processReceipt` and `maxAnalysisAttempts` of
-- PaymentReceiptService, and the sweep of receiptAnalysisWorker.service.ts. The vision model is a
-- parameter, and so is what the rest of the system does to the database while it reads the image.
pub mod Laws
pub mod Retry
use Prim.Native.String.{String}
use transport_backend.Base.{
  ℕ, ◌-◌, ◌*◌, ◌^◌, Bool, true, false, ◌&&◌, not, Option, none, some, List, [], ◌∷◌, ◌==◌, ltb,
  if◌then◌else◌, or_else, Text, codes, text_eq, by_id, Result, ok, err, Exception, bad_request,
  not_found, conflict, unauthorized, forbidden, too_many_requests, failure, found_or, ◌>>=◌,
}
use transport_backend.Entities.{
  Uuid, Time, PaymentReceipt, SubscriptionOrder, Database, PaymentOutcome, of_analyzer,
  needs_review, under_review, receipt_is_analyzing,
}
use transport_backend.Receipts.Matching.{card_matches, name_matches}
use transport_backend.Receipts.Queue.{
  save_with_order, exists_tracking_code, claim_for_analysis, release_failed_analysis,
  release_stale_analyses, find_pending_analysis_ids,
}

-- `ReceiptAnalysisResult` (receiptAnalyzer.interface.ts).
pub record AnalysisResult : Type 0 where
  pub amount : Option ℕ
  pub tracking_code : Option Text
  pub transaction_date : Option Text
  pub transaction_time : Option Text
  pub source_card : Option Text
  pub destination_card : Option Text
  pub destination_name : Option Text
  pub payment_status : PaymentOutcome
  pub confidence : ℕ
  pub raw_result : Text

-- RECEIPT_ANALYSIS_MAX_ATTEMPTS as a number, if it is a whole one from 0 up; CARD_NO; CARD_OWNER.
pub record Config : Type 0 where
  pub max_attempts : Option ℕ
  pub card_no : Text
  pub card_owner : Text

-- `maxAnalysisAttempts`: a positive safe integer, or 5.
unfoldable pub max_analysis_attempts : Config → ℕ
max_analysis_attempts c = elim c.max_attempts [
  | none ↦ 5
  | some n ↦ if ltb 0 n && ltb n (2 ^ 53) then n else 5
]

-- The order amount is in the order currency; the analyzer reports rials.
unfoldable pub expected_rials : SubscriptionOrder → ℕ
expected_rials order = order.amount * (if text_eq order.currency (codes "IRT") then 10 else 1)

unfoldable pub amount_agrees : Option ℕ → ℕ → Bool
amount_agrees none expected = false
amount_agrees (some a) expected = a == expected

-- What `analyzeReceipt` has read before it calls the model: a receipt that is no longer its own, or
-- the receipt and its order.
pub data Reading : Type 0 where
  left_alone : PaymentReceipt → Reading
  in_hand : PaymentReceipt → SubscriptionOrder → Reading

unfoldable pub read_for_analysis : Uuid → Database → Result Reading
read_for_analysis receipt_id db = do
  receipt ←
      found_or (not_found "Payment receipt not found")
        (by_id PaymentReceipt.id receipt_id db.receipts)
  if not (receipt_is_analyzing receipt.status) then ok (left_alone receipt) else (do
    order ←
        found_or (not_found "Subscription order not found")
          (by_id SubscriptionOrder.id receipt.order_id db.orders)
    ok (in_hand receipt order))

-- A property set to `undefined` is not written: the stored column stays.
unfoldable pub stored_or :
    {A : Type 0} → (PaymentReceipt → Option A) → Option A → Option PaymentReceipt → Option A
stored_or column (some a) stored = some a
stored_or column none none = none
stored_or column none (some r) = column r

unfoldable pub is_duplicate : Option Text → Uuid → Database → Bool
is_duplicate none receipt_id db = false
is_duplicate (some code) receipt_id db = exists_tracking_code code receipt_id db

-- The receipt as it is saved after the model has answered; `stored` is the row that it replaces.
unfoldable pub analysed :
    Config
    → Time
    → AnalysisResult
    → Option PaymentReceipt
    → Database
    → PaymentReceipt
    → SubscriptionOrder
    → PaymentReceipt
analysed config now result stored db receipt order = record receipt {
  extracted_amount = stored_or PaymentReceipt.extracted_amount result.amount stored;
  tracking_code = stored_or PaymentReceipt.tracking_code result.tracking_code stored;
  transaction_date = stored_or PaymentReceipt.transaction_date result.transaction_date stored;
  transaction_time = stored_or PaymentReceipt.transaction_time result.transaction_time stored;
  source_card = stored_or PaymentReceipt.source_card result.source_card stored;
  destination_card = stored_or PaymentReceipt.destination_card result.destination_card stored;
  destination_name = stored_or PaymentReceipt.destination_name result.destination_name stored;
  extracted_payment_status = some result.payment_status;
  ai_confidence = some result.confidence;
  ai_raw_result = some (of_analyzer result.raw_result);
  amount_matched = some (amount_agrees result.amount (expected_rials order));
  destination_card_matched = some (card_matches result.destination_card config.card_no);
  destination_name_matched = some (name_matches result.destination_name config.card_owner);
  duplicate_tracking_code = some (is_duplicate result.tracking_code receipt.id db);
  status = needs_review;
  analyzed_at = some now;
}

-- The part of `analyzeReceipt` after the model's answer.
unfoldable pub finish_analysis :
    Config
    → Time
    → AnalysisResult
    → PaymentReceipt
    → SubscriptionOrder
    → Database
    → PaymentReceipt × Database
unfolding save_with_order
finish_analysis config now result receipt order db =
    save_with_order
      (analysed config now result (by_id PaymentReceipt.id receipt.id db.receipts) db receipt order)
      (record order { status = under_review }) db

-- `errorMessage`
unfoldable pub error_message : Exception → Text
error_message (bad_request m) = codes m
error_message (not_found m) = codes m
error_message (conflict m) = codes m
error_message (unauthorized text) = codes text
error_message (forbidden text) = codes text
error_message (too_many_requests text seconds) = codes text
error_message (failure t) = t

module _ (analyze : Text → Result AnalysisResult) (meanwhile : Database → Database)
    (config : Config) where
  unfoldable pub analyze_receipt : Time → Uuid → Database → Result PaymentReceipt × Database
  analyze_receipt now receipt_id db = elim (read_for_analysis receipt_id db) [
    | err e ↦ (err e, db)
    | ok (left_alone r) ↦ (ok r, db)
    | ok (in_hand r o) ↦ elim (analyze r.image_url) [
      | err e ↦ (err e, meanwhile db)
      | ok result ↦
          let (saved, db') = finish_analysis config now result r o (meanwhile db) in (ok saved, db')
    ]
  ]

  -- The `catch` of `processReceipt`.
  unfoldable pub settle : Uuid → Result PaymentReceipt × Database → Database
  settle receipt_id (ok r, db) = db
  settle receipt_id (err e, db) =
      release_failed_analysis receipt_id (max_analysis_attempts config) (error_message e) db

  unfoldable pub process_receipt : Time → Uuid → Database → Database
  process_receipt now receipt_id db =
      let (won, db') = claim_for_analysis now receipt_id db in
      if won then settle receipt_id (analyze_receipt now receipt_id db') else db'

  -- The loop of `tick`; `clock` is the time at which each receipt has its turn.
  unfoldable pub process_all : (Uuid → Time) → List Uuid → Database → Database
  process_all clock [] db = db
  process_all clock (k ∷ ks) db = process_all clock ks (process_receipt (clock k) k db)

  -- `tick`, unless another sweep runs.
  unfoldable pub tick : ℕ → Time → (Uuid → Time) → Bool → Database → Database
  tick stale_ms now clock running db =
      if running
      then db
      else let (count, db') =
          release_stale_analyses (now - stale_ms) (max_analysis_attempts config) db in
        process_all clock (find_pending_analysis_ids (now - 60000) 10 db') db'
