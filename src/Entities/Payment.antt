-- ===== src/Entities/Payment.antt =====
-- src/domain/entities/subscription: plans, orders, receipts, subscriptions and bonuses.
-- An id is a number in place of a uuid, a time a number of milliseconds, an amount (a bigint
-- column) a number.
use Prim.Native.Nat.{ℕ}
use mathlib.Core.Bool.{Bool}
use mathlib.Core.Option.{Option}
use transport_backend.Base.{Text}
use transport_backend.Entities.Enums.{
  AccountType, CommunicationProvider, SubscriptionStatus, OrderStatus, ReceiptStatus, RecordStatus,
}

abbrev pub Uuid : Type 0
Uuid = ℕ

abbrev pub Time : Type 0
Time = ℕ

pub record SubscriptionPlan : Type 0 where
  pub id : Uuid
  pub title : Text
  pub account_type : AccountType
  pub duration_days : ℕ
  pub price : ℕ
  pub currency : Text
  pub record_status : RecordStatus
  pub sort_order : ℕ

pub record SubscriptionOrder : Type 0 where
  pub id : Uuid
  pub provider : CommunicationProvider
  pub provider_user_id : Text
  pub phone_number : Text
  pub account_type : AccountType
  pub subscription_plan_id : Uuid
  pub amount : ℕ
  pub currency : Text
  pub status : OrderStatus
  pub created_user_id : Option Uuid
  pub approved_at : Option Time
  pub approved_by_user_id : Option Uuid
  pub rejected_at : Option Time
  pub rejection_reason : Option Text
  pub created_at : Time

-- `paymentStatus` of ReceiptAnalysisResult.
pub data PaymentOutcome : Type 0 where
  success failed unknown : PaymentOutcome

-- The JSON of the analyzer, or `{ error }` of a failed analysis.
pub data AiRawResult : Type 0 where
  of_analyzer failed_with : Text → AiRawResult

pub record PaymentReceipt : Type 0 where
  pub id : Uuid
  pub order_id : Uuid
  pub provider_file_id : Option Text
  pub image_url : Text
  pub status : ReceiptStatus
  pub analysis_attempts : ℕ
  pub analysis_started_at : Option Time
  pub extracted_amount : Option ℕ
  pub tracking_code : Option Text
  pub transaction_date : Option Text
  pub transaction_time : Option Text
  pub source_card : Option Text
  pub destination_card : Option Text
  pub destination_name : Option Text
  pub extracted_payment_status : Option PaymentOutcome
  pub ai_confidence : Option ℕ
  pub amount_matched : Option Bool
  pub destination_card_matched : Option Bool
  pub destination_name_matched : Option Bool
  pub duplicate_tracking_code : Option Bool
  pub ai_raw_result : Option AiRawResult
  pub analyzed_at : Option Time
  pub reviewed_by_user_id : Option Uuid
  pub reviewed_at : Option Time
  pub review_note : Option Text
  pub created_at : Time

pub record Subscription : Type 0 where
  pub id : Uuid
  pub user_id : Uuid
  pub subscription_plan_id : Uuid
  pub order_id : Uuid
  pub start_at : Time
  pub expire_at : Time
  pub status : SubscriptionStatus

-- `reason` is «paid:<minTomans>»; the amount is kept.
pub record SubscriptionBonus : Type 0 where
  pub id : Uuid
  pub user_id : Uuid
  pub reason : ℕ
  pub days : ℕ
  pub start_at : Time
  pub expire_at : Time
