-- ===== src/Entities/Enums.antt =====
-- src/domain/enums/subscription.ts and RecordStatus.ts, with `===` on each enum that is compared.
use mathlib.Core.Bool.{Bool, true, false}

pub data AccountType : Type 0 where
  driver company broker factory : AccountType

pub data CommunicationProvider : Type 0 where
  telegram whatsapp web bale rubika eitaa : CommunicationProvider

pub data SubscriptionStatus : Type 0 where
  active expired cancelled : SubscriptionStatus

pub data OrderStatus : Type 0 where
  waiting_for_receipt receipt_submitted under_review approved rejected cancelled : OrderStatus

pub data ReceiptStatus : Type 0 where
  pending_analysis analyzing analyzed needs_review approved rejected : ReceiptStatus

pub data RecordStatus : Type 0 where
  active inactive : RecordStatus

abbrev pub account_type_eq : AccountType → AccountType → Bool
account_type_eq driver driver = true
account_type_eq company company = true
account_type_eq broker broker = true
account_type_eq factory factory = true
account_type_eq _ _ = false

abbrev pub order_is_approved : OrderStatus → Bool
order_is_approved OrderStatus.approved = true
order_is_approved _ = false

abbrev pub order_is_rejected : OrderStatus → Bool
order_is_rejected OrderStatus.rejected = true
order_is_rejected _ = false

abbrev pub order_is_cancelled : OrderStatus → Bool
order_is_cancelled OrderStatus.cancelled = true
order_is_cancelled _ = false

abbrev pub receipt_is_pending : ReceiptStatus → Bool
receipt_is_pending pending_analysis = true
receipt_is_pending _ = false

abbrev pub receipt_is_analyzing : ReceiptStatus → Bool
receipt_is_analyzing analyzing = true
receipt_is_analyzing _ = false

abbrev pub receipt_is_approved : ReceiptStatus → Bool
receipt_is_approved ReceiptStatus.approved = true
receipt_is_approved _ = false

abbrev pub receipt_is_rejected : ReceiptStatus → Bool
receipt_is_rejected ReceiptStatus.rejected = true
receipt_is_rejected _ = false

abbrev pub subscription_is_active : SubscriptionStatus → Bool
subscription_is_active SubscriptionStatus.active = true
subscription_is_active _ = false

abbrev pub record_is_active : RecordStatus → Bool
record_is_active RecordStatus.active = true
record_is_active _ = false
