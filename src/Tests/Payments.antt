-- ===== src/Tests/Payments.antt =====
-- A purchase from its order to its subscription.
use transport_backend.Base.{
  ◌≤◌, ◌≡◌, ◌↔◌, refl, true, false, some, [], ◌∷◌, length, codes, Result, ok, err, bad_request,
  conflict, by_id, save, find, count_where, is_digit, trim, arith, failure, All, replicate, keep,
}
use transport_backend.Entities.{
  waiting_for_receipt, receipt_submitted, under_review, pending_analysis, analyzing, needs_review,
  OrderStatus, SubscriptionOrder, PaymentReceipt, Subscription, Database,
}
use transport_backend.Phones.{order_phone, account_phone, is_valid_iran_mobile}
use transport_backend.Phones.Laws.{valid_phone_stable}
use transport_backend.Orders.{build_order}
use transport_backend.Orders.Laws.{IsBuilt, build_order-IsBuilt}
use transport_backend.Receipts.Matching.{card_matches, name_matches}
use transport_backend.Receipts.Matching.Laws.{ShowsCard, card_matches_iff}
use transport_backend.Receipts.Queue.{claim_for_analysis, exists_tracking_code}
use transport_backend.Receipts.Queue.Laws.{claim_once}
use transport_backend.Receipts.Submission.{submit_receipt, order_to_pay, is_closed, save_submission}
use transport_backend.Receipts.Submission.Laws.{IsStored, submit_receipt-IsStored}
use transport_backend.Receipts.Analysis.{
  analyze_receipt, process_all, max_analysis_attempts, read_for_analysis, finish_analysis, analysed,
  stored_or, is_duplicate,
}
use transport_backend.Receipts.Analysis.Laws.{analyze_receipt_verdict}
use transport_backend.Receipts.Analysis.Retry.{Holds, analysis_gives_up}
use transport_backend.Provisioning.Buyer.{
  resolve_buyer, active_role, account_of, existing_user, linked_user, with_role, add_user,
  role_name, new_account, has_role, has_number,
}
use transport_backend.Provisioning.Approval.{
  approve_order, check_order, check_receipt, check_tracking_code, provision, subscribe, start_of,
  last_running, is_running, is_used_code, approved_order, approved_receipt, Provisioned,
}
use transport_backend.Provisioning.Approval.Laws.{
  IsProvisioned, approve_order-IsProvisioned, approve_once,
}
use transport_backend.Provisioning.Approval.Renewal.{renewal_follows}
use transport_backend.Provisioning.Rejection.{reject_receipt}
use transport_backend.Payments.Reopened.{analysis_reopens}
use transport_backend.Tests.Data.{
  order_row, receipt_row, purchase, payment, empty_shop, order_of, receipt_of, shop_with, config,
  reading, reads, breaks, rows, later_rows, moments, later_moments, result_or, reviewed_shop,
  approved_shop, no_sale, no_submission,
}

valid_phone_stable_example :
    (order_phone (codes "09123456789") ≡ codes "09123456789")
    × (account_phone (codes "09123456789") ≡ codes "09123456789")
unfolding is_valid_iran_mobile
valid_phone_stable_example = valid_phone_stable (codes "09123456789") refl

build_order-IsBuilt_example : IsBuilt order_row purchase empty_shop (order_of waiting_for_receipt)
unfolding build_order by_id order_phone is_valid_iran_mobile trim
build_order-IsBuilt_example =
    build_order-IsBuilt order_row purchase empty_shop (order_of waiting_for_receipt) refl

submit_receipt-IsStored_example :
    (order : SubscriptionOrder) × (order_to_pay order_row payment empty_shop ≡ ok order)
    × IsStored receipt_row order empty_shop
        (result_or no_submission (submit_receipt order_row receipt_row payment empty_shop))
unfolding submit_receipt order_to_pay build_order by_id order_phone is_valid_iran_mobile trim
    is_closed save_submission
submit_receipt-IsStored_example =
    submit_receipt-IsStored order_row receipt_row payment empty_shop
      (result_or no_submission (submit_receipt order_row receipt_row payment empty_shop)) refl

claim_once_example :
    (claim_for_analysis 6 20
      (claim_for_analysis 5 20
        (shop_with receipt_submitted (receipt_of 20 pending_analysis 0 ∷ []))).1).0
    ≡ false
claim_once_example =
    claim_once 5 6 20 (shop_with receipt_submitted (receipt_of 20 pending_analysis 0 ∷ []))

card_matches_iff_example :
    (card_matches (some (codes "603799******4455")) config.card_no ≡ true)
    ↔ ShowsCard (codes "603799******4455") (keep is_digit config.card_no)
card_matches_iff_example = card_matches_iff (codes "603799******4455") config.card_no

abbrev analysed_shop : Database
analysed_shop = shop_with receipt_submitted (receipt_of 20 analyzing 1 ∷ [])

analyze_receipt_verdict_example :
    (saved : PaymentReceipt) × ((analyze_receipt reads (λ d. d) config 9 20 analysed_shop).0
      ≡ ok saved)
    × (by_id PaymentReceipt.id 20
          (analyze_receipt reads (λ d. d) config 9 20 analysed_shop).1.receipts
        ≡ some saved)
    × (saved.status ≡ needs_review)
    × ((saved.amount_matched ≡ some true) ↔ (reading.amount ≡ some 5000000))
    × (saved.destination_card_matched ≡ some (card_matches reading.destination_card config.card_no))
    × (saved.destination_name_matched
        ≡ some (name_matches reading.destination_name config.card_owner))
unfolding by_id
analyze_receipt_verdict_example =
    analyze_receipt_verdict reads (λ d. d) config 9 20 analysed_shop (receipt_of 20 analyzing 1)
      (order_of receipt_submitted) reading refl refl refl refl

analysis_gives_up_example :
    (r : PaymentReceipt) × Holds
      (process_all breaks
        (λ d. d)
        config
        (λ k. 9)
        (replicate 3 20)
        (shop_with receipt_submitted (receipt_of 20 pending_analysis 0 ∷ [])))
      20
      r
    × (r.status ≡ needs_review)
    × (r.analysis_attempts ≡ max_analysis_attempts config)
unfolding by_id max_analysis_attempts
analysis_gives_up_example =
    analysis_gives_up breaks (λ image. (failure (codes "timeout"), refl)) config (λ k. 9) 20 2
      (shop_with receipt_submitted (receipt_of 20 pending_analysis 0 ∷ []))
      (receipt_of 20 pending_analysis 0) ((refl, tt), refl) refl refl

-- What the approval of the reviewed receipt returns.
abbrev sale : Result (Provisioned × Database)
sale = approve_order rows moments 10 20 99 reviewed_shop

approve_order-IsProvisioned_example :
    IsProvisioned rows moments 10 20 99 reviewed_shop
      (result_or no_sale sale).0
      (result_or no_sale sale).1
unfolding approve_order check_order check_receipt check_tracking_code resolve_buyer active_role
    account_of existing_user linked_user with_role add_user find by_id save role_name new_account
    has_role provision subscribe has_number account_phone trim start_of last_running is_running
approve_order-IsProvisioned_example =
    approve_order-IsProvisioned rows moments 10 20 99 reviewed_shop (result_or no_sale sale).0
      (result_or no_sale sale).1 refl

approve_once_example :
    (approve_order later_rows later_moments 10 20 98 (result_or no_sale sale).1
      ≡ err (conflict "Subscription order has already been approved"))
    × (reject_receipt 3002 10 20 98 (codes "no") (result_or no_sale sale).1
        ≡ err (bad_request "Approved subscription order cannot be rejected"))
unfolding approve_order check_order check_receipt check_tracking_code resolve_buyer active_role
    account_of existing_user linked_user with_role add_user find by_id save role_name new_account
    has_role provision subscribe has_number account_phone trim start_of last_running is_running
approve_once_example =
    approve_once rows later_rows moments later_moments 10 20 99 20 98 (codes "no") reviewed_shop
      (result_or no_sale sale).0 (result_or no_sale sale).1 refl

renewal_follows_example :
    (s : Subscription) × (by_id Subscription.id 32 (result_or no_sale sale).1.subscriptions
      ≡ some s)
    × (s.user_id ≡ (result_or no_sale sale).0.user_id)
    × All
        (λ t.
          is_running 2000 (result_or no_sale sale).0.user_id t ≡ true → t.expire_at ≤ s.start_at)
        reviewed_shop.subscriptions
    × (2000 ≤ s.start_at)
unfolding approve_order check_order check_receipt check_tracking_code resolve_buyer active_role
    account_of existing_user linked_user with_role add_user find by_id save role_name new_account
    has_role provision subscribe has_number account_phone trim start_of last_running is_running
renewal_follows_example =
    renewal_follows rows moments 10 20 99 reviewed_shop (result_or no_sale sale).0
      (result_or no_sale sale).1 (omega arith) refl

analysis_reopens_example :
    (by_id SubscriptionOrder.id 10
        (analyze_receipt reads (λ d. d) config 9 21 approved_shop).1.orders
      ≡ some (order_of under_review))
    × (check_order (order_of under_review) ≡ ok tt)
unfolding by_id
analysis_reopens_example =
    analysis_reopens reads config 9 21 approved_shop (receipt_of 21 analyzing 1)
      (order_of OrderStatus.approved) reading refl refl refl refl refl

-- Two receipts of one order, one reviewed and one still with the model: the first is approved, the
-- analysis of the second ends, and the second is approved too. The order has two subscriptions.
abbrev busy_shop : Database
busy_shop =
    shop_with OrderStatus.under_review
      (receipt_of 20 needs_review 1 ∷ receipt_of 21 analyzing 1 ∷ [])

sold_twice :
    length
      (result_or no_sale (
        approve_order later_rows later_moments 10 21 99
          (analyze_receipt reads
            (λ d. d)
            config
            9
            21
            (result_or no_sale
              (approve_order rows moments 10 20 99 busy_shop)).1).1)).1.subscriptions
    ≡ 2
unfolding approve_order check_order check_receipt check_tracking_code resolve_buyer active_role
    account_of existing_user linked_user with_role add_user find by_id save role_name new_account
    has_role provision subscribe has_number account_phone trim start_of last_running is_running
    analyze_receipt read_for_analysis finish_analysis analysed stored_or is_duplicate
    exists_tracking_code count_where card_matches name_matches is_used_code approved_order
    approved_receipt
sold_twice = refl
