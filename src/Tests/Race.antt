-- ===== src/Tests/Race.antt =====
-- Two admins approve two orders at once, whose receipts have one tracking code: both are approved.
use mathlib.Core.List.{Memᴰ}
use transport_backend.Base.{refl, some, [], ◌∷◌, codes, by_id, save, find, arith, trim}
use transport_backend.Entities.{
  OrderStatus, SubscriptionOrder, PaymentReceipt, needs_review, Database,
}
use transport_backend.Provisioning.Buyer.{
  resolve_buyer, active_role, account_of, existing_user, linked_user, with_role, add_user,
  role_name, new_account, has_role, has_number,
}
use transport_backend.Phones.{account_phone}
use transport_backend.Provisioning.Approval.{
  check_approval, finish_approval, check_order, check_receipt, check_tracking_code, is_used_code,
  provision, subscribe, start_of, last_running, is_running, approved_receipt,
}
use transport_backend.Payments.Codes.{UniqueCodes, Uses}
use transport_backend.Payments.History.{
  System, History, start, next, begin_approval, end_approval, holds_lock, unlock,
}
use transport_backend.Payments.History.Laws.{IsSound, History-IsSound}
use transport_backend.Tests.Data.{
  order_of, receipt_of, shop_with, config, rows, later_rows, moments, later_moments, result_or,
  no_sale,
}

abbrev first_order : SubscriptionOrder
first_order = order_of OrderStatus.under_review

abbrev second_order : SubscriptionOrder
second_order = record first_order { id = 11; provider_user_id = codes "bale:8" }

abbrev first_receipt : PaymentReceipt
first_receipt = record (receipt_of 20 needs_review 1) { tracking_code = some (codes "T1") }

abbrev second_receipt : PaymentReceipt
second_receipt = record first_receipt { id = 21; order_id = 11 }

abbrev shop : Database
shop = record (shop_with OrderStatus.under_review (first_receipt ∷ second_receipt ∷ [])) {
  orders = first_order ∷ second_order ∷ [];
}

abbrev one_approved : Database
one_approved =
    (result_or no_sale (finish_approval rows moments 98 first_order first_receipt shop)).1

abbrev both_approved : Database
both_approved =
    (result_or no_sale
      (finish_approval later_rows later_moments 99 second_order second_receipt one_approved)).1

abbrev before_race : System
before_race = record { db = shop; in_flight = []; approvals = [] }

abbrev after_race : System
after_race = record { db = both_approved; in_flight = []; approvals = [] }

race : History config before_race after_race
unfolding check_approval finish_approval check_order check_receipt check_tracking_code is_used_code
    resolve_buyer active_role account_of existing_user linked_user with_role add_user find by_id
    save role_name new_account has_role has_number provision subscribe account_phone trim start_of
    last_running is_running holds_lock unlock
race =
    next
      (next
        (next (next start (begin_approval 10 20 first_order first_receipt refl refl))
          (begin_approval 11 21 second_order second_receipt refl refl))
        (end_approval rows moments 98 first_order first_receipt _ (Memᴰ.tail (Memᴰ.head refl))
          refl))
      (end_approval later_rows later_moments 99 second_order second_receipt _ (Memᴰ.head refl) refl)

-- One tracking code has paid for both orders.
one_code_twice :
    Uses both_approved.receipts 20 10 (codes "T1") × Uses both_approved.receipts 21 11 (codes "T1")
unfolding finish_approval resolve_buyer active_role account_of existing_user linked_user with_role
    add_user find by_id save role_name new_account has_role has_number provision account_phone trim
    approved_receipt
one_code_twice = ((_, refl, refl, refl, refl), (_, refl, refl, refl, refl))

shop-unique : UniqueCodes shop.receipts
unfolding by_id
shop-unique i j order code full (a, e, s, o, c) b = absurd (ground arith)

History-IsSound_example : IsSound after_race
History-IsSound_example =
    History-IsSound config {s = before_race} {t = after_race}
      (record { codes = shop-unique; approvals = tt }) race
