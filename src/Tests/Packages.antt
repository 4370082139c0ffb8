-- ===== src/Tests/Packages.antt =====
-- A broker buys a package of requests and spends one; and what it earns on a trip.
use transport_backend.Base.{
  ◌+◌, ◌≡◌, refl, true, false, none, some, List, [], ◌∷◌, err, conflict, by_id, update_where,
}
use transport_backend.Entities.{OrderStatus}
use transport_backend.Brokers.{
  BrokerTables, BrokerRules, BrokerAccessOrder, requests_package, remaining, approve_package,
  reject_package, deliver_order, add_credit, add_to, approved_package,
}
use transport_backend.Brokers.Ledger.{
  BrokerCall, used, submitted, approval, handle_all, total_spent, total_gained, handle_all-account,
}
use transport_backend.Brokers.Reviews.{review_once}

abbrev counted : BrokerRules
counted = record {
  brokers_open = false;
  policy = record {
    max_companies = some 3;
    packages_enabled = true;
    package_size = 10;
    package_price = 5000;
    currency = [];
    commission_percent = 250;
  };
  is_broker = λ user. true;
  companies = 10 ∷ [];
}

abbrev no_tables : BrokerTables
no_tables = record { credits = []; orders = []; periods = [] }

abbrev package_calls : List (BrokerRules × BrokerCall)
package_calls =
    (counted, submitted 1 20 1 []) ∷ (counted, approval 2 1 30 100) ∷ (counted, used 20) ∷ []

handle_all-account_example :
    remaining 20 (handle_all package_calls no_tables) + total_spent 20 package_calls no_tables
    ≡ remaining 20 no_tables + total_gained 20 package_calls no_tables
handle_all-account_example = handle_all-account 20 package_calls no_tables

abbrev package_order : BrokerAccessOrder
package_order = record {
  id = 1;
  user_id = 20;
  kind = requests_package;
  company_user_ids = [];
  requests = some 10;
  amount = 5000;
  currency = [];
  status = OrderStatus.receipt_submitted;
  receipt_path = [];
  rejection_reason = none;
  reviewed_by = none;
  reviewed_at = none;
}

abbrev ordered : BrokerTables
ordered = record no_tables { orders = package_order ∷ [] }

abbrev paid : BrokerTables
paid = record {
  credits = record { user_id = 20; remaining = 10 } ∷ [];
  orders =
      record package_order {
        status = OrderStatus.approved;
        reviewed_by = some 30;
        reviewed_at = some 100;
      }
      ∷ [];
  periods = [];
}

review_once_example :
    (approve_package 3 1 31 200 paid ≡ err (conflict "This order was reviewed before."))
    × (reject_package 1 31 [] 200 paid ≡ err (conflict "No order with this id waits for a review."))
unfolding approve_package deliver_order add_credit add_to approved_package by_id update_where
review_once_example = review_once 2 3 1 30 31 100 200 [] ordered paid refl
