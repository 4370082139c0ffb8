-- ===== src/Brokers/Orders.antt =====
-- The purchase of packages: `submitPackageOrder`, `approveOrder` and `rejectOrder`.
use transport_backend.Base.{
  ℕ, ◌*◌, Bool, true, false, ◌&&◌, ◌||◌, not, Option, none, some, [], ◌∷◌, ◌++◌, ◌==◌, ltb,
  if◌then◌else◌, is_some, find, by_id, update_where, count_where, Text, Result, ok, err, ◌>>=◌,
  ◌>>◌, refuse_if, found_or, bad_request, not_found, conflict,
}
use transport_backend.Entities.{Uuid, Time, OrderStatus}
use transport_backend.Brokers.Policy.{
  BrokerOrderKind, requests_package, suggestion, BrokerAccessOrder, BrokerTables, BrokerRules,
}
use transport_backend.Brokers.Credits.{add_credit}
use transport_backend.Brokers.Companies.{add_companies}

-- `MAX_PACKAGES`
abbrev pub max_packages : ℕ
max_packages = 100

abbrev pub is_submitted : OrderStatus → Bool
is_submitted OrderStatus.receipt_submitted = true
is_submitted _ = false

abbrev pub is_package : BrokerOrderKind → Bool
is_package requests_package = true
is_package _ = false

-- `packages` is a whole number.
unfoldable pub submit_package_order :
    BrokerRules → Uuid → Uuid → ℕ → Text → BrokerTables → Result BrokerTables
submit_package_order rules new_id user packages path t = do
  refuse_if (not (rules.is_broker user)) (bad_request "Only a broker buys packages.")
  refuse_if (not rules.policy.packages_enabled) (bad_request "Requests are free now.")
  refuse_if (ltb packages 1 || ltb max_packages packages) (bad_request "The number is not valid.")
  refuse_if
      (is_some
        (find (λ o. (o.user_id == user) && is_package o.kind && is_submitted o.status) t.orders))
      (conflict "Your earlier receipt is being reviewed.")
  ok (record t {
    orders =
        t.orders
        ++ record {
          id = new_id;
          user_id = user;
          kind = requests_package;
          company_user_ids = [];
          requests = some (packages * rules.policy.package_size);
          amount = rules.policy.package_price * packages;
          currency = rules.policy.currency;
          status = OrderStatus.receipt_submitted;
          receipt_path = path;
          rejection_reason = none;
          reviewed_by = none;
          reviewed_at = none;
        }
          ∷ [];
  })

abbrev pub requests_or_none : Option ℕ → ℕ
requests_or_none none = 0
requests_or_none (some n) = n

-- What an approved order gives.
unfoldable pub deliver_order : Uuid → Time → BrokerAccessOrder → BrokerTables → BrokerTables
deliver_order new_id now o t = elim (o.kind) [
  | requests_package ↦ add_credit o.user_id (requests_or_none o.requests) t
  | suggestion ↦ t
  | _ ↦ add_companies new_id now o.user_id o.company_user_ids o.id t
]

unfoldable pub approved_package : Uuid → Time → BrokerAccessOrder → BrokerAccessOrder
approved_package admin now o = record o {
  status = OrderStatus.approved;
  reviewed_by = some admin;
  reviewed_at = some now;
}

unfoldable pub approve_package : Uuid → Uuid → Uuid → Time → BrokerTables → Result BrokerTables
approve_package new_id order_id admin now t = do
  o ← found_or (not_found "The order was not found.") (by_id BrokerAccessOrder.id order_id t.orders)
  refuse_if (not (is_submitted o.status)) (conflict "This order was reviewed before.")
  ok (record (deliver_order new_id now o t) {
    orders = update_where (λ x. x.id == order_id) (approved_package admin now) t.orders;
  })

abbrev pub is_waiting : Uuid → BrokerAccessOrder → Bool
is_waiting order_id o = (o.id == order_id) && is_submitted o.status

unfoldable pub rejected_package : Uuid → Text → Time → BrokerAccessOrder → BrokerAccessOrder
rejected_package admin reason now o = record o {
  status = OrderStatus.rejected;
  rejection_reason = some reason;
  reviewed_by = some admin;
  reviewed_at = some now;
}

unfoldable pub reject_package : Uuid → Uuid → Text → Time → BrokerTables → Result BrokerTables
reject_package order_id admin reason now t =
    if count_where (is_waiting order_id) t.orders == 0
    then err (conflict "No order with this id waits for a review.")
    else ok (record t {
      orders = update_where (is_waiting order_id) (rejected_package admin reason now) t.orders;
    })
