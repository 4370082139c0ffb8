-- ===== src/Brokers/Credits.antt =====
-- `remaining`, `useRequest`, `refundRequest`, `addCredit` and `grantRequests`.
use transport_backend.Base.{
  ℕ, ◌+◌, ◌-◌, Bool, true, false, ◌||◌, not, List, [], ◌∷◌, ◌==◌, ltb, if◌then◌else◌, Result, ok,
  err, conflict, not_found,
}
use transport_backend.Entities.{Uuid}
use transport_backend.Brokers.Policy.{BrokerRequestCredit, BrokerTables, BrokerRules}

-- The user id is the key of the table.
unfoldable pub remaining_in : Uuid → List BrokerRequestCredit → ℕ
remaining_in user [] = 0
remaining_in user (c ∷ cs) = if c.user_id == user then c.remaining else remaining_in user cs

unfoldable pub remaining : Uuid → BrokerTables → ℕ
remaining user t = remaining_in user t.credits

-- `UPDATE … SET remaining = remaining - 1 WHERE "userId" = $1 AND remaining > 0`
unfoldable pub take_one : Uuid → List BrokerRequestCredit → List BrokerRequestCredit
take_one user [] = []
take_one user (c ∷ cs) =
    if c.user_id == user
    then (if ltb 0 c.remaining then record c { remaining = c.remaining - 1 } else c) ∷ cs
    else c ∷ take_one user cs

-- `INSERT … ON CONFLICT ("userId") DO UPDATE SET remaining = remaining + EXCLUDED.remaining`
unfoldable pub add_to : Uuid → ℕ → List BrokerRequestCredit → List BrokerRequestCredit
add_to user n [] = record { user_id = user; remaining = n } ∷ []
add_to user n (c ∷ cs) =
    if c.user_id == user
    then record c { remaining = c.remaining + n } ∷ cs
    else c ∷ add_to user n cs

unfoldable pub add_credit : Uuid → ℕ → BrokerTables → BrokerTables
add_credit user n t = record t { credits = add_to user n t.credits }

-- Whether this user's requests are counted now.
unfoldable pub is_counted : BrokerRules → Uuid → Bool
is_counted rules user =
    not (rules.brokers_open || not (rules.is_broker user) || not rules.policy.packages_enabled)

-- `useRequest`: true if a request was taken off. A row is updated if one is left.
unfoldable pub use_request : BrokerRules → Uuid → BrokerTables → Result (Bool × BrokerTables)
use_request rules user t =
    if not (is_counted rules user)
    then ok (false, t)
    else if ltb 0 (remaining user t)
    then ok (true, record t { credits = take_one user t.credits })
    else err (conflict "noCredit")

unfoldable pub refund_request : Uuid → BrokerTables → BrokerTables
refund_request user t = add_credit user 1 t

unfoldable pub grant_requests : BrokerRules → Uuid → ℕ → BrokerTables → Result BrokerTables
grant_requests rules user n t =
    if not (rules.is_broker user)
    then err (not_found "There is no broker with this id.")
    else ok (add_credit user n t)

-- `outOfRequests`
unfoldable pub out_of_requests : BrokerRules → Uuid → BrokerTables → Bool
out_of_requests rules user t = if not (is_counted rules user) then false else remaining user t == 0
