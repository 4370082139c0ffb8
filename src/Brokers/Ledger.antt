-- ===== src/Brokers/Ledger.antt =====
-- Any list of calls of the service against a plain account of requests: what was bought or given
-- and what was spent.
use transport_backend.Base.{
  ℕ, ◌+◌, ◌<◌, ◌≡◌, ◌∙◌, refl, ap, Bool, true, false, ◌&&◌, ◌||◌, Option, none, some, List, [], ◌∷◌,
  ◌==◌, if◌then◌else◌, by_id, Text, Result, ok, err, ◌++◌, leb, length, arith, Bool-cases,
  Option-cases, inl, inr,
}
use transport_backend.Entities.{Uuid, Time}
use transport_backend.Brokers.Policy.{
  BrokerRequestCredit, BrokerOrderKind, new_companies, added_companies, requests_package,
  suggestion, BrokerAccessOrder, BrokerTables, BrokerRules,
}
use transport_backend.Brokers.Credits.{
  remaining_in, remaining, take_one, add_to, add_credit, use_request, refund_request,
  grant_requests,
}
use transport_backend.Brokers.Companies.{
  contains, distinct, picked_by, attempted, add_within, select_companies, put_selection,
  add_inviting_company, drop_company, add_companies, current_selection,
}
use transport_backend.Brokers.Orders.{
  is_submitted, requests_or_none, submit_package_order, deliver_order, approve_package,
  reject_package,
}

remaining_in-take_one :
    (user k : Uuid) (cs : List BrokerRequestCredit)
    → 0 < remaining_in user cs
    → remaining_in k (take_one user cs) + (if user == k then 1 else 0) ≡ remaining_in k cs
unfolding remaining_in take_one
remaining_in-take_one user k [] h = absurd (omega arith)
remaining_in-take_one user k (c ∷ cs) h = ground (arith, remaining_in-take_one user k cs)

remaining_in-add_to :
    (user k : Uuid) (n : ℕ) (cs : List BrokerRequestCredit)
    → remaining_in k (add_to user n cs) ≡ remaining_in k cs + (if user == k then n else 0)
unfolding remaining_in add_to
remaining_in-add_to user k n [] = ground arith
remaining_in-add_to user k n (c ∷ cs) = ground (arith, remaining_in-add_to user k n cs)

-- The calls, with the ids that new rows get.
pub data BrokerCall : Type 0 where
  used refunded : Uuid → BrokerCall
  granted : Uuid → ℕ → BrokerCall
  submitted : (new_id user : Uuid) (packages : ℕ) (path : Text) → BrokerCall
  approval : (new_id order_id admin : Uuid) (now : Time) → BrokerCall
  rejection : (order_id admin : Uuid) (reason : Text) (now : Time) → BrokerCall
  selected : (new_id : Uuid) (now : Time) (user : Uuid) (chosen : List Uuid) → BrokerCall
  invited : (new_id : Uuid) (now : Time) (user company : Uuid) → BrokerCall
  dropped : (user company : Uuid) → BrokerCall

abbrev pub tables_or : BrokerTables → Result BrokerTables → BrokerTables
tables_or t (ok t') = t'
tables_or t (err e) = t

abbrev pub tables_after : BrokerTables → Result (Bool × BrokerTables) → BrokerTables
tables_after t (ok (taken, t')) = t'
tables_after t (err e) = t

-- A refused call changes nothing.
unfoldable pub handle : BrokerRules → BrokerCall → BrokerTables → BrokerTables
handle rules (used user) t = tables_after t (use_request rules user t)
handle rules (refunded user) t = refund_request user t
handle rules (granted user n) t = tables_or t (grant_requests rules user n t)
handle rules (submitted new_id user packages path) t =
    tables_or t (submit_package_order rules new_id user packages path t)
handle rules (approval new_id order_id admin now) t =
    tables_or t (approve_package new_id order_id admin now t)
handle rules (rejection order_id admin reason now) t =
    tables_or t (reject_package order_id admin reason now t)
handle rules (selected new_id now user chosen) t =
    tables_or t (select_companies rules new_id now user chosen t)
handle rules (invited new_id now user company) t =
    (add_inviting_company rules new_id now user company t).1
handle rules (dropped user company) t = drop_company user company t

-- The rules may change between the calls.
unfoldable pub handle_all : List (BrokerRules × BrokerCall) → BrokerTables → BrokerTables
handle_all [] t = t
handle_all ((rules, c) ∷ cs) t = handle_all cs (handle rules c t)

abbrev pub was_taken : Result (Bool × BrokerTables) → Bool
was_taken (ok (taken, t)) = taken
was_taken (err e) = false

-- What the account of this user spends by a call: one request if `useRequest` answers true.
unfoldable pub spent : Uuid → BrokerRules → BrokerCall → BrokerTables → ℕ
spent k rules (used user) t = if user == k && was_taken (use_request rules user t) then 1 else 0
spent k rules _ t = 0

-- The requests of an order that an approval gives this user.
unfoldable pub bought : Uuid → Option BrokerAccessOrder → ℕ
bought k none = 0
bought k (some o) =
    if o.user_id == k && is_submitted o.status
    then elim (o.kind) [ requests_package ↦ requests_or_none o.requests | _ ↦ 0 ]
    else 0

-- What the account gains by a call: a refund, a gift to a broker, or an order that is approved.
unfoldable pub gained : Uuid → BrokerRules → BrokerCall → BrokerTables → ℕ
gained k rules (refunded user) t = if user == k then 1 else 0
gained k rules (granted user n) t = if user == k && rules.is_broker user then n else 0
gained k rules (approval new_id order_id admin now) t =
    bought k (by_id BrokerAccessOrder.id order_id t.orders)
gained k rules _ t = 0

unfoldable pub total_spent : Uuid → List (BrokerRules × BrokerCall) → BrokerTables → ℕ
total_spent k [] t = 0
total_spent k ((rules, c) ∷ cs) t = spent k rules c t + total_spent k cs (handle rules c t)

unfoldable pub total_gained : Uuid → List (BrokerRules × BrokerCall) → BrokerTables → ℕ
total_gained k [] t = 0
total_gained k ((rules, c) ∷ cs) t = gained k rules c t + total_gained k cs (handle rules c t)

-- The calls that leave the credits alone.
put_selection-credits :
    (new_id : Uuid) (now : Time) (user : Uuid) (ids : List Uuid) (t : BrokerTables)
    → (put_selection new_id now user ids t).credits ≡ t.credits
unfolding put_selection
put_selection-credits new_id now user ids t = ground arith

select_companies-credits :
    (rules : BrokerRules) (new_id : Uuid) (now : Time) (user : Uuid) (chosen : List Uuid)
    (t : BrokerTables)
    → (tables_or t (select_companies rules new_id now user chosen t)).credits ≡ t.credits
unfolding select_companies
select_companies-credits rules new_id now user chosen t =
    ground (arith, put_selection-credits new_id now user (distinct chosen) t)

add_companies-credits :
    (new_id : Uuid) (now : Time) (user : Uuid) (ids : List Uuid) (order : Uuid) (t : BrokerTables)
    → (add_companies new_id now user ids order t).credits ≡ t.credits
unfolding add_companies
add_companies-credits new_id now user ids order t = ground arith

attempted-credits :
    (t : BrokerTables) (r : Result BrokerTables)
    → (attempted t r).1.credits ≡ (tables_or t r).credits
attempted-credits t (ok t') = refl
attempted-credits t (err e) = refl

add_within-credits :
    (rules : BrokerRules) (limit : ℕ) (new_id : Uuid) (now : Time) (user company : Uuid)
    (t : BrokerTables)
    → (add_within rules limit new_id now user company t).1.credits ≡ t.credits
unfolding add_within
add_within-credits rules limit new_id now user company t =
    let picked = picked_by (current_selection now user t) in
    elim (Bool-cases (contains company picked || leb limit (length picked))) [
      | inl f ↦ rw f refl
      | inr f ↦ rw f (
          attempted-credits t (select_companies rules new_id now user (picked ++ company ∷ []) t)
          ∙ select_companies-credits rules new_id now user (picked ++ company ∷ []) t)
    ]

add_inviting_company-credits :
    (rules : BrokerRules) (new_id : Uuid) (now : Time) (user company : Uuid) (t : BrokerTables)
    → (add_inviting_company rules new_id now user company t).1.credits ≡ t.credits
unfolding add_inviting_company
add_inviting_company-credits rules new_id now user company t =
    by_limit rules.policy.max_companies refl
  where
    by_limit :
        (limit : Option ℕ)
        → rules.policy.max_companies ≡ limit
        → (add_inviting_company rules new_id now user company t).1.credits ≡ t.credits
    by_limit none e = ground arith
    by_limit (some limit) e =
        ground (arith, add_within-credits rules limit new_id now user company t)

-- The calls that touch them.
use_request-account :
    (k : Uuid) (rules : BrokerRules) (user : Uuid) (t : BrokerTables)
    → remaining k (tables_after t (use_request rules user t))
        + (if user == k && was_taken (use_request rules user t) then 1 else 0)
      ≡ remaining k t
unfolding use_request remaining
use_request-account k rules user t = ground (arith, remaining_in-take_one user k t.credits)

grant_requests-account :
    (k : Uuid) (rules : BrokerRules) (user : Uuid) (n : ℕ) (t : BrokerTables)
    → remaining k (tables_or t (grant_requests rules user n t))
      ≡ remaining k t + (if user == k && rules.is_broker user then n else 0)
unfolding grant_requests add_credit remaining
grant_requests-account k rules user n t = ground (arith, remaining_in-add_to user k n t.credits)

submit_package_order-credits :
    (rules : BrokerRules) (new_id user : Uuid) (packages : ℕ) (path : Text) (t : BrokerTables)
    → (tables_or t (submit_package_order rules new_id user packages path t)).credits ≡ t.credits
unfolding submit_package_order
submit_package_order-credits rules new_id user packages path t = ground arith

reject_package-credits :
    (order_id admin : Uuid) (reason : Text) (now : Time) (t : BrokerTables)
    → (tables_or t (reject_package order_id admin reason now t)).credits ≡ t.credits
unfolding reject_package
reject_package-credits order_id admin reason now t = ground arith

deliver_order-account :
    (k new_id : Uuid) (now : Time) (o : BrokerAccessOrder) (kind : BrokerOrderKind)
    (t : BrokerTables)
    → o.kind ≡ kind
    → is_submitted o.status ≡ true
    → remaining_in k (deliver_order new_id now o t).credits
      ≡ remaining_in k t.credits + bought k (some o)
unfolding deliver_order bought add_credit
deliver_order-account k new_id now o requests_package t e h =
    rw e (ground (arith, remaining_in-add_to o.user_id k (requests_or_none o.requests) t.credits))
deliver_order-account k new_id now o suggestion t e h = rw e (ground arith)
deliver_order-account k new_id now o new_companies t e h =
    rw e (ground (arith, add_companies-credits new_id now o.user_id o.company_user_ids o.id t))
deliver_order-account k new_id now o added_companies t e h =
    rw e (ground (arith, add_companies-credits new_id now o.user_id o.company_user_ids o.id t))

approve_package-account :
    (k new_id order_id admin : Uuid) (now : Time) (t : BrokerTables)
    → remaining k (tables_or t (approve_package new_id order_id admin now t))
      ≡ remaining k t + bought k (by_id BrokerAccessOrder.id order_id t.orders)
unfolding approve_package remaining
approve_package-account k new_id order_id admin now t =
    elim (Option-cases (by_id BrokerAccessOrder.id order_id t.orders)) [
      | inl e ↦ rw e (unfold bought in omega arith)
      | inr (o, e) ↦ rw e (elim (Bool-cases (is_submitted o.status)) [
        | inl h ↦ rw h (deliver_order-account k new_id now o o.kind t refl h)
        | inr h ↦ rw h (unfold bought in ground arith)
      ])
    ]

-- One call keeps the account.
handle-account :
    (k : Uuid) (rules : BrokerRules) (c : BrokerCall) (t : BrokerTables)
    → remaining k (handle rules c t) + spent k rules c t ≡ remaining k t + gained k rules c t
unfolding handle spent gained remaining
handle-account k rules (used user) t = omega (arith, use_request-account k rules user t)
handle-account k rules (refunded user) t =
    unfold refund_request add_credit in omega (arith, remaining_in-add_to user k 1 t.credits)
handle-account k rules (granted user n) t = omega (arith, grant_requests-account k rules user n t)
handle-account k rules (submitted new_id user packages path) t =
    omega
      (arith, ap (remaining_in k) (submit_package_order-credits rules new_id user packages path t))
handle-account k rules (approval new_id order_id admin now) t =
    omega (arith, approve_package-account k new_id order_id admin now t)
handle-account k rules (rejection order_id admin reason now) t =
    omega (arith, ap (remaining_in k) (reject_package-credits order_id admin reason now t))
handle-account k rules (selected new_id now user chosen) t =
    omega (arith, ap (remaining_in k) (select_companies-credits rules new_id now user chosen t))
handle-account k rules (invited new_id now user company) t =
    omega
      (arith, ap (remaining_in k) (add_inviting_company-credits rules new_id now user company t))
handle-account k rules (dropped user company) t = unfold drop_company in omega arith

-- The account is kept along every list of calls, whatever the rules are at each: what a broker has
-- left and what it has spent make up what it had and what it gained. One request is spent where
-- `useRequest` answers true, and gained are the refunds, the gifts to a broker and the packages of
-- orders that an approval found submitted.
pub handle_all-account :
    (k : Uuid) (cs : List (BrokerRules × BrokerCall)) (t : BrokerTables)
    → remaining k (handle_all cs t) + total_spent k cs t ≡ remaining k t + total_gained k cs t
unfolding handle_all total_spent total_gained
handle_all-account k [] t = refl
handle_all-account k ((rules, c) ∷ cs) t =
    omega (arith, handle_all-account k cs (handle rules c t), handle-account k rules c t)
