-- ===== src/Orders/Laws.antt =====
-- What a built order holds, when building succeeds, and which order a user is shown.
use mathlib.Core.Path.{subst}
use transport_backend.Base.{
  ◌⊎◌, inl, inr, All, ◌≡◌, Bool, true, false, ◌&&◌, none, some, List, [], ◌∷◌, by_id, by_id_key,
  Text, is_empty, trim, ok, Option-cases, arith,
}
use transport_backend.Entities.{
  AccountType, account_type_eq, CommunicationProvider, SubscriptionPlan, SubscriptionOrder,
  Database, waiting_for_receipt,
}
use transport_backend.Phones.{order_phone, account_phone, is_valid_iran_mobile}
use transport_backend.Phones.Laws.{valid_phone_stable}
use transport_backend.Orders.{
  CreateOrder, NewRow, order_of_plan, build_order, latest, is_of_user, is_pending,
  find_order_for_tracking,
}

account_type_eq→eq : (a b : AccountType) → account_type_eq a b ≡ true → a ≡ b
account_type_eq→eq a b h = ground arith

-- What an order is when it is built: the plan as it is sold now, for the right kind of account, what
-- was asked for, and a number that the approval will read back unchanged.
pub record IsBuilt (row : NewRow) (params : CreateOrder) (db : Database) (o : SubscriptionOrder)
    : Type 0 where
  pub plan : SubscriptionPlan
  pub listed : by_id SubscriptionPlan.id params.subscription_plan_id db.plans ≡ some plan
  pub new_row : (o.id ≡ row.id) × (o.created_at ≡ row.created_at)
  pub same_plan : o.subscription_plan_id ≡ params.subscription_plan_id
  pub asked_account : o.account_type ≡ params.account_type
  pub same_account : plan.account_type ≡ params.account_type
  pub asked_user :
      (o.provider ≡ params.provider) × (o.provider_user_id ≡ trim params.provider_user_id)
  pub asked_phone : o.phone_number ≡ order_phone params.phone_number
  pub same_price : o.amount ≡ plan.price
  pub same_currency : o.currency ≡ plan.currency
  pub waiting : o.status ≡ waiting_for_receipt
  pub undecided :
      (o.created_user_id ≡ none)
      × (o.approved_at ≡ none)
      × (o.approved_by_user_id ≡ none)
      × (o.rejected_at ≡ none)
      × (o.rejection_reason ≡ none)
  pub has_user : is_empty o.provider_user_id ≡ false
  pub valid : is_valid_iran_mobile o.phone_number ≡ true
  pub username : account_phone o.phone_number ≡ o.phone_number

-- An order that is built is the new row, for the messenger, the trimmed user id, the number, the
-- account type and the plan asked for; it holds the price and the currency of the listed plan, which
-- is of that account type; it waits for its receipt, approved and rejected by nobody; its user id is
-- not empty, and its number is a valid mobile that the approval reads as the same username.
pub build_order-IsBuilt :
    (row : NewRow) (params : CreateOrder) (db : Database) (o : SubscriptionOrder)
    → build_order row params db ≡ ok o
    → IsBuilt row params db o
unfolding build_order
build_order-IsBuilt row params db o h =
    elim (Option-cases (by_id SubscriptionPlan.id params.subscription_plan_id db.plans)) [
      | inl missing ↦ absurd (ground arith)
      | inr (p, listed) ↦ record {
        plan = p;
        listed = listed;
        new_row = (ground arith, ground arith);
        same_plan =
            ground
              (arith, by_id_key SubscriptionPlan.id params.subscription_plan_id db.plans listed);
        asked_account = ground arith;
        same_account = ground (arith, account_type_eq→eq p.account_type params.account_type);
        asked_user = (ground arith, ground arith);
        asked_phone = ground arith;
        same_price = ground arith;
        same_currency = ground arith;
        waiting = ground arith;
        undecided = (ground arith, ground arith, ground arith, ground arith, ground arith);
        has_user = ground arith;
        valid = ground arith;
        username = ground (arith, valid_phone_stable (order_phone params.phone_number));
      }
    ]

-- What the parameters must meet.
pub record CanBuild (params : CreateOrder) (db : Database) : Type 0 where
  pub plan : SubscriptionPlan
  pub listed : by_id SubscriptionPlan.id params.subscription_plan_id db.plans ≡ some plan
  pub same_account : plan.account_type ≡ params.account_type
  pub has_user : is_empty (trim params.provider_user_id) ≡ false
  pub valid : is_valid_iran_mobile (order_phone params.phone_number) ≡ true

account_type_eq_refl : (a : AccountType) → account_type_eq a a ≡ true
account_type_eq_refl a = ground arith

-- Where the user id is not blank, the number is valid and the plan is listed for the account type,
-- an order is built: nothing else refuses it.
pub build_order_total :
    (row : NewRow) (params : CreateOrder) (db : Database) (c : CanBuild params db)
    → build_order row params db
      ≡ ok (
          order_of_plan row params
            (trim params.provider_user_id)
            (order_phone params.phone_number)
            c.plan)
unfolding build_order
build_order_total row params db c =
    rw (c.has_user, c.valid, c.listed, c.same_account, account_type_eq_refl params.account_type)

latest-meets :
    (p : SubscriptionOrder → Bool) (os : List SubscriptionOrder) {o : SubscriptionOrder}
    → latest p os ≡ some o
    → p o ≡ true
unfolding latest
latest-meets p [] h = ground arith
latest-meets p (x ∷ os) {o} h = elim (Option-cases (latest p os)) [
  | inl e ↦ ground arith
  | inr (q, e) ↦ ground (arith, latest-meets p os {o = q} e)
]

latest-none :
    (p : SubscriptionOrder → Bool) (os : List SubscriptionOrder)
    → latest p os ≡ none
    → All (λ o. p o ≡ false) os
unfolding latest
latest-none p [] h = tt
latest-none p (x ∷ os) h = (ground arith, latest-none p os (ground arith))

-- A user who tracks a purchase is shown one of its own orders; a finished one (approved, rejected
-- or cancelled) is shown only when none of its orders in that messenger is pending.
pub find_order_for_tracking_pending_first :
    (provider : CommunicationProvider) (user : Text) (db : Database) (o : SubscriptionOrder)
    → find_order_for_tracking provider user db ≡ some o
    → (is_of_user provider user o ≡ true)
      × ((is_pending o ≡ true)
          ⊎ All (λ x. (is_of_user provider user x && is_pending x) ≡ false) db.orders)
unfolding find_order_for_tracking
find_order_for_tracking_pending_first provider user db o h =
    elim (Option-cases (latest (λ x. is_of_user provider user x && is_pending x) db.orders)) [
      | inl nothing ↦ (
        latest-meets (is_of_user provider user) db.orders {o = o} (ground arith),
        inr (latest-none _ db.orders nothing),
      )
      | inr (q, e) ↦
          let meets = latest-meets (λ x. is_of_user provider user x && is_pending x) db.orders e in
          let same : q ≡ o = ground arith in
          (
            subst (λ x. is_of_user provider user x ≡ true) same (ground (arith, meets)),
            inl (subst (λ x. is_pending x ≡ true) same (ground (arith, meets))),
          )
    ]
