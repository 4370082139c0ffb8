-- ===== src/Orders.antt =====
-- SubscriptionOrderService (subscriptionorder.service.ts) and the queries of
-- SubscriptionOrderRepository that it uses.
pub mod Laws
use transport_backend.Base.{
  Bool, ◌&&◌, ◌||◌, not, Option, none, some, List, [], ◌∷◌, ◌==◌, ltb, or_else, if◌then◌else◌,
  by_id, Text, text_eq, is_empty, trim, Result, ok, ◌>>=◌, ◌>>◌, refuse_if, found_or, bad_request,
  not_found, save,
}
use transport_backend.Entities.{
  Uuid, Time, AccountType, CommunicationProvider, telegram, whatsapp, web, bale, rubika, eitaa,
  OrderStatus, waiting_for_receipt, SubscriptionPlan, SubscriptionOrder, Database, account_type_eq,
  order_is_approved, order_is_rejected, order_is_cancelled,
}
use transport_backend.Phones.{order_phone, is_valid_iran_mobile}

pub record CreateOrder : Type 0 where
  pub provider : CommunicationProvider
  pub provider_user_id : Text
  pub phone_number : Text
  pub account_type : AccountType
  pub subscription_plan_id : Uuid

-- What the database gives a new row: its id and its creation time.
pub record NewRow : Type 0 where
  pub id : Uuid
  pub created_at : Time

unfoldable pub order_of_plan :
    NewRow → CreateOrder → Text → Text → SubscriptionPlan → SubscriptionOrder
order_of_plan row params user phone plan = record {
  id = row.id;
  provider = params.provider;
  provider_user_id = user;
  phone_number = phone;
  account_type = params.account_type;
  subscription_plan_id = plan.id;
  amount = plan.price;
  currency = plan.currency;
  status = waiting_for_receipt;
  created_user_id = none;
  approved_at = none;
  approved_by_user_id = none;
  rejected_at = none;
  rejection_reason = none;
  created_at = row.created_at;
}

-- `buildOrder`
unfoldable pub build_order : NewRow → CreateOrder → Database → Result SubscriptionOrder
unfolding order_of_plan
build_order row params db = do
  let user = trim params.provider_user_id
  refuse_if (is_empty user) (bad_request "Provider user id is required")
  let phone = order_phone params.phone_number
  refuse_if (not (is_valid_iran_mobile phone)) (bad_request "Invalid phone number")
  plan ←
      found_or (not_found "Subscription plan not found")
        (by_id SubscriptionPlan.id params.subscription_plan_id db.plans)
  refuse_if (not (account_type_eq plan.account_type params.account_type))
      (bad_request "Subscription plan does not belong to selected account type")
  ok (order_of_plan row params user phone plan)

-- `createOrder`
unfoldable pub create_order :
    NewRow → CreateOrder → Database → Result (SubscriptionOrder × Database)
unfolding build_order
create_order row params db = do
  order ← build_order row params db
  ok (order, record db { orders = save SubscriptionOrder.id order db.orders })

abbrev pub provider_eq : CommunicationProvider → CommunicationProvider → Bool
provider_eq telegram telegram = Bool.true
provider_eq whatsapp whatsapp = Bool.true
provider_eq web web = Bool.true
provider_eq bale bale = Bool.true
provider_eq rubika rubika = Bool.true
provider_eq eitaa eitaa = Bool.true
provider_eq _ _ = Bool.false

-- `ORDER BY createdAt DESC, id DESC`: whether the first order comes after the second.
unfoldable pub is_later : SubscriptionOrder → SubscriptionOrder → Bool
is_later a b = ltb b.created_at a.created_at || a.created_at == b.created_at && ltb b.id a.id

abbrev pub later_of : SubscriptionOrder → Option SubscriptionOrder → SubscriptionOrder
later_of a none = a
later_of a (some b) = if is_later b a then b else a

-- The newest order that meets the condition.
unfoldable pub latest :
    (SubscriptionOrder → Bool) → List SubscriptionOrder → Option SubscriptionOrder
unfolding is_later
latest p [] = none
latest p (o ∷ os) = let rest = latest p os in if p o then some (later_of o rest) else rest

unfoldable pub is_of_user : CommunicationProvider → Text → SubscriptionOrder → Bool
is_of_user provider user o = provider_eq o.provider provider && text_eq o.provider_user_id user

-- `status NOT IN ('APPROVED', 'REJECTED', 'CANCELLED')`
unfoldable pub is_pending : SubscriptionOrder → Bool
is_pending o =
    not (order_is_approved o.status || order_is_rejected o.status || order_is_cancelled o.status)

unfoldable pub find_pending_by_provider_user :
    CommunicationProvider → Text → Database → Option SubscriptionOrder
unfolding latest is_of_user is_pending
find_pending_by_provider_user provider user db =
    latest (λ o. is_of_user provider user o && is_pending o) db.orders

unfoldable pub find_latest_by_provider_user :
    CommunicationProvider → Text → Database → Option SubscriptionOrder
unfolding latest is_of_user
find_latest_by_provider_user provider user db = latest (is_of_user provider user) db.orders

-- `findOrderForTracking`
unfoldable pub find_order_for_tracking :
    CommunicationProvider → Text → Database → Option SubscriptionOrder
unfolding find_pending_by_provider_user find_latest_by_provider_user
find_order_for_tracking provider user db =
    or_else (find_pending_by_provider_user provider user db)
      (find_latest_by_provider_user provider user db)
