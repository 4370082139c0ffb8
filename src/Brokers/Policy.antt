-- ===== src/Brokers/Policy.antt =====
-- The rules that the admin sets, the tables, and what the service is given from outside.
use transport_backend.Base.{ℕ, Bool, Option, List, Text}
use transport_backend.Entities.{Uuid, Time, OrderStatus}

-- A percent is a number of hundredths.
pub record BrokerAccessPolicy : Type 0 where
  pub max_companies : Option ℕ
  pub packages_enabled : Bool
  pub package_size : ℕ
  pub package_price : ℕ
  pub currency : Text
  pub commission_percent : ℕ

pub record BrokerRequestCredit : Type 0 where
  pub user_id : Uuid
  pub remaining : ℕ

pub data BrokerOrderKind : Type 0 where
  new_companies added_companies requests_package suggestion : BrokerOrderKind

pub record BrokerAccessOrder : Type 0 where
  pub id : Uuid
  pub user_id : Uuid
  pub kind : BrokerOrderKind
  pub company_user_ids : List Uuid
  pub requests : Option ℕ
  pub amount : ℕ
  pub currency : Text
  pub status : OrderStatus
  pub receipt_path : Text
  pub rejection_reason : Option Text
  pub reviewed_by : Option Uuid
  pub reviewed_at : Option Time

pub record BrokerAccessPeriod : Type 0 where
  pub id : Uuid
  pub user_id : Uuid
  pub company_user_ids : List Uuid
  pub start_at : Time
  pub expire_at : Option Time
  pub order_id : Option Uuid

pub record BrokerTables : Type 0 where
  pub credits : List BrokerRequestCredit
  pub orders : List BrokerAccessOrder
  pub periods : List BrokerAccessPeriod

-- `brokersOpen()`, `getPolicy()`, `isBroker` and `companyList()`.
pub record BrokerRules : Type 0 where
  pub brokers_open : Bool
  pub policy : BrokerAccessPolicy
  pub is_broker : Uuid → Bool
  pub companies : List Uuid
