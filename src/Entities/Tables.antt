-- ===== src/Entities/Tables.antt =====
-- The tables, as lists of rows in the order in which they were added.
use mathlib.Core.List.{List}
use transport_backend.Entities.Payment.{
  SubscriptionPlan, SubscriptionOrder, PaymentReceipt, Subscription, SubscriptionBonus,
}
use transport_backend.Entities.Account.{User, Role, UserRole, BotLink}

pub record Database : Type 0 where
  pub plans : List SubscriptionPlan
  pub orders : List SubscriptionOrder
  pub receipts : List PaymentReceipt
  pub subscriptions : List Subscription
  pub bonuses : List SubscriptionBonus
  pub users : List User
  pub roles : List Role
  pub user_roles : List UserRole
  pub links : List BotLink
