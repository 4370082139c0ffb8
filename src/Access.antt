-- ===== src/Access.antt =====
-- SubscriptionAccessService (subscriptionAccess.service.ts): may this user work now?
pub mod Laws
pub mod Granted
use transport_backend.Base.{
  ℕ, ◌+◌, ◌*◌, max, Bool, true, false, ◌&&◌, not, Option, none, some, List, [], ◌∷◌, ◌==◌, ltb, leb,
  if◌then◌else◌, any, is_some, by_id, Text, codes, text_eq,
}
use transport_backend.Entities.{
  Uuid, Time, User, Subscription, Role, UserRole, Database, subscription_is_active,
  record_is_active,
}
use transport_backend.Policy.Settings.{SubscriptionPolicy, is_required}
use transport_backend.Rewards.{day_ms, active_until}

pub data SubscriptionAccessReason : Type 0 where
  subscribed bonus trial free required : SubscriptionAccessReason

-- A `Date`, with none for an invalid one.
abbrev pub Date : Type 0
Date = Option Time

pub record SubscriptionAccess : Type 0 where
  pub allowed : Bool
  pub reason : SubscriptionAccessReason
  pub is_driver : Bool
  pub trial_ends_at : Option Date
  pub expire_at : Option Time
  pub bonus_until : Option Time

-- `findActiveByUserId`: the current subscription that ends last.
unfoldable pub is_current : Time → Uuid → Subscription → Bool
is_current now user s =
    (s.user_id == user)
    && subscription_is_active s.status
    && leb s.start_at now
    && ltb now s.expire_at

abbrev pub ends_last : Subscription → Option Subscription → Subscription
ends_last s none = s
ends_last s (some t) = if ltb s.expire_at t.expire_at then t else s

unfoldable pub last_ending : (Subscription → Bool) → List Subscription → Option Subscription
last_ending p [] = none
last_ending p (s ∷ ss) =
    let rest = last_ending p ss in if p s then some (ends_last s rest) else rest

unfoldable pub find_active_by_user_id : Time → Uuid → Database → Option Subscription
find_active_by_user_id now user db = last_ending (is_current now user) db.subscriptions

-- One of the user's roles has this name and is active.
unfoldable pub has_active_role : Text → Uuid → Database → Bool
has_active_role name user db =
    any
      (λ ur. (ur.user_id == user) && elim (by_id Role.id ur.role_id db.roles) [
        | none ↦ false
        | some r ↦ text_eq r.name name && record_is_active r.record_status
      ])
      db.user_roles

abbrev pub is_parent : Option User → Bool
is_parent none = false
is_parent (some u) = u.is_parent_company

-- `userRoles` of the user's row: none for a user that is not there.
unfoldable pub holds : Text → Uuid → Database → Option User → Bool
holds name user db none = false
holds name user db (some u) = has_active_role name user db

module _ (parse_date : Text → Option Time) where
  -- `driverTrialEndsAt`
  unfoldable pub driver_trial_ends_at : SubscriptionPolicy → Time → Date
  driver_trial_ends_at rule registered_at = elim (parse_date rule.driver_trial_started_at) [
    | none ↦ none
    | some from ↦ some (max registered_at from + rule.driver_trial_days * day_ms)
  ]

  -- The answer for a driver without a subscription or bonus: allowed or not, and why.
  unfoldable pub driver_answer :
      Time → SubscriptionPolicy → Option Date → Bool × SubscriptionAccessReason
  driver_answer now rule ends = if not rule.drivers_enforced then (true, free) else elim ends [
    | none ↦ (false, required)
    | some date ↦ elim date [
      | none ↦ (false, required)
      | some t ↦ if ltb now t then (true, trial) else (false, required)
    ]
  ]

  unfoldable pub answer :
      Time
      → SubscriptionPolicy
      → (subscribed_now parent factory given driver : Bool) → Option Date
      → Bool × SubscriptionAccessReason
  answer now policy subscribed_now parent factory given driver ends =
      if subscribed_now
      then (true, subscribed)
      else if parent
      then (true, free)
      else if factory
      then (true, free)
      else if given
      then (true, bonus)
      else if driver
      then driver_answer now policy ends
      else if is_required parse_date now policy
      then (false, required)
      else (true, free)

  abbrev pub trial_of : SubscriptionPolicy → Bool → Option User → Option Date
  trial_of policy driver none = none
  trial_of policy driver (some u) =
      if driver then some (driver_trial_ends_at policy u.created_at) else none

  -- `check`, where `looked_up_at` is the time of the query for the subscription.
  unfoldable pub check :
      (looked_up_at now : Time) → SubscriptionPolicy → Uuid → Database → SubscriptionAccess
  check looked_up_at now policy user db =
      let found = by_id User.id user db.users in
      let subscription = find_active_by_user_id looked_up_at user db in
      let until = active_until user now db in
      let driver = holds (codes "DRIVER") user db found in
      let ends = trial_of policy driver found in
      let reply =
        answer now policy (is_some subscription) (is_parent found)
          (holds (codes "FACTORY") user db found) (is_some until) driver ends in
      record {
        allowed = reply.0;
        reason = reply.1;
        is_driver = driver;
        trial_ends_at = ends;
        expire_at = elim subscription [ none ↦ none | some s ↦ some s.expire_at ];
        bonus_until = until;
      }
