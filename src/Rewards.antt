-- ===== src/Rewards.antt =====
-- SubscriptionRewardService (subscriptionReward.service.ts): free days for drivers who bought a
-- lot. A row is inserted with the id that `new_id` gives for its tier.
pub mod Laws
pub mod Complete
use transport_backend.Base.{
  ℕ, ◌+◌, ◌*◌, max, Bool, true, false, ◌&&◌, ◌||◌, not, Option, none, some, List, [], ◌∷◌, ◌++◌,
  ◌==◌, ltb, leb, if◌then◌else◌, length, keep, any, is_some, find, by_id, Text, codes, text_eq,
}
use transport_backend.Entities.{
  Uuid, Time, Subscription, SubscriptionOrder, SubscriptionBonus, Role, UserRole, Database,
  order_is_approved, subscription_is_active,
}
use transport_backend.Policy.Settings.{DriverReward}

abbrev pub day_ms : ℕ
day_ms = 86400000

pub record GrantedBonus : Type 0 where
  pub min_tomans : ℕ
  pub days : ℕ
  pub start_at : Time
  pub expire_at : Time

-- `TOMANS` times ten, so that a tenth of a toman is not lost; another currency counts nothing.
unfoldable pub rials_of : SubscriptionOrder → ℕ
rials_of o =
    if text_eq o.currency (codes "IRT")
    then o.amount * 10
    else if text_eq o.currency (codes "IRR")
    then o.amount
    else 0

-- The orders joined with the subscriptions of the user.
unfoldable pub paid_for : Uuid → List Subscription → SubscriptionOrder → ℕ
paid_for user [] o = 0
paid_for user (s ∷ ss) o =
    let rest = paid_for user ss o in
    if (s.order_id == o.id) && (s.user_id == user) then rials_of o + rest else rest

unfoldable pub sum_paid : Uuid → List Subscription → List SubscriptionOrder → ℕ
sum_paid user ss [] = 0
sum_paid user ss (o ∷ os) =
    let rest = sum_paid user ss os in
    if order_is_approved o.status then paid_for user ss o + rest else rest

-- `paidTomans`, in rials
unfoldable pub paid_rials : Uuid → Database → ℕ
paid_rials user db = sum_paid user db.subscriptions db.orders

-- `isDriver`
unfoldable pub is_driver : Uuid → Database → Bool
is_driver user db =
    any
      (λ ur. (ur.user_id == user) && elim (by_id Role.id ur.role_id db.roles) [
        | none ↦ false
        | some r ↦ text_eq r.name (codes "DRIVER")
      ])
      db.user_roles

-- The larger of the time and the end of every row that meets the condition.
abbrev pub latest_end {ℓ} : {A : Type ℓ} (p : A → Bool) (end : A → Time) → List A → Time → Time
latest_end p end [] t = t
latest_end p end (x ∷ xs) t =
    let rest = latest_end p end xs t in if p x then max (end x) rest else rest

-- `freeFrom`, on the tables of subscriptions and bonuses
unfoldable pub free_from : Time → Uuid → List Subscription → List SubscriptionBonus → Time
free_from now user ss bs =
    latest_end (λ s. (s.user_id == user) && subscription_is_active s.status) Subscription.expire_at
      ss (latest_end (λ b. b.user_id == user) SubscriptionBonus.expire_at bs now)

unfoldable pub is_for : Uuid → ℕ → SubscriptionBonus → Bool
is_for user amount b = (b.user_id == user) && (b.reason == amount)

unfoldable pub new_bonus :
    (ℕ → Uuid)
    → Time
    → Uuid
    → DriverReward
    → List Subscription
    → List SubscriptionBonus
    → SubscriptionBonus
new_bonus new_id now user tier ss bs =
    let start = free_from now user ss bs in
    record {
      id = new_id tier.min_tomans;
      user_id = user;
      reason = tier.min_tomans;
      days = tier.free_days;
      start_at = start;
      expire_at = start + tier.free_days * day_ms;
    }

-- The transaction for one tier: the bonus, if it was not there, and the table after it.
unfoldable pub grant_tier :
    (ℕ → Uuid)
    → Time
    → Uuid
    → DriverReward
    → List Subscription
    → List SubscriptionBonus
    → Option SubscriptionBonus × List SubscriptionBonus
grant_tier new_id now user tier ss bs =
    if is_some (find (is_for user tier.min_tomans) bs) then (none, bs) else (
      some (new_bonus new_id now user tier ss bs),
      bs ++ new_bonus new_id now user tier ss bs ∷ [],
    )

unfoldable pub push_granted :
    DriverReward → Option SubscriptionBonus → List GrantedBonus → List GrantedBonus
push_granted tier none rest = rest
push_granted tier (some b) rest =
    record {
      min_tomans = tier.min_tomans;
      days = b.days;
      start_at = b.start_at;
      expire_at = b.expire_at;
    }
    ∷ rest

-- The loop over the tiers that are reached.
unfoldable pub grant_tiers :
    (ℕ → Uuid)
    → Time
    → Uuid
    → List DriverReward
    → List Subscription
    → List SubscriptionBonus
    → List GrantedBonus × List SubscriptionBonus
grant_tiers new_id now user [] ss bs = ([], bs)
grant_tiers new_id now user (tier ∷ tiers) ss bs =
    let given = grant_tier new_id now user tier ss bs in
    let rest = grant_tiers new_id now user tiers ss (given.1) in
    (push_granted tier (given.0) (rest.0), rest.1)

-- `paid >= item.minTomans`
unfoldable pub is_reached : ℕ → DriverReward → Bool
is_reached rials tier = leb (tier.min_tomans * 10) rials

-- `grantEarned`, with the tiers of the policy.
unfoldable pub grant_earned :
    (ℕ → Uuid) → Time → Uuid → List DriverReward → Database → List GrantedBonus × Database
grant_earned new_id now user tiers db =
    if (length tiers == 0) || not (is_driver user db)
    then ([], db)
    else (let granted =
          grant_tiers new_id now user (keep (is_reached (paid_rials user db)) tiers)
            db.subscriptions db.bonuses in
        (granted.0, record db { bonuses = granted.1 }))

-- `activeUntil`: the latest end of the bonuses that the user is in.
unfoldable pub is_in : Time → Uuid → SubscriptionBonus → Bool
is_in now user b = (b.user_id == user) && leb b.start_at now && ltb now b.expire_at

abbrev pub later : Time → Option Time → Option Time
later t none = some t
later t (some u) = some (max t u)

unfoldable pub latest_until : (SubscriptionBonus → Bool) → List SubscriptionBonus → Option Time
latest_until p [] = none
latest_until p (b ∷ bs) =
    let rest = latest_until p bs in if p b then later b.expire_at rest else rest

unfoldable pub active_until : Uuid → Time → Database → Option Time
active_until user now db = latest_until (is_in now user) db.bonuses
