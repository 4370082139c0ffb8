-- ===== src/Rewards/Laws.antt =====
-- Free days are never lost: a bonus begins where the paid time and the earlier bonuses end.
use transport_backend.Base.{
  ℕ, ◌+◌, ◌*◌, ◌≤◌, ◌≡◌, ◌≢◌, refl, Bool, true, ◌&&◌, ◌||◌, not, length, none, List, [], ◌∷◌, ◌++◌,
  ◌==◌, is_some, find, keep, All, All-mono, All-append, Bool-cases, Option-cases, inl, inr, arith,
}
use transport_backend.Entities.{
  Uuid, Time, Subscription, SubscriptionBonus, Database, subscription_is_active,
}
use transport_backend.Policy.Settings.{DriverReward}
use transport_backend.Rewards.{
  day_ms, GrantedBonus, latest_end, free_from, is_for, new_bonus, grant_tier, push_granted,
  grant_tiers, is_reached, paid_rials, is_driver, grant_earned,
}

-- The later row of two of one user is for another tier and begins after the earlier one ended.
abbrev pub Follows : SubscriptionBonus → SubscriptionBonus → Type 0
Follows a b = a.user_id ≡ b.user_id → (a.reason ≢ b.reason) × (a.expire_at ≤ b.start_at)

-- Each row follows all rows before it.
abbrev pub Orderly : List SubscriptionBonus → Type 0
Orderly [] = Unit
Orderly (b ∷ bs) = All (Follows b) bs × Orderly bs

pub Orderly-append :
    (bs : List SubscriptionBonus) (b : SubscriptionBonus)
    → Orderly bs
    → All (λ a. Follows a b) bs
    → Orderly (bs ++ b ∷ [])
Orderly-append [] b o h = (tt, tt)
Orderly-append (a ∷ bs) b (f, o) (g, h) =
    (All-append (Follows a) bs (b ∷ []) f (g, tt), Orderly-append bs b o h)

latest_end_not_before :
    {A : Type 0} (p : A → Bool) (end : A → Time) (xs : List A) (t : Time)
    → t ≤ latest_end p end xs t
latest_end_not_before p end [] t = omega arith
latest_end_not_before p end (x ∷ xs) t = ground (arith, latest_end_not_before p end xs t)

-- What is not before the latest end is not before the end of any row that counts.
latest_end-All :
    {A : Type 0} (p : A → Bool) (end : A → Time) (xs : List A) (t u : Time)
    → latest_end p end xs t ≤ u
    → All (λ x. p x ≡ true → end x ≤ u) xs
latest_end-All p end [] t u h = tt
latest_end-All p end (x ∷ xs) t u h =
    ((λ e. ground arith), latest_end-All p end xs t u (ground arith))

-- A start that leaves the user what was paid and given before.
pub record IsFreeFrom (now : Time) (user : Uuid) (ss : List Subscription) (start : Time)
    : Type 0 where
  pub not_past : now ≤ start
  pub after_paid :
      All (λ s. s.user_id ≡ user → subscription_is_active s.status ≡ true → s.expire_at ≤ start) ss

free_from-IsFreeFrom :
    (now : Time) (user : Uuid) (ss : List Subscription) (bs : List SubscriptionBonus)
    → IsFreeFrom now user ss (free_from now user ss bs)
unfolding free_from
free_from-IsFreeFrom now user ss bs = record {
  not_past = omega (
    arith,
    latest_end_not_before (λ b. b.user_id == user) SubscriptionBonus.expire_at bs now,
    latest_end_not_before (λ s. (s.user_id == user) && subscription_is_active s.status)
        Subscription.expire_at ss
        (latest_end (λ b. b.user_id == user) SubscriptionBonus.expire_at bs now),
  );
  after_paid =
      All-mono _ _ ss (λ s f own running. f (ground arith))
        (latest_end-All (λ s. (s.user_id == user) && subscription_is_active s.status)
          Subscription.expire_at ss
          (latest_end (λ b. b.user_id == user) SubscriptionBonus.expire_at bs now)
          (free_from now user ss bs) (omega arith));
}

free_from_given :
    (now : Time) (user : Uuid) (ss : List Subscription) (bs : List SubscriptionBonus)
    → All (λ b. (b.user_id == user) ≡ true → b.expire_at ≤ free_from now user ss bs) bs
unfolding free_from
free_from_given now user ss bs =
    latest_end-All (λ b. b.user_id == user) SubscriptionBonus.expire_at bs now _
      (latest_end_not_before (λ s. (s.user_id == user) && subscription_is_active s.status)
        Subscription.expire_at ss _)

new_bonus-Follows :
    (user : Uuid) (tier : DriverReward) (start : Time) (bs : List SubscriptionBonus)
    → find (is_for user tier.min_tomans) bs ≡ none
    → All (λ b. (b.user_id == user) ≡ true → b.expire_at ≤ start) bs
    → (b : SubscriptionBonus) → b.user_id ≡ user
    → b.reason ≡ tier.min_tomans
    → b.start_at ≡ start
    → All (λ a. Follows a b) bs
unfolding find is_for
new_bonus-Follows user tier start [] n g b own for starts = tt
new_bonus-Follows user tier start (a ∷ bs) n (f, g) b own for starts = (
  λ e. ((λ r. absurd (ground arith)), ground arith),
  new_bonus-Follows user tier start bs (ground arith) g b own for starts,
)

grant_tier-Orderly :
    (new_id : ℕ → Uuid) (now : Time) (user : Uuid) (tier : DriverReward) (ss : List Subscription)
    (bs : List SubscriptionBonus)
    → Orderly bs
    → Orderly ((grant_tier new_id now user tier ss bs).1)
unfolding grant_tier new_bonus
grant_tier-Orderly new_id now user tier ss bs o =
    elim (Option-cases (find (is_for user tier.min_tomans) bs)) [
      | inl e ↦ rw e (
          Orderly-append bs (new_bonus new_id now user tier ss bs) o (
            new_bonus-Follows user tier (free_from now user ss bs) bs e
              (free_from_given now user ss bs) (new_bonus new_id now user tier ss bs) refl refl
              refl))
      | inr (b, e) ↦ rw e o
    ]

grant_tiers-Orderly :
    (new_id : ℕ → Uuid) (now : Time) (user : Uuid) (tiers : List DriverReward)
    (ss : List Subscription) (bs : List SubscriptionBonus)
    → Orderly bs
    → Orderly ((grant_tiers new_id now user tiers ss bs).1)
unfolding grant_tiers
grant_tiers-Orderly new_id now user [] ss bs o = o
grant_tiers-Orderly new_id now user (tier ∷ tiers) ss bs o =
    grant_tiers-Orderly new_id now user tiers ss _ (grant_tier-Orderly new_id now user tier ss bs o)

-- A grant that runs for its days, from a start that leaves the user what was there.
abbrev pub IsGrant : Time → Uuid → List Subscription → GrantedBonus → Type 0
IsGrant now user ss g =
    (g.expire_at ≡ g.start_at + g.days * day_ms) × IsFreeFrom now user ss g.start_at

grant_tiers-IsGrant :
    (new_id : ℕ → Uuid) (now : Time) (user : Uuid) (tiers : List DriverReward)
    (ss : List Subscription) (bs : List SubscriptionBonus)
    → All (IsGrant now user ss) ((grant_tiers new_id now user tiers ss bs).0)
unfolding grant_tiers grant_tier push_granted new_bonus
grant_tiers-IsGrant new_id now user [] ss bs = tt
grant_tiers-IsGrant new_id now user (tier ∷ tiers) ss bs =
    elim (Bool-cases (is_some (find (is_for user tier.min_tomans) bs))) [
      | inl e ↦ rw e (grant_tiers-IsGrant new_id now user tiers ss bs)
      | inr e ↦ rw e (
        (refl, free_from-IsFreeFrom now user ss bs),
        grant_tiers-IsGrant new_id now user tiers ss _,
      )
    ]

-- Rewards never overlap: if the bonuses in the table are for different tiers and follow one
-- another, then so are they after `grantEarned`; and every bonus granted runs for its full days
-- from a start that is neither past nor before the end of any active subscription of the driver.
pub grant_earned-Orderly :
    (new_id : ℕ → Uuid) (now : Time) (user : Uuid) (tiers : List DriverReward) (db : Database)
    → Orderly db.bonuses
    → Orderly ((grant_earned new_id now user tiers db).1.bonuses)
      × All (IsGrant now user db.subscriptions) ((grant_earned new_id now user tiers db).0)
unfolding grant_earned
grant_earned-Orderly new_id now user tiers db o =
    elim (Bool-cases ((length tiers == 0) || not (is_driver user db))) [
      | inl e ↦ rw e (o, tt)
      | inr e ↦ rw e (
        grant_tiers-Orderly new_id now user (keep (is_reached (paid_rials user db)) tiers)
            db.subscriptions db.bonuses o,
        grant_tiers-IsGrant new_id now user (keep (is_reached (paid_rials user db)) tiers)
            db.subscriptions db.bonuses,
      )
    ]
