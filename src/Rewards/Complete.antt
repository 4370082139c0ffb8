-- ===== src/Rewards/Complete.antt =====
-- Every tier that was reached is given, and given once.
use mathlib.Core.Path.{subst}
use transport_backend.Base.{
  ℕ, suc, ◌≡◌, ◌∙◌, refl, Bool, true, false, length, List, [], ◌∷◌, ◌++◌, ◌==◌, if◌then◌else◌,
  is_some, find, keep, All, Bool-cases, inl, inr, arith,
}
use transport_backend.Entities.{Uuid, Time, Subscription, SubscriptionBonus, Database}
use transport_backend.Policy.Settings.{DriverReward}
use transport_backend.Rewards.{
  is_for, new_bonus, grant_tier, push_granted, grant_tiers, is_reached, paid_rials, is_driver,
  grant_earned,
}

-- The user has the bonus of the tier.
abbrev pub IsGiven : Uuid → List SubscriptionBonus → DriverReward → Type 0
IsGiven user bs tier = is_some (find (is_for user tier.min_tomans) bs) ≡ true

find-append :
    (user : Uuid) (amount : ℕ) (bs : List SubscriptionBonus) (b : SubscriptionBonus)
    → is_some (find (is_for user amount) bs) ≡ true
    → is_some (find (is_for user amount) (bs ++ b ∷ [])) ≡ true
unfolding find
find-append user amount [] b h = absurd (ground arith)
find-append user amount (x ∷ bs) b h = ground (arith, find-append user amount bs b)

find_last :
    (user : Uuid) (amount : ℕ) (bs : List SubscriptionBonus) (b : SubscriptionBonus)
    → b.user_id ≡ user
    → b.reason ≡ amount
    → is_some (find (is_for user amount) (bs ++ b ∷ [])) ≡ true
unfolding find is_for
find_last user amount [] b e f = ground arith
find_last user amount (x ∷ bs) b e f = ground (arith, find_last user amount bs b)

module _ (new_id : ℕ → Uuid) (now : Time) (user : Uuid) (ss : List Subscription) where
  grant_tier-IsGiven :
      (tier : DriverReward) (bs : List SubscriptionBonus)
      → IsGiven user ((grant_tier new_id now user tier ss bs).1) tier
  unfolding grant_tier new_bonus
  grant_tier-IsGiven tier bs = elim (Bool-cases (is_some (find (is_for user tier.min_tomans) bs))) [
    | inl e ↦ rw e e
    | inr e ↦
        rw e (find_last user tier.min_tomans bs (new_bonus new_id now user tier ss bs) refl refl)
  ]

  grant_tier_keeps :
      (tier other : DriverReward) (bs : List SubscriptionBonus)
      → IsGiven user bs other
      → IsGiven user ((grant_tier new_id now user tier ss bs).1) other
  unfolding grant_tier
  grant_tier_keeps tier other bs h =
      elim (Bool-cases (is_some (find (is_for user tier.min_tomans) bs))) [
        | inl e ↦ rw e h
        | inr e ↦
            rw e (find-append user other.min_tomans bs (new_bonus new_id now user tier ss bs) h)
      ]

  grant_tiers_keeps :
      (tiers : List DriverReward) (other : DriverReward) (bs : List SubscriptionBonus)
      → IsGiven user bs other
      → IsGiven user ((grant_tiers new_id now user tiers ss bs).1) other
  unfolding grant_tiers
  grant_tiers_keeps [] other bs h = h
  grant_tiers_keeps (tier ∷ tiers) other bs h =
      grant_tiers_keeps tiers other _ (grant_tier_keeps tier other bs h)

  grant_tiers-IsGiven :
      (tiers : List DriverReward) (bs : List SubscriptionBonus)
      → All (IsGiven user ((grant_tiers new_id now user tiers ss bs).1)) tiers
  unfolding grant_tiers
  grant_tiers-IsGiven [] bs = tt
  grant_tiers-IsGiven (tier ∷ tiers) bs =
      (grant_tiers_keeps tiers tier _ (grant_tier-IsGiven tier bs), grant_tiers-IsGiven tiers _)

  grant_tiers_given :
      (tiers : List DriverReward) (bs : List SubscriptionBonus)
      → All (IsGiven user bs) tiers
      → grant_tiers new_id now user tiers ss bs ≡ ([], bs)
  unfolding grant_tiers grant_tier push_granted
  grant_tiers_given [] bs h = refl
  grant_tiers_given (tier ∷ tiers) bs (g, h) = rw g (rw (grant_tiers_given tiers bs h) refl)

All-keep :
    (P : DriverReward → Type 0) (p : DriverReward → Bool) (xs : List DriverReward)
    → All P (keep p xs)
    → All (λ x. p x ≡ true → P x) xs
All-keep P p [] h = tt
All-keep P p (x ∷ xs) h = elim (Bool-cases (p x)) [
  | inl e ↦
      let k : All P (x ∷ keep p xs) =
        subst (λ b. All P (if b then x ∷ keep p xs else keep p xs)) e h in
      ((λ q. k.0), All-keep P p xs (k.1))
  | inr e ↦
      let k : All P (keep p xs) = subst (λ b. All P (if b then x ∷ keep p xs else keep p xs)) e h in
      ((λ q. absurd (ground arith)), All-keep P p xs k)
]

-- What `grantEarned` reads apart from the bonuses.
is_driver_bonuses :
    (user : Uuid) (bs : List SubscriptionBonus) (db : Database)
    → is_driver user (record db { bonuses = bs }) ≡ is_driver user db
unfolding is_driver
is_driver_bonuses user bs db = refl

paid_rials_bonuses :
    (user : Uuid) (bs : List SubscriptionBonus) (db : Database)
    → paid_rials user (record db { bonuses = bs }) ≡ paid_rials user db
unfolding paid_rials
paid_rials_bonuses user bs db = refl

-- The tiers that the user is due.
abbrev due : Uuid → List DriverReward → Database → List DriverReward
due user tiers db = keep (is_reached (paid_rials user db)) tiers

grant_earned_driver :
    (new_id : ℕ → Uuid) (now : Time) (user : Uuid) (tiers : List DriverReward) (db : Database)
    → is_driver user db ≡ true
    → grant_earned new_id now user tiers db ≡ (
      (grant_tiers new_id now user (due user tiers db) db.subscriptions db.bonuses).0,
      record db {
        bonuses = (grant_tiers new_id now user (due user tiers db) db.subscriptions db.bonuses).1;
      },
    )
unfolding grant_earned grant_tiers
grant_earned_driver new_id now user [] db d = refl
grant_earned_driver new_id now user (t ∷ ts) db d =
    let some_tier : (suc (length ts) == 0) ≡ false = ground arith in rw (some_tier, d) refl

grant_earned_other :
    (new_id : ℕ → Uuid) (now : Time) (user : Uuid) (tiers : List DriverReward) (db : Database)
    → is_driver user db ≡ false
    → grant_earned new_id now user tiers db ≡ ([], db)
unfolding grant_earned
grant_earned_other new_id now user tiers db d = ground arith

-- A driver has, after `grantEarned`, the bonus of every tier that the approved purchases reach.
pub grant_earned_complete :
    (new_id : ℕ → Uuid) (now : Time) (user : Uuid) (tiers : List DriverReward) (db : Database)
    → is_driver user db ≡ true
    → All
        (λ tier.
          is_reached (paid_rials user db) tier ≡ true
          → IsGiven user ((grant_earned new_id now user tiers db).1.bonuses) tier)
        tiers
grant_earned_complete new_id now user tiers db d =
    rw (grant_earned_driver new_id now user tiers db d) (
      All-keep _ _ tiers
        (grant_tiers-IsGiven new_id now user db.subscriptions (due user tiers db) db.bonuses))

-- The rewards are given once: `grantEarned` again, at any time and with any ids for new rows,
-- grants nothing and leaves the tables as they are.
pub grant_earned_once :
    (new_id new_id' : ℕ → Uuid) (now now' : Time) (user : Uuid) (tiers : List DriverReward)
    (db : Database)
    → grant_earned new_id' now' user tiers ((grant_earned new_id now user tiers db).1)
      ≡ ([], (grant_earned new_id now user tiers db).1)
grant_earned_once new_id new_id' now now' user tiers db = elim (Bool-cases (is_driver user db)) [
  | inl d ↦
      let bs : List SubscriptionBonus =
        (grant_tiers new_id now user (due user tiers db) db.subscriptions db.bonuses).1 in
      rw (grant_earned_driver new_id now user tiers db d) (
        rw
          (grant_earned_driver new_id' now' user tiers (record db { bonuses = bs })
            (is_driver_bonuses user bs db ∙ d))
          (rw (paid_rials_bonuses user bs db) (
            rw
              (grant_tiers_given new_id' now' user db.subscriptions (due user tiers db) bs (
                grant_tiers-IsGiven new_id now user db.subscriptions (due user tiers db)
                  db.bonuses))
              refl)))
  | inr d ↦
      rw (grant_earned_other new_id now user tiers db d)
        (grant_earned_other new_id' now' user tiers db d)
]
