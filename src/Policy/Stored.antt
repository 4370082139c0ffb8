-- ===== src/Policy/Stored.antt =====
-- The policy as it is written to the settings table and to Redis, and read back.
use transport_backend.Base.{
  ℕ, ◌<◌, ◌≡◌, ◌≢◌, ◌∙◌, refl, sym, true, Option, none, some, List, [], ◌∷◌, ◌++◌, Text, codes,
  is_some, arith, All,
}
use mathlib.Core.List.{append_assoc, append-nil}
use transport_backend.Entities.{Time}
use transport_backend.Policy.Json.{
  Json, null, bool, number, text, array, object, Items, none_left, item, Fields, no_fields, field,
  get, property,
}
use transport_backend.Policy.Settings.{
  DriverReward, SubscriptionPolicy, set_tier, insert_tier, sort_tiers, tier_of, collect_tiers,
  normalize_rewards, normalize, as_text,
}
use transport_backend.Policy.Tiers.{Above, Ascending, Without, AllDifferent, IsPositive}

-- `JSON.stringify` of a tier and of a policy, as the value that parsing it gives.
unfoldable pub tier_json : DriverReward → Json
tier_json r = object (
    field (codes "minTomans") (number r.min_tomans)
      (field (codes "freeDays") (number r.free_days) no_fields))

unfoldable pub tiers_json : List DriverReward → Items
unfolding tier_json
tiers_json [] = none_left
tiers_json (r ∷ rs) = item (tier_json r) (tiers_json rs)

abbrev pub text_or_null : Option Text → Json
text_or_null none = null
text_or_null (some t) = text t

unfoldable pub policy_json : SubscriptionPolicy → Fields
unfolding tiers_json
policy_json p = field (codes "enforced") (bool p.enforced) (
    field (codes "freeUntil") (text_or_null p.free_until) (
      field (codes "driversEnforced") (bool p.drivers_enforced) (
        field (codes "driverTrialDays") (number p.driver_trial_days) (
          field (codes "driverTrialStartedAt") (text p.driver_trial_started_at)
            (field (codes "driverRewards") (array (tiers_json p.driver_rewards)) no_fields)))))

as_text-text_or_null : (o : Option Text) → as_text (text_or_null o) ≡ o
as_text-text_or_null none = refl
as_text-text_or_null (some t) = refl

-- `Number.MAX_SAFE_INTEGER + 1`
abbrev pub unsafe : ℕ
unsafe = 9007199254740992

abbrev pub IsSafe : DriverReward → Type 0
IsSafe r = (r.min_tomans < unsafe) × (r.free_days < unsafe)

Above-Without : (n : ℕ) (xs : List DriverReward) → Above n xs → Without n xs
Above-Without n [] a = tt
Above-Without n (x ∷ xs) (b, a) = (omega arith, Above-Without n xs a)

Ascending-AllDifferent : (xs : List DriverReward) → Ascending xs → AllDifferent xs
Ascending-AllDifferent [] a = tt
Ascending-AllDifferent (x ∷ xs) (b, a) =
    (Above-Without x.min_tomans xs b, Ascending-AllDifferent xs a)

sort-Ascending : (xs : List DriverReward) → Ascending xs → sort_tiers xs ≡ xs
unfolding sort_tiers
sort-Ascending [] a = refl
sort-Ascending (x ∷ xs) (b, a) = rw (sort-Ascending xs a) (first x xs b)
  where
    first :
        (r : DriverReward) (ys : List DriverReward)
        → Above r.min_tomans ys
        → insert_tier r ys ≡ r ∷ ys
    first r [] h = refl
    first r (y ∷ ys) h = ground arith

set_tier_new :
    (r : DriverReward) (acc : List DriverReward)
    → Without r.min_tomans acc
    → set_tier r acc ≡ acc ++ r ∷ []
unfolding set_tier
set_tier_new r [] w = refl
set_tier_new r (x ∷ acc) (v, w) = ground (arith, set_tier_new r acc w)

-- None of the tiers is among those collected so far.
abbrev New : List DriverReward → List DriverReward → Type 0
New acc [] = Unit
New acc (x ∷ xs) = Without x.min_tomans acc × New acc xs

Without-append :
    (n : ℕ) (r : DriverReward) (acc : List DriverReward)
    → r.min_tomans ≢ n
    → Without n acc
    → Without n (acc ++ r ∷ [])
Without-append n r [] h w = (h, tt)
Without-append n r (x ∷ acc) h (v, w) = (v, Without-append n r acc h w)

New-append :
    (r : DriverReward) (acc xs : List DriverReward)
    → Without r.min_tomans xs
    → New acc xs
    → New (acc ++ r ∷ []) xs
New-append r acc [] w h = tt
New-append r acc (x ∷ xs) (v, w) (u, h) =
    (Without-append x.min_tomans r acc (λ e. v (sym e)) u, New-append r acc xs w h)

New-nil : (xs : List DriverReward) → New [] xs
New-nil [] = tt
New-nil (x ∷ xs) = (tt, New-nil xs)

module _ (to_number : Json → Option ℕ) (parse_date : Text → Option Time)
    (reads_number : (n : ℕ) → n < unsafe → to_number (number n) ≡ some n) where
  tier_of-tier_json :
      (r : DriverReward)
      → IsPositive r
      → IsSafe r
      → tier_of to_number parse_date (tier_json r) ≡ some r
  unfolding tier_of tier_json property
  tier_of-tier_json r p s =
      ground (arith, reads_number r.min_tomans s.0, reads_number r.free_days s.1)

  collect-tiers_json :
      (acc xs : List DriverReward)
      → AllDifferent xs
      → New acc xs
      → All IsPositive xs
      → All IsSafe xs
      → collect_tiers to_number parse_date acc (tiers_json xs) ≡ acc ++ xs
  unfolding collect_tiers tiers_json
  collect-tiers_json acc [] d n p s = sym (append-nil acc)
  collect-tiers_json acc (x ∷ xs) (w, d) (v, n) (p, ps) (s, ss) =
      rw (tier_of-tier_json x p s, collect_tiers)
        (rw (set_tier_new x acc v) (
          collect-tiers_json (acc ++ x ∷ []) xs d (New-append x acc xs w n) ps ss
          ∙ append_assoc acc (x ∷ []) xs))

  -- What is stored is what is read back: a policy with a readable start of the trial, a safe number
  -- of days, and positive, safe tiers in ascending order comes back unchanged from its JSON.
  pub normalize-policy_json :
      (p : SubscriptionPolicy)
      → is_some (parse_date p.driver_trial_started_at) ≡ true
      → p.driver_trial_days < unsafe
      → Ascending p.driver_rewards
      → All IsPositive p.driver_rewards
      → All IsSafe p.driver_rewards
      → normalize to_number parse_date (policy_json p) ≡ p
  unfolding normalize normalize_rewards policy_json get
  normalize-policy_json p date days order positive safe =
      rw
        (
          reads_number p.driver_trial_days days,
          date,
          as_text-text_or_null p.free_until,
          collect-tiers_json [] p.driver_rewards (Ascending-AllDifferent p.driver_rewards order)
              (New-nil p.driver_rewards) positive safe,
          sort-Ascending p.driver_rewards order,
        )
        refl
