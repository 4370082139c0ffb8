-- ===== src/Policy/Settings.antt =====
-- `normalize`, `normalizeRewards`, `getStatus` and `getDriverRule`.
use transport_backend.Base.{
  ℕ, Bool, true, false, ◌&&◌, not, Option, none, some, List, [], ◌∷◌, ◌==◌, ltb, leb, if◌then◌else◌,
  Text, codes, is_some,
}
use transport_backend.Entities.{Time}
use transport_backend.Policy.Json.{
  Json, bool, text, array, Items, none_left, item, Fields, get, property,
}

pub record DriverReward : Type 0 where
  pub min_tomans : ℕ
  pub free_days : ℕ

pub record SubscriptionPolicy : Type 0 where
  pub enforced : Bool
  pub free_until : Option Text
  pub drivers_enforced : Bool
  pub driver_trial_days : ℕ
  pub driver_trial_started_at : Text
  pub driver_rewards : List DriverReward

abbrev pub driver_trial_rollout : Text
driver_trial_rollout = codes "2026-10-25T00:00:00.000Z"

abbrev pub default_driver_trial_days : ℕ
default_driver_trial_days = 30

unfoldable pub default_policy : SubscriptionPolicy
default_policy = record {
  enforced = false;
  free_until = none;
  drivers_enforced = true;
  driver_trial_days = default_driver_trial_days;
  driver_trial_started_at = driver_trial_rollout;
  driver_rewards = [];
}

-- `=== true`, `!== false`, and `typeof value === 'string'`
abbrev pub is_true : Json → Bool
is_true (bool b) = b
is_true _ = false

abbrev pub is_not_false : Json → Bool
is_not_false (bool b) = b
is_not_false _ = true

abbrev pub as_text : Json → Option Text
as_text (text t) = some t
as_text _ = none

-- `tiers.set`: a tier that is there keeps its place and takes the new days.
unfoldable pub set_tier : DriverReward → List DriverReward → List DriverReward
set_tier r [] = r ∷ []
set_tier r (x ∷ xs) = if x.min_tomans == r.min_tomans then r ∷ xs else x ∷ set_tier r xs

-- `sort((a, b) => a[0] - b[0])`
unfoldable pub insert_tier : DriverReward → List DriverReward → List DriverReward
insert_tier r [] = r ∷ []
insert_tier r (x ∷ xs) = if leb r.min_tomans x.min_tomans then r ∷ x ∷ xs else x ∷ insert_tier r xs

unfoldable pub sort_tiers : List DriverReward → List DriverReward
unfolding insert_tier
sort_tiers [] = []
sort_tiers (r ∷ rs) = insert_tier r (sort_tiers rs)

-- `to_number` is `Number(…)` where that is a safe integer from 0 up, and none where it is another
-- number or NaN; `parse_date` is `Date.parse`, with none for NaN.
module _ (to_number : Json → Option ℕ) (parse_date : Text → Option Time) where
  -- One tier as given, if both numbers are positive.
  unfoldable pub tier_of : Json → Option DriverReward
  tier_of given = elim (to_number (property (codes "minTomans") given)) [
    | none ↦ none
    | some m ↦ elim (to_number (property (codes "freeDays") given)) [
      | none ↦ none
      | some d ↦
          if ltb 0 m && ltb 0 d then some (record { min_tomans = m; free_days = d }) else none
    ]
  ]

  -- The loop of `normalizeRewards`.
  unfoldable pub collect_tiers : List DriverReward → Items → List DriverReward
  unfolding set_tier
  collect_tiers tiers none_left = tiers
  collect_tiers tiers (item given rest) =
      collect_tiers (elim (tier_of given) [ none ↦ tiers | some r ↦ set_tier r tiers ]) rest

  unfoldable pub normalize_rewards : Json → List DriverReward
  normalize_rewards (array items) = sort_tiers (collect_tiers [] items)
  normalize_rewards _ = []

  abbrev pub trial_days_of : Option ℕ → ℕ
  trial_days_of none = default_driver_trial_days
  trial_days_of (some n) = n

  abbrev pub started_at_of : Option Text → Text
  started_at_of none = driver_trial_rollout
  started_at_of (some t) = if is_some (parse_date t) then t else driver_trial_rollout

  unfoldable pub normalize : Fields → SubscriptionPolicy
  normalize value = record {
    enforced = is_true (get (codes "enforced") value);
    free_until = as_text (get (codes "freeUntil") value);
    drivers_enforced = is_not_false (get (codes "driversEnforced") value);
    driver_trial_days = trial_days_of (to_number (get (codes "driverTrialDays") value));
    driver_trial_started_at = started_at_of (as_text (get (codes "driverTrialStartedAt") value));
    driver_rewards = normalize_rewards (get (codes "driverRewards") value);
  }

-- `now < new Date(text)`, which an invalid date never is.
module _ (parse_date : Text → Option Time) where
  unfoldable pub is_before : Time → Text → Bool
  is_before now date = elim (parse_date date) [ none ↦ false | some t ↦ ltb now t ]

  -- `required` of `getStatus`
  unfoldable pub is_required : Time → SubscriptionPolicy → Bool
  unfolding is_before
  is_required now policy =
      policy.enforced
      && not (elim policy.free_until [ none ↦ false | some until ↦ is_before now until ])
