-- ===== src/Tests/Settings.antt =====
-- A subscription policy written and read back, with sample readers of numbers and dates.
use transport_backend.Base.{
  ℕ, ◌<◌, ◌≡◌, refl, true, Option, none, some, [], ◌∷◌, ltb, if◌then◌else◌, Text, codes, arith,
}
use transport_backend.Entities.{Time}
use transport_backend.Policy.Json.{Json, number, array, item, none_left}
use transport_backend.Policy.Settings.{
  DriverReward, SubscriptionPolicy, normalize, driver_trial_rollout,
}
use transport_backend.Policy.Stored.{policy_json, tier_json, unsafe, normalize-policy_json}

-- Numbers as they are; any text is a date of 1970.
abbrev read_number : Json → Option ℕ
read_number (number n) = if ltb n unsafe then some n else none
read_number _ = none

abbrev read_date : Text → Option Time
read_date t = some 0

reads_number : (n : ℕ) → n < unsafe → read_number (number n) ≡ some n
reads_number n h = ground arith

abbrev month : DriverReward
month = record { min_tomans = 20000000; free_days = 30 }

abbrev week : DriverReward
week = record { min_tomans = 5000000; free_days = 7 }

abbrev strict_policy : SubscriptionPolicy
strict_policy = record {
  enforced = true;
  free_until = some (codes "2026-12-01");
  drivers_enforced = true;
  driver_trial_days = 14;
  driver_trial_started_at = driver_trial_rollout;
  driver_rewards = week ∷ month ∷ [];
}

abbrev unordered : Json
unordered = array (item (tier_json month) (item (tier_json week) none_left))

normalize-policy_json_example :
    normalize read_number read_date (policy_json strict_policy) ≡ strict_policy
normalize-policy_json_example =
    normalize-policy_json read_number read_date reads_number strict_policy refl (omega arith)
      (((omega arith, tt)), (tt, tt))
      (((omega arith, omega arith)), (((omega arith, omega arith)), tt))
      (((omega arith, omega arith)), (((omega arith, omega arith)), tt))
