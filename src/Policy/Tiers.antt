-- ===== src/Policy/Tiers.antt =====
-- The tiers of the reward for drivers come out in order, whatever is stored.
use transport_backend.Base.{
  ℕ, ◌<◌, ◌≡◌, ◌≢◌, Option, some, List, [], ◌∷◌, ◌==◌, leb, Text, codes, arith, All, Bool-cases,
  Option-cases, inl, inr,
}
use transport_backend.Entities.{Time}
use transport_backend.Policy.Json.{Json, array, Items, none_left, item, property}
use transport_backend.Policy.Settings.{
  DriverReward, set_tier, insert_tier, sort_tiers, tier_of, collect_tiers, normalize_rewards,
}

-- Above a tier stand only tiers with larger amounts.
abbrev pub Above : ℕ → List DriverReward → Type 0
Above n [] = Unit
Above n (x ∷ xs) = (n < x.min_tomans) × Above n xs

abbrev pub Ascending : List DriverReward → Type 0
Ascending [] = Unit
Ascending (x ∷ xs) = Above x.min_tomans xs × Ascending xs

-- No tier twice.
abbrev pub Without : ℕ → List DriverReward → Type 0
Without n [] = Unit
Without n (x ∷ xs) = (x.min_tomans ≢ n) × Without n xs

abbrev pub AllDifferent : List DriverReward → Type 0
AllDifferent [] = Unit
AllDifferent (x ∷ xs) = Without x.min_tomans xs × AllDifferent xs

abbrev pub IsPositive : DriverReward → Type 0
IsPositive r = (0 < r.min_tomans) × (0 < r.free_days)

Without-set_tier :
    (n : ℕ) (r : DriverReward) (xs : List DriverReward)
    → r.min_tomans ≢ n
    → Without n xs
    → Without n (set_tier r xs)
unfolding set_tier
Without-set_tier n r [] h w = (h, tt)
Without-set_tier n r (x ∷ xs) h (v, w) = elim (Bool-cases (x.min_tomans == r.min_tomans)) [
  | inl e ↦ rw e (h, w)
  | inr e ↦ rw e (v, Without-set_tier n r xs h w)
]

AllDifferent-set_tier :
    (r : DriverReward) (xs : List DriverReward) → AllDifferent xs → AllDifferent (set_tier r xs)
unfolding set_tier
AllDifferent-set_tier r [] d = (tt, tt)
AllDifferent-set_tier r (x ∷ xs) (w, d) = elim (Bool-cases (x.min_tomans == r.min_tomans)) [
  | inl e ↦ rw e (ground arith, d)
  | inr e ↦ rw e (Without-set_tier x.min_tomans r xs (ground arith) w, AllDifferent-set_tier r xs d)
]

Above-insert :
    (n : ℕ) (r : DriverReward) (xs : List DriverReward)
    → n < r.min_tomans
    → Above n xs
    → Above n (insert_tier r xs)
unfolding insert_tier
Above-insert n r [] h a = (h, tt)
Above-insert n r (x ∷ xs) h (b, a) = elim (Bool-cases (leb r.min_tomans x.min_tomans)) [
  | inl e ↦ rw e (h, (b, a))
  | inr e ↦ rw e (b, Above-insert n r xs h a)
]

Above-mono : (m n : ℕ) (xs : List DriverReward) → m < n → Above n xs → Above m xs
Above-mono m n [] h a = tt
Above-mono m n (x ∷ xs) h (b, a) = (omega arith, Above-mono m n xs h a)

Ascending-insert :
    (r : DriverReward) (xs : List DriverReward)
    → Without r.min_tomans xs
    → Ascending xs
    → Ascending (insert_tier r xs)
unfolding insert_tier
Ascending-insert r [] w a = (tt, tt)
Ascending-insert r (x ∷ xs) (v, w) (b, a) = elim (Bool-cases (leb r.min_tomans x.min_tomans)) [
  | inl e ↦
      let below : r.min_tomans < x.min_tomans = ground arith in
      rw e ((below, Above-mono r.min_tomans x.min_tomans xs below b), (b, a))
  | inr e ↦ rw e (Above-insert x.min_tomans r xs (ground arith) b, Ascending-insert r xs w a)
]

Without-insert :
    (n : ℕ) (r : DriverReward) (xs : List DriverReward)
    → r.min_tomans ≢ n
    → Without n xs
    → Without n (insert_tier r xs)
unfolding insert_tier
Without-insert n r [] h w = (h, tt)
Without-insert n r (x ∷ xs) h (v, w) = elim (Bool-cases (leb r.min_tomans x.min_tomans)) [
  | inl e ↦ rw e (h, (v, w))
  | inr e ↦ rw e (v, Without-insert n r xs h w)
]

Without-sort : (n : ℕ) (xs : List DriverReward) → Without n xs → Without n (sort_tiers xs)
unfolding sort_tiers
Without-sort n [] w = tt
Without-sort n (x ∷ xs) (v, w) = Without-insert n x (sort_tiers xs) v (Without-sort n xs w)

Ascending-sort : (xs : List DriverReward) → AllDifferent xs → Ascending (sort_tiers xs)
unfolding sort_tiers
Ascending-sort [] d = tt
Ascending-sort (x ∷ xs) (w, d) =
    Ascending-insert x (sort_tiers xs) (Without-sort x.min_tomans xs w) (Ascending-sort xs d)

All-set_tier :
    (r : DriverReward) (xs : List DriverReward)
    → IsPositive r
    → All IsPositive xs
    → All IsPositive (set_tier r xs)
unfolding set_tier
All-set_tier r [] p h = (p, tt)
All-set_tier r (x ∷ xs) p (q, h) = elim (Bool-cases (x.min_tomans == r.min_tomans)) [
  | inl e ↦ rw e (p, h)
  | inr e ↦ rw e (q, All-set_tier r xs p h)
]

All-insert :
    (r : DriverReward) (xs : List DriverReward)
    → IsPositive r
    → All IsPositive xs
    → All IsPositive (insert_tier r xs)
unfolding insert_tier
All-insert r [] p h = (p, tt)
All-insert r (x ∷ xs) p (q, h) = elim (Bool-cases (leb r.min_tomans x.min_tomans)) [
  | inl e ↦ rw e (p, (q, h))
  | inr e ↦ rw e (q, All-insert r xs p h)
]

All-sort : (xs : List DriverReward) → All IsPositive xs → All IsPositive (sort_tiers xs)
unfolding sort_tiers
All-sort [] h = tt
All-sort (x ∷ xs) (p, h) = All-insert x (sort_tiers xs) p (All-sort xs h)

module _ (to_number : Json → Option ℕ) (parse_date : Text → Option Time) where
  tier_of-IsPositive :
      (j : Json) {r : DriverReward} → tier_of to_number parse_date j ≡ some r → IsPositive r
  unfolding tier_of
  tier_of-IsPositive j {r} h = elim (Option-cases (to_number (property (codes "minTomans") j))) [
    | inl e ↦ absurd (ground arith)
    | inr (m, e) ↦ elim (Option-cases (to_number (property (codes "freeDays") j))) [
      | inl f ↦ absurd (ground arith)
      | inr (d, f) ↦ ground arith
    ]
  ]

  collect_tiers-good :
      (xs : List DriverReward) (items : Items)
      → AllDifferent xs
      → All IsPositive xs
      → AllDifferent (collect_tiers to_number parse_date xs items)
        × All IsPositive (collect_tiers to_number parse_date xs items)
  unfolding collect_tiers
  collect_tiers-good xs none_left d p = (d, p)
  collect_tiers-good xs (item given rest) d p =
      elim (Option-cases (tier_of to_number parse_date given)) [
        | inl e ↦ rw (e, collect_tiers) (collect_tiers-good xs rest d p)
        | inr (r, e) ↦
            rw (e, collect_tiers)
              (collect_tiers-good (set_tier r xs) rest (AllDifferent-set_tier r xs d)
                (All-set_tier r xs (tier_of-IsPositive given e) p))
      ]

  -- Whatever the settings table or Redis holds, the tiers that the service works with have positive
  -- amounts and days and come in strictly ascending order of their amounts.
  pub normalize_rewards-Ascending :
      (j : Json)
      → Ascending (normalize_rewards to_number parse_date j)
        × All IsPositive (normalize_rewards to_number parse_date j)
  unfolding normalize_rewards
  normalize_rewards-Ascending (array items) =
      let (d, p) = collect_tiers-good [] items tt tt in
      (
        Ascending-sort (collect_tiers to_number parse_date [] items) d,
        All-sort (collect_tiers to_number parse_date [] items) p,
      )
  normalize_rewards-Ascending _ = (tt, tt)
