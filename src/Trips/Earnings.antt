-- ===== src/Trips/Earnings.antt =====
-- What a broker earns by the model of commission: `brokerEarning`.
use transport_backend.Base.{
  ℕ, zero, suc, ◌+◌, ◌*◌, ◌≤◌, ◌<◌, ◌≡◌, Option, some, arith, Bool-cases, inl, inr,
}
use transport_backend.Entities.Trip.{commission, FareCurrency, toman, currency_eq}
use transport_backend.Trips.Delivery.{share_of, broker_earning}

share_rounds :
    (total percent : ℕ)
    → (10000 * share_of total percent ≤ total * percent + 5000)
      × (total * percent + 5000 < 10000 * share_of total percent + 10000)
unfolding share_of
share_rounds total percent = (omega arith, omega arith)

mul_bound : (total a b : ℕ) → a ≤ b → total * a ≤ total * b
mul_bound zero a b h = omega arith
mul_bound (suc n) a b h = omega (arith, mul_bound n a b h)

share_bound : (total percent : ℕ) → percent ≤ 10000 → share_of total percent ≤ total
unfolding share_of
share_bound total percent h = omega (arith, mul_bound total percent 10000 h)

-- The commission of a broker, where there is one, is the percent of the fare rounded to the nearest
-- whole amount, a half upwards, for a percent in hundredths; with a percent of at most a hundred it
-- is no more than the fare.
pub commission_rounds :
    (total : ℕ) (currency : FareCurrency) (driver_fare : Option ℕ) (percent c : ℕ)
    → (broker_earning commission total currency driver_fare percent).0 ≡ some c
    → (10000 * c ≤ total * percent + 5000)
      × (total * percent + 5000 < 10000 * c + 10000)
      × (percent ≤ 10000 → c ≤ total)
unfolding broker_earning
commission_rounds total currency driver_fare percent c h =
    elim (Bool-cases (currency_eq currency toman)) [
      | inr e ↦ absurd (ground arith)
      | inl e ↦
          let same : share_of total percent ≡ c = ground arith in
          rw⁻¹ same (
            (share_rounds total percent).0,
            (share_rounds total percent).1,
            share_bound total percent,
          )
    ]
