-- ===== src/Notices/Retry.antt =====
-- src/services/notification/cargoDeliveryRetry.ts: when a failed send is tried again. `now` is an
-- argument, and an error of a messenger is what the functions read of it.
use transport_backend.Base.{
  ℕ, ◌+◌, ◌-◌, ◌*◌, ◌^◌, max, Bool, false, ◌||◌, Option, none, some, ◌==◌, leb, if◌then◌else◌,
}
use transport_backend.Entities.{Time}

abbrev pub max_delivery_attempts : ℕ
max_delivery_attempts = 5

abbrev pub delivery_retry_window_ms : ℕ
delivery_retry_window_ms = 10_800_000

abbrev pub base_retry_delay_ms : ℕ
base_retry_delay_ms = 60_000

-- `BASE_RETRY_DELAY_MS * 2 ** (attempts - 1)`, which is half of it before the first attempt.
unfoldable pub retry_delay : ℕ → ℕ
retry_delay attempts = if attempts == 0 then 30_000 else base_retry_delay_ms * 2 ^ (attempts - 1)

-- `nextDeliveryRetryAt`
unfoldable pub next_delivery_retry_at : ℕ → Time → Time → Option Time
next_delivery_retry_at attempts created_at now =
    if leb max_delivery_attempts attempts
    then none
    else if leb (now + retry_delay attempts) (created_at + delivery_retry_window_ms)
    then some (now + retry_delay attempts)
    else none

-- An error: the code of its response and its `retry_after`, where it has them.
pub record MessengerError : Type 0 where
  pub code : Option ℕ
  pub retry_after : Option ℕ

abbrev has_code : ℕ → MessengerError → Bool
has_code c e = elim e.code [ none ↦ false | some code ↦ code == c ]

-- `isPermanentTelegramError`
unfoldable pub is_permanent : MessengerError → Bool
is_permanent e = has_code 400 e || has_code 403 e

abbrev or_five : Option ℕ → ℕ
or_five none = 5
or_five (some n) = n

-- `rateLimitWaitMs`
unfoldable pub rate_limit_wait_ms : MessengerError → Option ℕ
rate_limit_wait_ms e = if has_code 429 e then some (max 1 (or_five e.retry_after) * 1000) else none
