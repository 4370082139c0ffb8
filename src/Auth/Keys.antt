-- ===== src/Auth/Keys.antt =====
-- src/services/redis/redis.service.ts: one key of Redis with its expiry, and the methods on it. A
-- key that is `none` was never set or is deleted; one whose time is over reads as if it were.
-- Times are milliseconds and the TTLs, as in the source, seconds.
use transport_backend.Base.{
  ℕ, suc, ◌+◌, ◌-◌, ◌*◌, ◌/◌, Bool, true, false, Option, none, some, ltb, is_some, if◌then◌else◌,
}
use transport_backend.Entities.{Time}

pub record Kept {ℓ} (A : Type ℓ) : Type ℓ where
  pub value : A
  pub until : Time

abbrev pub Key {ℓ} : Type ℓ → Type ℓ
Key A = Option (Kept A)

module _ {ℓ} {A : Type ℓ} where
  -- `get`
  unfoldable pub read : Time → Key A → Option A
  read now none = none
  read now (some k) = if ltb now k.until then some k.value else none

  -- `set` and `setJson`
  unfoldable pub set : Time → A → ℕ → Key A
  set now a ttl = some (record { value = a; until = now + 1000 * ttl })

  -- `setIfAbsent`: whether the key was free, and the key then.
  unfoldable pub set_if_absent : Time → A → ℕ → Key A → Bool × Key A
  set_if_absent now a ttl k = if is_some (read now k) then (false, k) else (true, set now a ttl)

  -- `expire`
  unfoldable pub expire : Time → ℕ → Key A → Key A
  expire now ttl k = elim (read now k) [ none ↦ none | some a ↦ set now a ttl ]

  -- `ttl`, rounded to whole seconds as Redis rounds it; a missing key has none.
  unfoldable pub seconds_left : Time → Key A → Option ℕ
  seconds_left now none = none
  seconds_left now (some k) = if ltb now k.until then some ((k.until - now + 500) / 1000) else none

  -- `take`: the value, which nothing reads again.
  unfoldable pub take_key : Time → Key A → Option A × Key A
  take_key now k = (read now k, none)

-- `increment`: the first one starts the time of the window, later ones keep it.
unfoldable pub increment : Time → ℕ → Key ℕ → Key ℕ
increment now ttl none = set now 1 ttl
increment now ttl (some k) =
    if ltb now k.until then some (record k { value = suc k.value }) else set now 1 ttl

-- `deleteIfValue`
unfoldable pub delete_if_value {ℓ} : {A : Type ℓ} → (A → A → Bool) → Time → A → Key A → Key A
delete_if_value same now owner k = elim (read now k) [
  | none ↦ none
  | some held ↦ if same held owner then none else k
]
