-- ===== src/Base/Results.antt =====
-- Exceptions of the web framework as values, and the monad that carries them.
use Prim.Native.Nat.{ℕ}
use Prim.Native.String.{String}
use mathlib.Core.Path.{◌≡◌, refl}
use mathlib.Core.Logic.{◌⊎◌, inl, inr}
use mathlib.Core.Bool.{Bool, true, false}
use mathlib.Core.Option.{Option, none, some}
use transport_backend.Base.Texts.{Text}

-- The framework's exceptions with their text, status 429 with its `retryAfter` in seconds if it has
-- one, and any other error that a call outside this program throws.
pub data Exception : Type 0 where
  bad_request not_found conflict unauthorized forbidden : String → Exception
  too_many_requests : String → Option ℕ → Exception
  failure : Text → Exception

-- What an `async` method settles to: an exception that it throws, or a value.
pub data Result {ℓ} (A : Type ℓ) : Type ℓ where
  err : Exception → Result A
  ok : A → Result A

infixl 5 ◌>>=◌ ◌>>◌
-- `await`: an exception leaves the method.
abbrev pub ◌>>=◌ {ℓ κ} : {A : Type ℓ} {B : Type κ} → Result A → (A → Result B) → Result B
settled >>= rest = elim settled [ err thrown ↦ err thrown | ok value ↦ rest value ]

abbrev pub ◌>>◌ {ℓ} : {B : Type ℓ} → Result (Unit {0}) → Result B → Result B
check >> rest = elim check [ err thrown ↦ err thrown | ok passed ↦ rest ]

-- `if (condition) throw …`
abbrev pub refuse_if : Bool → Exception → Result (Unit {0})
refuse_if true e = err e
refuse_if false e = ok tt

-- `if (!row) throw …`
abbrev pub found_or {ℓ} : {A : Type ℓ} → Exception → Option A → Result A
found_or e none = err e
found_or e (some a) = ok a

pub Result-cases {ℓ} :
    {A : Type ℓ} (m : Result A) → ((a : A) × (m ≡ ok a)) ⊎ ((e : Exception) × (m ≡ err e))
Result-cases (ok a) = inl (a, refl)
Result-cases (err e) = inr (e, refl)
