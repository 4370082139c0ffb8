-- ===== src/Verification/NationalId.antt =====
-- src/domain/helper/nationalId.ts: the check digits of the national ID of a company and of a
-- person.
use transport_backend.Base.{
  ℕ, ◌+◌, ◌-◌, ◌*◌, ◌%◌, Bool, true, ◌&&◌, not, List, [], ◌∷◌, Text, ◌==◌, ltb, all, length,
  is_digit, if◌then◌else◌,
}

-- `[...value].map(Number)` of a text of digits.
unfoldable pub digits : Text → List ℕ
digits [] = []
digits (c ∷ s) = (c - b'0') ∷ digits s

-- `/^(\d)\1*$/`
abbrev pub one_digit : Text → Bool
one_digit [] = true
one_digit (c ∷ s) = all (λ d. d == c) s

-- `/^[0-9]{n}$/` and not one digit all along
unfoldable pub has_shape : ℕ → Text → Bool
has_shape n s = (length s == n) && all is_digit s && not (one_digit s)

abbrev pub weights : List ℕ
weights = 29 ∷ 27 ∷ 23 ∷ 19 ∷ 17 ∷ 29 ∷ 27 ∷ 23 ∷ 19 ∷ 17 ∷ []

-- `digits[i]`; every index is within a text of the right shape.
abbrev pub digit_at : ℕ → List ℕ → ℕ
digit_at i [] = 0
digit_at i (d ∷ ds) = let rest = digit_at (i - 1) ds in if i == 0 then d else rest

-- The digits, each with the shift, times the weights.
unfoldable pub weighted : ℕ → List ℕ → List ℕ → ℕ
weighted shift [] ds = 0
weighted shift (w ∷ ws) [] = 0
weighted shift (w ∷ ws) (d ∷ ds) = (d + shift) * w + weighted shift ws ds

-- The check digit that the first ten digits ask for.
unfoldable pub company_check : List ℕ → ℕ
company_check ds =
    let left = weighted (digit_at 9 ds + 2) weights ds % 11 in if left == 10 then 0 else left

-- `isCompanyNationalId`
unfoldable pub is_company_national_id : Text → Bool
is_company_national_id s = has_shape 11 s && (company_check (digits s) == digit_at 10 (digits s))

-- `digit * (10 - i)`, summed from the place of the weight `w` on.
unfoldable pub falling : ℕ → List ℕ → ℕ
falling w [] = 0
falling w (d ∷ ds) = let rest = falling (w - 1) ds in if w == 1 then 0 else d * w + rest

-- `isNationalCode`
unfoldable pub is_national_code : Text → Bool
is_national_code s =
    let left = falling 10 (digits s) % 11 in
    let last = digit_at 9 (digits s) in
    has_shape 10 s && (if ltb left 2 then last == left else last == 11 - left)
