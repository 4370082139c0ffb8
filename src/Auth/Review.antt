-- ===== src/Auth/Review.antt =====
-- `reviewCode` of src/services/auth/registration.service.ts, with `normalizePhoneNumber` of
-- src/dto/auth/phone-number.ts. OTP_REVIEW_LOGINS is an argument, empty if it is not set.
use transport_backend.Base.{
  ℕ, ◌+◌, ◌-◌, Bool, ◌&&◌, ◌||◌, Option, none, some, List, [], ◌∷◌, Text, codes, trim, is_space,
  is_digit, text_eq, leb, ◌==◌, all, keep, drop, map, length, not, if◌then◌else◌,
}
use transport_backend.Phones.{starts_with}

-- A Persian or Arabic digit as the Latin one.
unfoldable pub latin_digit : ℕ → ℕ
latin_digit c =
    if leb 0x6f0 c && leb c 0x6f9
    then (c - 0x6f0) + b'0'
    else if leb 0x660 c && leb c 0x669
    then (c - 0x660) + b'0'
    else c

-- `/[\s()-]/`
unfoldable pub is_phone_separator : ℕ → Bool
is_phone_separator c = is_space c || c == b'(' || c == b')' || c == b'-'

-- The country's code of a mobile becomes a zero.
unfoldable pub without_country : Text → Text
without_country s =
    if starts_with (codes "+989") s
    then b'0' ∷ drop 3 s
    else if starts_with (codes "00989") s
    then b'0' ∷ drop 4 s
    else if starts_with (codes "989") s
    then b'0' ∷ drop 2 s
    else s

-- `normalizePhoneNumber`
unfoldable pub normalize_phone_number : Text → Text
normalize_phone_number s =
    without_country (keep (λ c. not (is_phone_separator c)) (map latin_digit (trim s)))

abbrev before_part : ℕ → List Text → List Text
before_part c [] = (c ∷ []) ∷ []
before_part c (part ∷ parts) = (c ∷ part) ∷ parts

-- `split` at a character.
unfoldable pub split : ℕ → Text → List Text
split mark [] = [] ∷ []
split mark (c ∷ s) =
    let parts = split mark s in if c == mark then [] ∷ parts else before_part c parts

-- `/^\d{5,8}$/`
unfoldable pub is_review_code : Text → Bool
is_review_code code = leb 5 (length code) && leb (length code) 8 && all is_digit code

-- The code of an entry «number:code», if the number is this one.
unfoldable pub entry_code : Text → List Text → Option Text
entry_code phone (number ∷ code ∷ rest) =
    if text_eq (normalize_phone_number (trim number)) phone
      && is_review_code (normalize_phone_number (trim code))
    then some (normalize_phone_number (trim code))
    else none
entry_code phone _ = none

abbrev first_code : Text → List Text → Option Text
first_code phone [] = none
first_code phone (entry ∷ entries) =
    let rest = first_code phone entries in
    elim (entry_code phone (split b':' entry)) [ some code ↦ some code | none ↦ rest ]

-- `reviewCode`
unfoldable pub review_code : Text → Text → Option Text
review_code logins phone = first_code phone (split b',' logins)
