-- ===== src/Phones.antt =====
-- Iranian mobile numbers as the subscription services read them: `normalizePhone` and
-- `isValidIranMobile` of subscriptionorder.service.ts, `normalizePhone` of
-- accountprovisioning.service.ts.
pub mod Laws
use transport_backend.Base.{
  ℕ, Bool, ◌&&◌, ◌||◌, not, ◌∷◌, ◌==◌, if◌then◌else◌, length, all, keep, take, drop, Text, codes,
  text_eq, is_space, is_digit, trim,
}

unfoldable pub starts_with : Text → Text → Bool
starts_with prefix s = text_eq (take (length prefix) s) prefix

-- The country code becomes the leading zero: the `if` of both functions.
unfoldable pub local_form : Text → Text
unfolding starts_with
local_form s =
    if starts_with (codes "+98") s
    then b'0' ∷ drop 3 s
    else if starts_with (codes "98") s
    then b'0' ∷ drop 2 s
    else s

-- `[\s()-]`
unfoldable pub is_order_separator : ℕ → Bool
unfolding is_space
is_order_separator c = is_space c || c == b'(' || c == b')' || c == b'-'

unfoldable pub order_phone : Text → Text
unfolding local_form is_order_separator trim
order_phone phone = local_form (keep (λ c. not (is_order_separator c)) (trim phone))

unfoldable pub account_phone : Text → Text
unfolding local_form is_space trim
account_phone phone =
    local_form (keep (λ c. not (c == b'-')) (keep (λ c. not (is_space c)) (trim phone)))

-- `/^09\d{9}$/`
unfoldable pub is_valid_iran_mobile : Text → Bool
unfolding is_digit
is_valid_iran_mobile phone =
    text_eq (take 2 phone) (codes "09") && all is_digit (drop 2 phone) && length (drop 2 phone) == 9
