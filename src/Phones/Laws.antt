-- ===== src/Phones/Laws.antt =====
-- How the two readings of a number fit together.
use mathlib.Core.List.{reverse, reverse-cons, reverse-reverse}
use transport_backend.Base.{
  ℕ, ◌≡◌, refl, ap, ◌∙◌, Bool, true, ◌&&◌, not, [], ◌∷◌, ◌++◌, ◌==◌, all, keep, take, Text, codes,
  is_space, is_digit, drop_spaces, trim, arith,
}
use transport_backend.Phones.{
  local_form, is_order_separator, order_phone, account_phone, is_valid_iran_mobile,
}

abbrev AllDigits : Text → Type 0
AllDigits s = all is_digit s ≡ true

module _ (p : ℕ → Bool) where
  keep_of_all : (s : Text) → all p s ≡ true → keep p s ≡ s
  keep_of_all [] h = refl
  keep_of_all (c ∷ s) h = ground (arith, keep_of_all s)

  all-append : (s t : Text) → all p (s ++ t) ≡ (all p s && all p t)
  all-append [] t = refl
  all-append (c ∷ s) t = ground (arith, all-append s t)

  all-reverse : (s : Text) → all p (reverse s) ≡ all p s
  all-reverse [] = refl
  all-reverse (c ∷ s) =
      rw (reverse-cons, all-append (reverse s) (c ∷ []), all-reverse s) (ground arith)

  all_mono :
      (q : ℕ → Bool)
      → ((c : ℕ) → p c ≡ true → q c ≡ true)
      → (s : Text) → all p s ≡ true
      → all q s ≡ true
  all_mono q f [] h = refl
  all_mono q f (c ∷ s) h = ground (arith, f c, all_mono q f s)

drop_spaces_none : (s : Text) → all (λ c. not (is_space c)) s ≡ true → drop_spaces s ≡ s
unfolding drop_spaces
drop_spaces_none [] h = refl
drop_spaces_none (c ∷ s) h = ground arith

trim_none : (s : Text) → all (λ c. not (is_space c)) s ≡ true → trim s ≡ s
unfolding trim
trim_none s h =
    rw (drop_spaces_none s h)
      (rw (drop_spaces_none (reverse s) (all-reverse _ s ∙ h)) (reverse-reverse s))

digit-not_space : (c : ℕ) → is_digit c ≡ true → not (is_space c) ≡ true
unfolding is_digit is_space
digit-not_space c h = ground arith

digit-not_dash : (c : ℕ) → is_digit c ≡ true → not (c == b'-') ≡ true
unfolding is_digit
digit-not_dash c h = ground arith

digit-not_separator : (c : ℕ) → is_digit c ≡ true → not (is_order_separator c) ≡ true
unfolding is_order_separator is_digit
digit-not_separator c h = ground arith

abbrev IsClean : Text → Type 0
IsClean s = all (λ c. not (is_order_separator c)) s ≡ true

separator-space : (c : ℕ) → not (is_order_separator c) ≡ true → not (is_space c) ≡ true
unfolding is_order_separator
separator-space c h = ground arith

separator-dash : (c : ℕ) → not (is_order_separator c) ≡ true → not (c == b'-') ≡ true
unfolding is_order_separator
separator-dash c h = ground arith

clean-no_space : (s : Text) → IsClean s → all (λ c. not (is_space c)) s ≡ true
clean-no_space s h = all_mono _ _ separator-space s h

order_phone_clean : (s : Text) → IsClean s → order_phone s ≡ local_form s
unfolding order_phone
order_phone_clean s h = rw (trim_none s (clean-no_space s h)) (ap local_form (keep_of_all _ s h))

account_phone_clean : (s : Text) → IsClean s → account_phone s ≡ local_form s
unfolding account_phone
account_phone_clean s h = rw (trim_none s (clean-no_space s h)) (
    rw (keep_of_all _ s (clean-no_space s h))
      (ap local_form (keep_of_all _ s (all_mono _ _ separator-dash s h))))

digits-IsClean : (s : Text) → AllDigits s → IsClean s
digits-IsClean s h = all_mono _ _ digit-not_separator s h

-- A number with the country code, with or without its plus sign, and the local number are read
-- alike by both services: as the local number.
pub phone_forms :
    (d : Text)
    → all is_digit d ≡ true
    → (order_phone (codes "+989" ++ d) ≡ codes "09" ++ d)
      × (order_phone (codes "989" ++ d) ≡ codes "09" ++ d)
      × (order_phone (codes "09" ++ d) ≡ codes "09" ++ d)
      × (account_phone (codes "+989" ++ d) ≡ codes "09" ++ d)
      × (account_phone (codes "989" ++ d) ≡ codes "09" ++ d)
      × (account_phone (codes "09" ++ d) ≡ codes "09" ++ d)
unfolding local_form is_order_separator
phone_forms d h =
    let clean = digits-IsClean d h in
    (
      order_phone_clean (codes "+989" ++ d) clean,
      order_phone_clean (codes "989" ++ d) clean,
      order_phone_clean (codes "09" ++ d) clean,
      account_phone_clean (codes "+989" ++ d) clean,
      account_phone_clean (codes "989" ++ d) clean,
      account_phone_clean (codes "09" ++ d) clean,
    )

valid-shape : (s : Text) → is_valid_iran_mobile s ≡ true → (take 2 s ≡ codes "09") × AllDigits s
unfolding is_valid_iran_mobile is_digit
valid-shape [] h = ground arith
valid-shape (a ∷ []) h = ground arith
valid-shape (a ∷ b ∷ s) h = ground arith

valid-local_form : (s : Text) → is_valid_iran_mobile s ≡ true → local_form s ≡ s
unfolding is_valid_iran_mobile local_form
valid-local_form [] h = ground arith
valid-local_form (a ∷ []) h = ground arith
valid-local_form (a ∷ b ∷ s) h = ground arith

-- A number that passes the order's check is a fixed point of both readings, so the username that
-- the approval derives from an order's stored number is that number itself.
pub valid_phone_stable :
    (s : Text) → is_valid_iran_mobile s ≡ true → (order_phone s ≡ s) × (account_phone s ≡ s)
valid_phone_stable s h =
    let clean = digits-IsClean s (valid-shape s h).1 in
    (
      order_phone_clean s clean ∙ valid-local_form s h,
      account_phone_clean s clean ∙ valid-local_form s h,
    )
