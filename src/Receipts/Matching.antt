-- ===== src/Receipts/Matching.antt =====
-- `cardMatches` and `nameMatches` of PaymentReceiptService (paymentreceipt.service.ts).
pub mod Laws
use mathlib.Core.List.{reverse}
use transport_backend.Base.{
  ℕ, zero, suc, ◌+◌, ◌-◌, Bool, true, false, ◌&&◌, ◌||◌, not, Option, none, some, List, [], ◌∷◌,
  map, ◌==◌, leb, if◌then◌else◌, length, all, any, keep, drop, Text, codes, text_eq, is_empty,
  is_digit, is_space,
}
use transport_backend.Phones.{starts_with}

-- The loop over the digits of the card: the number of digits that the receipt shows, or none where
-- one of them differs. The two texts have one length.
unfoldable pub count_visible : Text → Text → ℕ → Option ℕ
count_visible (e ∷ extracted) (c ∷ card) visible =
    let shown = count_visible extracted card (visible + 1) in
    let masked = count_visible extracted card visible in
    if e == b'*' then masked else if e == c then shown else none
count_visible _ _ visible = some visible

-- `slice(-4)`
unfoldable pub last_four : Text → Text
last_four s = drop (length s - 4) s

abbrev pub enough_visible : Option ℕ → Bool
enough_visible none = false
enough_visible (some visible) = leb 4 visible

unfoldable pub card_matches : Option Text → Text → Bool
unfolding count_visible last_four is_digit
card_matches none expected = false
card_matches (some extracted) expected =
    let card = keep is_digit expected in
    not (is_empty extracted)
    && length extracted == length card
    && enough_visible (count_visible extracted card 0)
    && text_eq (last_four extracted) (last_four card)

-- The replacements of `words`: Arabic letters to Persian ones.
unfoldable pub persian_letter : ℕ → ℕ
persian_letter c = if c == 0x64a then 0x6cc else if c == 0x643 then 0x6a9 else c

-- The zero-width non-joiner and the vowel marks.
unfoldable pub is_mark : ℕ → Bool
is_mark c = c == 0x200c || leb 0x64b c && leb c 0x65f

-- The titles, "sir", "madam" and "excellency", of four letters each.
abbrev pub titles : List Text
titles =
    (0x622 ∷ 0x642 ∷ 0x627 ∷ 0x6cc ∷ [])
    ∷ (0x62e ∷ 0x627 ∷ 0x646 ∷ 0x645 ∷ [])
    ∷ (0x62c ∷ 0x646 ∷ 0x627 ∷ 0x628 ∷ [])
    ∷ []

-- Each title becomes one space where it stands; `skip` counts what is left of a title.
unfoldable pub without_titles : ℕ → Text → Text
unfolding starts_with
without_titles skip [] = []
without_titles (suc skip) (c ∷ s) = without_titles skip s
without_titles zero (c ∷ s) =
    let titled = b' ' ∷ without_titles 3 s in
    let plain = c ∷ without_titles 0 s in
    if any (λ t. starts_with t (c ∷ s)) titles then titled else plain

-- `split(/\s+/).filter(Boolean)`; the word that is being read is kept reversed.
unfoldable pub words_from : Text → Text → List Text
unfolding is_space
words_from word [] = if is_empty word then [] else reverse word ∷ []
words_from word (c ∷ s) =
    let next = words_from [] s in
    let longer = words_from (c ∷ word) s in
    if is_space c then (if is_empty word then next else reverse word ∷ next) else longer

unfoldable pub words : Text → List Text
unfolding words_from without_titles is_mark persian_letter
words value =
    words_from [] (without_titles 0 (keep (λ c. not (is_mark c)) (map persian_letter value)))

unfoldable pub includes : List Text → Text → Bool
includes ws w = any (λ v. text_eq v w) ws

unfoldable pub names_agree : List Text → List Text → Bool
unfolding includes
names_agree actual owner =
    if leb (length actual) (length owner)
    then all (includes owner) actual
    else all (includes actual) owner

abbrev pub no_words : List Text → Bool
no_words [] = true
no_words (w ∷ ws) = false

unfoldable pub name_matches : Option Text → Text → Bool
unfolding words names_agree
name_matches none expected = false
name_matches (some extracted) expected =
    not (is_empty extracted)
    && not (no_words (words extracted) || no_words (words expected))
    && names_agree (words extracted) (words expected)
