-- ===== src/Receipts/Matching/Laws.antt =====
-- What a match of a card or of a name means.
use mathlib.Core.List.{Memᴰ}
use transport_backend.Base.{
  Option-cases, is_empty, All, sym, ◌<◌, ℕ, suc, ◌+◌, ◌≤◌, ◌≡◌, ◌≢◌, ◌⊎◌, inl, inr, ◌↔◌, refl, true,
  false, some, List, [], ◌∷◌, ◌==◌, leb, length, all, keep, Text, text_eq, text_eq→eq, eq→text_eq,
  text_eq_refl, is_digit, arith, Bool-cases,
}
use transport_backend.Receipts.Matching.{
  count_visible, last_four, card_matches, includes, names_agree,
}

-- A masked card agrees with a card: each place shows the card's digit or a star. The number is
-- how many places show a digit.
pub data Masks : Text → Text → ℕ → Type 0 where
  blank : Masks [] [] 0
  star : {s t : Text} {n e c : ℕ} → e ≡ b'*' → Masks s t n → Masks (e ∷ s) (c ∷ t) n
  digit : {s t : Text} {n e c : ℕ} → e ≢ b'*' → e ≡ c → Masks s t n → Masks (e ∷ s) (c ∷ t) (suc n)

count_visible-Masks :
    (s t : Text) (k n : ℕ)
    → length s ≡ length t
    → count_visible s t k ≡ some n
    → (m : ℕ) × Masks s t m × (n ≡ k + m)
unfolding count_visible
count_visible-Masks [] [] k n l h = (0, blank, ground arith)
count_visible-Masks [] (c ∷ t) k n l h = absurd (omega arith)
count_visible-Masks (e ∷ s) [] k n l h = absurd (omega arith)
count_visible-Masks (e ∷ s) (c ∷ t) k n l h = elim (Bool-cases (e == b'*')) [
  | inl hidden ↦
      let (m, d, q) = count_visible-Masks s t k n (omega arith) (ground arith) in
      (m, star (ground arith) d, q)
  | inr shown ↦
      let (m, d, q) = count_visible-Masks s t (k + 1) n (omega arith) (ground arith) in
      (suc m, digit (ground arith) (ground arith) d, omega arith)
]

Masks-length : {s t : Text} {m : ℕ} → Masks s t m → length s ≡ length t
Masks-length blank = refl
Masks-length (star p d) = omega (arith, Masks-length d)
Masks-length (digit p q d) = omega (arith, Masks-length d)

Masks-count_visible :
    {s t : Text} {m : ℕ} (k : ℕ) → Masks s t m → count_visible s t k ≡ some (k + m)
unfolding count_visible
Masks-count_visible k blank = ground arith
Masks-count_visible k (star p d) = ground (arith, Masks-count_visible k d)
Masks-count_visible k (digit p q d) = ground (arith, Masks-count_visible (k + 1) d)

-- What the receipt shows of a card: a mask of it with at least four digits, the last four among
-- them.
pub record ShowsCard (extracted card : Text) : Type 0 where
  pub digits : ℕ
  pub masks : Masks extracted card digits
  pub enough : 4 ≤ digits
  pub tail : last_four extracted ≡ last_four card

card_matches-ShowsCard :
    (extracted expected : Text)
    → card_matches (some extracted) expected ≡ true
    → ShowsCard extracted (keep is_digit expected)
unfolding card_matches
card_matches-ShowsCard extracted expected h =
    elim (Option-cases (count_visible extracted (keep is_digit expected) 0)) [
      | inl e ↦ absurd (ground arith)
      | inr (n, e) ↦
          let (m, d, q) =
            count_visible-Masks extracted (keep is_digit expected) 0 n (ground arith) e in
          record {
            digits = m;
            masks = d;
            enough = ground arith;
            tail = text_eq→eq _ _ (ground arith);
          }
    ]

Masks-not_empty : {s t : Text} {m : ℕ} → Masks s t m → 4 ≤ m → is_empty s ≡ false
Masks-not_empty blank h = absurd (omega arith)
Masks-not_empty (star p d) h = refl
Masks-not_empty (digit p q d) h = refl

ShowsCard-card_matches :
    (extracted expected : Text)
    → ShowsCard extracted (keep is_digit expected)
    → card_matches (some extracted) expected ≡ true
unfolding card_matches
ShowsCard-card_matches extracted expected c = ground (
  arith,
  Masks-not_empty c.masks c.enough,
  Masks-length c.masks,
  Masks-count_visible 0 c.masks,
  eq→text_eq _ _ c.tail,
  c.enough,
)

-- The card read from a receipt matches the expected one exactly when it agrees with the expected
-- digits at every place that is not masked, shows at least four of them, and ends as they do.
pub card_matches_iff :
    (extracted expected : Text)
    → (card_matches (some extracted) expected ≡ true) ↔ ShowsCard extracted (keep is_digit expected)
card_matches_iff extracted expected =
    (card_matches-ShowsCard extracted expected, ShowsCard-card_matches extracted expected)

includes_sound : (ws : List Text) (w : Text) → includes ws w ≡ true → Memᴰ w ws
unfolding includes
includes_sound [] w h = absurd (ground arith)
includes_sound (v ∷ ws) w h = elim (Bool-cases (text_eq v w)) [
  | inl e ↦ Memᴰ.head (sym (text_eq→eq v w e))
  | inr e ↦ Memᴰ.tail (includes_sound ws w (ground arith))
]

includes_complete : (ws : List Text) (w : Text) → Memᴰ w ws → includes ws w ≡ true
unfolding includes
includes_complete [] w m = elim m [ ]
includes_complete (v ∷ ws) w (Memᴰ.head e) = rw e (ground (arith, text_eq_refl v))
includes_complete (v ∷ ws) w (Memᴰ.tail m) = ground (arith, includes_complete ws w m)

-- Every word of the first is a word of the second.
abbrev pub Within : List Text → List Text → Type 0
Within ws vs = All (λ w. Memᴰ w vs) ws

all_sound : (vs ws : List Text) → all (includes vs) ws ≡ true → Within ws vs
all_sound vs [] h = tt
all_sound vs (w ∷ ws) h = (includes_sound vs w (ground arith), all_sound vs ws (ground arith))

all_complete : (vs ws : List Text) → Within ws vs → all (includes vs) ws ≡ true
all_complete vs [] h = refl
all_complete vs (w ∷ ws) (h, hs) = ground (arith, includes_complete vs w h, all_complete vs ws hs)

-- Two names agree exactly when every word of the one with fewer words (the receipt's, if they have
-- as many) is a word of the other.
pub names_agree_iff :
    (actual owner : List Text)
    → (names_agree actual owner ≡ true) ↔ (
        ((length actual ≤ length owner) × Within actual owner)
        ⊎ ((length owner < length actual) × Within owner actual))
unfolding names_agree
names_agree_iff actual owner = elim (Bool-cases (leb (length actual) (length owner))) [
  | inl e ↦ (
    λ h. inl (ground arith, all_sound owner actual (ground arith)),
    λ h. ground (arith, all_complete owner actual),
  )
  | inr e ↦ (
    λ h. inr (ground arith, all_sound actual owner (ground arith)),
    λ h. ground (arith, all_complete actual owner),
  )
]
