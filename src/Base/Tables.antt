-- ===== src/Base/Tables.antt =====
-- A table as the list of its rows: lookups by key, `save` as insert or update, and their laws.
use Prim.Native.Nat.{ℕ, suc}
use mathlib.Core.Path.{◌≡◌, refl, subst}
use mathlib.Core.Logic.{inl, inr}
use mathlib.Core.Bool.{Bool, true, false, ◌&&◌}
use mathlib.Core.Option
use mathlib.Core.Option.{Option, none, some}
use mathlib.Core.List.{List, [], ◌∷◌}
use native.Mathlib.Omega.{arith}
use transport_backend.Base.Tests.{◌==◌, if◌then◌else◌, Bool-cases}
use transport_backend.Base.Lists.{All}

module _ {ℓ} {A : Type ℓ} where
  -- `findOne`: the first row that meets the condition.
  unfoldable pub find : (A → Bool) → List A → Option A
  find p [] = none
  find p (x ∷ xs) = if p x then some x else find p xs

  pub find_sound : (p : A → Bool) (t : List A) {r : A} → find p t ≡ some r → p r ≡ true
  unfolding find
  find_sound p [] e = ground arith
  find_sound p (x ∷ xs) {r} e = ground (arith, find_sound p xs {r = r})

  pub find-All {κ} :
      (P : A → Type κ) (p : A → Bool) (t : List A) {r : A} → All P t → find p t ≡ some r → P r
  unfolding find
  find-All P p [] h e = absurd (ground arith)
  find-All P p (x ∷ xs) {r} (h, hs) e = elim (Bool-cases (p x)) [
    | inl q ↦ subst P (ground arith) h
    | inr q ↦ find-All P p xs hs (ground arith)
  ]

module _ {ℓ} {A : Type ℓ} (key : A → ℕ) where
  -- The row with this primary key.
  unfoldable pub by_id : ℕ → List A → Option A
  by_id k [] = none
  by_id k (x ∷ xs) = if key x == k then some x else by_id k xs

  -- `save`: the row with the same key is replaced, else the row is added.
  unfoldable pub save : A → List A → List A
  save r [] = r ∷ []
  save r (x ∷ xs) = if key x == key r then r ∷ xs else x ∷ save r xs

  pub by_id-save :
      (k : ℕ) (r : A) (t : List A) → by_id k (save r t) ≡ (if key r == k then some r else by_id k t)
  unfolding by_id save
  by_id-save k r [] = refl
  by_id-save k r (x ∷ xs) = ground (arith, by_id-save k r xs)

  pub by_id_key : (k : ℕ) (t : List A) {r : A} → by_id k t ≡ some r → key r ≡ k
  unfolding by_id
  by_id_key k [] e = ground arith
  by_id_key k (x ∷ xs) {r} e = ground (arith, by_id_key k xs {r = r})

  -- A row that a search with a condition misses does not meet the condition.
  pub by_id-find-none :
      (p : A → Bool) (k : ℕ) (t : List A) {r : A}
      → find p t ≡ none
      → by_id k t ≡ some r
      → p r ≡ false
  unfolding by_id find
  by_id-find-none p k [] n e = ground arith
  by_id-find-none p k (x ∷ xs) {r} n e = ground (arith, by_id-find-none p k xs {r = r})

  pub All-save {κ} : (P : A → Type κ) (r : A) (t : List A) → P r → All P t → All P (save r t)
  unfolding save
  All-save P r [] p h = (p, tt)
  All-save P r (x ∷ xs) p (h, hs) = elim (Bool-cases (key x == key r)) [
    | inl q ↦ rw q (p, hs)
    | inr q ↦ rw q (h, All-save P r xs p hs)
  ]

  pub by_id-All {κ} :
      (P : A → Type κ) (k : ℕ) (t : List A) {r : A} → All P t → by_id k t ≡ some r → P r
  unfolding by_id
  by_id-All P k [] h e = absurd (ground arith)
  by_id-All P k (x ∷ xs) {r} (h, hs) e = elim (Bool-cases (key x == k)) [
    | inl q ↦ subst P (ground arith) h
    | inr q ↦ by_id-All P k xs hs (ground arith)
  ]

module _ {ℓ} {A : Type ℓ} where
  -- `UPDATE … SET … WHERE …`
  unfoldable pub update_where : (A → Bool) → (A → A) → List A → List A
  update_where p f [] = []
  update_where p f (x ∷ xs) = (if p x then f x else x) ∷ update_where p f xs

  -- How many rows meet the condition.
  unfoldable pub count_where : (A → Bool) → List A → ℕ
  count_where p [] = 0
  count_where p (x ∷ xs) = let rest = count_where p xs in if p x then suc rest else rest

  pub All-update_where {κ} :
      (P : A → Type κ) (p : A → Bool) (f : A → A) (t : List A)
      → ((r : A) → P r → p r ≡ true → P (f r))
      → All P t
      → All P (update_where p f t)
  unfolding update_where
  All-update_where P p f [] g h = tt
  All-update_where P p f (x ∷ xs) g (h, hs) = elim (Bool-cases (p x)) [
    | inl q ↦ rw q (g x h q, All-update_where P p f xs g hs)
    | inr q ↦ rw q (h, All-update_where P p f xs g hs)
  ]

  -- After an update that ends a condition, no row meets it.
  pub count_where-update_where :
      (p : A → Bool) (f : A → A) (t : List A)
      → ((r : A) → p (f r) ≡ false)
      → count_where p (update_where p f t) ≡ 0
  unfolding count_where update_where
  count_where-update_where p f [] h = refl
  count_where-update_where p f (x ∷ xs) h = elim (Bool-cases (p x)) [
    | inl q ↦ rw (q, h x, count_where-update_where p f xs h)
    | inr q ↦ rw (q, q, count_where-update_where p f xs h)
  ]

module _ {ℓ} {A : Type ℓ} (key : A → ℕ) where
  pub by_id-update_where :
      (p : A → Bool) (f : A → A) (k : ℕ) (t : List A)
      → ((r : A) → key (f r) ≡ key r)
      → by_id key k (update_where p f t) ≡ Option.map (λ r. if p r then f r else r) (by_id key k t)
  unfolding by_id update_where
  by_id-update_where p f k [] h = refl
  by_id-update_where p f k (x ∷ xs) h = ground (arith, h x, by_id-update_where p f k xs h)

  -- No two rows have one key.
  abbrev pub Distinct : List A → Type ℓ
  Distinct [] = Unit
  Distinct (x ∷ xs) = (by_id key (key x) xs ≡ none) × Distinct xs

  pub Distinct-update_where :
      (p : A → Bool) (f : A → A) (t : List A)
      → ((r : A) → key (f r) ≡ key r)
      → Distinct t
      → Distinct (update_where p f t)
  unfolding update_where
  Distinct-update_where p f [] h d = tt
  Distinct-update_where p f (x ∷ xs) h (n, d) = elim (Bool-cases (p x)) [
    | inl q ↦
        rw (q, h x)
          (rw (by_id-update_where p f (key x) xs h, n) refl, Distinct-update_where p f xs h d)
    | inr q ↦
        rw q (rw (by_id-update_where p f (key x) xs h, n) refl, Distinct-update_where p f xs h d)
  ]

  count_where-absent :
      (q : A → Bool) (k : ℕ) (t : List A)
      → by_id key k t ≡ none
      → count_where (λ x. (key x == k) && q x) t ≡ 0
  unfolding count_where by_id
  count_where-absent q k [] n = refl
  count_where-absent q k (x ∷ xs) n = ground (arith, count_where-absent q k xs)

  -- A statement on one key meets one row, if the row meets the rest of its condition.
  pub count_where-by_id :
      (q : A → Bool) (k : ℕ) (t : List A) {r : A}
      → Distinct t
      → by_id key k t ≡ some r
      → q r ≡ true
      → count_where (λ x. (key x == k) && q x) t ≡ 1
  unfolding count_where by_id
  count_where-by_id q k [] d e h = absurd (ground arith)
  count_where-by_id q k (x ∷ xs) {r} (n, d) e h = elim (Bool-cases (key x == k)) [
    | inl same ↦
        let absent : by_id key k xs ≡ none = subst (λ j. by_id key j xs ≡ none) (ground arith) n in
        ground (arith, count_where-absent q k xs absent)
    | inr other ↦ ground (arith, count_where-by_id q k xs {r = r} d)
  ]

  pub Distinct-save : (r : A) (t : List A) → Distinct t → Distinct (save key r t)
  unfolding save by_id
  Distinct-save r [] d = (refl, tt)
  Distinct-save r (x ∷ xs) (n, d) = elim (Bool-cases (key x == key r)) [
    | inl q ↦ rw q (subst (λ j. by_id key j xs ≡ none) (ground arith) n, d)
    | inr q ↦ rw q (rw (by_id-save key (key x) r xs) (ground arith), Distinct-save r xs d)
  ]

  -- In a table with distinct keys a row that a search finds is the row of its key.
  pub find-by_id :
      (p : A → Bool) (t : List A) {r : A}
      → Distinct t
      → find p t ≡ some r
      → by_id key (key r) t ≡ some r
  unfolding find by_id
  find-by_id p [] d e = absurd (ground arith)
  find-by_id p (x ∷ xs) {r} (n, d) e = elim (Bool-cases (p x)) [
    | inl q ↦ ground arith
    | inr q ↦
        let below : by_id key (key r) xs ≡ some r = find-by_id p xs d (ground arith) in
        elim (Bool-cases (key x == key r)) [
          | inl same ↦
              let gone : by_id key (key r) xs ≡ none =
                subst (λ j. by_id key j xs ≡ none) (ground arith) n in
              absurd (ground arith)
          | inr other ↦ rw other below
        ]
  ]
