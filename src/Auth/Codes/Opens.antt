-- ===== src/Auth/Codes/Opens.antt =====
-- What becomes of one code: `requestOtp` and `verifyOtp` of
-- src/services/auth/registration.service.ts.
use transport_backend.Base.{
  ℕ, suc, ◌+◌, ◌<◌, ◌≤◌, min, ◌≡◌, refl, ap, inl, inr, true, false, none, some, List, [], ◌∷◌, All,
  length, Text, arith, ltb, leb, text_eq, text_eq_refl, Bool-cases, if◌then◌else◌,
}
use mathlib.Core.Path.{subst}
use transport_backend.Entities.{Time}
use transport_backend.Auth.Keys.{Key, read, set}
use transport_backend.Auth.Codes.{
  PhoneKeys, PendingOtp, sent_keys, check_code, check_pending, tried_again, no_code, spent, wrong,
  right, is_right,
}

module _ (digest : Text → Text → Text) (phone code : Text) (now : Time) where
  abbrev end : Time
  end = now + 300_000

  abbrev pending : ℕ → PendingOtp
  pending n = record { code_hash = digest phone code; expires_at = end; attempts = n }

  -- The code waits, tried wrongly so many times.
  abbrev Waits : ℕ → PhoneKeys → Type 0
  Waits n k = (at : Time) → at < end → read at k.registration ≡ some (pending n)

  abbrev one_more : ℕ → ℕ
  one_more n = if leb 5 n then n else suc n

  -- A wrong try, made in time.
  abbrev pub IsMiss : Time × Text → Type 0
  IsMiss (at, guess) = (at < end) × (text_eq (digest phone code) (digest phone guess) ≡ false)

  unfoldable pub after_tries : List (Time × Text) → PhoneKeys → PhoneKeys
  after_tries [] k = k
  after_tries ((at, guess) ∷ ts) k = after_tries ts (check_code digest at phone guess k).1

  sent-Waits : (cool : Key Text) (k : PhoneKeys) → Waits 0 (sent_keys digest now phone code cool k)
  unfolding sent_keys set read
  sent-Waits cool k at h = ground arith

  tried_waits :
      (at t : Time) (n : ℕ)
      → at < end
      → t < end
      → read t (tried_again at (pending n)) ≡ some (pending (suc n))
  unfolding tried_again set read
  tried_waits at t n h k = ground arith

  -- A try in time meets the check of the waiting code.
  meets :
      (n : ℕ) (k : PhoneKeys) (at : Time) (guess : Text)
      → Waits n k
      → at < end
      → check_code digest at phone guess k ≡ (
          if leb 5 n
          then (spent, k)
          else if text_eq (digest phone code) (digest phone guess)
          then (right, record k { registration = none; sends = none })
          else (wrong, record k { registration = tried_again at (pending n) }))
  unfolding check_code check_pending
  meets n k at guess w h =
      let intime : leb end at ≡ false = ground arith in rw (w at h, check_code) (rw intime refl)

  missed-Waits :
      (n : ℕ) (k : PhoneKeys) (at : Time) (guess : Text)
      → Waits n k
      → IsMiss (at, guess)
      → Waits (one_more n) (check_code digest at phone guess k).1
  missed-Waits n k at guess w (h, e) t i = elim (Bool-cases (leb 5 n)) [
    | inl many ↦ rw (meets n k at guess w h, many) (w t i)
    | inr few ↦ rw (meets n k at guess w h, few, e) (tried_waits at t n h i)
  ]

  tries-Waits :
      (ts : List (Time × Text)) (n : ℕ) (k : PhoneKeys)
      → n ≤ 5
      → Waits n k
      → All IsMiss ts
      → Waits (min 5 (n + length ts)) (after_tries ts k)
  unfolding after_tries
  tries-Waits [] n k l w m = subst (λ j. Waits j k) (omega arith) w
  tries-Waits ((at, guess) ∷ ts) n k l w (m, ms) =
      subst (λ j. Waits j (after_tries ts (check_code digest at phone guess k).1)) (ground arith)
        (tries-Waits ts (one_more n) (check_code digest at phone guess k).1 (ground arith)
          (missed-Waits n k at guess w m) ms)

  opens_or_spent :
      (n : ℕ) (t : Time) (k : PhoneKeys)
      → Waits (min 5 n) k
      → t < end
      → (check_code digest t phone code k).0 ≡ (if ltb n 5 then right else spent)
  opens_or_spent n t k w h =
      rw (meets (min 5 n) k t code w h, text_eq_refl (digest phone code))
        (elim (Bool-cases (ltb n 5)) [
          | inl few ↦
              let free : leb 5 (min 5 n) ≡ false = ground (arith, few) in rw (few, free) refl
          | inr many ↦
              let shut : leb 5 (min 5 n) ≡ true = ground (arith, many) in rw (many, shut) refl
        ])

  -- Without a pending code nothing is right.
  nothing_left :
      (u : Time) (again : Text) (k : PhoneKeys)
      → k.registration ≡ none
      → (check_code digest u phone again k).0 ≡ no_code
  unfolding check_code read
  nothing_left u again k e = rw (e, check_code) refl

  -- After a try nothing is right: the code is used up, or its tries are.
  over_then :
      (n : ℕ) (t u : Time) (again : Text) (k : PhoneKeys)
      → Waits (min 5 n) k
      → t < end
      → u < end
      → is_right (check_code digest u phone again (check_code digest t phone code k).1).0 ≡ false
  over_then n t u again k w h i = elim (Bool-cases (leb 5 (min 5 n))) [
    | inl shut ↦
        rw (meets (min 5 n) k t code w h, shut) (rw (meets (min 5 n) k u again w i, shut) refl)
    | inr free ↦
        rw (meets (min 5 n) k t code w h, free, text_eq_refl (digest phone code))
          (ap is_right (nothing_left u again (record k { registration = none; sends = none }) refl))
  ]

  -- In the five minutes after a code is sent, and after any wrong tries in them: the code that was
  -- sent is right exactly if the wrong tries are fewer than five, and from the fifth on it is
  -- refused; once it was tried, nothing is a right code in those minutes, if no other is sent.
  pub sent_code_opens :
      (cool : Key Text) (k : PhoneKeys) (ts : List (Time × Text)) (t u : Time) (again : Text)
      → All IsMiss ts
      → t < now + 300_000
      → u < now + 300_000
      → let left = after_tries ts (sent_keys digest now phone code cool k) in
        let checked = check_code digest t phone code left in
        (checked.0 ≡ (if ltb (length ts) 5 then right else spent))
        × (is_right (check_code digest u phone again checked.1).0 ≡ false)
  sent_code_opens cool k ts t u again m h i =
      let left = after_tries ts (sent_keys digest now phone code cool k) in
      let w : Waits (min 5 (length ts)) left =
        subst (λ j. Waits j left) (omega arith)
          (tries-Waits ts 0 (sent_keys digest now phone code cool k) (omega arith)
            (sent-Waits cool k) m) in
      (opens_or_spent (length ts) t left w h, over_then (length ts) t u again left w h i)
