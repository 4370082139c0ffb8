-- ===== src/Auth/Codes/Keys.antt =====
-- What one request of a code and one try of it do to the keys of its number.
use transport_backend.Base.{
  ℕ, suc, ◌+◌, ◌-◌, ◌*◌, ◌≤◌, ◌≡◌, refl, inl, inr, Bool, true, false, not, Option, none, some, Text,
  codes, leb, text_eq, Result, ok, err, Result-cases, arith, Bool-cases, Option-cases,
}
use transport_backend.Entities.{Time}
use transport_backend.Auth.Keys.{Key, read, set, set_if_absent, expire, increment}
use transport_backend.Auth.Codes.{
  PhoneKeys, PendingOtp, Checked, send_code, sent_keys, sends_so_far, check_code, check_pending,
  tried_again, code_to_send, is_wrong, is_right, max_sends, no_code, spent, wrong, right,
}

-- An hour, for which the third code holds up the next, in milliseconds.
abbrev pub block : ℕ
block = 3_600_000

-- The counter of sends, looked at from the time `t`: three codes at most, and an hour at most.
abbrev pub IsPaced : Time → Key ℕ → Type 0
IsPaced t none = Unit
IsPaced t (some s) = (s.value ≤ 3) × (s.until ≤ t + block)

-- What the counter holds back: a code is worth an hour, and a moment its milliseconds three times.
abbrev pub held_back : Time → Key ℕ → ℕ
held_back t none = 3 * block + 3 * t
held_back t (some s) = block * s.value + 3 * s.until

-- The wrong tries that a pending code still takes.
abbrev pub tries_left : Key PendingOtp → ℕ
tries_left none = 0
tries_left (some p) = 5 - p.value.attempts

pub held_back-le : (t u : Time) (s : Key ℕ) → t ≤ u → held_back t s ≤ held_back u s
held_back-le t u none h = omega arith
held_back-le t u (some s) h = omega arith

pub IsPaced-later : (t u : Time) (s : Key ℕ) → t ≤ u → IsPaced t s → IsPaced u s
IsPaced-later t u none h p = tt
IsPaced-later t u (some s) h (a, b) = (a, omega arith)

-- One more code, counted.
counted :
    (t now : Time) (s : Key ℕ)
    → t ≤ now
    → IsPaced t s
    → leb max_sends (elim (read now s) [ none ↦ 0 | some n ↦ n ]) ≡ false
    → IsPaced now (expire now 3600 (increment now 3600 s))
      × (block + held_back t s ≤ held_back now (expire now 3600 (increment now 3600 s)))
unfolding read expire increment set
counted t now none h p e = ground arith
counted t now (some s) h (a, b) e = ground arith

freed :
    (t now : Time) (s : Key ℕ)
    → t ≤ now
    → IsPaced t s
    → held_back t s ≤ 3 * block + 3 * now + 3 * block
freed t now none h p = omega arith
freed t now (some s) h (a, b) = omega arith

abbrev pub one_if : Bool → ℕ
one_if true = 1
one_if false = 0

abbrev pub one_if_ok : {A : Type 0} → Result A → ℕ
one_if_ok (err e) = 0
one_if_ok (ok a) = 1

module _ (digest : Text → Text → Text) where
  -- The keys after a request: as they were, without the code if none could be sent, or with a code.
  pub data CodeAsked (now : Time) (phone : Text) (k : PhoneKeys) : ℕ → PhoneKeys → Type 0 where
    refused : CodeAsked now phone k 0 k
    not_sent : CodeAsked now phone k 0 (record k { cooldown = none; registration = none })
    sent :
        (code : Text) (cool : Key Text)
        → leb max_sends (sends_so_far now k) ≡ false
        → CodeAsked now phone k 1 (sent_keys digest now phone code cool k)

  pub send_code-CodeAsked :
      (now : Time) (phone : Text) (review : Option Text) (provider : Result Text) (k : PhoneKeys)
      → CodeAsked now phone k
          (one_if_ok (send_code digest now phone review provider k).0)
          (send_code digest now phone review provider k).1
  unfolding send_code
  send_code-CodeAsked now phone review provider k =
      elim (Bool-cases (leb max_sends (sends_so_far now k))) [
        | inl e ↦ rw e refused
        | inr e ↦ elim (Bool-cases (not (set_if_absent now (codes "1") 60 k.cooldown).0)) [
          | inl soon ↦ rw (e, soon) refused
          | inr free ↦ elim (Result-cases (code_to_send review provider)) [
            | inl (code, got) ↦ rw (e, free, got) (sent code _ e)
            | inr (thrown, failed) ↦ rw (e, free, failed) not_sent
          ]
        ]
      ]

  -- A request keeps the pace: a code costs an hour of what is held back.
  pub CodeAsked-IsPaced :
      {n : ℕ} {now : Time} {phone : Text} {k k' : PhoneKeys} (t : Time)
      → CodeAsked now phone k n k'
      → t ≤ now
      → IsPaced t k.sends
      → IsPaced now k'.sends × (block * n + held_back t k.sends ≤ held_back now k'.sends)
  unfolding sent_keys sends_so_far
  CodeAsked-IsPaced {now = now} {k = k} t refused h p =
      (IsPaced-later t now k.sends h p, omega (arith, held_back-le t now k.sends h))
  CodeAsked-IsPaced {now = now} {k = k} t not_sent h p =
      (IsPaced-later t now k.sends h p, omega (arith, held_back-le t now k.sends h))
  CodeAsked-IsPaced {now = now} {k = k} t (sent code cool few) h p = counted t now k.sends h p few

  pub CodeAsked-tries_left :
      {n : ℕ} {now : Time} {phone : Text} {k k' : PhoneKeys}
      → CodeAsked now phone k n k'
      → tries_left k'.registration ≤ tries_left k.registration + 5 * n
  unfolding sent_keys set
  CodeAsked-tries_left refused = omega arith
  CodeAsked-tries_left not_sent = omega arith
  CodeAsked-tries_left (sent code cool few) = omega arith

  -- The keys after a try: as they were, with one more wrong try counted, or given free.
  pub data Tried (k : PhoneKeys) : Checked → PhoneKeys → Type 0 where
    told_nothing : (c : Checked) → is_wrong c ≡ false → is_right c ≡ false → Tried k c k
    missed :
        (left : Key PendingOtp)
        → suc (tries_left left) ≤ tries_left k.registration
        → Tried k wrong (record k { registration = left })
    opened : Tried k right (record k { registration = none; sends = none })

  read_value :
      (now : Time) (r : Key PendingOtp) {p : PendingOtp}
      → read now r ≡ some p
      → tries_left r ≡ 5 - p.attempts
  unfolding read
  read_value now none e = ground arith
  read_value now (some kept) e = ground arith

  check_pending-Tried :
      (now : Time) (phone code : Text) (p : PendingOtp) (k : PhoneKeys)
      → read now k.registration ≡ some p
      → Tried k
          (check_pending digest now phone code p k).0
          (check_pending digest now phone code p k).1
  unfolding check_pending tried_again set
  check_pending-Tried now phone code p k e = elim (Bool-cases (leb p.expires_at now)) [
    | inl late ↦ rw late (told_nothing no_code refl refl)
    | inr intime ↦ elim (Bool-cases (leb 5 p.attempts)) [
      | inl many ↦ rw (intime, many) (told_nothing spent refl refl)
      | inr few ↦ elim (Bool-cases (text_eq p.code_hash (digest phone code))) [
        | inl same ↦ rw (intime, few, same) opened
        | inr other ↦
            rw (intime, few, other)
              (missed _ (ground (arith, read_value now k.registration e, few)))
      ]
    ]
  ]

  pub check_code-Tried :
      (now : Time) (phone code : Text) (k : PhoneKeys)
      → Tried k (check_code digest now phone code k).0 (check_code digest now phone code k).1
  unfolding check_code
  check_code-Tried now phone code k = elim (Option-cases (read now k.registration)) [
    | inl e ↦ rw (e, check_code) (told_nothing no_code refl refl)
    | inr (p, e) ↦ rw (e, check_code) (check_pending-Tried now phone code p k e)
  ]

  -- A try keeps the pace; the right code gives back at most three hours.
  pub Tried-IsPaced :
      {c : Checked} {k k' : PhoneKeys} (t now : Time)
      → Tried k c k'
      → t ≤ now
      → IsPaced t k.sends
      → IsPaced now k'.sends
        × (held_back t k.sends ≤ held_back now k'.sends + 3 * block * one_if (is_right c))
  Tried-IsPaced {k = k} t now (told_nothing c w r) h p =
      (IsPaced-later t now k.sends h p, omega (arith, held_back-le t now k.sends h))
  Tried-IsPaced {k = k} t now (missed left fewer) h p =
      (IsPaced-later t now k.sends h p, omega (arith, held_back-le t now k.sends h))
  Tried-IsPaced {k = k} t now opened h p = (tt, freed t now k.sends h p)

  pub Tried-tries_left :
      {c : Checked} {k k' : PhoneKeys}
      → Tried k c k'
      → one_if (is_wrong c) + tries_left k'.registration ≤ tries_left k.registration
  Tried-tries_left (told_nothing c w r) = rw w (omega arith)
  Tried-tries_left (missed left fewer) = omega arith
  Tried-tries_left opened = omega arith
