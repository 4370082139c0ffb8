-- ===== src/Auth/Codes/Pace.antt =====
-- Histories of the requests of one number: `requestOtp` and `verifyOtp` of
-- src/services/auth/registration.service.ts, in any order and with anything else in between.
use transport_backend.Base.{
  ℕ, ◌+◌, ◌*◌, ◌≤◌, inl, inr, Bool, true, ◌&&◌, List, [], ◌∷◌, none, some, Text, Result, arith,
  Bool-cases,
}
use transport_backend.Entities.{Time}
use transport_backend.Auth.Review.{review_code}
use transport_backend.Auth.Keys.{Key, set_if_absent}
use transport_backend.Auth.Codes.{
  Desk, Checked, no_keys, with_lock, request_otp, verify_otp, check_code, is_right, is_wrong,
}
use transport_backend.Auth.Codes.Keys.{
  IsPaced, IsPaced-later, held_back, held_back-le, tries_left, block, one_if, one_if_ok,
  send_code-CodeAsked, check_code-Tried, CodeAsked-IsPaced, CodeAsked-tries_left, Tried-IsPaced,
  Tried-tries_left,
}

-- What happens at the desk of a number: a code is asked for, a code is tried, or something else
-- works on the lock and on the rest of the state.
pub data CodeEvent (S : Type 0) : Type 0 where
  asks : Time → Text → Text → Result Text → CodeEvent S
  tries : Time → Text → Text → CodeEvent S
  elsewhere : Key Text → S → CodeEvent S

module _ (digest : Text → Text → Text) {S A : Type 0} (enter : S → Result A × S)
    (phone : Text) where
  abbrev clock : Time → CodeEvent S → Time
  clock t (asks now owner logins provider) = now
  clock t (tries now owner code) = now
  clock t (elsewhere lock s) = t

  -- The events follow each other in time, from one moment to another.
  abbrev pub Between : Time → List (CodeEvent S) → Time → Type 0
  Between t [] u = t ≤ u
  Between t (e ∷ es) u = (t ≤ clock t e) × Between (clock t e) es u

  unfoldable pub after : CodeEvent S → Desk S → Desk S
  after (asks now owner logins provider) d =
      (request_otp digest true now owner phone logins provider d).1
  after (tries now owner code) d = (verify_otp digest enter true now owner phone code d).1
  after (elsewhere lock s) d = record d { lock = lock; store = s }

  -- Whether the lock lets an event in.
  unfoldable pub let_in : Time → Text → Desk S → Bool
  let_in now owner d = (set_if_absent now owner 120 d.lock).0

  -- How many codes an event sends: one or none.
  unfoldable pub sends_now : CodeEvent S → Desk S → ℕ
  sends_now (asks now owner logins provider) d =
      one_if_ok (request_otp digest true now owner phone logins provider d).0
  sends_now _ d = 0

  unfoldable pub finds : (Checked → Bool) → CodeEvent S → Desk S → ℕ
  finds which (tries now owner code) d =
      one_if (let_in now owner d && which (check_code digest now phone code d.keys).0)
  finds which _ d = 0

  unfoldable pub sends_in : List (CodeEvent S) → Desk S → ℕ
  sends_in [] d = 0
  sends_in (e ∷ es) d = sends_now e d + sends_in es (after e d)

  unfoldable pub found_in : (Checked → Bool) → List (CodeEvent S) → Desk S → ℕ
  found_in which [] d = 0
  found_in which (e ∷ es) d = finds which e d + found_in which es (after e d)

  ends : (t u : Time) (s : Key ℕ) → t ≤ u → IsPaced t s → held_back t s ≤ 6 * block + 3 * u
  ends t u none h p = omega arith
  ends t u (some s) h (a, b) = omega arith

  -- What one event does to the pace of the keys and to the tries left.
  record KeptPace (t : Time) (e : CodeEvent S) (d : Desk S) : Type 0 where
    paced : IsPaced (clock t e) (after e d).keys.sends
    slow :
        block * sends_now e d + held_back t d.keys.sends
        ≤ held_back (clock t e) (after e d).keys.sends + 3 * block * finds is_right e d
    few :
        finds is_wrong e d + tries_left (after e d).keys.registration
        ≤ tries_left d.keys.registration + 5 * sends_now e d

  kept :
      (t : Time) (e : CodeEvent S) (d : Desk S)
      → t ≤ clock t e
      → IsPaced t d.keys.sends
      → KeptPace t e d
  unfolding after sends_now finds let_in with_lock request_otp verify_otp
  kept t (asks now owner logins provider) d h p =
      let asked = send_code-CodeAsked digest now phone (review_code logins phone) provider d.keys in
      elim (Bool-cases (set_if_absent now owner 120 d.lock).0) [
        | inl free ↦ record {
          paced = rw (free, IsPaced) (CodeAsked-IsPaced digest t asked h p).0;
          slow = rw (free, held_back) (omega (arith, (CodeAsked-IsPaced digest t asked h p).1));
          few = rw (free, tries_left) (omega (arith, CodeAsked-tries_left digest asked));
        }
        | inr held ↦ record {
          paced = rw (held, IsPaced) (IsPaced-later t now d.keys.sends h p);
          slow = rw (held, held_back) (omega (arith, held_back-le t now d.keys.sends h));
          few = rw (held, tries_left) (omega arith);
        }
      ]
  kept t (tries now owner code) d h p =
      let tried = check_code-Tried digest now phone code d.keys in
      elim (Bool-cases (set_if_absent now owner 120 d.lock).0) [
        | inl free ↦ record {
          paced = rw (free, IsPaced) (Tried-IsPaced digest t now tried h p).0;
          slow = rw (free, held_back) (omega (arith, (Tried-IsPaced digest t now tried h p).1));
          few = rw (free, tries_left) (omega (arith, Tried-tries_left digest tried));
        }
        | inr held ↦ record {
          paced = rw (held, IsPaced) (IsPaced-later t now d.keys.sends h p);
          slow = rw (held, held_back) (omega (arith, held_back-le t now d.keys.sends h));
          few = rw (held, tries_left) (omega arith);
        }
      ]
  kept t (elsewhere lock s) d h p = record { paced = p; slow = omega arith; few = omega arith }

  -- The sum over a history from any keys.
  paced_from :
      (t u : Time) (es : List (CodeEvent S)) (d : Desk S)
      → Between t es u
      → IsPaced t d.keys.sends
      → (block * sends_in es d + held_back t d.keys.sends
          ≤ 6 * block + 3 * u + 3 * block * found_in is_right es d)
        × (found_in is_wrong es d ≤ tries_left d.keys.registration + 5 * sends_in es d)
  unfolding sends_in found_in
  paced_from t u [] d h p = (omega (arith, ends t u d.keys.sends h p), omega arith)
  paced_from t u (e ∷ es) d (h, hs) p =
      let k = kept t e d h p in
      let rest = paced_from (clock t e) u es (after e d) hs k.paced in
      (omega (arith, k.slow, rest.0), omega (arith, k.few, rest.1))

  -- From a moment when a number has no keys on, in events that follow each other in time, whoever
  -- asks and tries, whatever the provider answers and whatever else happens: no more codes are sent
  -- than three, three for each hour that passes and three for each right code, and no more wrong
  -- tries are looked at than five for each code sent.
  pub guesses_bounded :
      (t u : Time) (es : List (CodeEvent S)) (lock : Key Text) (s : S)
      → Between t es u
      → let d : Desk S = record { lock = lock; keys = no_keys; store = s } in
        (block * sends_in es d + 3 * t ≤ 3 * block * (1 + found_in is_right es d) + 3 * u)
        × (found_in is_wrong es d ≤ 5 * sends_in es d)
  guesses_bounded t u es lock s h =
      let sums = paced_from t u es (record { lock = lock; keys = no_keys; store = s }) h tt in
      (omega (arith, sums.0), omega (arith, sums.1))
