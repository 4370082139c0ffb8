-- ===== src/Auth/Codes.antt =====
-- The codes of src/services/auth/registration.service.ts: `withLock`, `requestOtp` and what
-- `verifyOtp` does with a code. The digest of a number and a code (HMAC), the code of the SMS
-- provider and what follows a right code are parameters. One call has one
-- moment.
pub mod Keys
pub mod Pace
pub mod Opens
use transport_backend.Base.{
  ℕ, suc, ◌+◌, ◌-◌, ◌*◌, ◌/◌, max, Bool, true, false, not, Option, none, some, Text, codes, leb,
  text_eq, or_else, if◌then◌else◌, Result, ok, err, conflict, bad_request, too_many_requests,
}
use transport_backend.Entities.{Time}
use transport_backend.Auth.Review.{review_code}
use transport_backend.Auth.Keys.{
  Key, read, set, set_if_absent, expire, seconds_left, increment, delete_if_value,
}

abbrev pub otp_ttl_seconds : ℕ
otp_ttl_seconds = 300

abbrev pub otp_cooldown_seconds : ℕ
otp_cooldown_seconds = 60

abbrev pub max_attempts : ℕ
max_attempts = 5

abbrev pub max_sends : ℕ
max_sends = 3

abbrev pub sends_block_seconds : ℕ
sends_block_seconds = 3600

pub record PendingOtp : Type 0 where
  pub code_hash : Text
  pub expires_at : Time
  pub attempts : ℕ

-- The keys of one number: registrationSends, registrationCooldown and registration.
pub record PhoneKeys : Type 0 where
  pub sends : Key ℕ
  pub cooldown : Key Text
  pub registration : Key PendingOtp

abbrev pub no_keys : PhoneKeys
no_keys = record { sends = none; cooldown = none; registration = none }

pub record CodeSent : Type 0 where
  pub phone_number : Text
  pub expires_in : ℕ
  pub retry_after : ℕ

-- What the requests of one number work on: its registrationLock, its keys, and the rest of the
-- program's state, which only what follows a right code reads or writes.
pub record Desk (S : Type 0) : Type 0 where
  pub lock : Key Text
  pub keys : PhoneKeys
  pub store : S

module _ {S A : Type 0} where
  -- `withLock`
  unfoldable pub with_lock :
      Time → Text → (PhoneKeys → S → Result A × PhoneKeys × S) → Desk S → Result A × Desk S
  with_lock now owner operation d =
      let taken = set_if_absent now owner 120 d.lock in
      let done = operation d.keys d.store in
      if taken.0
      then (
        done.0,
        record { lock = delete_if_value text_eq now owner taken.1; keys = done.1; store = done.2 },
      )
      else (err (conflict "Another request for this phone number is in progress."), d)

abbrev or_zero : Option ℕ → ℕ
or_zero none = 0
or_zero (some n) = n

unfoldable pub sends_so_far : Time → PhoneKeys → ℕ
sends_so_far now k = or_zero (read now k.sends)

-- The code that a number gets: a reviewer's number its fixed one, any other what the provider sent.
abbrev code_to_send : Option Text → Result Text → Result Text
code_to_send (some code) provider = ok code
code_to_send none provider = provider

module _ (digest : Text → Text → Text) where
  -- The keys once a code is sent.
  unfoldable pub sent_keys : Time → Text → Text → Key Text → PhoneKeys → PhoneKeys
  sent_keys now phone code cooldown k = record {
    sends = expire now sends_block_seconds (increment now sends_block_seconds k.sends);
    cooldown = cooldown;
    registration =
        set now
          (record {
            code_hash = digest phone code;
            expires_at = now + 1000 * otp_ttl_seconds;
            attempts = 0;
          })
          otp_ttl_seconds;
  }

  -- `requestOtp` under its lock; `provider` is what `sendOtp` of the SMS provider answers.
  unfoldable pub send_code :
      Time → Text → Option Text → Result Text → PhoneKeys → Result CodeSent × PhoneKeys
  send_code now phone review provider k =
      let cool = set_if_absent now (codes "1") otp_cooldown_seconds k.cooldown in
      if leb max_sends (sends_so_far now k)
      then (
        err (
            too_many_requests "Too many codes requested."
              (some (max 1 (or_zero (seconds_left now k.sends))))),
        k,
      )
      else if not cool.0
      then (err (too_many_requests "Wait 60 seconds before requesting another code." none), k)
      else elim (code_to_send review provider) [
        | err thrown ↦ (err thrown, record k { cooldown = none; registration = none })
        | ok code ↦ (
          ok (record {
            phone_number = phone;
            expires_in = otp_ttl_seconds;
            retry_after = otp_cooldown_seconds;
          }),
          sent_keys now phone code cool.1 k,
        )
      ]

  -- `requestOtp`
  unfoldable pub request_otp :
      {S : Type 0}
      → Bool
      → Time
      → Text
      → Text
      → Text
      → Result Text
      → Desk S
      → Result CodeSent × Desk S
  request_otp enabled now owner phone logins provider d =
      let locked =
        with_lock now owner
          (λ k s.
            let sent = send_code now phone (review_code logins phone) provider k in
            (sent.0, sent.1, s))
          d in
      if enabled
      then locked
      else (ok (record { phone_number = phone; expires_in = otp_ttl_seconds; retry_after = 0 }), d)

-- What `verifyOtp` finds of a code.
pub data Checked : Type 0 where
  no_code spent wrong right : Checked

abbrev pub is_right : Checked → Bool
is_right right = true
is_right _ = false

abbrev pub is_wrong : Checked → Bool
is_wrong wrong = true
is_wrong _ = false

-- The key of a code after a wrong try.
unfoldable pub tried_again : Time → PendingOtp → Key PendingOtp
tried_again now p =
    set now (record p { attempts = suc p.attempts }) (max 1 ((p.expires_at - now + 999) / 1000))

module _ (digest : Text → Text → Text) where
  -- The check of a pending code.
  unfoldable pub check_pending : Time → Text → Text → PendingOtp → PhoneKeys → Checked × PhoneKeys
  check_pending now phone code p k =
      if leb p.expires_at now
      then (no_code, k)
      else if leb max_attempts p.attempts
      then (spent, k)
      else if text_eq p.code_hash (digest phone code)
      then (right, record k { registration = none; sends = none })
      else (wrong, record k { registration = tried_again now p })

  unfoldable pub check_code : Time → Text → Text → PhoneKeys → Checked × PhoneKeys
  check_code now phone code k = elim (read now k.registration) [
    | none ↦ (no_code, k)
    | some p ↦ check_pending now phone code p k
  ]

  -- `verifyOtp`, where `enter` is all that follows a right code.
  module _ {S A : Type 0} (enter : S → Result A × S) where
    -- What a checked code is answered with.
    unfoldable pub answer_checked : Checked → S → Result A × S
    answer_checked no_code s =
        (err (bad_request "Verification code has expired or does not exist."), s)
    answer_checked spent s =
        (err (too_many_requests "Too many incorrect attempts. Request a new code." none), s)
    answer_checked wrong s = (err (bad_request "Invalid verification code."), s)
    answer_checked right s = enter s

    unfoldable pub verify_otp : Bool → Time → Text → Text → Text → Desk S → Result A × Desk S
    verify_otp enabled now owner phone code d =
        with_lock now owner
          (λ k s.
            let checked = check_code now phone code k in
            let answer = answer_checked checked.0 s in
            let entered = enter s in
            if enabled then (answer.0, checked.1, answer.1) else (entered.0, k, entered.1))
          d
