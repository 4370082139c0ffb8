-- ===== src/Tests/Codes.antt =====
-- A code is sent, tried wrongly and tried right; the digest is the number with the code behind it.
use transport_backend.Base.{
  ℕ, ◌+◌, ◌*◌, ◌≤◌, ◌≡◌, refl, false, none, some, List, [], ◌∷◌, ◌++◌, Text, codes, Result, ok,
  arith, length, ltb, trim, drop_spaces, is_space, is_digit, if◌then◌else◌,
}
use transport_backend.Entities.{Time}
use transport_backend.Phones.{starts_with}
use transport_backend.Auth.Review.{
  review_code, entry_code, split, is_review_code, normalize_phone_number, without_country,
  latin_digit, is_phone_separator,
}
use transport_backend.Auth.Keys.{read, set, set_if_absent, expire, increment, delete_if_value}
use transport_backend.Auth.Codes.{
  Desk, no_keys, right, spent, is_right, is_wrong, request_otp, verify_otp, sent_keys, check_code,
  with_lock, send_code, sends_so_far, check_pending, answer_checked, tried_again,
}
use transport_backend.Auth.Codes.Keys.{block}
use transport_backend.Auth.Codes.Pace.{
  CodeEvent, sends_now, finds, let_in, after, asks, tries, sends_in, found_in, guesses_bounded,
}
use transport_backend.Auth.Codes.Opens.{after_tries, sent_code_opens}

abbrev digest : Text → Text → Text
digest phone code = phone ++ code

abbrev enter : ℕ → Result ℕ × ℕ
enter s = (ok s, s)

abbrev number : Text
number = codes "09120000000"

abbrev code : Text
code = codes "12345"

abbrev owner : Text
owner = codes "a"

-- A code, a wrong try, a second code too soon, and the right code.
abbrev events : List (CodeEvent ℕ)
events =
    asks 1000 owner [] (ok code)
    ∷ tries 2000 owner (codes "54321")
    ∷ asks 3000 owner [] (ok code)
    ∷ tries 4000 owner code
    ∷ []

abbrev desk : Desk ℕ
desk = record { lock = none; keys = no_keys; store = 7 }

events_tally :
    (sends_in digest enter number events desk ≡ 1)
    × (found_in digest enter number is_wrong events desk ≡ 1)
unfolding sends_in found_in sends_now finds let_in after request_otp with_lock set_if_absent read
    send_code sends_so_far verify_otp delete_if_value set check_code sent_keys check_pending expire
    increment answer_checked tried_again review_code split entry_code
events_tally = (refl, refl)

guesses_bounded_example :
    (block * sends_in digest enter number events desk + 3 * 1000
      ≤ 3 * block * (1 + found_in digest enter number is_right events desk) + 3 * 5000)
    × (found_in digest enter number is_wrong events desk
        ≤ 5 * sends_in digest enter number events desk)
guesses_bounded_example =
    guesses_bounded digest enter number 1000 5000 events none 7
      (omega arith, (omega arith, (omega arith, (omega arith, omega arith))))

abbrev misses : List (Time × Text)
misses = (2000, codes "11111") ∷ (3000, codes "22222") ∷ []

sent_code_opens_example :
    ((check_code digest 4000 number code (
        after_tries digest number code 1000 misses
          (sent_keys digest 1000 number code none no_keys))).0
      ≡ (if ltb (length misses) 5 then right else spent))
    × (is_right
          (check_code digest 5000 number code
            (check_code digest 4000 number code (
              after_tries digest number code 1000 misses
                (sent_keys digest 1000 number code none no_keys))).1).0
        ≡ false)
sent_code_opens_example =
    sent_code_opens digest number code 1000 none no_keys misses 4000 5000 code
      ((omega arith, refl), ((omega arith, refl), tt)) (omega arith) (omega arith)

-- A reviewer's number written with the country's code, and its code.
review_logins :
    review_code (codes "09120000000:12345,+98 935-111-2233: 55555") (codes "09351112233")
    ≡ some (codes "55555")
unfolding review_code entry_code split is_review_code normalize_phone_number without_country
    latin_digit is_phone_separator starts_with trim drop_spaces is_space is_digit
review_logins = refl
