-- ===== src/Tests/SignIns.antt =====
-- A driver signs in on a phone and then on another one.
use transport_backend.Base.{
  ◌≡◌, refl, true, false, none, some, List, [], ◌∷◌, codes, err, unauthorized, arith,
}
use transport_backend.Entities.{RecordStatus, Role}
use transport_backend.Auth.Accounts.{Account, approved, person}
use transport_backend.Auth.Sessions.{is_current_session}
use transport_backend.Auth.Tokens.{TokenStore, sign_in, refresh, revoke}
use transport_backend.Auth.Tokens.History.{TokenEvent, refreshes, revokes, after_all}
use transport_backend.Auth.Tokens.Lasts.{session_lasts}
use transport_backend.Auth.Tokens.Once.{refresh_once}

abbrev pub driver_role : Role
driver_role = record { id = 1; name = codes "DRIVER"; record_status = RecordStatus.active }

abbrev pub driver_account : Account
driver_account = record {
  id = 5;
  mobile = codes "09120000000";
  record_status = RecordStatus.active;
  is_parent_company = false;
  roles = driver_role ∷ [];
  profile_type = person;
  invited_by_company_user_id = none;
  verification_status = approved;
  verification_requests = 0;
  verification_note = none;
  verification_requested_at = none;
  verification_decided_at = none;
  verification_decided_by = none;
}

abbrev store : TokenStore
store = record {
  users = driver_account ∷ [];
  sessions = λ user. none;
  refresh_tokens = λ token. none;
}

-- Signed in as the session 70 with the refresh token 700.
abbrev first : TokenStore
first = (sign_in [] 1000 70 700 driver_account store).1

abbrev events : List TokenEvent
events = refreshes 3000 90 701 700 ∷ revokes 4000 700 ∷ []

session_lasts_example :
    is_current_session 900000 5
      (record { sid = some 70; multi = false })
      (after_all []
        (refreshes 3000 90 701 700 ∷ [])
        (sign_in [] 1000 70 700 driver_account store).1).sessions
    ≡ true
session_lasts_example =
    session_lasts [] 1000 900000 70 700 driver_account store (refreshes 3000 90 701 700 ∷ []) refl
      (omega arith, omega arith, refl, tt) (omega arith)

refresh_once_example :
    ((refresh [] 6000 91 702 700 (after_all [] events (refresh [] 2000 90 701 700 first).1)).0
      ≡ err (unauthorized "Invalid or expired refresh token."))
    × ((refresh [] 6000 91 702 700 (after_all [] events (revoke 2000 700 first))).0
        ≡ err (unauthorized "Invalid or expired refresh token."))
refresh_once_example =
    refresh_once [] 2000 6000 700 90 701 91 702 first events refl (refl, (refl, tt))
