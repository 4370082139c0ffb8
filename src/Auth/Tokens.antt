-- ===== src/Auth/Tokens.antt =====
-- The tokens of src/services/auth/registration.service.ts: `issueTokens`, `signIn`, `refresh`,
-- `revoke` and `adminSignIn`. Signing the access token is a library's; here it is its payload.
-- Whether a password is right, and the random ids are
-- parameters. The notice of a sign-in and the invites marked as used, which no answer depends on,
-- are left out.
pub mod History
pub mod Replaced
pub mod Once
pub mod Lasts
use transport_backend.Base.{
  ℕ, suc, Bool, true, false, ◌&&◌, ◌||◌, not, Option, none, some, List, [], ◌∷◌, Text, codes, ◌==◌,
  leb, by_id, save, is_empty, is_some, if◌then◌else◌, Result, ok, err, unauthorized,
  too_many_requests,
}
use transport_backend.Entities.{Uuid, Time, record_is_active}
use transport_backend.Auth.Review.{review_code}
use transport_backend.Auth.Keys.{Key, read, set, take_key, increment}
use transport_backend.Auth.Accounts.{Account, is_approved, approved, active_roles, includes_role}
use transport_backend.Auth.Sessions.{Sessions, put, start, resume, end_session}

abbrev pub refresh_ttl_seconds : ℕ
refresh_ttl_seconds = 2_592_000

-- What a refresh token stands for, «userId:sid»: one from before sessions has no session.
pub record RefreshValue : Type 0 where
  pub user_id : Uuid
  pub sid : Option Uuid

-- The tables and keys behind the tokens.
pub record TokenStore : Type 0 where
  pub users : List Account
  pub sessions : Sessions
  pub refresh_tokens : Uuid → Key RefreshValue

-- The payload of an access token.
pub record AccessToken : Type 0 where
  pub user_id : Uuid
  pub roles : List Text
  pub sid : Uuid
  pub multi : Bool

pub record TokenPair : Type 0 where
  pub access_token : AccessToken
  pub refresh_token : Uuid

abbrev pub no_roles : List Text → Bool
no_roles [] = true
no_roles (r ∷ rs) = false

-- The refresh token of the store once it is taken.
unfoldable pub taken : Time → Uuid → TokenStore → TokenStore
taken now token s = record s {
  refresh_tokens = put token (take_key now (s.refresh_tokens token)).1 s.refresh_tokens;
}

-- `revoke`
unfoldable pub revoke : Time → Uuid → TokenStore → TokenStore
revoke now token s = elim (take_key now (s.refresh_tokens token)).0 [
  | none ↦ taken now token s
  | some value ↦ record (taken now token s) {
    sessions = end_session now value.user_id value.sid s.sessions;
  }
]

module _ (logins : Text) where
  -- A reviewer's account is approved when it signs in.
  unfoldable pub reviewed : Time → Account → List Account → List Account
  reviewed now user users =
      if not (is_approved user.verification_status)
        && not (is_empty user.mobile)
        && is_some (review_code logins user.mobile)
      then save Account.id
          (record user {
            verification_status = approved;
            verification_decided_at = some now;
            verification_note = none;
          })
          users
      else users

  -- `issueTokens`, with the refresh token that it draws.
  unfoldable pub issue_tokens :
      Time → Uuid → Account → Uuid → TokenStore → Result TokenPair × TokenStore
  issue_tokens now token user sid s =
      if not (record_is_active user.record_status) || no_roles (active_roles user.roles)
      then (err (unauthorized "Unauthorized"), s)
      else (
        ok (record {
          access_token = record {
            user_id = user.id;
            roles = active_roles user.roles;
            sid = sid;
            multi = user.is_parent_company;
          };
          refresh_token = token;
        }),
        record s {
          users = reviewed now user s.users;
          refresh_tokens =
              put token (set now (record { user_id = user.id; sid = some sid }) refresh_ttl_seconds)
                s.refresh_tokens;
        },
      )

  -- `signIn`
  unfoldable pub sign_in : Time → Uuid → Uuid → Account → TokenStore → Result TokenPair × TokenStore
  sign_in now new token user s =
      issue_tokens now token user new
        (record s { sessions = start now new user.id user.is_parent_company s.sessions })

  -- The tokens of a session that goes on.
  unfoldable pub go_on :
      Time → Uuid → Account → Result Uuid × Sessions → TokenStore → Result TokenPair × TokenStore
  go_on now token user resumed s = elim resumed.0 [
    | err thrown ↦ (err thrown, s)
    | ok sid ↦ issue_tokens now token user sid (record s { sessions = resumed.1 })
  ]

  -- `refresh`: `new` is the session's id if one must be drawn, `next` the new refresh token.
  unfoldable pub refresh : Time → Uuid → Uuid → Uuid → TokenStore → Result TokenPair × TokenStore
  refresh now new next token s = elim (take_key now (s.refresh_tokens token)).0 [
    | none ↦ (err (unauthorized "Invalid or expired refresh token."), taken now token s)
    | some value ↦ elim (by_id Account.id value.user_id s.users) [
      | none ↦ (err (unauthorized "Unauthorized"), taken now token s)
      | some user ↦
          go_on now next user (resume now new user.id user.is_parent_company value.sid s.sessions)
            (taken now token s)
    ]
  ]

  -- The sign-in of an account that has the role ADMIN.
  unfoldable pub admit :
      Time → Uuid → Uuid → Option Account → TokenStore → Option (Result TokenPair × TokenStore)
  admit now new token none s = none
  admit now new token (some user) s =
      if includes_role (codes "ADMIN") (active_roles user.roles)
      then some (sign_in now new token user s)
      else none

  -- `adminSignIn`: `found` is the active account of the name with the right password, if any, and
  -- `failures` the key adminSignInFailures of the name.
  unfoldable pub admin_sign_in :
      Time
      → Uuid
      → Uuid
      → Option Account
      → Key ℕ
      → TokenStore
      → Result TokenPair × Key ℕ × TokenStore
  admin_sign_in now new token found failures s =
      let refused : Result TokenPair × Key ℕ × TokenStore =
        (err (unauthorized "Wrong username or password."), increment now 900 failures, s) in
      let entered = admit now new token found s in
      if leb 5 (elim (read now failures) [ none ↦ 0 | some n ↦ n ])
      then (err (too_many_requests "Too many wrong tries." none), failures, s)
      else elim entered [ none ↦ refused | some done ↦ (done.0, none, done.1) ]
