-- ===== src/Auth/Tokens/Once.antt =====
-- Refresh tokens are for one use: `refresh` and `revoke` of
-- src/services/auth/registration.service.ts.
use transport_backend.Base.{
  ◌≡◌, refl, ap, ◌∙◌, ==_refl, ◌||◌, inl, inr, Bool, false, not, none, List, [], ◌∷◌, All, Text,
  ◌==◌, arith, by_id, Result, err, unauthorized, Bool-cases, Option-cases, Result-cases,
}
use transport_backend.Entities.{Uuid, Time, record_is_active}
use transport_backend.Auth.Keys.{Key, read, take_key}
use transport_backend.Auth.Accounts.{Account, active_roles}
use transport_backend.Auth.Sessions.{Sessions, put, resume}
use transport_backend.Auth.Tokens.{
  TokenStore, RefreshValue, sign_in, issue_tokens, refresh, revoke, taken, go_on, no_roles,
}
use transport_backend.Auth.Tokens.History.{
  TokenEvent, signs_in, refreshes, revokes, edits, after, after_all,
}

-- No event draws the token as a new refresh token.
abbrev pub draws_token : Uuid → TokenEvent → Bool
draws_token old (signs_in now new token user) = token == old
draws_token old (refreshes now new next token) = next == old
draws_token old _ = false

-- The refresh token is gone.
abbrev IsUsed : Uuid → TokenStore → Type 0
IsUsed old s = s.refresh_tokens old ≡ none

put-IsUsed :
    (old token : Uuid) (k : Key RefreshValue) (m : Uuid → Key RefreshValue)
    → (token == old) ≡ false
    → m old ≡ none
    → put token k m old ≡ none
unfolding put
put-IsUsed old token k m d u =
    let other : (old == token) ≡ false = ground (arith, d) in rw (other, put) u

taken-IsUsed :
    (old token : Uuid) (now : Time) (s : TokenStore) → IsUsed old s → IsUsed old (taken now token s)
unfolding taken put take_key
taken-IsUsed old token now s u = elim (Bool-cases (old == token)) [
  | inl same ↦ rw (same, put) refl
  | inr other ↦ rw (other, put) u
]

taken_self-IsUsed : (token : Uuid) (now : Time) (s : TokenStore) → IsUsed token (taken now token s)
unfolding taken put take_key
taken_self-IsUsed token now s = rw ==_refl refl

revoke_sessions :
    (now : Time) (token : Uuid) (s : TokenStore)
    → (revoke now token s).refresh_tokens ≡ (taken now token s).refresh_tokens
unfolding revoke
revoke_sessions now token s = elim (Option-cases (take_key now (s.refresh_tokens token)).0) [
  | inl e ↦ rw (e, revoke) refl
  | inr (value, e) ↦ rw (e, revoke) refl
]

module _ (logins : Text) where
  issued-IsUsed :
      (now : Time) (old token : Uuid) (user : Account) (sid : Uuid) (s : TokenStore)
      → (token == old) ≡ false
      → IsUsed old s
      → IsUsed old (issue_tokens logins now token user sid s).1
  unfolding issue_tokens
  issued-IsUsed now old token user sid s d u =
      elim (Bool-cases
        (not (record_is_active user.record_status) || no_roles (active_roles user.roles))) [
          | inl shut ↦ rw (shut, issue_tokens) u
          | inr fine ↦ rw (fine, issue_tokens) (put-IsUsed old token _ s.refresh_tokens d u)
        ]

  go_on-IsUsed :
      (now : Time) (old next : Uuid) (user : Account) (resumed : Result Uuid × Sessions)
      (s : TokenStore)
      → (next == old) ≡ false
      → IsUsed old s
      → IsUsed old (go_on logins now next user resumed s).1
  unfolding go_on
  go_on-IsUsed now old next user resumed s d u = elim (Result-cases resumed.0) [
    | inl (sid, e) ↦
        rw (e, go_on) (issued-IsUsed now old next user sid (record s { sessions = resumed.1 }) d u)
    | inr (thrown, e) ↦ rw (e, go_on) u
  ]

  refreshed-IsUsed :
      (now : Time) (old new next token : Uuid) (s : TokenStore)
      → (next == old) ≡ false
      → IsUsed old (taken now token s)
      → IsUsed old (refresh logins now new next token s).1
  unfolding refresh
  refreshed-IsUsed now old new next token s d u =
      elim (Option-cases (take_key now (s.refresh_tokens token)).0) [
        | inl e ↦ rw (e, refresh) u
        | inr (value, e) ↦ elim (Option-cases (by_id Account.id value.user_id s.users)) [
          | inl f ↦ rw (e, refresh, f) u
          | inr (user, f) ↦
              rw (e, refresh, f)
                (go_on-IsUsed now old next user
                  (resume now new user.id user.is_parent_company value.sid s.sessions)
                  (taken now token s) d u)
        ]
      ]

  IsUsed-after :
      (old : Uuid) (e : TokenEvent) (s : TokenStore)
      → draws_token old e ≡ false
      → IsUsed old s
      → IsUsed old (after logins e s)
  unfolding after sign_in
  IsUsed-after old (signs_in now new token user) s d u = issued-IsUsed now old token user new _ d u
  IsUsed-after old (refreshes now new next token) s d u =
      refreshed-IsUsed now old new next token s d (taken-IsUsed old token now s u)
  IsUsed-after old (revokes now token) s d u =
      ap (λ m. m old) (revoke_sessions now token s) ∙ taken-IsUsed old token now s u
  IsUsed-after old (edits users) s d u = u

  IsUsed-after_all :
      (old : Uuid) (es : List TokenEvent) (s : TokenStore)
      → All (λ e. draws_token old e ≡ false) es
      → IsUsed old s
      → IsUsed old (after_all logins es s)
  unfolding after_all
  IsUsed-after_all old [] s d u = u
  IsUsed-after_all old (e ∷ es) s (d, ds) u =
      IsUsed-after_all old es (after logins e s) ds (IsUsed-after old e s d u)

  refused :
      (v : Time) (old new next : Uuid) (s : TokenStore)
      → IsUsed old s
      → (refresh logins v new next old s).0 ≡ err (unauthorized "Invalid or expired refresh token.")
  unfolding refresh take_key read
  refused v old new next s u = rw (u, refresh, read) refl

  -- Once a refresh token was handed in, to refresh or to sign out, whatever came of it, and as long
  -- as no new token is drawn equal to it, it is refused ever after.
  pub refresh_once :
      (t v : Time) (old new next fresh after_it : Uuid) (s : TokenStore) (es : List TokenEvent)
      → (next == old) ≡ false
      → All (λ e. draws_token old e ≡ false) es
      → ((refresh logins v fresh after_it old
            (after_all logins es (refresh logins t new next old s).1)).0
          ≡ err (unauthorized "Invalid or expired refresh token."))
        × ((refresh logins v fresh after_it old (after_all logins es (revoke t old s))).0
            ≡ err (unauthorized "Invalid or expired refresh token."))
  refresh_once t v old new next fresh after_it s es d ds = (
    refused v old fresh after_it _ (
        IsUsed-after_all old es (refresh logins t new next old s).1 ds
          (refreshed-IsUsed t old new next old s d (taken_self-IsUsed old t s))),
    refused v old fresh after_it _ (
        IsUsed-after_all old es (revoke t old s) ds
          (ap (λ m. m old) (revoke_sessions t old s) ∙ taken_self-IsUsed old t s)),
  )
