-- ===== src/Auth/Tokens/History.antt =====
-- Histories of sign-ins, refreshes and sign-outs: `signIn`, `refresh` and `revoke` of
-- src/services/auth/registration.service.ts, on any accounts and in any order.
use transport_backend.Base.{
  ◌≤◌, ◌≡◌, inl, inr, Bool, false, Option, List, [], ◌∷◌, All, Text, ◌==◌, arith, by_id, Result,
  Option-cases, Result-cases,
}
use transport_backend.Entities.{Uuid, Time}
use transport_backend.Auth.Keys.{take_key}
use transport_backend.Auth.Accounts.{Account}
use transport_backend.Auth.Sessions.{Sessions, start, resume}
use transport_backend.Auth.Sessions.Laws.{
  IsGone, IsGone-later, start-IsGone, end_session-IsGone, resume-IsGone,
}
use transport_backend.Auth.Tokens.{TokenStore, sign_in, issue_tokens, refresh, revoke, taken, go_on}

pub data TokenEvent : Type 0 where
  signs_in : Time → Uuid → Uuid → Account → TokenEvent
  refreshes : Time → Uuid → Uuid → Uuid → TokenEvent
  revokes : Time → Uuid → TokenEvent
  -- the rest of the program changes the accounts
  edits : List Account → TokenEvent

abbrev pub clock : Time → TokenEvent → Time
clock t (signs_in now new token user) = now
clock t (refreshes now new next token) = now
clock t (revokes now token) = now
clock t (edits users) = t

-- The events follow each other in time, from one moment to another.
abbrev pub Between : Time → List TokenEvent → Time → Type 0
Between t [] u = t ≤ u
Between t (e ∷ es) u = (t ≤ clock t e) × Between (clock t e) es u

-- No event draws the session `a` as the id of a new one.
abbrev pub draws : Uuid → TokenEvent → Bool
draws a (signs_in now new token user) = new == a
draws a (refreshes now new next token) = new == a
draws a _ = false

module _ (logins : Text) where
  unfoldable pub after : TokenEvent → TokenStore → TokenStore
  after (signs_in now new token user) s = (sign_in logins now new token user s).1
  after (refreshes now new next token) s = (refresh logins now new next token s).1
  after (revokes now token) s = revoke now token s
  after (edits users) s = record s { users = users }

  unfoldable pub after_all : List TokenEvent → TokenStore → TokenStore
  after_all [] s = s
  after_all (e ∷ es) s = after_all es (after e s)

  pub issued_sessions :
      (now : Time) (token : Uuid) (user : Account) (sid : Uuid) (s : TokenStore)
      → (issue_tokens logins now token user sid s).1.sessions ≡ s.sessions
  unfolding issue_tokens
  issued_sessions now token user sid s = ground arith

  -- A property of the keys of sessions that taking them up again keeps.
  go_on_keeps {κ} :
      (P : Sessions → Type κ) (now : Time) (token : Uuid) (user : Account)
      (resumed : Result Uuid × Sessions) (s : TokenStore)
      → P s.sessions
      → P resumed.1
      → P (go_on logins now token user resumed s).1.sessions
  unfolding go_on
  go_on_keeps P now token user resumed s p q = elim (Result-cases resumed.0) [
    | inl (sid, e) ↦
        rw (e, go_on)
          (rw (issued_sessions now token user sid (record s { sessions = resumed.1 })) q)
    | inr (thrown, e) ↦ rw (e, go_on) p
  ]

  -- A refresh keeps what each way to take a session up keeps.
  pub refresh_keeps {κ} :
      (P : Sessions → Type κ) (now new next token : Uuid) (s : TokenStore)
      → P s.sessions
      → ((user : Uuid) (multi : Bool) (sid : Option Uuid)
          → P (resume now new user multi sid s.sessions).1)
      → P (refresh logins now new next token s).1.sessions
  unfolding refresh taken
  refresh_keeps P now new next token s p q =
      elim (Option-cases (take_key now (s.refresh_tokens token)).0) [
        | inl e ↦ rw (e, refresh) p
        | inr (value, e) ↦ elim (Option-cases (by_id Account.id value.user_id s.users)) [
          | inl f ↦ rw (e, refresh, f) p
          | inr (user, f) ↦
              rw (e, refresh, f)
                (go_on_keeps P now next user _ (taken now token s) p
                  (q user.id user.is_parent_company value.sid))
        ]
      ]

  -- The session is none that the account holds, from the moment that its key holds another.
  IsGone-after :
      (a u : Uuid) (t : Time) (e : TokenEvent) (s : TokenStore)
      → t ≤ clock t e
      → draws a e ≡ false
      → IsGone a t (s.sessions u)
      → IsGone a (clock t e) ((after e s).sessions u)
  unfolding after sign_in revoke taken
  IsGone-after a u t (signs_in now new token user) s h d g =
      rw
        (issued_sessions now token user new
          (record s { sessions = start now new user.id user.is_parent_company s.sessions }))
        (start-IsGone a now new user.id user.is_parent_company u s.sessions d
          (IsGone-later a t now (s.sessions u) h g))
  IsGone-after a u t (refreshes now new next token) s h d g =
      let later = IsGone-later a t now (s.sessions u) h g in
      refresh_keeps (λ m. IsGone a now (m u)) now new next token s later
        (λ user multi sid. resume-IsGone a now new user multi sid u s.sessions d later)
  IsGone-after a u t (revokes now token) s h d g =
      let later = IsGone-later a t now (s.sessions u) h g in
      elim (Option-cases (take_key now (s.refresh_tokens token)).0) [
        | inl e ↦ rw (e, revoke) later
        | inr (value, e) ↦
            rw (e, revoke) (end_session-IsGone a now value.user_id value.sid u s.sessions later)
      ]
  IsGone-after a u t (edits users) s h d g = g

  pub IsGone-after_all :
      (a u : Uuid) (t v : Time) (es : List TokenEvent) (s : TokenStore)
      → Between t es v
      → All (λ e. draws a e ≡ false) es
      → IsGone a t (s.sessions u)
      → IsGone a v ((after_all es s).sessions u)
  unfolding after_all
  IsGone-after_all a u t v [] s h d g = IsGone-later a t v (s.sessions u) h g
  IsGone-after_all a u t v (e ∷ es) s (h, hs) (d, ds) g =
      IsGone-after_all a u (clock t e) v es (after e s) hs ds (IsGone-after a u t e s h d g)
