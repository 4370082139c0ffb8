-- ===== src/Auth/Tokens/Lasts.antt =====
-- How long a session of src/services/auth/session.service.ts lasts, whatever is signed in,
-- refreshed or signed out besides it.
use transport_backend.Base.{
  ◌+◌, ◌≤◌, ◌<◌, ◌≡◌, inl, inr, Bool, true, false, ◌&&◌, not, Option, none, some, List, [], ◌∷◌,
  Text, ◌==◌, ==_refl, arith, Option-cases,
}
use transport_backend.Entities.{Uuid, Time}
use transport_backend.Auth.Keys.{take_key}
use transport_backend.Auth.Accounts.{Account}
use transport_backend.Auth.Sessions.{start, is_current_session, same_session}
use transport_backend.Auth.Sessions.Laws.{
  Holds, set-Holds, start-Holds, end_session-Holds, resume-Holds,
}
use transport_backend.Auth.Tokens.{TokenStore, RefreshValue, sign_in, revoke, taken}
use transport_backend.Auth.Tokens.History.{
  TokenEvent, signs_in, refreshes, revokes, edits, after, after_all, clock, issued_sessions,
  refresh_keeps,
}
use transport_backend.Auth.Tokens.Replaced.{signed_in_key}

-- Whether a refresh token belongs to the session `a` of the account `u`.
abbrev belongs : Uuid → Uuid → Option RefreshValue → Bool
belongs u a none = false
belongs u a (some value) = (u == value.user_id) && same_session value.sid a

-- What ends the session `a` of the account `u`: a sign-in to the account, if it has one session at
-- a time, and the sign-out with a refresh token of the session.
abbrev pub ends_session : Uuid → Uuid → TokenEvent → TokenStore → Bool
ends_session u a (signs_in now new token user) s = (u == user.id) && not user.is_parent_company
ends_session u a (revokes now token) s = belongs u a (take_key now (s.refresh_tokens token)).0
ends_session u a _ s = false

module _ (logins : Text) where
  -- The events from the moment `t` to the moment `b` leave the session alone.
  abbrev pub LeavesSession : Uuid → Uuid → Time → Time → List TokenEvent → TokenStore → Type 0
  LeavesSession u a t b [] s = Unit
  LeavesSession u a t b (e ∷ es) s =
      (t ≤ clock t e)
      × (clock t e < b)
      × (ends_session u a e s ≡ false)
      × LeavesSession u a t b es (after logins e s)

  Holds-after :
      (u a : Uuid) (t b : Time) (e : TokenEvent) (s : TokenStore)
      → t ≤ clock t e
      → clock t e < b
      → b ≤ t + 2_592_000_000
      → ends_session u a e s ≡ false
      → Holds a b (s.sessions u)
      → Holds a b ((after logins e s).sessions u)
  unfolding after sign_in revoke taken
  Holds-after u a t b (signs_in now new token user) s h i l d o =
      rw
        (issued_sessions logins now token user new
          (record s { sessions = start now new user.id user.is_parent_company s.sessions }))
        (start-Holds a b now new user.id user.is_parent_company u s.sessions d o)
  Holds-after u a t b (refreshes now new next token) s h i l d o =
      refresh_keeps logins (λ m. Holds a b (m u)) now new next token s o
        (λ user multi sid. resume-Holds a b now new user multi sid u s.sessions i (omega arith) o)
  Holds-after u a t b (revokes now token) s h i l d o =
      elim (Option-cases (take_key now (s.refresh_tokens token)).0) [
        | inl e ↦ rw (e, revoke) o
        | inr (value, e) ↦
            rw (e, revoke)
              (end_session-Holds a b now value.user_id value.sid u s.sessions i (rw e at d) o)
      ]
  Holds-after u a t b (edits users) s h i l d o = o

  Holds-after_all :
      (u a : Uuid) (t b : Time) (es : List TokenEvent) (s : TokenStore)
      → LeavesSession u a t b es s
      → b ≤ t + 2_592_000_000
      → Holds a b (s.sessions u)
      → Holds a b ((after_all logins es s).sessions u)
  unfolding after_all
  Holds-after_all u a t b [] s c l o = o
  Holds-after_all u a t b (e ∷ es) s (h, i, d, c) l o =
      Holds-after_all u a t b es (after logins e s) c l (Holds-after u a t b e s h i l d o)

  -- For thirty days after a sign-in to an account of one session its tokens are current, after any
  -- events of these days in which nobody signs in to the account
  -- again as one of one session and nobody signs out with a refresh token of the session.
  pub session_lasts :
      (t v : Time) (new token : Uuid) (user : Account) (s : TokenStore) (es : List TokenEvent)
      → user.is_parent_company ≡ false
      → LeavesSession user.id new t (t + 2_592_000_000) es (sign_in logins t new token user s).1
      → v < t + 2_592_000_000
      → is_current_session v user.id
          (record { sid = some new; multi = false })
          (after_all logins es (sign_in logins t new token user s).1).sessions
        ≡ true
  unfolding is_current_session
  session_lasts t v new token user s es p c h =
      let held =
        Holds-after_all user.id new t (t + 2_592_000_000) es (sign_in logins t new token user s).1 c
          (omega arith)
          (rw (signed_in_key logins t new token user s p) (set-Holds new _ t _ (omega arith))) in
      rw (held v h) (==_refl new)
