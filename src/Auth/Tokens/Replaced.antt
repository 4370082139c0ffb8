-- ===== src/Auth/Tokens/Replaced.antt =====
-- One web session per account: what a sign-in does to the sessions of
-- src/services/auth/session.service.ts, whatever is signed in, refreshed or signed out afterwards.
use transport_backend.Base.{
  ◌≡◌, refl, Bool, true, false, some, List, All, Text, ◌==◌, ==_refl, arith, by_id, by_id_key, err,
  unauthorized,
}
use mathlib.Core.Path.{subst, sym}
use transport_backend.Entities.{Uuid, Time}
use transport_backend.Auth.Keys.{take_key, set}
use transport_backend.Auth.Accounts.{Account}
use transport_backend.Auth.Sessions.{Sessions, put, start, resume}
use transport_backend.Auth.Sessions.Laws.{IsGone, set-IsGone}
use transport_backend.Auth.Tokens.{TokenStore, sign_in, refresh, go_on}
use transport_backend.Auth.Tokens.History.{
  TokenEvent, after_all, Between, draws, IsGone-after_all, issued_sessions,
}

module _ (logins : Text) where
  -- The key of the session after a sign-in to an account of one session.
  pub signed_in_key :
      (t : Time) (new token : Uuid) (user : Account) (s : TokenStore)
      → user.is_parent_company ≡ false
      → (sign_in logins t new token user s).1.sessions user.id ≡ set t new 2_592_000
  unfolding sign_in start put
  signed_in_key t new token user s h =
      rw
        (issued_sessions logins t token user new
          (record s { sessions = start t new user.id user.is_parent_company s.sessions }))
        (rw (h, ==_refl user.id) refl)

  resume_gone :
      (t : Time) (a new u : Uuid) (multi : Bool) (m : Sessions)
      → multi ≡ false
      → IsGone a t (m u)
      → resume t new u multi (some a) m ≡ (err (unauthorized "SESSION_REPLACED"), m)
  unfolding resume
  resume_gone t a new u true m p g = absurd (ground (arith, p))
  resume_gone t a new u false m p g = rw (g, resume) refl

  refused_refresh :
      (t : Time) (a u new next token : Uuid) (user : Account) (s : TokenStore)
      → IsGone a t (s.sessions u)
      → (take_key t (s.refresh_tokens token)).0 ≡ some (record { user_id = u; sid = some a })
      → by_id Account.id u s.users ≡ some user
      → user.is_parent_company ≡ false
      → (refresh logins t new next token s).0 ≡ err (unauthorized "SESSION_REPLACED")
  unfolding refresh go_on resume
  refused_refresh t a u new next token user s g e f p =
      let again =
        resume_gone t a new user.id user.is_parent_company s.sessions p
          (subst (λ v. IsGone a t (s.sessions v)) (sym (by_id_key Account.id u s.users f)) g) in
      rw (e, refresh, f) (rw (again, go_on) refl)

  replaced-IsGone :
      (t v : Time) (a new token : Uuid) (user : Account) (s : TokenStore) (es : List TokenEvent)
      → user.is_parent_company ≡ false
      → (new == a) ≡ false
      → Between t es v
      → All (λ e. draws a e ≡ false) es
      → IsGone a v ((after_all logins es (sign_in logins t new token user s).1).sessions user.id)
  replaced-IsGone t v a new token user s es p d h ds =
      IsGone-after_all logins a user.id t v es (sign_in logins t new token user s).1 h ds
        (rw (signed_in_key t new token user s p) (set-IsGone a t t new _ d))

  -- The same of a refresh token of the old session, for an account that has one session still.
  pub replaced_refresh :
      (t v : Time) (a new token fresh next old : Uuid) (user account : Account) (s : TokenStore)
      (es : List TokenEvent)
      → user.is_parent_company ≡ false
      → (new == a) ≡ false
      → Between t es v
      → All (λ e. draws a e ≡ false) es
      → let later = after_all logins es (sign_in logins t new token user s).1 in
        (take_key v (later.refresh_tokens old)).0
          ≡ some (record { user_id = user.id; sid = some a })
        → by_id Account.id user.id later.users ≡ some account
        → account.is_parent_company ≡ false
        → (refresh logins v fresh next old later).0 ≡ err (unauthorized "SESSION_REPLACED")
  replaced_refresh t v a new token fresh next old user account s es p d h ds e f q =
      refused_refresh v a user.id fresh next old account
        (after_all logins es (sign_in logins t new token user s).1)
        (replaced-IsGone t v a new token user s es p d h ds) e f q
