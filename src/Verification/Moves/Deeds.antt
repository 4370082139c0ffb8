-- ===== src/Verification/Moves/Deeds.antt =====
-- Histories of whatever may approve an account: the check of accounts, signing in and invites.
use mathlib.Core.Path.{sym}
use transport_backend.Base.{
  ◌≡◌, refl, ap, ◌∙◌, inl, inr, Bool, true, false, none, some, List, [], ◌∷◌, ◌++◌, arith, by_id,
  Option-cases, Text,
}
use transport_backend.Entities.{Uuid}
use transport_backend.Auth.Accounts.{Account}
use transport_backend.Auth.Tokens.{issue_tokens}
use transport_backend.Verification.Profile.{Profile}
use transport_backend.Verification.Requests.{CheckTables}
use transport_backend.Verification.Moves.{after, event_moves}
use transport_backend.Verification.Moves.Life.{row_is}
use transport_backend.Verification.Invites.{invite_account}
use transport_backend.Verification.Moves.Ways.{
  Deed, checks, signs_in, invites, users_or, approved_account, Entitled, Followed, move-Entitled,
  sign_in_followed, invite_followed,
}

module _ (driver_verification : Bool) (profile : Uuid → Profile) (logins : Text) where
  unfoldable pub after_deed : Deed → CheckTables → CheckTables
  after_deed (checks e) t = after driver_verification profile e t
  after_deed (signs_in now token sid user s) t = elim (by_id Account.id user t.users) [
    | none ↦ t
    | some u ↦ record t {
      users = (issue_tokens logins now token u sid (record s { users = t.users })).1.users;
    }
  ]
  after_deed (invites now reads inviter user) t = elim (by_id Account.id user t.users) [
    | none ↦ t
    | some u ↦ record t { users = users_or t.users (invite_account now reads inviter u t.users) }
  ]

  unfoldable pub after_deeds : List Deed → CheckTables → CheckTables
  after_deeds [] t = t
  after_deeds (d ∷ ds) t = after_deeds ds (after_deed d t)

  deed_followed :
      (d : Deed) (t : CheckTables) (k : Uuid) (u : Account)
      → by_id Account.id k t.users ≡ some u
      → approved_account u ≡ false
      → Followed logins k t u d (after_deed d t).users
  unfolding after_deed
  deed_followed (checks e) t k u f n =
      let moved = event_moves driver_verification profile e t k u f in
      (moved.0, moved.1, move-Entitled logins t u moved.0 e moved.2 n)
  deed_followed (signs_in now token sid user s) t k u f n =
      elim (Option-cases (by_id Account.id user t.users)) [
        | inl nobody ↦ rw (nobody, after_deed) (u, f, inl n)
        | inr (w, g) ↦
            rw (g, after_deed) (sign_in_followed logins now token sid user s t k u w f g n)
      ]
  deed_followed (invites now reads inviter user) t k u f n =
      elim (Option-cases (by_id Account.id user t.users)) [
        | inl nobody ↦ rw (nobody, after_deed) (u, f, inl n)
        | inr (w, g) ↦
            rw (g, after_deed) (invite_followed logins now reads inviter user t k u w f g n)
      ]

  -- A deed of the history that was entitled to approve the account, by its row just before.
  abbrev pub EntitledIn : Uuid → List Deed → CheckTables → Type 0
  EntitledIn k ds t =
      (before after_it : List Deed) × (d : Deed) × (row : Account) × (ds ≡ before ++ d ∷ after_it)
      × (by_id Account.id k (after_deeds before t).users ≡ some row)
      × (approved_account row ≡ false)
      × Entitled logins (after_deeds before t) row d

  -- Take any history of requests, approvals and rejections of the check, of tokens issued to
  -- accounts and of companies' invites of accounts, from an account that is not approved. If it is
  -- approved at the end, then at some point of the history, when it was not approved yet, one of
  -- three things happened: a parent company approved it while its request waited; it signed in with
  -- a number of the reviewers; or a company invited it, a broker or a factory by its active roles,
  -- while the company's own invite of it waited, or while none waited and none had been used and the
  -- account had been made with one.
  pub entitled_approval :
      (k : Uuid) (ds : List Deed) (t : CheckTables) (u : Account)
      → by_id Account.id k t.users ≡ some u
      → approved_account u ≡ false
      → row_is approved_account (by_id Account.id k (after_deeds ds t).users) ≡ true
      → EntitledIn k ds t
  unfolding after_deeds
  entitled_approval k [] t u f n y =
      absurd (ground (arith, n, sym y ∙ ap (row_is approved_account) f))
  entitled_approval k (d ∷ ds) t u f n y =
      let (u1, f1, how) = deed_followed d t k u f n in
      elim how [
        | inr entitled ↦ ([], ds, d, u, refl, f, n, entitled)
        | inl not_yet ↦
            let later = entitled_approval k ds (after_deed d t) u1 f1 not_yet y in
            (
              d ∷ later.0,
              later.1,
              later.2,
              later.3,
              ap (λ v. d ∷ v) later.4,
              later.5,
              later.6,
              later.7,
            )
      ]
