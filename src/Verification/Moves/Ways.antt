-- ===== src/Verification/Moves/Ways.antt =====
-- Every way in which an account comes to be approved: by the check of
-- src/services/company/accountVerification.service.ts, at a reviewer's sign-in (`issueTokens` of
-- src/services/auth/registration.service.ts), and by an inviting company
-- (src/services/company/brokerInvite.service.ts, factory.service.ts).
use mathlib.Core.Path.{sym}
use transport_backend.Base.{
  any, ◌≡◌, refl, ap, ◌∙◌, inl, inr, ◌⊎◌, Bool, true, false, ◌&&◌, ◌||◌, not, some, List, arith,
  by_id, by_id_key, by_id-save, save, Bool-cases, Option-cases, Result-cases, ok, err, Text,
  is_some, is_empty, ◌==◌, Result,
}
use transport_backend.Entities.{Uuid, Time, record_is_active}
use transport_backend.Auth.Accounts.{Account, is_approved, active_roles, includes_role}
use transport_backend.Auth.Review.{review_code}
use transport_backend.Auth.Tokens.{TokenStore, issue_tokens, reviewed, no_roles}
use transport_backend.Verification.Requests.{
  CheckTables, is_parent_account, asked_row, rejected_row,
}
use transport_backend.Verification.Moves.{
  CheckEvent, approves, Move, stays, asked, approved_by, rejected_by,
}
use transport_backend.Verification.Moves.Life.{waits_for_answer}
use transport_backend.Verification.Invites.{
  InviteReads, invited_role, assert_invitable, assert_invitable_cases, is_invite_waiting, made_with,
  invite_account, vouch_for, take_role, vouched, with_first_role,
}

-- The operations that may write APPROVED: an event of the check, tokens issued to an account, with
-- the rest of the store then, and a company's invite of the account that has the number, given here
-- by its id.
pub data Deed : Type 0 where
  checks : CheckEvent → Deed
  signs_in : Time → (token sid user : Uuid) → TokenStore → Deed
  invites : Time → InviteReads → (inviter user : Uuid) → Deed

abbrev pub users_or : List Account → Result (List Account) → List Account
users_or users (ok written) = written
users_or users (err e) = users

abbrev pub approved_account : Account → Bool
approved_account u = is_approved u.verification_status

parent_row :
    (parent : Uuid) (t : CheckTables)
    → is_parent_account parent t ≡ true
    → (p : Account) × (by_id Account.id parent t.users ≡ some p) × (p.is_parent_company ≡ true)
unfolding is_parent_account
parent_row parent t h = elim (Option-cases (by_id Account.id parent t.users)) [
  | inl nobody ↦ absurd (ground arith)
  | inr (p, found) ↦ (p, found, ground arith)
]

module _ (logins : Text) where
  -- What entitles a deed to approve the account with this row.
  pub data Entitled (t : CheckTables) (u : Account) (d : Deed) : Type 0 where
    by_parent :
        (now : Time) (parent : Uuid)
        → d ≡ checks (approves now parent u.id)
        → (p : Account) × (by_id Account.id parent t.users ≡ some p) × (p.is_parent_company ≡ true)
        → waits_for_answer u ≡ true
        → Entitled t u d
    by_reviewer :
        (now : Time) (token sid : Uuid) (s : TokenStore)
        → d ≡ signs_in now token sid u.id s
        → is_some (review_code logins u.mobile) ≡ true
        → Entitled t u d
    by_company :
        (now : Time) (reads : InviteReads) (inviter : Uuid)
        → d ≡ invites now reads inviter u.id
        → includes_role (invited_role reads.kind) (active_roles u.roles) ≡ true
        → (any (λ i. is_invite_waiting now reads.hours i && i.inviter == inviter) reads.invites
            ≡ true)
          ⊎ ((any (is_invite_waiting now reads.hours) reads.invites ≡ false)
              × (any (made_with reads.made) reads.invites ≡ true)
              × (any (λ i. is_some i.used_at) reads.invites ≡ false))
        → Entitled t u d

  -- The row of the account after a deed: not approved still, or rightly approved.
  abbrev pub Followed : Uuid → CheckTables → Account → Deed → List Account → Type 0
  Followed k t u d users =
      (u' : Account) × (by_id Account.id k users ≡ some u')
      × ((approved_account u' ≡ false) ⊎ Entitled t u d)

  pub move-Entitled :
      (t : CheckTables) (u u' : Account) (e : CheckEvent)
      → Move t u e u'
      → approved_account u ≡ false
      → (approved_account u' ≡ false) ⊎ Entitled t u (checks e)
  unfolding asked_row rejected_row
  move-Entitled t u u' e (stays _) n = inl n
  move-Entitled t u u' e (asked now user same askable few) n = inl refl
  move-Entitled t u u' e (approved_by now parent user same boss waiting) n = inr (
      by_parent now parent (ap (λ v. checks (approves now parent v)) (sym same))
        (parent_row parent t boss) waiting)
  move-Entitled t u u' e (rejected_by now parent user reason same boss waiting) n = inl refl

  -- A deed that saves the row of an account.
  saved_followed :
      (t : CheckTables) (d : Deed) (k user : Uuid) (u w row : Account) (users : List Account)
      → by_id Account.id k users ≡ some u
      → by_id Account.id user users ≡ some w
      → row.id ≡ w.id
      → approved_account u ≡ false
      → (w ≡ u → user ≡ u.id → (approved_account row ≡ false) ⊎ Entitled t u d)
      → Followed k t u d (save Account.id row users)
  saved_followed t d k user u w row users f g same n how =
      let key : w.id ≡ user = by_id_key Account.id user users g in
      let own : u.id ≡ k = by_id_key Account.id k users f in
      let saved = by_id-save Account.id k row users in
      elim (Bool-cases (row.id == k)) [
        | inr other ↦ (u, saved ∙ rw other f, inl n)
        | inl here ↦
            let at : user ≡ k = ground arith in
            let one : w ≡ u = ground arith in (row, saved ∙ rw here refl, how one (at ∙ sym own))
      ]

  reviewed_followed :
      (now : Time) (token sid user : Uuid) (s : TokenStore) (t : CheckTables) (k : Uuid)
      (u w : Account)
      → by_id Account.id k t.users ≡ some u
      → by_id Account.id user t.users ≡ some w
      → approved_account u ≡ false
      → Followed k t u (signs_in now token sid user s) (reviewed logins now w t.users)
  unfolding reviewed
  reviewed_followed now token sid user s t k u w f g n =
      elim (Bool-cases (
        not (approved_account w)
        && not (is_empty w.mobile)
        && is_some (review_code logins w.mobile))) [
          | inr unchanged ↦ rw (unchanged, reviewed) (u, f, inl n)
          | inl granted ↦
              rw (granted, reviewed)
                (saved_followed t _ k user u w _ t.users f g refl n (λ one at. inr (
                  by_reviewer now token sid s (ap (λ v. signs_in now token sid v s) at) (
                    ap (λ (a : Account). is_some (review_code logins a.mobile)) (sym one)
                    ∙ ground (arith, granted)))))
        ]

  pub sign_in_followed :
      (now : Time) (token sid user : Uuid) (s : TokenStore) (t : CheckTables) (k : Uuid)
      (u w : Account)
      → by_id Account.id k t.users ≡ some u
      → by_id Account.id user t.users ≡ some w
      → approved_account u ≡ false
      → Followed k t u
          (signs_in now token sid user s)
          (issue_tokens logins now token w sid (record s { users = t.users })).1.users
  unfolding issue_tokens
  sign_in_followed now token sid user s t k u w f g n =
      elim (Bool-cases
        (not (record_is_active w.record_status) || no_roles (active_roles w.roles))) [
          | inl refused ↦ rw (refused, issue_tokens) (u, f, inl n)
          | inr given ↦
              rw (given, issue_tokens) (reviewed_followed now token sid user s t k u w f g n)
        ]

  vouch_followed :
      (now : Time) (reads : InviteReads) (inviter user : Uuid) (t : CheckTables) (k : Uuid)
      (u w : Account)
      → by_id Account.id k t.users ≡ some u
      → by_id Account.id user t.users ≡ some w
      → approved_account u ≡ false
      → Followed k t u
          (invites now reads inviter user)
          (users_or t.users (vouch_for now reads inviter w t.users))
  unfolding vouch_for vouched
  vouch_followed now reads inviter user t k u w f g n =
      elim (Bool-cases (includes_role (invited_role reads.kind) (active_roles w.roles))) [
        | inr another ↦ rw (another, vouch_for) (u, f, inl n)
        | inl kind ↦
            elim (Result-cases
              (assert_invitable now reads.hours reads.invites inviter reads.made)) [
                | inr (x, thrown) ↦ rw (kind, thrown, vouch_for) (u, f, inl n)
                | inl (passed, may) ↦ elim (Bool-cases (approved_account w)) [
                  | inl already ↦ rw (kind, may, already, vouch_for) (u, f, inl n)
                  | inr waits ↦
                      rw (kind, may, waits, vouch_for)
                        (saved_followed t _ k user u w _ t.users f g refl n (λ one at. inr (
                          by_company now reads inviter (ap (invites now reads inviter) at)
                            (ap
                                (λ (a : Account).
                                  includes_role (invited_role reads.kind) (active_roles a.roles))
                                (sym one)
                              ∙ kind)
                            (assert_invitable_cases now reads.hours reads.invites inviter reads.made
                              may))))
                ]
              ]
      ]

  take_followed :
      (reads : InviteReads) (user : Uuid) (t : CheckTables) (d : Deed) (k : Uuid) (u w : Account)
      → by_id Account.id k t.users ≡ some u
      → by_id Account.id user t.users ≡ some w
      → approved_account u ≡ false
      → Followed k t u d (users_or t.users (take_role reads w t.users))
  unfolding take_role with_first_role
  take_followed reads user t d k u w f g n = elim (Option-cases reads.role) [
    | inl undefined ↦ rw (undefined, take_role) (u, f, inl n)
    | inr (role, defined) ↦
        rw (defined, take_role)
          (saved_followed t d k user u w (with_first_role reads.named role w) t.users f g refl n
            (λ one at. inl (ap approved_account one ∙ n)))
  ]

  pub invite_followed :
      (now : Time) (reads : InviteReads) (inviter user : Uuid) (t : CheckTables) (k : Uuid)
      (u w : Account)
      → by_id Account.id k t.users ≡ some u
      → by_id Account.id user t.users ≡ some w
      → approved_account u ≡ false
      → Followed k t u
          (invites now reads inviter user)
          (users_or t.users (invite_account now reads inviter w t.users))
  unfolding invite_account
  invite_followed now reads inviter user t k u w f g n =
      elim (Bool-cases (no_roles (active_roles w.roles))) [
        | inr some_role ↦
            rw (some_role, invite_account) (vouch_followed now reads inviter user t k u w f g n)
        | inl without ↦ rw (without, invite_account) (take_followed reads user t _ k u w f g n)
      ]
