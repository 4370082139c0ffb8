-- ===== src/Verification/Invites.antt =====
-- What an invite does with the account that already has the number: `assertInvitable` of
-- src/services/company/inviteRules.ts, and the account's part of `create` of brokerInvite.service.ts
-- and `createInvite` of factory.service.ts, which treat it alike. The clock is read once; the row of
-- the invite, its token and its SMS are left out.
use transport_backend.Base.{
  arith, Bool-cases, inl, inr, ◌⊎◌, ◌≡◌, true, false, ℕ, ◌+◌, ◌*◌, Bool, ◌&&◌, not, Option, none,
  some, List, ◌∷◌, any, Text, codes, ◌==◌, ltb, is_some, if◌then◌else◌, save, Result, ok, ◌>>=◌,
  ◌>>◌, found_or, refuse_if, bad_request, conflict,
}
use transport_backend.Entities.{Uuid, Time, Role}
use transport_backend.Auth.Accounts.{
  Account, approved, is_approved, company, active_roles, includes_role,
}
use transport_backend.Auth.Tokens.{no_roles}

-- The columns of an invite that the rules read.
pub record Invite : Type 0 where
  pub inviter : Uuid
  pub used_at : Option Time
  pub revoked_at : Option Time
  pub created_at : Time

abbrev pub hour_ms : ℕ
hour_ms = 3600000

-- `isInviteExpired`; `hours` is inviteExpiryHours().
unfoldable pub is_invite_expired : Time → ℕ → Invite → Bool
is_invite_expired now hours i = not (is_some i.used_at) && ltb (i.created_at + hours * hour_ms) now

-- `isInviteWaiting`
unfoldable pub is_invite_waiting : Time → ℕ → Invite → Bool
is_invite_waiting now hours i =
    not (is_some i.revoked_at) && not (is_some i.used_at) && not (is_invite_expired now hours i)

-- Whether the account was made within a minute of the invite.
unfoldable pub made_with : Option Time → Invite → Bool
made_with none i = false
made_with (some made) i = ltb i.created_at (made + 60000) && ltb made (i.created_at + 60000)

unfoldable pub refuse_other : Time → ℕ → List Invite → Option Time → Result (Unit {0})
refuse_other now hours invites made = do
  refuse_if (any (is_invite_waiting now hours) invites)
      (conflict "Another company's invite of the account waits.")
  refuse_if (not (any (made_with made) invites && not (any (λ i. is_some i.used_at) invites)))
      (conflict "The account is in Trabot already.")

unfoldable pub assert_invitable : Time → ℕ → List Invite → Uuid → Option Time → Result (Unit {0})
assert_invitable now hours invites inviter made =
    if any (λ i. is_invite_waiting now hours i && i.inviter == inviter) invites
    then ok tt
    else refuse_other now hours invites made

-- When the rules let an invite through, the inviter's own invite waits, or none waits, the account
-- was made with an invite, and none was used.
pub assert_invitable_cases :
    (now : Time) (hours : ℕ) (invites : List Invite) (inviter : Uuid) (made : Option Time)
    → assert_invitable now hours invites inviter made ≡ ok tt
    → (any (λ i. is_invite_waiting now hours i && i.inviter == inviter) invites ≡ true)
      ⊎ ((any (is_invite_waiting now hours) invites ≡ false)
          × (any (made_with made) invites ≡ true)
          × (any (λ i. is_some i.used_at) invites ≡ false))
unfolding assert_invitable refuse_other
assert_invitable_cases now hours invites inviter made h =
    elim (Bool-cases (any (λ i. is_invite_waiting now hours i && i.inviter == inviter) invites)) [
      | inl own ↦ inl own
      | inr not_own ↦ inr (ground arith, ground arith, ground arith)
    ]

-- The two kinds of accounts that a company's invite vouches for, by their roles.
pub data InviteKind : Type 0 where
  of_broker of_factory : InviteKind

abbrev pub invited_role : InviteKind → Text
invited_role of_broker = codes "BROKER"
invited_role of_factory = codes "FACTORY"

-- The company vouches for an account that is not checked yet.
unfoldable pub vouched : Time → Uuid → Account → Account
vouched now inviter u = record u {
  verification_status = approved;
  verification_decided_at = some now;
  verification_decided_by = some inviter;
}

-- An account with no role yet becomes one of the kind; `named` says whether a name is given.
unfoldable pub with_first_role : Bool → Role → Account → Account
with_first_role named role u = record u {
  roles = role ∷ u.roles;
  profile_type = if named then company else u.profile_type;
}

-- What an invite reads beside the account: the kind's role, if it is active, and the invites of the
-- account, with the time at which the account was made.
pub record InviteReads : Type 0 where
  pub hours : ℕ
  pub kind : InviteKind
  pub role : Option Role
  pub named : Bool
  pub invites : List Invite
  pub made : Option Time

unfoldable pub take_role : InviteReads → Account → List Account → Result (List Account)
take_role reads u users = do
  role ← found_or (bad_request "The role is not defined.") reads.role
  ok (save Account.id (with_first_role reads.named role u) users)

unfoldable pub vouch_for :
    Time → InviteReads → Uuid → Account → List Account → Result (List Account)
vouch_for now reads inviter u users = do
  refuse_if (not (includes_role (invited_role reads.kind) (active_roles u.roles)))
      (conflict "The number is an account of another kind.")
  assert_invitable now reads.hours reads.invites inviter reads.made
  ok (
      if is_approved u.verification_status
      then users
      else save Account.id (vouched now inviter u) users)

unfoldable pub invite_account :
    Time → InviteReads → Uuid → Account → List Account → Result (List Account)
invite_account now reads inviter u users =
    if no_roles (active_roles u.roles)
    then take_role reads u users
    else vouch_for now reads inviter u users
