-- ===== src/Access/Laws.antt =====
-- Who may work: the answer against a description of its own, and two consequences.
use transport_backend.Base.{
  ◌+◌, ◌*◌, ◌<◌, ◌≡◌, ◌↔◌, ◌∙◌, refl, sym, max, Bool, true, false, ◌||◌, not, Option, none, some,
  List, [], ◌∷◌, ltb, if◌then◌else◌, any, is_some, by_id, Text, codes, Bool-cases, Option-cases,
  inl, inr, arith,
}
use transport_backend.Entities.{Uuid, Time, User, Subscription, SubscriptionBonus, Database}
use transport_backend.Policy.Settings.{SubscriptionPolicy, is_required}
use transport_backend.Rewards.{day_ms, is_in, latest_until, active_until}
use transport_backend.Access.{
  Date, is_current, last_ending, find_active_by_user_id, has_active_role, holds, is_parent,
  driver_trial_ends_at, driver_answer, answer, trial_of, check,
}

pub is_some-last_ending :
    (p : Subscription → Bool) (ss : List Subscription) → is_some (last_ending p ss) ≡ any p ss
unfolding last_ending
is_some-last_ending p [] = refl
is_some-last_ending p (s ∷ ss) = ground (arith, is_some-last_ending p ss)

is_some-latest_until :
    (p : SubscriptionBonus → Bool) (bs : List SubscriptionBonus)
    → is_some (latest_until p bs) ≡ any p bs
unfolding latest_until
is_some-latest_until p [] = refl
is_some-latest_until p (b ∷ bs) = ground (arith, is_some-latest_until p bs)

module _ (parse_date : Text → Option Time) where
  -- What lets a user work, in the words of the rules.
  pub data IsEntitled (looked_up_at now : Time) (policy : SubscriptionPolicy) (user : Uuid)
      (db : Database) : Type 0 where
    by_subscription :
        any (is_current looked_up_at user) db.subscriptions ≡ true
        → IsEntitled looked_up_at now policy user db
    by_bonus : any (is_in now user) db.bonuses ≡ true → IsEntitled looked_up_at now policy user db
    as_parent_company :
        (u : User)
        → by_id User.id user db.users ≡ some u
        → u.is_parent_company ≡ true
        → IsEntitled looked_up_at now policy user db
    as_factory :
        (u : User)
        → by_id User.id user db.users ≡ some u
        → has_active_role (codes "FACTORY") user db ≡ true
        → IsEntitled looked_up_at now policy user db
    as_free_driver :
        (u : User)
        → by_id User.id user db.users ≡ some u
        → has_active_role (codes "DRIVER") user db ≡ true
        → policy.drivers_enforced ≡ false
        → IsEntitled looked_up_at now policy user db
    in_trial :
        (u : User) (from : Time)
        → by_id User.id user db.users ≡ some u
        → has_active_role (codes "DRIVER") user db ≡ true
        → parse_date policy.driver_trial_started_at ≡ some from
        → now < max u.created_at from + policy.driver_trial_days * day_ms
        → IsEntitled looked_up_at now policy user db
    as_anyone :
        holds (codes "DRIVER") user db (by_id User.id user db.users) ≡ false
        → is_required parse_date now policy ≡ false
        → IsEntitled looked_up_at now policy user db

  -- The Boolean content of the answer.
  abbrev in_time : Time → Option Date → Bool
  in_time now none = false
  in_time now (some none) = false
  in_time now (some (some t)) = ltb now t

  answer_allowed :
      (now : Time) (policy : SubscriptionPolicy) (a b c d e : Bool) (ends : Option Date)
      → (answer parse_date now policy a b c d e ends).0 ≡ (
          a
          || (b
              || (c
                  || (d
                      || (if e
                          then not policy.drivers_enforced || in_time now ends
                          else not (is_required parse_date now policy))))))
  unfolding answer driver_answer
  answer_allowed now policy a b c d e none = ground arith
  answer_allowed now policy a b c d e (some none) = ground arith
  answer_allowed now policy a b c d e (some (some t)) = ground arith

  check_allowed :
      (looked_up_at now : Time) (policy : SubscriptionPolicy) (user : Uuid) (db : Database)
      → let found = by_id User.id user db.users in
        (check parse_date looked_up_at now policy user db).allowed ≡ (
          any (is_current looked_up_at user) db.subscriptions
          || (is_parent found
              || (holds (codes "FACTORY") user db found
                  || (any (is_in now user) db.bonuses
                      || (if holds (codes "DRIVER") user db found
                          then not policy.drivers_enforced
                            || in_time now (
                                trial_of parse_date policy
                                  (holds (codes "DRIVER") user db found)
                                  found)
                          else not (is_required parse_date now policy))))))
  unfolding check find_active_by_user_id active_until
  check_allowed looked_up_at now policy user db =
      answer_allowed now policy _ _ _ _ _ _
      ∙ rw
          (
            is_some-last_ending (is_current looked_up_at user) db.subscriptions,
            is_some-latest_until (is_in now user) db.bonuses,
          )
          refl

  -- The driver's part, for a user that is there.
  driver-IsEntitled :
      (looked_up_at now : Time) (policy : SubscriptionPolicy) (user : Uuid) (db : Database)
      (u : User)
      → by_id User.id user db.users ≡ some u
      → has_active_role (codes "DRIVER") user db ≡ true
      → (not policy.drivers_enforced
          || in_time now (some (driver_trial_ends_at parse_date policy u.created_at)))
        ≡ true
      → IsEntitled looked_up_at now policy user db
  unfolding driver_trial_ends_at
  driver-IsEntitled looked_up_at now policy user db u found driver h =
      elim (Bool-cases policy.drivers_enforced) [
        | inr e ↦ as_free_driver u found driver e
        | inl e ↦ elim (Option-cases (parse_date policy.driver_trial_started_at)) [
          | inl n ↦ absurd (ground arith)
          | inr (from, n) ↦ in_trial u from found driver n (ground arith)
        ]
      ]

  -- The conditions of `check` for the user's row.
  abbrev passes : Time → Time → SubscriptionPolicy → Uuid → Database → Option User → Bool
  passes looked_up_at now policy user db found =
      any (is_current looked_up_at user) db.subscriptions
      || (is_parent found
          || (holds (codes "FACTORY") user db found
              || (any (is_in now user) db.bonuses
                  || (if holds (codes "DRIVER") user db found
                      then not policy.drivers_enforced
                        || in_time now (
                            trial_of parse_date policy (holds (codes "DRIVER") user db found) found)
                      else not (is_required parse_date now policy)))))

  passes-IsEntitled :
      (looked_up_at now : Time) (policy : SubscriptionPolicy) (user : Uuid) (db : Database)
      (found : Option User)
      → by_id User.id user db.users ≡ found
      → passes looked_up_at now policy user db found ≡ true
      → IsEntitled looked_up_at now policy user db
  unfolding holds
  passes-IsEntitled looked_up_at now policy user db found e h =
      elim (Bool-cases (any (is_current looked_up_at user) db.subscriptions)) [
        | inl s ↦ by_subscription s
        | inr s ↦ elim (Bool-cases (any (is_in now user) db.bonuses)) [
          | inl b ↦ by_bonus b
          | inr b ↦ rest found e (ground arith)
        ]
      ]
    where
      others : Option User → Bool
      others found' =
          is_parent found'
          || (holds (codes "FACTORY") user db found'
              || (if holds (codes "DRIVER") user db found'
                  then not policy.drivers_enforced
                    || in_time now
                        (trial_of parse_date policy (holds (codes "DRIVER") user db found') found')
                  else not (is_required parse_date now policy)))

      rest :
          (found' : Option User)
          → by_id User.id user db.users ≡ found'
          → others found' ≡ true
          → IsEntitled looked_up_at now policy user db
      rest none n k = as_anyone (rw n refl) (ground arith)
      rest (some u) n k = elim (Bool-cases u.is_parent_company) [
        | inl p ↦ as_parent_company u n p
        | inr p ↦ elim (Bool-cases (has_active_role (codes "FACTORY") user db)) [
          | inl f ↦ as_factory u n f
          | inr f ↦ elim (Bool-cases (has_active_role (codes "DRIVER") user db)) [
            | inl d ↦ driver-IsEntitled looked_up_at now policy user db u n d (ground arith)
            | inr d ↦ as_anyone (rw n d) (ground arith)
          ]
        ]
      ]

  entitled_passes :
      (looked_up_at now : Time) (policy : SubscriptionPolicy) (user : Uuid) (db : Database)
      → IsEntitled looked_up_at now policy user db
      → passes looked_up_at now policy user db (by_id User.id user db.users) ≡ true
  unfolding holds driver_trial_ends_at
  entitled_passes looked_up_at now policy user db (by_subscription h) = ground arith
  entitled_passes looked_up_at now policy user db (by_bonus h) = ground arith
  entitled_passes looked_up_at now policy user db (as_parent_company u e h) = rw e (ground arith)
  entitled_passes looked_up_at now policy user db (as_factory u e h) = rw e (ground arith)
  entitled_passes looked_up_at now policy user db (as_free_driver u e d h) = rw e (ground arith)
  entitled_passes looked_up_at now policy user db (in_trial u from e d p h) = rw e (ground arith)
  entitled_passes looked_up_at now policy user db (as_anyone d h) = ground arith

  -- A user may work exactly if one of these holds: an active subscription runs at the time of its
  -- query, a bonus runs, the user is a parent company or has the active role of a factory, the user
  -- is a driver while drivers are not asked to subscribe or before the end of the trial, or the
  -- user is no driver and the policy asks for no subscription now.
  pub check_iff :
      (looked_up_at now : Time) (policy : SubscriptionPolicy) (user : Uuid) (db : Database)
      → ((check parse_date looked_up_at now policy user db).allowed ≡ true)
        ↔ IsEntitled looked_up_at now policy user db
  check_iff looked_up_at now policy user db = (
    λ h.
        passes-IsEntitled looked_up_at now policy user db (by_id User.id user db.users) refl
          (sym (check_allowed looked_up_at now policy user db) ∙ h),
    λ k.
        check_allowed looked_up_at now policy user db
        ∙ entitled_passes looked_up_at now policy user db k,
  )
