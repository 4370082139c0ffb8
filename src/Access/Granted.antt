-- ===== src/Access/Granted.antt =====
-- What a trial and a purchase give: the right to work for their whole time.
use transport_backend.Base.{
  ◌+◌, ◌*◌, ◌≤◌, ◌<◌, ◌≡◌, ◌∙◌, refl, Bool, true, Option, some, List, [], ◌∷◌, any, by_id, Text,
  codes, ◌⊎◌, arith, ok, ==_refl,
}
use transport_backend.Entities.{Uuid, Time, User, Subscription, SubscriptionStatus, Database}
use transport_backend.Policy.Settings.{SubscriptionPolicy}
use transport_backend.Rewards.{day_ms}
use transport_backend.Provisioning.Buyer.{NewRows}
use transport_backend.Provisioning.Approval.{Moments, Provisioned, approve_order, start_of}
use transport_backend.Provisioning.Approval.Laws.{approve_order-IsProvisioned}
use transport_backend.Access.{
  subscribed, is_current, find_active_by_user_id, has_active_role, answer, check,
}
use transport_backend.Access.Laws.{is_some-last_ending, in_trial, check_iff}

any-by_id :
    (p : Subscription → Bool) (k : Uuid) (ss : List Subscription) {s : Subscription}
    → by_id Subscription.id k ss ≡ some s
    → p s ≡ true
    → any p ss ≡ true
unfolding by_id
any-by_id p k [] e h = absurd (ground arith)
any-by_id p k (x ∷ ss) {s} e h = ground (arith, any-by_id p k ss {s = s})

current_subscription :
    (t : Time) (user : Uuid) (s : Subscription)
    → s.user_id ≡ user
    → s.status ≡ SubscriptionStatus.active
    → s.start_at ≤ t
    → t < s.expire_at
    → is_current t user s ≡ true
unfolding is_current
current_subscription t user s own status a b = ground arith

module _ (parse_date : Text → Option Time) where
  -- A driver may work for the whole trial: from the day of registration, or from the day the rule
  -- began if that is later, for the days of the policy, whatever the rest of the policy says.
  pub driver_trial_full :
      (looked_up_at now : Time) (policy : SubscriptionPolicy) (user : Uuid) (db : Database)
      (u : User) (from : Time)
      → by_id User.id user db.users ≡ some u
      → has_active_role (codes "DRIVER") user db ≡ true
      → parse_date policy.driver_trial_started_at ≡ some from
      → (now < u.created_at + policy.driver_trial_days * day_ms)
        ⊎ (now < from + policy.driver_trial_days * day_ms)
      → (check parse_date looked_up_at now policy user db).allowed ≡ true
  driver_trial_full looked_up_at now policy user db u from found driver starts h =
      (check_iff parse_date looked_up_at now policy user db).1
        (in_trial u from found driver starts (omega (arith, h)))

  -- What was bought is what is given: after an approval the buyer may work, as a subscriber and
  -- whatever the policy, from the start of the new subscription until it expires.
  pub approved_buyer_may_work :
      (rows : NewRows) (m : Moments) (order_id receipt_id admin : Uuid) (db : Database)
      (res : Provisioned) (db' : Database) (looked_up_at now : Time) (policy : SubscriptionPolicy)
      → approve_order rows m order_id receipt_id admin db ≡ ok (res, db')
      → start_of m res.user_id db ≤ looked_up_at
      → looked_up_at < res.expire_at
      → ((check parse_date looked_up_at now policy res.user_id db').allowed ≡ true)
        × ((check parse_date looked_up_at now policy res.user_id db').reason ≡ subscribed)
  unfolding check find_active_by_user_id answer
  approved_buyer_may_work rows m order_id receipt_id admin db res db' looked_up_at now policy h from
        until =
      let p = approve_order-IsProvisioned rows m order_id receipt_id admin db res db' h in
      let runs : any (is_current looked_up_at res.user_id) db'.subscriptions ≡ true =
        any-by_id (is_current looked_up_at res.user_id) rows.subscription_id db'.subscriptions
          (p.subscriptions rows.subscription_id ∙ rw (==_refl rows.subscription_id) refl)
          (current_subscription looked_up_at res.user_id p.subscription p.buyer p.is_active
            (omega (arith, p.begins)) (omega (arith, p.told))) in
      rw (is_some-last_ending (is_current looked_up_at res.user_id) db'.subscriptions ∙ runs)
        (refl, refl)
