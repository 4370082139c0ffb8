-- ===== src/Provisioning/Approval/Renewal.antt =====
-- Where the subscription of an approval begins: after those that are running.
use transport_backend.Base.{
  ◌≤◌, ◌≡◌, ◌∙◌, Bool, true, Option, none, some, List, [], ◌∷◌, ==_refl, if◌then◌else◌, by_id, ok,
  Option-cases, inl, inr, arith, All, All-mono,
}
use transport_backend.Entities.{Uuid, Time, Subscription, Database}
use transport_backend.Provisioning.Buyer.{NewRows}
use transport_backend.Provisioning.Approval.{
  Moments, is_running, ends_later, last_running, end_of, start_of, Provisioned, approve_order,
}
use transport_backend.Provisioning.Approval.Laws.{approve_order-IsProvisioned}

-- The subscription found ends no earlier than this one.
abbrev NotAfter : Subscription → Option Subscription → Type 0
NotAfter t none = ⊥
NotAfter t (some s) = t.expire_at ≤ s.expire_at

NotAfter-end_of :
    (t : Subscription) (o : Option Subscription) (now : Time)
    → NotAfter t o
    → t.expire_at ≤ end_of o now
NotAfter-end_of t none now h = absurd h
NotAfter-end_of t (some s) now h = h

last_running_step :
    (p : Subscription → Bool) (x t : Subscription) (o : Option Subscription)
    → NotAfter t o
    → NotAfter t (if p x then some (ends_later x o) else o)
last_running_step p x t none h = absurd h
last_running_step p x t (some s) h = ground arith

last_running_head :
    (p : Subscription → Bool) (x : Subscription) (o : Option Subscription)
    → p x ≡ true
    → NotAfter x (if p x then some (ends_later x o) else o)
last_running_head p x none h = rw h (omega arith)
last_running_head p x (some s) h = ground arith

last_running_max :
    (p : Subscription → Bool) (ss : List Subscription)
    → All (λ t. p t ≡ true → NotAfter t (last_running p ss)) ss
unfolding last_running
last_running_max p [] = tt
last_running_max p (s ∷ ss) = (
  last_running_head p s (last_running p ss),
  All-mono (λ t. p t ≡ true → NotAfter t (last_running p ss))
      (λ t. p t ≡ true → NotAfter t (last_running p (s ∷ ss))) ss
      (λ t k q. last_running_step p s t (last_running p ss) (k q)) (last_running_max p ss),
)

last_running-meets :
    (p : Subscription → Bool) (ss : List Subscription) {s : Subscription}
    → last_running p ss ≡ some s
    → p s ≡ true
unfolding last_running
last_running-meets p [] h = ground arith
last_running-meets p (x ∷ ss) {s} h = elim (Option-cases (last_running p ss)) [
  | inl e ↦ ground arith
  | inr (q, e) ↦ ground (arith, last_running-meets p ss {s = q} e)
]

start_of_follows :
    (m : Moments) (user : Uuid) (db : Database)
    → All
        (λ t. is_running m.looked_up_at user t ≡ true → t.expire_at ≤ start_of m user db)
        db.subscriptions
unfolding start_of
start_of_follows m user db =
    let p = is_running m.looked_up_at user in
    let o = last_running p db.subscriptions in
    All-mono (λ t. p t ≡ true → NotAfter t o)
      (λ t. p t ≡ true → t.expire_at ≤ end_of o m.started_at) db.subscriptions
      (λ t k q. NotAfter-end_of t o m.started_at (k q)) (last_running_max p db.subscriptions)

start_of_not_before :
    (m : Moments) (user : Uuid) (db : Database)
    → m.looked_up_at ≤ m.started_at
    → m.looked_up_at ≤ start_of m user db
unfolding start_of is_running
start_of_not_before m user db h =
    elim (Option-cases (last_running (is_running m.looked_up_at user) db.subscriptions)) [
      | inl e ↦ rw e h
      | inr (s, e) ↦ rw e (
          ground
            (arith, last_running-meets (is_running m.looked_up_at user) db.subscriptions {s = s} e))
    ]

-- No paid day is lost or counted twice: the new subscription of the buyer begins at or after the
-- end of every subscription of the buyer that was running, and not before the time at which these
-- were looked up (where the clock does not go back).
pub renewal_follows :
    (rows : NewRows) (m : Moments) (order_id receipt_id admin : Uuid) (db : Database)
    (res : Provisioned) (db' : Database)
    → m.looked_up_at ≤ m.started_at
    → approve_order rows m order_id receipt_id admin db ≡ ok (res, db')
    → (s : Subscription) × (by_id Subscription.id rows.subscription_id db'.subscriptions ≡ some s)
      × (s.user_id ≡ res.user_id)
      × All
          (λ t. is_running m.looked_up_at res.user_id t ≡ true → t.expire_at ≤ s.start_at)
          db.subscriptions
      × (m.looked_up_at ≤ s.start_at)
renewal_follows rows m order_id receipt_id admin db res db' clock h =
    let p = approve_order-IsProvisioned rows m order_id receipt_id admin db res db' h in
    (
      p.subscription,
      p.subscriptions rows.subscription_id ∙ rw (==_refl rows.subscription_id),
      p.buyer,
      rw p.begins (start_of_follows m res.user_id db),
      rw p.begins (start_of_not_before m res.user_id db clock),
    )
