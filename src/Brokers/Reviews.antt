-- ===== src/Brokers/Reviews.antt =====
-- An order of packages is reviewed once.
use transport_backend.Base.{
  ◌≡◌, ◌∙◌, refl, ap, some, List, [], ◌∷◌, ◌==◌, if◌then◌else◌, by_id, by_id-update_where,
  by_id_key, count_where, update_where, Text, ok, err, conflict, arith, Bool-cases, Option-cases,
  inl, inr,
}
use transport_backend.Entities.{Uuid, Time}
use transport_backend.Brokers.Policy.{BrokerAccessOrder, BrokerTables}
use transport_backend.Brokers.Orders.{
  is_submitted, is_waiting, approved_package, approve_package, reject_package,
}

none_waits :
    (id admin : Uuid) (now : Time) (os : List BrokerAccessOrder)
    → count_where (is_waiting id) (update_where (λ x. x.id == id) (approved_package admin now) os)
      ≡ 0
unfolding count_where update_where approved_package
none_waits id admin now [] = refl
none_waits id admin now (o ∷ os) = ground (arith, none_waits id admin now os)

-- What a successful approval found and left.
record IsApproved (id admin : Uuid) (now : Time) (t t' : BrokerTables) : Type 0 where
  order : BrokerAccessOrder
  found : by_id BrokerAccessOrder.id id t.orders ≡ some order
  left : t'.orders ≡ update_where (λ x. x.id == id) (approved_package admin now) t.orders

approve-IsApproved :
    (new_id id admin : Uuid) (now : Time) (t t' : BrokerTables)
    → approve_package new_id id admin now t ≡ ok t'
    → IsApproved id admin now t t'
unfolding approve_package
approve-IsApproved new_id id admin now t t' h =
    elim (Option-cases (by_id BrokerAccessOrder.id id t.orders)) [
      | inl e ↦ absurd (ground arith)
      | inr (o, e) ↦ elim (Bool-cases (is_submitted o.status)) [
        | inl f ↦ record { order = o; found = e; left = ground arith }
        | inr f ↦ absurd (ground arith)
      ]
    ]

mine :
    (id admin : Uuid) (now : Time) (o : BrokerAccessOrder)
    → o.id ≡ id
    → some (if o.id == id then approved_package admin now o else o)
      ≡ some (approved_package admin now o)
mine id admin now o e = ground arith

again :
    (new_id id admin other : Uuid) (now now' : Time) (t' : BrokerTables) (o : BrokerAccessOrder)
    → by_id BrokerAccessOrder.id id t'.orders ≡ some (approved_package admin now o)
    → approve_package new_id id other now' t' ≡ err (conflict "This order was reviewed before.")
unfolding approve_package approved_package
again new_id id admin other now now' t' o stored = ground arith

-- A package is credited by one approval only: after it no admin can approve the order again, nor
-- reject it.
pub review_once :
    (new_id new_id' id admin other_admin : Uuid) (now now' : Time) (reason : Text)
    (t t' : BrokerTables)
    → approve_package new_id id admin now t ≡ ok t'
    → (approve_package new_id' id other_admin now' t'
        ≡ err (conflict "This order was reviewed before."))
      × (reject_package id other_admin reason now' t'
          ≡ err (conflict "No order with this id waits for a review."))
unfolding approve_package reject_package
review_once new_id new_id' id admin other_admin now now' reason t t' h =
    let a = approve-IsApproved new_id id admin now t t' h in
    let key : a.order.id ≡ id = by_id_key BrokerAccessOrder.id id t.orders a.found in
    let stored : by_id BrokerAccessOrder.id id t'.orders
        ≡ some (approved_package admin now a.order) =
      rw a.left (
        by_id-update_where BrokerAccessOrder.id (λ x. x.id == id) (approved_package admin now) id
          t.orders (λ r. unfold approved_package in refl)
        ∙ rw a.found (mine id admin now a.order key)) in
    let none_left : count_where (is_waiting id) t'.orders ≡ 0 =
      ap (count_where (is_waiting id)) a.left ∙ none_waits id admin now t.orders in
    (again new_id' id admin other_admin now now' t' a.order stored, ground arith)
