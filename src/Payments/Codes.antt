-- ===== src/Payments/Codes.antt =====
-- No tracking code pays twice for one order: among its approved receipts a non-empty code stands
-- once. Two orders may get one code: Tests/Race.antt.
use transport_backend.Base.{
  ◌≡◌, ◌∙◌, sym, Bool, true, false, some, List, ◌==◌, ◌⊎◌, inl, inr, find, by_id, by_id_key,
  by_id-save, by_id-update_where, by_id-find-none, save, update_where, Text, is_empty, text_eq_refl,
  ok, Bool-cases, Option-cases, arith,
}
use transport_backend.Entities.{Uuid, PaymentReceipt, Database, receipt_is_approved}
use transport_backend.Provisioning.Approval.{
  check_tracking_code, is_used_code, Moments, approved_receipt,
}

-- The receipt under this id is approved, of this order, and has this code.
abbrev pub Uses : List PaymentReceipt → Uuid → Uuid → Text → Type 0
Uses t i order code =
    (a : PaymentReceipt) × (by_id PaymentReceipt.id i t ≡ some a)
    × (receipt_is_approved a.status ≡ true)
    × (a.order_id ≡ order)
    × (a.tracking_code ≡ some code)

abbrev pub UniqueCodes : List PaymentReceipt → Type 0
UniqueCodes t =
    (i j order : Uuid) (code : Text)
    → is_empty code ≡ false
    → Uses t i order code
    → Uses t j order code
    → i ≡ j

-- No other approved receipt of the order of this one has its code.
abbrev pub Clear : List PaymentReceipt → PaymentReceipt → Type 0
Clear t r =
    (j : Uuid) (code : Text)
    → r.tracking_code ≡ some code
    → is_empty code ≡ false
    → Uses t j r.order_id code
    → j ≡ r.id

-- The receipts of the first list use no code that those of the second do not.
abbrev pub Fewer : List PaymentReceipt → List PaymentReceipt → Type 0
Fewer t' t = (i order : Uuid) (code : Text) → Uses t' i order code → Uses t i order code

-- A row that is written without being approved adds no use.
pub Fewer-save :
    (r : PaymentReceipt) (t : List PaymentReceipt)
    → receipt_is_approved r.status ≡ false
    → Fewer (save PaymentReceipt.id r t) t
Fewer-save r t h i order code (a, e, s, o, c) =
    let law = by_id-save PaymentReceipt.id i r t in (a, ground (arith, law), s, o, c)

pub Fewer-update :
    (p : PaymentReceipt → Bool) (f : PaymentReceipt → PaymentReceipt) (t : List PaymentReceipt)
    → ((r : PaymentReceipt) → (f r).id ≡ r.id)
    → ((r : PaymentReceipt) → receipt_is_approved (f r).status ≡ false)
    → Fewer (update_where p f t) t
Fewer-update p f t same off i order code (a, e, s, o, c) =
    let law = by_id-update_where PaymentReceipt.id p f i t same in
    elim (Option-cases (by_id PaymentReceipt.id i t)) [
      | inl none_there ↦ absurd (ground (arith, law))
      | inr (b, there) ↦ (
        b,
        there,
        ground (arith, law, off b),
        ground (arith, law, off b),
        ground (arith, law, off b),
      )
    ]

-- The check of an approval: nobody else uses the code.
pub check-Clear :
    (r : PaymentReceipt) (db : Database) → check_tracking_code r db ≡ ok tt → Clear db.receipts r
unfolding check_tracking_code
check-Clear r db h j code own full (b, e, s, o, c) =
    elim (Option-cases (find (is_used_code code r.id) db.receipts)) [
      | inr (x, used) ↦ absurd (ground arith)
      | inl unused ↦
          let unmet =
            by_id-find-none PaymentReceipt.id (is_used_code code r.id) j db.receipts {r = b} unused
              e in
          let key = by_id_key PaymentReceipt.id j db.receipts {r = b} e in
          unfold is_used_code in ground (arith, unmet, key, text_eq_refl code)
    ]

-- The use that an approval adds.
abbrev IsNewUse : PaymentReceipt → Uuid → Uuid → Text → Type 0
IsNewUse r i order code = (i ≡ r.id) × (r.order_id ≡ order) × (r.tracking_code ≡ some code)

Uses-approve :
    (m : Moments) (admin : Uuid) (r : PaymentReceipt) (t : List PaymentReceipt) (i order : Uuid)
    (code : Text)
    → Uses (save PaymentReceipt.id (approved_receipt m admin r) t) i order code
    → IsNewUse r i order code ⊎ Uses t i order code
unfolding approved_receipt
Uses-approve m admin r t i order code (a, e, s, o, c) =
    let law = by_id-save PaymentReceipt.id i (approved_receipt m admin r) t in
    elim (Bool-cases (r.id == i)) [
      | inl same ↦ inl (ground arith, ground (arith, law), ground (arith, law))
      | inr other ↦ inr (a, ground (arith, law), s, o, c)
    ]

pub UniqueCodes-approve :
    (m : Moments) (admin : Uuid) (r : PaymentReceipt) (t : List PaymentReceipt)
    → Clear t r
    → UniqueCodes t
    → UniqueCodes (save PaymentReceipt.id (approved_receipt m admin r) t)
UniqueCodes-approve m admin r t free u i j order code full a b =
    elim (Uses-approve m admin r t i order code a) [
      | inl (i_new, here, own) ↦ elim (Uses-approve m admin r t j order code b) [
        | inl (j_new, _, _) ↦ i_new ∙ sym j_new
        | inr old ↦ i_new ∙ sym (free j code own full (rw here old))
      ]
      | inr first ↦ elim (Uses-approve m admin r t j order code b) [
        | inl (j_new, here, own) ↦ free i code own full (rw here first) ∙ sym j_new
        | inr old ↦ u i j order code full first old
      ]
    ]

-- An approval leaves the receipts of other orders clear.
pub Clear-approve :
    (m : Moments) (admin : Uuid) (r x : PaymentReceipt) (t : List PaymentReceipt)
    → Clear t x
    → (r.order_id ≡ x.order_id → ⊥)
    → Clear (save PaymentReceipt.id (approved_receipt m admin r) t) x
Clear-approve m admin r x t free other j code own full used =
    elim (Uses-approve m admin r t j x.order_id code used) [
      | inl (_, here, _) ↦ absurd (other here)
      | inr old ↦ free j code own full old
    ]
