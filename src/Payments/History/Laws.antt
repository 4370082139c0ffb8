-- ===== src/Payments/History/Laws.antt =====
-- What every history of payments keeps.
use mathlib.Core.Path.{subst}
use mathlib.Core.List.{Memᴰ}
use transport_backend.Base.{
  ◌≡◌, refl, sym, false, List, [], ◌∷◌, ◌==◌, All, All-mono, save, ok, Bool-cases, inl, inr, arith,
}
use transport_backend.Entities.{
  Uuid, PaymentReceipt, SubscriptionOrder, Database, receipt_is_approved,
}
use transport_backend.Receipts.Queue.{
  is_claimable, claimed, claim_for_analysis, is_held, released_with, release_failed_analysis,
  is_stale, released, release_stale_analyses,
}
use transport_backend.Receipts.Analysis.{Config, max_analysis_attempts, finish_analysis, analysed}
use transport_backend.Provisioning.Buyer.{NewRows}
use transport_backend.Provisioning.Approval.{Moments, Provisioned, finish_approval}
use transport_backend.Provisioning.Rejection.{rejected_receipt}
use transport_backend.Payments.Codes.{
  UniqueCodes, Clear, Fewer, Fewer-save, Fewer-update, check-Clear, UniqueCodes-approve,
  Clear-approve,
}
use transport_backend.Payments.History.Writes.{
  create_receipts, submit_receipts, rejected_receipts, checked_approval, approved_receipts,
}
use transport_backend.Payments.History.{
  System, Step, create, submit, claim, read, write, fail, sweep, begin_approval, end_approval,
  roll_back, reject, History, start, next, unlock,
}

-- An approval under way: its receipt is of its order, and no other receipt of the order paid with
-- the same code.
abbrev ClearApproval : List PaymentReceipt → SubscriptionOrder × PaymentReceipt → Type 0
ClearApproval t a = (a.1.order_id ≡ a.0.id) × Clear t a.1

-- No tracking code has paid twice for an order, nor will it by an approval under way.
pub record IsSound (s : System) : Type 0 where
  pub codes : UniqueCodes s.db.receipts
  pub approvals : All (ClearApproval s.db.receipts) s.approvals

Fewer-approvals :
    (t' t : List PaymentReceipt) (live : List (SubscriptionOrder × PaymentReceipt))
    → Fewer t' t
    → All (ClearApproval t) live
    → All (ClearApproval t') live
Fewer-approvals t' t live fewer h =
    All-mono (ClearApproval t) (ClearApproval t') live
      (λ a c. (c.0, λ j code own full used. c.1 j code own full (fewer j a.1.order_id code used))) h

-- A step that adds no use of a code.
use_less-IsSound :
    {s : System} (db' : Database)
    → IsSound s
    → Fewer db'.receipts s.db.receipts
    → IsSound (record s { db = db' })
use_less-IsSound {s} db' sound fewer = record {
  codes = λ i j order code full a b.
      sound.codes i j order code full (fewer i order code a) (fewer j order code b);
  approvals = Fewer-approvals db'.receipts s.db.receipts s.approvals fewer sound.approvals;
}

-- The writing of one row that is not approved.
save_row :
    {s : System} (db' : Database) (r : PaymentReceipt)
    → IsSound s
    → db'.receipts ≡ save PaymentReceipt.id r s.db.receipts
    → receipt_is_approved r.status ≡ false
    → IsSound (record s { db = db' })
save_row {s} db' r sound e off =
    use_less-IsSound db' sound
      (subst (λ t. Fewer t s.db.receipts) (sym e) (Fewer-save r s.db.receipts off))

keep_rows :
    {s : System} (db' : Database)
    → IsSound s
    → db'.receipts ≡ s.db.receipts
    → IsSound (record s { db = db' })
keep_rows {s} db' sound e =
    use_less-IsSound db' sound
      (subst (λ t. Fewer t s.db.receipts) (sym e) (λ i order code used. used))

held_approval :
    (t : List PaymentReceipt) (live : List (SubscriptionOrder × PaymentReceipt))
    (a : SubscriptionOrder × PaymentReceipt)
    → All (ClearApproval t) live
    → Memᴰ a live
    → ClearApproval t a
held_approval t [] a h m = elim m [ ]
held_approval t (x ∷ live) a (h, hs) (Memᴰ.head e) = subst (ClearApproval t) (sym e) h
held_approval t (x ∷ live) a (h, hs) (Memᴰ.tail m) = held_approval t live a hs m

-- The approvals that stay under way are of other orders.
unlock-All :
    (P : SubscriptionOrder × PaymentReceipt → Type 0) (k : Uuid)
    (live : List (SubscriptionOrder × PaymentReceipt))
    → All P live
    → All (λ a. P a × ((a.0.id == k) ≡ false)) (unlock k live)
unfolding unlock
unlock-All P k [] h = tt
unlock-All P k (a ∷ live) (h, hs) = elim (Bool-cases (a.0.id == k)) [
  | inl e ↦ rw (e) (unlock-All P k live hs)
  | inr e ↦ rw (e) ((h, e), unlock-All P k live hs)
]

end_approval-IsSound :
    {s : System} (rows : NewRows) (m : Moments) (admin : Uuid) (o : SubscriptionOrder)
    (r : PaymentReceipt) (res : Provisioned) (db' : Database)
    → IsSound s
    → Memᴰ (o, r) s.approvals
    → finish_approval rows m admin o r s.db ≡ ok (res, db')
    → IsSound (record s { db = db'; approvals = unlock o.id s.approvals })
end_approval-IsSound {s} rows m admin o r res db' sound under_way h =
    let (own, free) = held_approval s.db.receipts s.approvals (o, r) sound.approvals under_way in
    let wrote = approved_receipts rows m admin o r s.db db' res h in
    record {
      codes =
          subst UniqueCodes (sym wrote)
            (UniqueCodes-approve m admin r s.db.receipts free sound.codes);
      approvals =
          subst (λ t. All (ClearApproval t) (unlock o.id s.approvals)) (sym wrote)
            (All-mono _ _ (unlock o.id s.approvals)
              (λ a c. (
                c.0.0,
                Clear-approve m admin r a.1 s.db.receipts c.0.1
                    (λ same. ground (arith, c, same, own)),
              ))
              (unlock-All (ClearApproval s.db.receipts) o.id s.approvals sound.approvals));
    }

Step-IsSound : (config : Config) {s t : System} → Step config s t → IsSound s → IsSound t
unfolding claim_for_analysis release_failed_analysis release_stale_analyses finish_analysis analysed
    rejected_receipt
Step-IsSound config (create {s} {db'} new_row params o h) sound =
    keep_rows db' sound (create_receipts new_row params s.db db' o h)
Step-IsSound config (submit {s} order_row receipt_row params sub h) sound =
    let (wrote, off) = submit_receipts order_row receipt_row params s.db sub h in
    save_row sub.db sub.receipt sound wrote off
Step-IsSound config (claim {s} now k) sound =
    use_less-IsSound (claim_for_analysis now k s.db).1 sound (
      Fewer-update (is_claimable k) (claimed now) s.db.receipts (λ r. unfold claimed in refl)
        (λ r. unfold claimed in refl))
Step-IsSound config (read {s} k r o h) sound = record {
  codes = sound.codes;
  approvals = sound.approvals;
}
Step-IsSound config (write {s} now result r o m) sound =
    save_row (finish_analysis config now result r o s.db).1
      (finish_analysis config now result r o s.db).0 sound refl refl
Step-IsSound config (fail {s} k error) sound =
    use_less-IsSound (release_failed_analysis k (max_analysis_attempts config) error s.db) sound (
      Fewer-update (is_held k) (released_with (max_analysis_attempts config) error) s.db.receipts
        (λ r. unfold released_with in refl) (λ r. unfold released_with in ground arith))
Step-IsSound config (sweep {s} before) sound =
    use_less-IsSound (release_stale_analyses before (max_analysis_attempts config) s.db).1 sound (
      Fewer-update (is_stale before) (released (max_analysis_attempts config)) s.db.receipts
        (λ r. unfold released in refl) (λ r. unfold released in ground arith))
Step-IsSound config (begin_approval {s} order_id receipt_id o r free h) sound =
    let (own, passed) = checked_approval order_id receipt_id s.db o r h in
    record { codes = sound.codes; approvals = ((own, check-Clear r s.db passed), sound.approvals) }
Step-IsSound config (end_approval {s} {db'} rows m admin o r res under_way h) sound =
    end_approval-IsSound rows m admin o r res db' sound under_way h
Step-IsSound config (roll_back {s} order_id) sound = record {
  codes = sound.codes;
  approvals =
      All-mono _ _ (unlock order_id s.approvals) (λ a c. c.0)
        (unlock-All (ClearApproval s.db.receipts) order_id s.approvals sound.approvals);
}
Step-IsSound config (reject {s} {db'} now order_id receipt_id admin reason h) sound =
    let (r, wrote) = rejected_receipts now order_id receipt_id admin reason s.db db' h in
    save_row db' (rejected_receipt now admin reason r) sound wrote refl

-- Along every history of payments, whatever the analyses and the approvals under way have read, and
-- with any steps between the checks of an approval and its writes: no non-empty tracking code stands
-- on two approved receipts of one order, even when the order is approved a second time.
pub History-IsSound : (config : Config) {s t : System} → IsSound s → History config s t → IsSound t
History-IsSound config sound start = sound
History-IsSound config sound (next before st) =
    Step-IsSound config st (History-IsSound config sound before)
