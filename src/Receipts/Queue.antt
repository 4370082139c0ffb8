-- ===== src/Receipts/Queue.antt =====
-- PaymentReceiptRepository (paymentReceipt.repository.ts): the receipts as a queue of work.
pub mod Laws
use transport_backend.Base.{
  ℕ, zero, ◌+◌, Bool, true, false, ◌&&◌, not, Option, none, some, List, [], ◌∷◌, map, ◌==◌, ltb,
  leb, if◌then◌else◌, take, keep, Text, text_eq, is_empty, by_id, save, update_where, count_where,
}
use transport_backend.Entities.{
  Uuid, Time, ReceiptStatus, pending_analysis, analyzing, needs_review, PaymentReceipt,
  SubscriptionOrder, Database, failed_with, receipt_is_pending, receipt_is_analyzing,
}

-- `saveWithOrder`: the order, then the receipt with the order's id, in one transaction.
unfoldable pub save_with_order :
    PaymentReceipt → SubscriptionOrder → Database → PaymentReceipt × Database
save_with_order receipt order db =
    let saved = record receipt { order_id = order.id } in
    (
      saved,
      record db {
        orders = save SubscriptionOrder.id order db.orders;
        receipts = save PaymentReceipt.id saved db.receipts;
      },
    )

-- `existsTrackingCode`, which is always called with a receipt to leave out.
unfoldable pub exists_tracking_code : Text → Uuid → Database → Bool
exists_tracking_code code except db =
    if is_empty code
    then false
    else ltb 0 (
        count_where
          (λ r.
            elim r.tracking_code [ none ↦ false | some c ↦ text_eq c code ] && not (r.id == except))
          db.receipts)

unfoldable pub is_claimable : Uuid → PaymentReceipt → Bool
is_claimable receipt_id r = r.id == receipt_id && receipt_is_pending r.status

unfoldable pub claimed : Time → PaymentReceipt → PaymentReceipt
claimed now r = record r {
  status = analyzing;
  analysis_started_at = some now;
  analysis_attempts = r.analysis_attempts + 1;
}

-- `claimForAnalysis`: whether this call won the receipt.
unfoldable pub claim_for_analysis : Time → Uuid → Database → Bool × Database
unfolding is_claimable claimed
claim_for_analysis now receipt_id db = (
  count_where (is_claimable receipt_id) db.receipts == 1,
  record db { receipts = update_where (is_claimable receipt_id) (claimed now) db.receipts },
)

-- The `CASE` of both releases: back in the queue, or to an admin after the last attempt.
unfoldable pub released_status : ℕ → PaymentReceipt → ReceiptStatus
released_status max_attempts r =
    if leb max_attempts r.analysis_attempts then needs_review else pending_analysis

unfoldable pub is_held : Uuid → PaymentReceipt → Bool
is_held receipt_id r = r.id == receipt_id && receipt_is_analyzing r.status

unfoldable pub released_with : ℕ → Text → PaymentReceipt → PaymentReceipt
unfolding released_status
released_with max_attempts error r = record r {
  status = released_status max_attempts r;
  ai_raw_result = some (failed_with (take 2000 error));
}

-- `releaseFailedAnalysis`
unfoldable pub release_failed_analysis : Uuid → ℕ → Text → Database → Database
unfolding is_held released_with
release_failed_analysis receipt_id max_attempts error db = record db {
  receipts = update_where (is_held receipt_id) (released_with max_attempts error) db.receipts;
}

abbrev pub before_opt : Option Time → Time → Bool
before_opt none t = false
before_opt (some s) t = ltb s t

unfoldable pub is_stale : Time → PaymentReceipt → Bool
is_stale started_before r =
    receipt_is_analyzing r.status && before_opt r.analysis_started_at started_before

unfoldable pub released : ℕ → PaymentReceipt → PaymentReceipt
unfolding released_status
released max_attempts r = record r { status = released_status max_attempts r }

-- `releaseStaleAnalyses`: the number of receipts released, and the table after it.
unfoldable pub release_stale_analyses : Time → ℕ → Database → ℕ × Database
unfolding is_stale released
release_stale_analyses started_before max_attempts db = (
  count_where (is_stale started_before) db.receipts,
  record db {
    receipts = update_where (is_stale started_before) (released max_attempts) db.receipts;
  },
)

-- `ORDER BY createdAt ASC`
unfoldable pub insert_by_age : PaymentReceipt → List PaymentReceipt → List PaymentReceipt
insert_by_age r [] = r ∷ []
insert_by_age r (x ∷ xs) =
    if leb r.created_at x.created_at then r ∷ x ∷ xs else x ∷ insert_by_age r xs

unfoldable pub oldest_first : List PaymentReceipt → List PaymentReceipt
unfolding insert_by_age
oldest_first [] = []
oldest_first (r ∷ rs) = insert_by_age r (oldest_first rs)

-- `findPendingAnalysisIds`
unfoldable pub find_pending_analysis_ids : Time → ℕ → Database → List Uuid
unfolding oldest_first
find_pending_analysis_ids created_before limit db = map PaymentReceipt.id (
    take limit (
      oldest_first
        (keep (λ r. receipt_is_pending r.status && ltb r.created_at created_before) db.receipts)))
