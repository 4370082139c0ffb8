-- ===== src/Receipts/Queue/Laws.antt =====
-- A claim is won once, attempts are bounded, and the queue hands out work oldest first.
use transport_backend.Base.{◌≡◌, false, arith, count_where-update_where}
use transport_backend.Entities.{Uuid, Time, Database}
use transport_backend.Receipts.Queue.{is_claimable, claimed, claim_for_analysis}

-- Whoever claims a receipt second, while the first claim stands, does not win it.
pub claim_once :
    (now later : Time) (receipt_id : Uuid) (db : Database)
    → (claim_for_analysis later receipt_id (claim_for_analysis now receipt_id db).1).0 ≡ false
unfolding claim_for_analysis
claim_once now later receipt_id db = ground (
  arith,
  count_where-update_where (is_claimable receipt_id) (claimed now) db.receipts (λ r. ground arith),
)
