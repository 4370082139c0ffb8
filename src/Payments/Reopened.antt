-- ===== src/Payments/Reopened.antt =====
-- An order that is approved while another of its receipts is still in the queue.
use transport_backend.Base.{◌≡◌, ◌∙◌, refl, some, ==_refl, by_id, Text, Result, ok}
use transport_backend.Entities.{
  Uuid, Time, PaymentReceipt, SubscriptionOrder, Database, analyzing, approved, under_review,
}
use transport_backend.Receipts.Analysis.{AnalysisResult, Config, analyze_receipt}
use transport_backend.Receipts.Analysis.Laws.{read_in_hand, analyze_in_hand, finish_analysis_lem}
use transport_backend.Provisioning.Approval.{check_order}

under_review-checks :
    (o : SubscriptionOrder) → check_order (record o { status = under_review }) ≡ ok tt
unfolding check_order
under_review-checks o = refl

-- The analysis of a further receipt of an order that is already approved takes the order back
-- under review, and then the check that refuses a second approval lets it pass: the analysis does
-- not look at the order's status.
pub analysis_reopens :
    (analyze : Text → Result AnalysisResult) (config : Config) (now : Time) (receipt_id : Uuid)
    (db : Database) (r : PaymentReceipt) (o : SubscriptionOrder) (result : AnalysisResult)
    → by_id PaymentReceipt.id receipt_id db.receipts ≡ some r
    → r.status ≡ analyzing
    → by_id SubscriptionOrder.id r.order_id db.orders ≡ some o
    → o.status ≡ approved
    → analyze r.image_url ≡ ok result
    → (by_id SubscriptionOrder.id o.id
          (analyze_receipt analyze (λ d. d) config now receipt_id db).1.orders
        ≡ some (record o { status = under_review }))
      × (check_order (record o { status = under_review }) ≡ ok tt)
analysis_reopens analyze config now receipt_id db r o result listed held ordered was answer = (
  rw
      (analyze_in_hand analyze (λ d. d) config now receipt_id db r o result
        (read_in_hand receipt_id db r o listed held ordered) answer)
      ((finish_analysis_lem config now result r o db).1 o.id ∙ rw (==_refl o.id)),
  under_review-checks o,
)
