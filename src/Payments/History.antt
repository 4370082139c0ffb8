-- ===== src/Payments/History.antt =====
-- The operations on payments as steps of one system. An analysis is two steps, since the service
-- waits for the vision model between its reads and its writes; an approval is two steps as well,
-- since it locks the row of its order only. Whatever else that lock would make wait is let through
-- here, so the real histories are among these.
pub mod Laws
pub mod Writes
use transport_backend.Base.{◌≡◌, Bool, false, List, [], ◌∷◌, ◌==◌, if◌then◌else◌, any, Text, ok}
use transport_backend.Entities.{Uuid, Time, PaymentReceipt, SubscriptionOrder, Database}
use transport_backend.Orders.{NewRow, CreateOrder, create_order}
use transport_backend.Receipts.Queue.{
  claim_for_analysis, release_failed_analysis, release_stale_analyses,
}
use transport_backend.Receipts.Submission.{SubmitReceipt, Submitted, submit_receipt}
use transport_backend.Receipts.Analysis.{
  AnalysisResult, Config, max_analysis_attempts, in_hand, read_for_analysis, finish_analysis,
}
use transport_backend.Provisioning.Buyer.{NewRows}
use transport_backend.Provisioning.Approval.{Moments, Provisioned, check_approval, finish_approval}
use transport_backend.Provisioning.Rejection.{reject_receipt}
use mathlib.Core.List.{Memᴰ}

-- The database, and what the analyses and the approvals under way have read.
pub record System : Type 0 where
  pub db : Database
  pub in_flight : List (PaymentReceipt × SubscriptionOrder)
  pub approvals : List (SubscriptionOrder × PaymentReceipt)

-- Whether an approval under way holds the lock of the order.
unfoldable pub holds_lock : Uuid → List (SubscriptionOrder × PaymentReceipt) → Bool
holds_lock order_id approvals = any (λ a. a.0.id == order_id) approvals

-- The approvals under way once the one that holds this lock has ended.
unfoldable pub unlock :
    Uuid → List (SubscriptionOrder × PaymentReceipt) → List (SubscriptionOrder × PaymentReceipt)
unlock order_id [] = []
unlock order_id (a ∷ rest) =
    let others = unlock order_id rest in if a.0.id == order_id then others else a ∷ others

pub data Step (config : Config) : System → System → Type 0 where
  create :
      {s : System} {db' : Database} (row : NewRow) (params : CreateOrder) (o : SubscriptionOrder)
      → create_order row params s.db ≡ ok (o, db')
      → Step config s (record s { db = db' })
  submit :
      {s : System} (order_row receipt_row : NewRow) (params : SubmitReceipt) (sub : Submitted)
      → submit_receipt order_row receipt_row params s.db ≡ ok sub
      → Step config s (record s { db = sub.db })
  claim :
      {s : System} (now : Time) (k : Uuid)
      → Step config s (record s { db = (claim_for_analysis now k s.db).1 })
  read :
      {s : System} (k : Uuid) (r : PaymentReceipt) (o : SubscriptionOrder)
      → read_for_analysis k s.db ≡ ok (in_hand r o)
      → Step config s (record s { in_flight = (r, o) ∷ s.in_flight })
  write :
      {s : System} (now : Time) (result : AnalysisResult) (r : PaymentReceipt)
      (o : SubscriptionOrder)
      → Memᴰ (r, o) s.in_flight
      → Step config s (record s { db = (finish_analysis config now result r o s.db).1 })
  fail :
      {s : System} (k : Uuid) (error : Text)
      → Step config s
          (record s { db = release_failed_analysis k (max_analysis_attempts config) error s.db })
  sweep :
      {s : System} (before : Time)
      → Step config s
          (record s { db = (release_stale_analyses before (max_analysis_attempts config) s.db).1 })
  begin_approval :
      {s : System} (order_id receipt_id : Uuid) (o : SubscriptionOrder) (r : PaymentReceipt)
      → holds_lock order_id s.approvals ≡ false
      → check_approval order_id receipt_id s.db ≡ ok (o, r)
      → Step config s (record s { approvals = (o, r) ∷ s.approvals })
  end_approval :
      {s : System} {db' : Database} (rows : NewRows) (m : Moments) (admin : Uuid)
      (o : SubscriptionOrder) (r : PaymentReceipt) (res : Provisioned)
      → Memᴰ (o, r) s.approvals
      → finish_approval rows m admin o r s.db ≡ ok (res, db')
      → Step config s (record s { db = db'; approvals = unlock o.id s.approvals })
  roll_back :
      {s : System} (order_id : Uuid)
      → Step config s (record s { approvals = unlock order_id s.approvals })
  reject :
      {s : System} {db' : Database} (now : Time) (order_id receipt_id admin : Uuid) (reason : Text)
      → reject_receipt now order_id receipt_id admin reason s.db ≡ ok db'
      → Step config s (record s { db = db' })

pub data History (config : Config) (s : System) : System → Type 0 where
  start : History config s s
  next : {t u : System} → History config s t → Step config t u → History config s u
