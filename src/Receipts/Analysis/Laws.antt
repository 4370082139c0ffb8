-- ===== src/Receipts/Analysis/Laws.antt =====
-- What an analysis stores, and that a receipt always reaches an admin.
use mathlib.Core.Option.{some-injective}
use transport_backend.Base.{
  ap, ℕ, ◌*◌, ◌≡◌, ◌∙◌, ==_refl, ◌↔◌, refl, true, Option, none, some, ◌==◌, if◌then◌else◌, Text,
  codes, text_eq, by_id, by_id-save, Result, ok, arith,
}
use transport_backend.Entities.{
  Uuid, Time, PaymentReceipt, SubscriptionOrder, Database, analyzing, needs_review, under_review,
}
use transport_backend.Receipts.Matching.{card_matches, name_matches}
use transport_backend.Receipts.Analysis.{
  AnalysisResult, Config, expected_rials, amount_agrees, read_for_analysis, in_hand, analysed,
  finish_analysis, analyze_receipt,
}

-- The amounts agree exactly when the receipt shows the order's amount in rials: ten times the
-- amount of an order in tomans, the amount itself of any other.
pub amount_agrees_iff :
    (order : SubscriptionOrder) (amount : Option ℕ)
    → (amount_agrees amount (expected_rials order) ≡ true) ↔ (
        amount
        ≡ some (if text_eq order.currency (codes "IRT") then order.amount * 10 else order.amount))
unfolding amount_agrees expected_rials
amount_agrees_iff order none = ground arith
amount_agrees_iff order (some a) = ground arith

module _ (config : Config) (now : Time) (result : AnalysisResult) (receipt : PaymentReceipt)
    (order : SubscriptionOrder) (db : Database) where
  -- Whatever the model answers, the receipt waits for an admin and its order is under review; every
  -- other order and receipt, and every subscription, stays.
  pub finish_analysis_lem :
      ((finish_analysis config now result receipt order db).0.status ≡ needs_review)
      × ((k : Uuid)
          → by_id SubscriptionOrder.id k
              (finish_analysis config now result receipt order db).1.orders
            ≡ (if order.id == k
                then some (record order { status = under_review })
                else by_id SubscriptionOrder.id k db.orders))
      × ((k : Uuid)
          → by_id PaymentReceipt.id k
              (finish_analysis config now result receipt order db).1.receipts
            ≡ (if receipt.id == k
                then some (finish_analysis config now result receipt order db).0
                else by_id PaymentReceipt.id k db.receipts))
      × ((finish_analysis config now result receipt order db).1.subscriptions ≡ db.subscriptions)
  unfolding finish_analysis analysed
  finish_analysis_lem = (
    refl,
    λ k. by_id-save SubscriptionOrder.id k _ db.orders,
    λ k. by_id-save PaymentReceipt.id k _ db.receipts,
    refl,
  )

pub read_in_hand :
    (receipt_id : Uuid) (db : Database) (r : PaymentReceipt) (o : SubscriptionOrder)
    → by_id PaymentReceipt.id receipt_id db.receipts ≡ some r
    → r.status ≡ analyzing
    → by_id SubscriptionOrder.id r.order_id db.orders ≡ some o
    → read_for_analysis receipt_id db ≡ ok (in_hand r o)
unfolding read_for_analysis
read_in_hand receipt_id db r o listed status ordered = ground arith

pub analyze_in_hand :
    (analyze : Text → Result AnalysisResult) (meanwhile : Database → Database) (config : Config)
    (now : Time) (receipt_id : Uuid) (db : Database) (r : PaymentReceipt) (o : SubscriptionOrder)
    (result : AnalysisResult)
    → read_for_analysis receipt_id db ≡ ok (in_hand r o)
    → analyze r.image_url ≡ ok result
    → analyze_receipt analyze meanwhile config now receipt_id db ≡ (
      ok (finish_analysis config now result r o (meanwhile db)).0,
      (finish_analysis config now result r o (meanwhile db)).1,
    )
unfolding analyze_receipt
analyze_in_hand analyze meanwhile config now receipt_id db r o result held answer =
    rw (held, analyze_receipt) (rw (answer, analyze_receipt))

-- The verdict that is stored for the admin: the amount agrees exactly when the receipt shows the
-- order's amount in rials, and the card and the name are those that the matching rules accept.
-- The receipt then waits for review.
pub analyze_receipt_verdict :
    (analyze : Text → Result AnalysisResult) (meanwhile : Database → Database) (config : Config)
    (now : Time) (receipt_id : Uuid) (db : Database) (r : PaymentReceipt) (o : SubscriptionOrder)
    (result : AnalysisResult)
    → by_id PaymentReceipt.id receipt_id db.receipts ≡ some r
    → r.status ≡ analyzing
    → by_id SubscriptionOrder.id r.order_id db.orders ≡ some o
    → analyze r.image_url ≡ ok result
    → (saved : PaymentReceipt) × ((analyze_receipt analyze meanwhile config now receipt_id db).0
        ≡ ok saved)
      × (by_id PaymentReceipt.id r.id
            (analyze_receipt analyze meanwhile config now receipt_id db).1.receipts
          ≡ some saved)
      × (saved.status ≡ needs_review)
      × ((saved.amount_matched ≡ some true) ↔ (
          result.amount
          ≡ some (if text_eq o.currency (codes "IRT") then o.amount * 10 else o.amount)))
      × (saved.destination_card_matched
          ≡ some (card_matches result.destination_card config.card_no))
      × (saved.destination_name_matched
          ≡ some (name_matches result.destination_name config.card_owner))
unfolding finish_analysis analysed
analyze_receipt_verdict analyze meanwhile config now receipt_id db r o result listed status ordered
      answer =
    let run =
      analyze_in_hand analyze meanwhile config now receipt_id db r o result
        (read_in_hand receipt_id db r o listed status ordered) answer in
    let agrees = amount_agrees_iff o result.amount in
    (
      (finish_analysis config now result r o (meanwhile db)).0,
      ap (λ x. x.0) run,
      rw run
          ((finish_analysis_lem config now result r o (meanwhile db)).2 r.id ∙ rw (==_refl r.id)),
      refl,
      (λ h. agrees.0 (some-injective _ _ h), λ h. ap some (agrees.1 h)),
      refl,
      refl,
    )
