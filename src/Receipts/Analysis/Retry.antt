-- ===== src/Receipts/Analysis/Retry.antt =====
-- A receipt whose analysis always fails: it is tried as often as allowed, and then left to an
-- admin.
use transport_backend.Base.{
  ℕ, zero, suc, ◌+◌, ◌≡◌, ◌∙◌, refl, true, some, leb, if◌then◌else◌, Text, by_id, by_id_key,
  by_id-update_where, Distinct, Distinct-update_where, count_where-by_id, Result, err, Exception,
  not_found, replicate, Option-cases, inl, inr, arith,
}
use transport_backend.Entities.{
  Uuid, Time, PaymentReceipt, SubscriptionOrder, Database, analyzing, needs_review,
  pending_analysis, receipt_is_pending,
}
use transport_backend.Receipts.Queue.{
  is_claimable, claimed, claim_for_analysis, is_held, released_with, release_failed_analysis,
}
use transport_backend.Receipts.Analysis.{
  AnalysisResult, Config, max_analysis_attempts, read_for_analysis, analyze_receipt, settle,
  process_receipt, process_all, error_message,
}

-- The receipt that a table holds under an id.
abbrev pub Holds : Database → Uuid → PaymentReceipt → Type 0
Holds db k r =
    Distinct PaymentReceipt.id db.receipts × (by_id PaymentReceipt.id k db.receipts ≡ some r)

claim_wins :
    (now : Time) (k : Uuid) (db : Database) (r : PaymentReceipt)
    → Holds db k r
    → r.status ≡ pending_analysis
    → ((claim_for_analysis now k db).0 ≡ true)
      × Holds (claim_for_analysis now k db).1 k (claimed now r)
unfolding claim_for_analysis
claim_wins now k db r (d, e) waits = (
  ground (
    arith,
    count_where-by_id PaymentReceipt.id (λ x. receipt_is_pending x.status) k db.receipts {r = r} d
        e,
  ),
  (
    Distinct-update_where PaymentReceipt.id (is_claimable k) (claimed now) db.receipts (λ x. refl)
        d,
    by_id-update_where PaymentReceipt.id (is_claimable k) (claimed now) k db.receipts (λ x. refl)
        ∙ rw e (ground (arith, by_id_key PaymentReceipt.id k db.receipts {r = r} e)),
  ),
)

release_returns :
    (limit : ℕ) (error : Text) (k : Uuid) (db : Database) (r : PaymentReceipt)
    → Holds db k r
    → r.status ≡ analyzing
    → Holds (release_failed_analysis k limit error db) k (released_with limit error r)
unfolding release_failed_analysis
release_returns limit error k db r (d, e) held = (
  Distinct-update_where PaymentReceipt.id (is_held k) (released_with limit error) db.receipts
      (λ x. refl) d,
  by_id-update_where PaymentReceipt.id (is_held k) (released_with limit error) k db.receipts
        (λ x. refl)
      ∙ rw e (ground (arith, by_id_key PaymentReceipt.id k db.receipts {r = r} e)),
)

module _ (analyze : Text → Result AnalysisResult)
    (fails : (image : Text) → (e : Exception) × (analyze image ≡ err e)) where
  analyze_fails :
      (config : Config) (now : Time) (k : Uuid) (db : Database) (r : PaymentReceipt)
      → by_id PaymentReceipt.id k db.receipts ≡ some r
      → r.status ≡ analyzing
      → (e : Exception) × (analyze_receipt analyze (λ d. d) config now k db ≡ (err e, db))
  unfolding analyze_receipt read_for_analysis
  analyze_fails config now k db r listed held =
      elim (Option-cases (by_id SubscriptionOrder.id r.order_id db.orders)) [
        | inl missing ↦ (not_found "Subscription order not found", ground arith)
        | inr (o, found) ↦ let (e, failed) = fails r.image_url in (e, ground arith)
      ]

  -- One failed round: the attempt is counted, and the receipt is back in the queue, or with an
  -- admin after the last attempt.
  process_failed :
      (config : Config) (now : Time) (k : Uuid) (db : Database) (r : PaymentReceipt)
      → Holds db k r
      → r.status ≡ pending_analysis
      → (r' : PaymentReceipt) × Holds (process_receipt analyze (λ d. d) config now k db) k r'
        × (r'.analysis_attempts ≡ r.analysis_attempts + 1)
        × (r'.status ≡ (
            if leb (max_analysis_attempts config) (r.analysis_attempts + 1)
            then needs_review
            else pending_analysis))
  unfolding process_receipt
  process_failed config now k db r holds waits =
      let (won, held) = claim_wins now k db r holds waits in
      let db' = (claim_for_analysis now k db).1 in
      let (e, failed) =
        analyze_fails config now k db' (claimed now r) held.1 (unfold claimed in refl) in
      (
        released_with (max_analysis_attempts config) (error_message e) (claimed now r),
        rw won (
            rw failed (
              unfold settle in
              release_returns (max_analysis_attempts config) (error_message e) k db' (claimed now r)
                held (unfold claimed in refl))),
        (unfold released_with claimed in refl),
        (unfold released_with claimed in refl),
      )

  -- A receipt that waits in the queue and whose analysis fails every time is with an admin after
  -- the attempts that are left to it.
  pub analysis_gives_up :
      (config : Config) (clock : Uuid → Time) (k : Uuid) (n : ℕ) (db : Database)
      (r : PaymentReceipt)
      → Holds db k r
      → r.status ≡ pending_analysis
      → r.analysis_attempts + suc n ≡ max_analysis_attempts config
      → (r' : PaymentReceipt) × Holds
          (process_all analyze (λ d. d) config clock (replicate (suc n) k) db)
          k
          r'
        × (r'.status ≡ needs_review)
        × (r'.analysis_attempts ≡ max_analysis_attempts config)
  unfolding process_all
  analysis_gives_up config clock k zero db r holds waits left =
      let (r', h, a, s) = process_failed config (clock k) k db r holds waits in
      (r', h, ground arith, omega arith)
  analysis_gives_up config clock k (suc n) db r holds waits left =
      let (r', h, a, s) = process_failed config (clock k) k db r holds waits in
      analysis_gives_up config clock k n (process_receipt analyze (λ d. d) config (clock k) k db) r'
        h (ground arith) (omega arith)
