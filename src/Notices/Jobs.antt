-- ===== src/Notices/Jobs.antt =====
-- The jobs of src/services/notification/cargoDeliveryQueue.service.ts that send a notice: `handle`
-- and `follow`, with the retry queue, which gives a job back once its delay is over. The queue
-- itself is RabbitMQ's; what happens at each turn of a job is a parameter.
use transport_backend.Base.{
  ℕ, suc, ◌+◌, ◌-◌, max, Bool, true, false, Option, none, some, List, [], ◌∷◌, leb, if◌then◌else◌,
}
use transport_backend.Entities.{Time}
use transport_backend.Notices.Queued.{
  Messenger, Notice, Answer, QueuedOutcome, done, held, retry, next, deliver_queued,
}

abbrev pub max_tries : ℕ
max_tries = 5

abbrev pub error_retry_ms : ℕ
error_retry_ms = 30_000

-- DeliveryJob of the kind 'send'; the id of the notice is left out.
pub record DeliveryJob : Type 0 where
  pub messenger : Messenger
  pub tries : ℕ

-- A turn of a job: whether `deliverQueued` throws (and leaves the notice), what it meets, whether
-- the queue takes the next step, and how late it gives the job back the next time.
pub record Turn : Type 0 where
  pub thrown : Bool
  pub held_back : Bool
  pub is_open : Bool
  pub link : Option Answer
  pub published : Bool
  pub late : ℕ

-- What becomes of a job: it is over (acknowledged), it goes to the dead letters, or it comes again
-- after a delay.
pub data Followed : Type 0 where
  over : Followed
  dead : Followed
  again : (delay : ℕ) → DeliveryJob → Followed

-- `follow`
unfoldable pub follow : Time → DeliveryJob → QueuedOutcome → Followed
follow now job done = over
follow now job held = over
follow now job (retry at pause) = again (max 1000 (at - now)) job
follow now job (next m) = again 0 (record { messenger = m; tries = 0 })

-- `follow` under its `try`: a job whose next step the queue does not take comes again as it was.
unfoldable pub follow_queued :
    (published : Bool) → Time → (original : DeliveryJob) → DeliveryJob → QueuedOutcome → Followed
follow_queued true now original job outcome = follow now job outcome
follow_queued false now original job done = over
follow_queued false now original job held = again 0 original
follow_queued false now original job (retry at pause) = again 0 original
follow_queued false now original job (next m) = again 0 original

-- `handle` after a throw.
unfoldable pub follow_thrown : (published : Bool) → Time → DeliveryJob → Followed
follow_thrown published now job =
    if leb max_tries (suc job.tries)
    then dead
    else follow_queued published now job (record job { tries = suc job.tries })
        (retry (now + error_retry_ms) none)

-- `handle`
unfoldable pub handle : Time → Turn → DeliveryJob → Notice → Followed × Notice
handle now turn job n =
    let sent = deliver_queued now job.messenger turn.held_back turn.is_open turn.link n in
    if turn.thrown
    then (follow_thrown turn.published now job, n)
    else (follow_queued turn.published now job job sent.0, sent.1)

-- A job through its turns, the first one at the moment `now`: how it ends, or none if it has not
-- after the last of them.
unfoldable pub run_job : Time → List Turn → DeliveryJob → Notice → Option (Followed × Notice)
run_job now [] job n = none
run_job now (turn ∷ turns) job n =
    let handled = handle now turn job n in
    elim handled.0 [
      | over ↦ some (over, handled.1)
      | dead ↦ some (dead, handled.1)
      | again delay next_job ↦ run_job (now + delay + turn.late) turns next_job handled.1
    ]
