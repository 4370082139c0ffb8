-- ===== src/Tests/Sends.antt =====
-- A notice that Bale refuses goes through Eitaa, and a job that always fails ends.
use transport_backend.Base.{
  ◌+◌, ◌≤◌, ◌≡◌, refl, true, false, none, some, List, [], ◌∷◌, length-replicate, All-replicate,
  replicate, arith,
}
use transport_backend.Notices.Retry.{MessengerError, rate_limit_wait_ms, is_permanent}
use transport_backend.Notices.Queued.{
  Notice, bale, eitaa, pending, deliver_queued, sent_elsewhere, settle_send, deliver_column,
  failed_column, asked_wait, retry_time, update_column, skip_others,
}
use transport_backend.Notices.Jobs.{Turn, Followed, run_job}
use transport_backend.Notices.Ends.{job_ends}
use transport_backend.Notices.Once.{QueuedCall, count_sent, after, after_all, sends_in, sent_once}

abbrev notice : Notice
notice = record {
  created_at = 1000;
  has_listing = true;
  columns = λ m. record { status = pending; attempts = 0; next_retry_at = none };
}

abbrev blocked : MessengerError
blocked = record { code = some 403; retry_after = none }

abbrev calls : List QueuedCall
calls =
    record {
      now = 2000;
      messenger = bale;
      held_back = false;
      is_open = true;
      link = some (some blocked);
    }
    ∷ record { now = 3000; messenger = eitaa; held_back = false; is_open = true; link = some none }
    ∷ record { now = 4000; messenger = bale; held_back = false; is_open = true; link = some none }
    ∷ []

sent_once_example :
    (count_sent (after_all calls notice) ≤ 1) × (sends_in calls notice + count_sent notice ≤ 1)
sent_once_example = sent_once calls notice (omega arith)

calls_sent : sends_in calls notice ≡ 1
unfolding sends_in after deliver_queued sent_elsewhere settle_send deliver_column failed_column
    asked_wait rate_limit_wait_ms retry_time is_permanent update_column skip_others
calls_sent = refl

abbrev failing : Turn
failing = record {
  thrown = true;
  held_back = false;
  is_open = true;
  link = none;
  published = true;
  late = 0;
}

job_ends_example :
    (r : Followed × Notice) × (run_job 2000
        (replicate 10837 failing)
        (record { messenger = bale; tries = 0 })
        notice
      ≡ some r)
job_ends_example =
    job_ends 2000 (replicate 10837 failing) (record { messenger = bale; tries = 0 }) notice
      (All-replicate (λ turn. turn.published ≡ true) 10837 failing refl) (omega arith)
      (omega (arith, length-replicate 10837 failing))
