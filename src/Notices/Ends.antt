-- ===== src/Notices/Ends.antt =====
-- The jobs of src/services/notification/cargoDeliveryQueue.service.ts come to an end.
use transport_backend.Base.{
  ℕ, suc, ◌+◌, ◌-◌, ◌*◌, ◌/◌, ◌≤◌, ◌<◌, ◌≡◌, refl, ◌⊎◌, inl, inr, Bool, true, false, ◌&&◌, ◌||◌,
  not, Option, none, some, List, [], ◌∷◌, All, length, arith, leb, ltb, find, find_sound,
  Bool-cases, Option-cases,
}
use transport_backend.Entities.{Time}
use transport_backend.Notices.Retry.{delivery_retry_window_ms}
use transport_backend.Notices.Queued.{
  Messenger, bale, eitaa, rubika, telegram, whatsapp, place, Notice, Answer, QueuedOutcome, done,
  held, retry, next, deliver_queued, settle_send, next_messenger, hand_on, hand_on_if,
  messenger_order, sent_elsewhere, update_column, is_unsent, DeliveryStatus, pending, sent, failed,
  skipped, skip_others,
}
use transport_backend.Notices.Jobs.{
  DeliveryJob, Turn, Followed, over, dead, again, follow, follow_thrown, follow_queued, handle,
  run_job,
}

-- How much of its life a job has left: the messengers after its own, the throws that it survives
-- and the seconds of the three hours of its notice.
unfoldable pub life_left : Time → DeliveryJob → Notice → ℕ
life_left now job n =
    6 * (5 - place job.messenger) + (5 - job.tries) + (n.created_at + 10_801_000 - now) / 1000

-- What a send may answer at a time: it is done, it is tried again while the notice is young, or it
-- goes on to a later messenger.
pub data Goes (now : Time) (m : Messenger) (n : Notice) : QueuedOutcome → Type 0 where
  is_done : Goes now m n done
  is_kept_back : Goes now m n held
  is_again :
      (at : Time) (pause : Option ℕ)
      → now ≤ n.created_at + 10_800_000
      → Goes now m n (retry at pause)
  goes_on : (o : Messenger) → place m < place o → Goes now m n (next o)

hand_on-Goes :
    (now : Time) (m : Messenger) (n : Notice) → Goes now m n (hand_on (next_messenger m n))
unfolding next_messenger
hand_on-Goes now m n =
    elim (Option-cases
      (find (λ o. ltb (place m) (place o) && is_unsent ((n.columns o).status)) messenger_order)) [
        | inl e ↦ rw e is_done
        | inr (o, e) ↦ rw e (
            goes_on o (
              ground (
                arith,
                find_sound (λ o. ltb (place m) (place o) && is_unsent ((n.columns o).status))
                    messenger_order e,
              )))
      ]

hand_on_if-Goes :
    (now : Time) (m : Messenger) (is_open : Bool) (n : Notice)
    → Goes now m n (hand_on_if is_open (next_messenger m n))
hand_on_if-Goes now m true n = hand_on-Goes now m n
hand_on_if-Goes now m false n = is_done

settle_send-Goes :
    (now : Time) (m : Messenger) (is_open : Bool) (s : DeliveryStatus) (at : Option Time)
    (pause : Option ℕ) (n n' : Notice)
    → now ≤ n.created_at + 10_800_000
    → Goes now m n (settle_send m is_open s at pause n n').0
unfolding settle_send
settle_send-Goes now m is_open sent at pause n n' y = is_done
settle_send-Goes now m is_open pending (some at) pause n n' y = is_again at pause y
settle_send-Goes now m is_open pending none pause n n' y = hand_on_if-Goes now m is_open n
settle_send-Goes now m is_open failed at pause n n' y = hand_on_if-Goes now m is_open n
settle_send-Goes now m is_open skipped at pause n n' y = hand_on_if-Goes now m is_open n

settle_send_created :
    (m : Messenger) (is_open : Bool) (s : DeliveryStatus) (at : Option Time) (pause : Option ℕ)
    (n n' : Notice)
    → (settle_send m is_open s at pause n n').1.created_at ≡ n'.created_at
unfolding settle_send skip_others
settle_send_created m is_open sent at pause n n' = refl
settle_send_created m is_open pending (some at) pause n n' = refl
settle_send_created m is_open pending none pause n n' = refl
settle_send_created m is_open failed at pause n n' = refl
settle_send_created m is_open skipped at pause n n' = refl

deliver_queued-Goes :
    (now : Time) (m : Messenger) (held_back is_open : Bool) (link : Option Answer) (n : Notice)
    → Goes now m n (deliver_queued now m held_back is_open link n).0
      × ((deliver_queued now m held_back is_open link n).1.created_at ≡ n.created_at)
unfolding deliver_queued update_column
deliver_queued-Goes now m held_back is_open link n =
    elim (Bool-cases (not (is_unsent ((n.columns m).status)))) [
      | inl settled_before ↦ rw (settled_before, deliver_queued) (is_done, refl)
      | inr open_still ↦
          elim (Bool-cases
            (sent_elsewhere n || ltb (n.created_at + delivery_retry_window_ms) now)) [
              | inl over_ ↦ rw (open_still, over_, deliver_queued) (is_done, refl)
              | inr young ↦ elim (Bool-cases (n.has_listing && held_back)) [
                | inl kept ↦ rw (open_still, young, kept, deliver_queued) (is_kept_back, refl)
                | inr sent_alone ↦
                    rw (open_still, young, sent_alone, deliver_queued)
                      (
                        settle_send-Goes now m is_open _ _ _ n _ (ground (arith, young)),
                        settle_send_created m is_open _ _ _ n _,
                      )
              ]
            ]
    ]

place_bound : (m : Messenger) → place m ≤ 4
place_bound bale = omega arith
place_bound eitaa = omega arith
place_bound rubika = omega arith
place_bound telegram = omega arith
place_bound whatsapp = omega arith

-- A job that comes again has less of its life left then.
abbrev Shorter : Time → ℕ → DeliveryJob → Notice → Followed → Notice → Type 0
Shorter now late job n (again delay job') n' =
    life_left (now + delay + late) job' n' < life_left now job n
Shorter now late job n over n' = Unit
Shorter now late job n dead n' = Unit

followed-Shorter :
    (now late : ℕ) (job : DeliveryJob) (n n' : Notice) (o : QueuedOutcome)
    → Goes now job.messenger n o
    → n'.created_at ≡ n.created_at
    → Shorter now late job n (follow now job o) n'
unfolding follow life_left
followed-Shorter now late job n n' done is_done e = tt
followed-Shorter now late job n n' held is_kept_back e = tt
followed-Shorter now late job n n' (retry at pause) (is_again _ _ y) e = omega (arith, e, y)
followed-Shorter now late job n n' (next o) (goes_on _ l) e = omega (arith, e, l, place_bound o)

thrown-Shorter :
    (now late : ℕ) (job : DeliveryJob) (n : Notice)
    → Shorter now late job n (follow_thrown true now job) n
unfolding follow_thrown follow_queued follow life_left
thrown-Shorter now late job n = elim (Bool-cases (leb 5 (suc job.tries))) [
  | inl last ↦ rw (last, follow_thrown) tt
  | inr more ↦ rw (more, follow_thrown) (ground (arith, more))
]

handled-Shorter :
    (now : Time) (turn : Turn) (job : DeliveryJob) (n : Notice)
    → turn.published ≡ true
    → Shorter now turn.late job n (handle now turn job n).0 (handle now turn job n).1
unfolding handle follow_queued
handled-Shorter now turn job n p =
    let goes = deliver_queued-Goes now job.messenger turn.held_back turn.is_open turn.link n in
    elim (Bool-cases turn.thrown) [
      | inl thrown ↦ rw (thrown, p, handle) (thrown-Shorter now turn.late job n)
      | inr sent_ ↦ rw (sent_, p, handle) (followed-Shorter now turn.late job n _ _ goes.0 goes.1)
    ]

Followed-cases :
    (f : Followed)
    → (f ≡ over) ⊎ (f ≡ dead) ⊎ ((delay : ℕ) × (job : DeliveryJob) × (f ≡ again delay job))
Followed-cases over = inl refl
Followed-cases dead = inr (inl refl)
Followed-cases (again delay job) = inr (inr (delay, job, refl))

-- Whatever a job meets at its turns, and however late the queue is, if the queue takes each next
-- step: it has ended after no more turns than it had of its life left.
pub run_ends :
    (now : Time) (turns : List Turn) (job : DeliveryJob) (n : Notice)
    → All (λ turn. turn.published ≡ true) turns
    → life_left now job n < length turns
    → (r : Followed × Notice) × (run_job now turns job n ≡ some r)
unfolding run_job
run_ends now [] job n ps h = absurd (omega (arith, h))
run_ends now (turn ∷ turns) job n (p, ps) h =
    let handled = handle now turn job n in
    let shorter = handled-Shorter now turn job n p in
    elim (Followed-cases handled.0) [
      | inl e ↦ ((over, handled.1), rw (e, run_job) refl)
      | inr (inl e) ↦ ((dead, handled.1), rw (e, run_job) refl)
      | inr (inr (delay, next_job, e)) ↦
          let rest =
            run_ends (now + delay + turn.late) turns next_job handled.1 ps
              (omega (arith, h, rw e at shorter)) in
          (rest.0, rw (e, run_job) rest.1)
    ]

-- A job that sends a notice, handled from a moment on when the notice is there, whatever it meets at
-- its turns and however late the queue gives it back, if the queue takes each next step: it has
-- ended, acknowledged or moved to the dead letters, after at most 10,837 turns.
pub job_ends :
    (now : Time) (turns : List Turn) (job : DeliveryJob) (n : Notice)
    → All (λ turn. turn.published ≡ true) turns
    → n.created_at ≤ now
    → 10_837 ≤ length turns
    → (r : Followed × Notice) × (run_job now turns job n ≡ some r)
unfolding life_left
job_ends now turns job n ps h l = run_ends now turns job n ps (omega (arith, h, l))
