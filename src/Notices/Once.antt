-- ===== src/Notices/Once.antt =====
-- Histories of the sends of one notice: `deliverQueued` of
-- src/services/notification/cargoNotification.service.ts through any messengers, at any times.
use transport_backend.Base.{
  ℕ, ◌+◌, ◌≤◌, ◌≡◌, refl, ap, ◌∙◌, inl, inr, Bool, true, false, ◌&&◌, ◌||◌, not, Option, none, some,
  List, [], ◌∷◌, ◌==◌, arith, ltb, if◌then◌else◌, Bool-cases,
}
use transport_backend.Entities.{Time}
use transport_backend.Notices.Retry.{delivery_retry_window_ms}
use transport_backend.Notices.Queued.{
  Messenger, bale, eitaa, rubika, telegram, whatsapp, place, Notice, Column, Answer, deliver_queued,
  settle_send, sent_elsewhere, update_column, skip_others, is_unsent, is_sent, DeliveryStatus,
  pending, sent, failed, skipped,
}

-- One call of `deliverQueued`.
pub record QueuedCall : Type 0 where
  pub now : Time
  pub messenger : Messenger
  pub held_back : Bool
  pub is_open : Bool
  pub link : Option Answer

unfoldable pub after : QueuedCall → Notice → Notice
after q n = (deliver_queued q.now q.messenger q.held_back q.is_open q.link n).1

unfoldable pub after_all : List QueuedCall → Notice → Notice
after_all [] n = n
after_all (q ∷ qs) n = after_all qs (after q n)

abbrev one_if : Bool → ℕ
one_if true = 1
one_if false = 0

abbrev sent_by : Messenger → Notice → ℕ
sent_by m n = one_if (is_sent ((n.columns m).status))

-- How many messengers have sent the notice.
abbrev pub count_sent : Notice → ℕ
count_sent n =
    sent_by bale n + sent_by eitaa n + sent_by rubika n + sent_by telegram n + sent_by whatsapp n

-- Whether a call sends the notice: its messenger was pending, and now has sent it.
abbrev pub sends : QueuedCall → Notice → Bool
sends q n =
    is_unsent ((n.columns q.messenger).status) && is_sent (((after q n).columns q.messenger).status)

unfoldable pub sends_in : List QueuedCall → Notice → ℕ
sends_in [] n = 0
sends_in (q ∷ qs) n = one_if (sends q n) + sends_in qs (after q n)

count-update :
    (m : Messenger) (c : Column) (n : Notice)
    → count_sent (update_column m c n) + sent_by m n ≡ count_sent n + one_if (is_sent c.status)
unfolding update_column
count-update bale c n = omega arith
count-update eitaa c n = omega arith
count-update rubika c n = omega arith
count-update telegram c n = omega arith
count-update whatsapp c n = omega arith

own_column : (m : Messenger) (c : Column) (n : Notice) → (update_column m c n).columns m ≡ c
unfolding update_column
own_column bale c n = refl
own_column eitaa c n = refl
own_column rubika c n = refl
own_column telegram c n = refl
own_column whatsapp c n = refl

skip_keeps :
    (m o : Messenger) (n : Notice)
    → is_sent (((skip_others m n).columns o).status) ≡ is_sent ((n.columns o).status)
unfolding skip_others
skip_keeps m o n =
    elim (Bool-cases (not (place o == place m) && is_unsent ((n.columns o).status))) [
      | inl pend ↦ rw (pend, skip_others) (ground arith)
      | inr kept ↦ rw (kept, skip_others) refl
    ]

count-skip : (m : Messenger) (n : Notice) → count_sent (skip_others m n) ≡ count_sent n
count-skip m n =
    rw
      (
        skip_keeps m bale n,
        skip_keeps m eitaa n,
        skip_keeps m rubika n,
        skip_keeps m telegram n,
        skip_keeps m whatsapp n,
      )
      refl

-- What follows a send changes no messenger that has sent the notice.
count-settle :
    (m : Messenger) (is_open : Bool) (s : DeliveryStatus) (at : Option Time) (pause : Option ℕ)
    (n n' : Notice)
    → (count_sent (settle_send m is_open s at pause n n').1 ≡ count_sent n')
      × (is_sent (((settle_send m is_open s at pause n n').1.columns m).status)
          ≡ is_sent ((n'.columns m).status))
unfolding settle_send
count-settle m is_open sent at pause n n' = (count-skip m n', skip_keeps m m n')
count-settle m is_open pending (some at) pause n n' = (refl, refl)
count-settle m is_open pending none pause n n' = (refl, refl)
count-settle m is_open failed at pause n n' = (refl, refl)
count-settle m is_open skipped at pause n n' = (refl, refl)

none_sent : (n : Notice) → sent_elsewhere n ≡ false → count_sent n ≡ 0
unfolding sent_elsewhere
none_sent n h = ground (arith, h)

not_sent : (b : Bool) → is_sent (if b then skipped else failed) ≡ false
not_sent true = refl
not_sent false = refl

-- From one row to another the messengers that have sent are one more if this one sends, which it
-- does only if none has.
abbrev SendEffect : Messenger → Notice → Notice → Type 0
SendEffect m n n' =
    (one_if (is_unsent ((n.columns m).status) && is_sent ((n'.columns m).status)) + count_sent n
      ≡ count_sent n')
    × (count_sent n ≤ 1 → count_sent n' ≤ 1)

not_both : (s : DeliveryStatus) → is_unsent s ≡ true → is_sent s ≡ false
not_both s h = ground (arith, h)

unchanged : (m : Messenger) (n : Notice) → SendEffect m n n
unchanged m n = (ground arith, λ h. h)

closed :
    (m : Messenger) (c : Column) (n : Notice)
    → is_sent c.status ≡ false
    → is_unsent ((n.columns m).status) ≡ true
    → SendEffect m n (update_column m c n)
closed m c n h p =
    let same : count_sent (update_column m c n) ≡ count_sent n =
      omega (arith, count-update m c n, ap one_if h, ap one_if (not_both _ p)) in
    (rw (own_column m c n, p, h) (omega (arith, same)), λ l. rw same l)

delivered :
    (m : Messenger) (is_open : Bool) (s : DeliveryStatus) (at : Option Time) (pause : Option ℕ)
    (c : Column) (n : Notice)
    → count_sent n ≡ 0
    → is_unsent ((n.columns m).status) ≡ true
    → SendEffect m n (settle_send m is_open s at pause n (update_column m c n)).1
delivered m is_open s at pause c n none_yet p =
    let settle_send-Goes = count-settle m is_open s at pause n (update_column m c n) in
    let counted = count-update m c n in
    let own = not_both ((n.columns m).status) p in
    let status = settle_send-Goes.1 ∙ ap (λ d. is_sent (Column.status d)) (own_column m c n) in
    let grown : one_if (is_sent c.status) + count_sent n
        ≡ count_sent (settle_send m is_open s at pause n (update_column m c n)).1 =
      omega (arith, settle_send-Goes.0, counted, ap one_if own) in
    (rw (p, status) grown, λ l. ground (arith, grown, none_yet))

deliver-SendEffect :
    (now : Time) (m : Messenger) (held_back is_open : Bool) (link : Option Answer) (n : Notice)
    → SendEffect m n (deliver_queued now m held_back is_open link n).1
unfolding deliver_queued
deliver-SendEffect now m held_back is_open link n =
    elim (Bool-cases (not (is_unsent ((n.columns m).status)))) [
      | inl settled_before ↦ rw (settled_before, deliver_queued) (unchanged m n)
      | inr open_still ↦
          let waits : is_unsent ((n.columns m).status) ≡ true = ground (arith, open_still) in
          elim (Bool-cases
            (sent_elsewhere n || ltb (n.created_at + delivery_retry_window_ms) now)) [
              | inl over_ ↦
                  rw (open_still, over_, deliver_queued)
                    (closed m _ n (not_sent (sent_elsewhere n)) waits)
              | inr young ↦ elim (Bool-cases (n.has_listing && held_back)) [
                | inl kept ↦ rw (open_still, young, kept, deliver_queued) (unchanged m n)
                | inr sent_alone ↦
                    rw (open_still, young, sent_alone, deliver_queued)
                      (delivered m is_open _ _ _ _ n (none_sent n (ground (arith, young))) waits)
              ]
            ]
    ]

-- The sum of a history.
counted_in :
    (qs : List QueuedCall) (n : Notice)
    → (sends_in qs n + count_sent n ≡ count_sent (after_all qs n))
      × (count_sent n ≤ 1 → count_sent (after_all qs n) ≤ 1)
unfolding sends_in after_all after
counted_in [] n = (omega arith, λ h. h)
counted_in (q ∷ qs) n =
    let step = deliver-SendEffect q.now q.messenger q.held_back q.is_open q.link n in
    let rest = counted_in qs (after q n) in (omega (arith, step.0, rest.0), λ h. rest.1 (step.1 h))

-- However often, when and through whichever messengers a notice is handed to `deliverQueued`,
-- whatever the messengers answer: from a notice that at most one messenger has sent, at most one
-- has at the end, and the calls that send it are none, or one if none had sent it before.
pub sent_once :
    (qs : List QueuedCall) (n : Notice)
    → count_sent n ≤ 1
    → (count_sent (after_all qs n) ≤ 1) × (sends_in qs n + count_sent n ≤ 1)
sent_once qs n h = let sums = counted_in qs n in (sums.1 h, omega (arith, sums.0, sums.1 h))
