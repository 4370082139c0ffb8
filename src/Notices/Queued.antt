-- ===== src/Notices/Queued.antt =====
-- `deliverQueued` of src/services/notification/cargoNotification.service.ts, with `deliverBot` and
-- `deliverWhatsapp`: one send of a notice through one messenger. What the messenger answers,
-- whether the user is linked to it, whether the load is still open and whether the notice is held
-- for a summary are parameters; the message itself, its picture and its voice are left out.
use transport_backend.Base.{
  ℕ, suc, ◌+◌, Bool, true, false, ◌&&◌, ◌||◌, not, Option, none, some, List, [], ◌∷◌, ◌==◌, ltb,
  any, find, if◌then◌else◌,
}
use transport_backend.Entities.{Time}
use transport_backend.Notices.Retry.{
  MessengerError, delivery_retry_window_ms, next_delivery_retry_at, is_permanent,
  rate_limit_wait_ms,
}

pub data Messenger : Type 0 where
  bale eitaa rubika telegram whatsapp : Messenger

-- The place in MESSENGER_ORDER.
abbrev pub place : Messenger → ℕ
place bale = 0
place eitaa = 1
place rubika = 2
place telegram = 3
place whatsapp = 4

abbrev pub messenger_order : List Messenger
messenger_order = bale ∷ eitaa ∷ rubika ∷ telegram ∷ whatsapp ∷ []

pub data DeliveryStatus : Type 0 where
  pending sent failed skipped : DeliveryStatus

abbrev pub is_unsent : DeliveryStatus → Bool
is_unsent pending = true
is_unsent _ = false

abbrev pub is_sent : DeliveryStatus → Bool
is_sent sent = true
is_sent _ = false

-- The columns of one messenger in the row of a notice.
pub record Column : Type 0 where
  pub status : DeliveryStatus
  pub attempts : ℕ
  pub next_retry_at : Option Time

pub record Notice : Type 0 where
  pub created_at : Time
  pub has_listing : Bool
  pub columns : Messenger → Column

-- `updateDelivery` of the columns of one messenger.
unfoldable pub update_column : Messenger → Column → Notice → Notice
update_column m c n = record n { columns = λ o. if place o == place m then c else n.columns o }

-- What a messenger answers: the message is sent and recorded so, or an error; the code takes a
-- record that fails for an error of the send.
abbrev pub Answer : Type 0
Answer = Option MessengerError

-- DeliveryResult
pub record DeliveryResult : Type 0 where
  pub status : DeliveryStatus
  pub retry_at : Option Time
  pub pause_ms : Option ℕ

abbrev is_whatsapp : Messenger → Bool
is_whatsapp whatsapp = true
is_whatsapp _ = false

abbrev pending_if : Option Time → DeliveryStatus
pending_if none = failed
pending_if (some at) = pending

-- The time of the next try after an error; WhatsApp's errors all count as passing.
unfoldable pub retry_time : Time → Time → Messenger → MessengerError → Column → Option Time
retry_time now created_at m e c =
    if not (is_whatsapp m) && is_permanent e
    then none
    else next_delivery_retry_at (suc c.attempts) created_at now

-- How long the messenger asks to wait; WhatsApp is not asked.
unfoldable pub asked_wait : Messenger → MessengerError → Option ℕ
asked_wait m e = if is_whatsapp m then none else rate_limit_wait_ms e

-- The columns after an error.
unfoldable pub failed_column :
    Time → Time → Messenger → MessengerError → Column → DeliveryResult × Column
failed_column now created_at m e c =
    let at = retry_time now created_at m e c in
    elim (asked_wait m e) [
      | some wait ↦ (
        record { status = pending; retry_at = some (now + wait); pause_ms = some wait },
        record c { next_retry_at = some (now + wait) },
      )
      | none ↦ (
        record { status = pending_if at; retry_at = at; pause_ms = none },
        record { status = pending_if at; attempts = suc c.attempts; next_retry_at = at },
      )
    ]

-- `deliverBot` and `deliverWhatsapp` on the columns of their messenger; `link` is none without one,
-- or for a load that is not open.
unfoldable pub deliver_column :
    Time → Time → Messenger → Option Answer → Column → DeliveryResult × Column
deliver_column now created_at m link c =
    if not (is_unsent c.status)
    then (record { status = c.status; retry_at = none; pause_ms = none }, c)
    else elim link [
      | none ↦ (
        record { status = skipped; retry_at = none; pause_ms = none },
        record c { status = skipped; next_retry_at = none },
      )
      | some none ↦ (
        record { status = sent; retry_at = none; pause_ms = none },
        record { status = sent; attempts = suc c.attempts; next_retry_at = none },
      )
      | some (some e) ↦ failed_column now created_at m e c
    ]

-- QueuedOutcome: `held` stands for what `holdForDigest` answers of a notice that it holds.
pub data QueuedOutcome : Type 0 where
  done held : QueuedOutcome
  retry : Time → Option ℕ → QueuedOutcome
  next : Messenger → QueuedOutcome

-- The messengers that are still pending are skipped once one has sent the notice.
unfoldable pub skip_others : Messenger → Notice → Notice
skip_others m n = record n {
  columns = λ o.
      if not (place o == place m) && is_unsent ((n.columns o).status)
      then record (n.columns o) { status = skipped; next_retry_at = none }
      else n.columns o;
}

-- `sentElsewhere`
unfoldable pub sent_elsewhere : Notice → Bool
sent_elsewhere n = any (λ m. is_sent ((n.columns m).status)) messenger_order

-- The next messenger that is still pending.
unfoldable pub next_messenger : Messenger → Notice → Option Messenger
next_messenger m n =
    find (λ o. ltb (place m) (place o) && is_unsent ((n.columns o).status)) messenger_order

abbrev pub hand_on : Option Messenger → QueuedOutcome
hand_on none = done
hand_on (some m) = next m

-- The next messenger, unless the load is no longer open.
abbrev pub hand_on_if : Bool → Option Messenger → QueuedOutcome
hand_on_if true m = hand_on m
hand_on_if false m = done

-- What follows the send of one messenger, by its result.
unfoldable pub settle_send :
    Messenger
    → Bool
    → DeliveryStatus
    → Option Time
    → Option ℕ
    → Notice
    → Notice
    → QueuedOutcome × Notice
settle_send m is_open sent at pause before n = (done, skip_others m n)
settle_send m is_open pending (some at) pause before n = (retry at pause, n)
settle_send m is_open pending none pause before n =
    (hand_on_if is_open (next_messenger m before), n)
settle_send m is_open failed at pause before n = (hand_on_if is_open (next_messenger m before), n)
settle_send m is_open skipped at pause before n = (hand_on_if is_open (next_messenger m before), n)

-- `deliverQueued`
unfoldable pub deliver_queued :
    Time
    → Messenger
    → (held_back is_open : Bool) → (link : Option Answer) → Notice
    → QueuedOutcome × Notice
deliver_queued now m held_back is_open link n =
    let c = n.columns m in
    let stale = ltb (n.created_at + delivery_retry_window_ms) now in
    let reach = if is_open then link else none in
    let delivered = deliver_column now n.created_at m reach c in
    if not (is_unsent c.status)
    then (done, n)
    else if sent_elsewhere n || stale
    then (
      done,
      update_column m
          (record c { status = if sent_elsewhere n then skipped else failed; next_retry_at = none })
          n,
    )
    else if n.has_listing && held_back
    then (held, n)
    else settle_send m is_open delivered.0.status delivered.0.retry_at delivered.0.pause_ms n
        (update_column m delivered.1 n)
