-- ===== src/Commerce/Payments/Acceptance.antt =====
-- commerce.repository.ts of backend/src/modules/commerce-payment: everything that an eligible payment
-- changes (`ingestPayment`).
use emu_key.Prelude.{ℕ, Bool, false, not, ◌&&◌, Option, none, some, List, leb, ◌==◌, update_first}
use emu_key.Commerce.{AttemptStatus, payment_accepted}
use emu_key.Commerce.Store.{
  Store, OrderRow, AttemptRow, TransactionRow, Outcome, raised, done, matched, reviewer_text,
  resolved, accept_and_fulfill, ReviewResolution, database_error, update_order, update_pending,
  set_attempt,
}
use emu_key.Commerce.Fulfilment.{
  Issuance, Fulfilment, not_issued, issued, fulfill, notify_review, notify_accepted,
}
use emu_key.Commerce.Orders.{of_order}
use emu_key.Commerce.Payments.Events.{
  VerifiedPaymentEvent, ManualMatch, Reopened, PaymentIngestResult, result_of, evidence, on_attempt,
  timed, add_transaction,
}

abbrev pub accept_resolution : Option ManualMatch → ReviewResolution
accept_resolution none = accept_and_fulfill
accept_resolution (some m) = m.resolution

-- The UPDATE of the reconciled row.
abbrev pub reconcile_row :
    VerifiedPaymentEvent → Reopened → AttemptRow → TransactionRow → TransactionRow
reconcile_row e r a t = record (timed e.event_timing (on_attempt a t)) {
  review_status = some resolved;
  review_resolution = some (accept_resolution r.request.manual);
  review_reason = some (reviewer_text r.request.reason);
  reviewed_by = some r.request.actor_id;
}

-- The row of the payment: a new one, or the reconciled one.
abbrev pub record_effect :
    ℕ → ℕ → VerifiedPaymentEvent → Option Reopened → AttemptRow → Store → Store
record_effect now id e none a s =
    add_transaction (timed e.event_timing (on_attempt a (evidence now id e matched))) s
record_effect now id e (some r) a s = record s {
  transactions =
      update_first (λ (t : TransactionRow). t.transaction_id == id) (reconcile_row e r a)
        s.transactions;
}

abbrev pub is_attempt : ℕ → AttemptRow → Bool
is_attempt id a = a.attempt_id == id

-- `order_id = $1 AND id <> $2`
abbrev pub is_other : AttemptRow → AttemptRow → Bool
is_other a b = of_order a.attempt_order_id b && not (is_attempt a.attempt_id b)

-- The three updates of attempts: the paid one, the expired ones and the others.
abbrev pub settle_attempts : ℕ → AttemptRow → List AttemptRow → Option (List AttemptRow)
settle_attempts now a attempts =
    let paid =
      update_first (is_attempt a.attempt_id) (set_attempt now AttemptStatus.succeeded) attempts in
    elim (update_pending now AttemptStatus.expired (λ b. is_other a b && leb b.expires_at now)
      paid) [
        | none ↦ none
        | some rest ↦ update_pending now AttemptStatus.superseded (is_other a) rest
      ]

abbrev pub accept_payment : OrderRow → OrderRow
accept_payment o = record o { order_status = payment_accepted }

abbrev pub accepted_notices : List ℕ → OrderRow → Option Reopened → ℕ → Store → Store
accepted_notices admins o none id s = notify_accepted id o.customer_user_id s
accepted_notices admins o (some r) id s =
    notify_accepted id o.customer_user_id
      (notify_review false admins (some o.customer_user_id) id s)

abbrev pub finish :
    List ℕ → OrderRow → Option Reopened → ℕ → Store → Fulfilment → Outcome PaymentIngestResult
finish admins o r id s (not_issued error) = raised error
finish admins o r id s (issued new) =
    done (result_of matched id) (accepted_notices admins o r id (record s { effects = new }))

abbrev pub accept_order :
    Issuance
    → List ℕ
    → ℕ
    → ℕ
    → ℕ
    → Option Reopened
    → OrderRow
    → Store
    → Option (List AttemptRow)
    → Outcome PaymentIngestResult
accept_order i admins now at id r o s none = raised database_error
accept_order i admins now at id r o s (some attempts) =
    elim (update_order now o.order_id accept_payment s.orders) [
      | none ↦ raised database_error
      | some orders ↦
          finish admins o r id (record s { orders = orders; attempts = attempts })
            (fulfill i o at s.effects)
    ]

-- Everything that an eligible payment changes.
abbrev pub accept :
    Issuance
    → List ℕ
    → ℕ
    → ℕ
    → ℕ
    → VerifiedPaymentEvent
    → Option Reopened
    → AttemptRow
    → OrderRow
    → Store
    → Outcome PaymentIngestResult
accept i admins now at id e r a o s =
    accept_order i admins now at id r o (record_effect now id e r a s)
      (settle_attempts now a s.attempts)
