-- ===== src/Commerce/Payments/Events.antt =====
-- commerce.repository.ts of backend/src/modules/commerce-payment: an event of the payment provider,
-- the row that is stored for it, and whether it may pay for an order (`ingestPayment`).
use emu_key.Prelude.{
  ℕ, Bool, true, false, not, ◌&&◌, ◌||◌, Option, none, some, List, [], ◌∷◌, ◌++◌, leb, ltb, is_some,
  is_past,
}
use emu_key.Commerce.{AttemptStatus, is_waiting_payment}
use emu_key.Commerce.Store.{
  Store, OrderRow, AttemptRow, TransactionRow, Outcome, raised, done, CommerceError,
  PaymentClassification, ReviewReason, open_review, ReviewResolution, TimingBasis, provider,
  sandbox_receipt, is_cancelled,
}
use emu_key.Commerce.Fulfilment.{notify_review}

pub record VerifiedPaymentEvent : Type 0 where
  pub event_id : ℕ
  pub event_reference : ℕ  -- providerReference
  pub event_amount : ℕ
  pub occurred : ℕ
  pub event_transaction_ref : Option ℕ
  pub event_timing : TimingBasis  -- `timingBasis ?? 'PROVIDER'`

-- The part of ReviewPaymentDto that a manual reconciliation reads.
pub record ManualMatch : Type 0 where
  pub resolution : ReviewResolution
  pub match_order_id : ℕ
  pub match_attempt_id : ℕ

pub record Reconciliation : Type 0 where
  pub target_transaction : ℕ
  pub actor_id : ℕ
  pub is_system_admin : Bool
  pub reason : ℕ
  pub manual : Option ManualMatch

-- A reconciliation with the transaction that is stored for its event.
pub record Reopened : Type 0 where
  pub request : Reconciliation
  pub stored : TransactionRow

pub record PaymentIngestResult : Type 0 where
  pub outcome : PaymentClassification
  pub result_transaction : ℕ

abbrev pub result_of : PaymentClassification → ℕ → PaymentIngestResult
result_of c id = record { outcome = c; result_transaction = id }

-- The row of an INSERT without the columns of its kind.
abbrev pub evidence : ℕ → ℕ → VerifiedPaymentEvent → PaymentClassification → TransactionRow
evidence now id e c = record {
  transaction_id = id;
  provider_event_id = e.event_id;
  transaction_ref = e.event_transaction_ref;
  payment_order_id = none;
  payment_attempt_id = none;
  amount_minor = e.event_amount;
  classification = c;
  review_status = none;
  review_reason = none;
  review_resolution = none;
  refund_reference = none;
  reviewed_by = none;
  duplicate_of = none;
  occurred_at = e.occurred;
  received_at = now;
  timing_basis = provider;
}

abbrev pub on_attempt : AttemptRow → TransactionRow → TransactionRow
on_attempt a t = record t {
  payment_order_id = some a.attempt_order_id;
  payment_attempt_id = some a.attempt_id;
}

abbrev pub for_review : ReviewReason → TransactionRow → TransactionRow
for_review reason t = record t { review_status = some open_review; review_reason = some reason }

abbrev pub timed : TimingBasis → TransactionRow → TransactionRow
timed basis t = record t { timing_basis = basis }

abbrev pub add_transaction : TransactionRow → Store → Store
add_transaction t s = record s { transactions = s.transactions ++ t ∷ [] }

-- An INSERT for review, its notices and the result.
abbrev pub insert_for_review :
    List ℕ → Option ℕ → TransactionRow → Store → Outcome PaymentIngestResult
insert_for_review admins customer t s =
    done (result_of t.classification t.transaction_id)
      (notify_review true admins customer t.transaction_id (add_transaction t s))

-- `if (reconciliation) throw …`
abbrev pub unless_reopened :
    Option Reopened → CommerceError → Outcome PaymentIngestResult → Outcome PaymentIngestResult
unless_reopened (some r) error rest = raised error
unless_reopened none error rest = rest

abbrev pub is_manual : Option Reopened → Bool
is_manual none = false
is_manual (some r) = is_some r.request.manual

-- `['PENDING', 'EXPIRED', 'SUPERSEDED'].includes(status)`, with the test on the supersession
abbrev pub in_lane : AttemptRow → ℕ → Bool
in_lane a at = elim a.status [
  | AttemptStatus.pending ↦ true
  | AttemptStatus.expired ↦ true
  | AttemptStatus.superseded ↦ elim a.superseded_at [ none ↦ false | some since ↦ ltb at since ]
  | _ ↦ false
]

abbrev pub effective_at : ℕ → VerifiedPaymentEvent → Option Reopened → ℕ
effective_at now e r = elim e.event_timing [
  | provider ↦ e.occurred
  | sandbox_receipt ↦ elim r [ none ↦ now | some k ↦ k.stored.received_at ]
]

abbrev pub received_in_time : ℕ → OrderRow → Option Reopened → Bool
received_in_time now o none = ltb now o.ipn_accept_until
received_in_time now o (some r) = ltb r.stored.received_at o.ipn_accept_until

-- `eligible`
abbrev pub eligible : ℕ → ℕ → Option Reopened → AttemptRow → OrderRow → Bool
eligible now at r a o =
    (is_waiting_payment o.order_status
      || not (is_manual r) && is_cancelled o.order_status && o.auto_cancelled)
    && in_lane a at
    && is_past o.terms_accepted_at at
    && leb a.created_at at
    && ltb at a.expires_at
    && ltb at o.payment_due_at
    && received_in_time now o r
