-- ===== src/Commerce/Payments.antt =====
-- backend/src/modules/commerce-payment/infrastructure/commerce.repository.ts: what an event of the
-- payment provider does (`ingestPayment`), once from the provider and again in a reconciliation. The
-- calendar, the ids of `randomUUID` and the rows of users are arguments.
mod Events
mod Acceptance
pub use Events.*
pub use Acceptance.*
use emu_key.Prelude.{
  ℕ, Bool, true, false, not, ◌&&◌, ◌||◌, Option, none, some, List, [], ◌∷◌, ◌++◌, leb, ltb, ◌==◌,
  is_some, is_id, is_past, if◌then◌else◌, select_first, update_first,
}
use emu_key.Commerce.{AttemptStatus, payment_accepted, is_waiting_payment}
use emu_key.Commerce.Store.{
  Store, OrderRow, AttemptRow, TransactionRow, Outcome, raised, done, CommerceError,
  PaymentClassification, matched, duplicate, unmatched, amount_mismatch, invalid, ReviewReason,
  no_matching_payment_attempt, payment_amount_mismatch, additional_payment, reviewer_text,
  payment_outside_accepted_window, open_review, resolved, accept_and_fulfill, rematched,
  ReviewResolution, TimingBasis, provider, sandbox_receipt, is_open, is_fulfilling, is_accepted,
  is_cancelled, fulfills, payment_review_invalid_resolution, sandbox_payment_not_reconcilable,
  sandbox_payment_already_fulfilled, sandbox_payment_outside_accepted_window,
  payment_effect_not_found, database_error, update_order, update_pending, set_attempt,
}
use emu_key.Commerce.Fulfilment.{
  Issuance, Fulfilment, not_issued, issued, fulfill, notify_review, notify_accepted,
}
use emu_key.Commerce.Orders.{of_order}

-- `sameTransfer`
abbrev pub is_same_transfer : VerifiedPaymentEvent → AttemptRow → TransactionRow → Bool
is_same_transfer e a t =
    elim e.event_transaction_ref [ none ↦ false | some ref ↦ is_id t.transaction_ref ref ]
    && is_id t.payment_attempt_id a.attempt_id

-- A payment of an order that is paid already, by the transaction that has paid it.
abbrev pub repeated :
    List ℕ
    → ℕ
    → ℕ
    → VerifiedPaymentEvent
    → AttemptRow
    → OrderRow
    → Store
    → Option TransactionRow
    → Outcome PaymentIngestResult
repeated admins now id e a o s none = raised payment_effect_not_found
repeated admins now id e a o s (some original) =
    if is_same_transfer e a original
    then done (result_of duplicate id) (
        add_transaction
          (record (on_attempt a (evidence now id e duplicate)) {
            duplicate_of = some original.transaction_id;
          })
          s)
    else insert_for_review admins (some o.customer_user_id)
        (timed e.event_timing
          (for_review additional_payment (on_attempt a (evidence now id e unmatched))))
        s

abbrev pub is_succeeded : AttemptStatus → Bool
is_succeeded AttemptStatus.succeeded = true
is_succeeded _ = false

-- A payment of an order that may be paid already.
abbrev pub already_paid :
    List ℕ
    → ℕ
    → ℕ
    → VerifiedPaymentEvent
    → Option Reopened
    → AttemptRow
    → OrderRow
    → Store
    → Outcome PaymentIngestResult
already_paid admins now id e (some r) a o s = raised sandbox_payment_already_fulfilled
already_paid admins now id e none a o s =
    repeated admins now id e a o s (select_first (fulfills o.order_id) s.transactions)

-- From the attempt and its order on.
abbrev pub ingest_matched :
    Issuance
    → List ℕ
    → ℕ
    → ℕ
    → VerifiedPaymentEvent
    → Option Reopened
    → AttemptRow
    → OrderRow
    → Store
    → Outcome PaymentIngestResult
ingest_matched i admins now id e r a o s =
    if not (a.amount_vnd == e.event_amount)
    then unless_reopened r sandbox_payment_not_reconcilable (
        insert_for_review admins (some o.customer_user_id)
          (for_review payment_amount_mismatch (on_attempt a (evidence now id e amount_mismatch))) s)
    else if is_accepted o.order_status || is_succeeded a.status
    then already_paid admins now id e r a o s
    else let at = effective_at now e r in
      if not (eligible now at r a o)
      then unless_reopened r sandbox_payment_outside_accepted_window (
          insert_for_review admins (some o.customer_user_id)
            (timed e.event_timing (
              for_review payment_outside_accepted_window
                (on_attempt a (evidence now id e unmatched))))
            s)
      else accept i admins now at id e r a o s

abbrev pub lane_with : AttemptRow → Option OrderRow → Option (AttemptRow × OrderRow)
lane_with a none = none
lane_with a (some o) = some (a, o)

abbrev pub lane_of : Store → Option AttemptRow → Option (AttemptRow × OrderRow)
lane_of s none = none
lane_of s (some a) =
    lane_with a (select_first (λ (o : OrderRow). o.order_id == a.attempt_order_id) s.orders)

-- The attempt with the event's reference, and its order.
unfoldable pub find_lane : ℕ → Store → Option (AttemptRow × OrderRow)
find_lane reference s =
    lane_of s (select_first (λ (a : AttemptRow). a.provider_reference == reference) s.attempts)

-- Whether a reconciliation names the attempt and the order that the event's reference has.
abbrev pub names_lane : Option ManualMatch → TransactionRow → AttemptRow → OrderRow → Bool
names_lane (some m) t a o = m.match_order_id == o.order_id && m.match_attempt_id == a.attempt_id
names_lane none t a o =
    is_id t.payment_order_id o.order_id && is_id t.payment_attempt_id a.attempt_id

abbrev pub is_reconcilable_lane : Option Reopened → AttemptRow → OrderRow → Bool
is_reconcilable_lane none a o = true
is_reconcilable_lane (some r) a o = names_lane r.request.manual r.stored a o

abbrev pub ingest_lane :
    Issuance
    → List ℕ
    → ℕ
    → ℕ
    → VerifiedPaymentEvent
    → Option Reopened
    → Store
    → Option (AttemptRow × OrderRow)
    → Outcome PaymentIngestResult
ingest_lane i admins now id e r s none = unless_reopened r sandbox_payment_not_reconcilable (
    insert_for_review admins none
      (for_review no_matching_payment_attempt (evidence now id e unmatched)) s)
ingest_lane i admins now id e r s (some (a, o)) =
    if is_reconcilable_lane r a o
    then ingest_matched i admins now id e r a o s
    else raised sandbox_payment_not_reconcilable

abbrev pub is_reviewable : PaymentClassification → ReviewResolution → Bool
is_reviewable unmatched m = true
is_reviewable invalid m = true
is_reviewable amount_mismatch rematched = true
is_reviewable _ _ = false

abbrev pub is_unmatched : PaymentClassification → Bool
is_unmatched unmatched = true
is_unmatched _ = false

abbrev pub is_outside_window : Option ReviewReason → Bool
is_outside_window (some payment_outside_accepted_window) = true
is_outside_window _ = false

abbrev pub is_sandbox : TimingBasis → Bool
is_sandbox sandbox_receipt = true
is_sandbox provider = false

-- What stops a reconciliation before the attempt is read.
abbrev pub refusal : TimingBasis → TransactionRow → Option ManualMatch → Option CommerceError
refusal basis t (some m) =
    if is_open t.review_status && is_reviewable t.classification m.resolution
    then none
    else some payment_review_invalid_resolution
refusal basis t none =
    if is_sandbox basis
      && is_unmatched t.classification
      && is_open t.review_status
      && is_outside_window t.review_reason
    then none
    else some sandbox_payment_not_reconcilable

abbrev pub unless : {A : Type 0} → Option CommerceError → Outcome A → Outcome A
unless none rest = rest
unless (some error) rest = raised error

abbrev pub ingest_stored :
    Issuance
    → List ℕ
    → ℕ
    → VerifiedPaymentEvent
    → Reconciliation
    → Store
    → Option TransactionRow
    → Outcome PaymentIngestResult
ingest_stored i admins now e r s none = raised payment_review_invalid_resolution
ingest_stored i admins now e r s (some t) =
    if is_fulfilling t.review_resolution
    then done (result_of duplicate t.transaction_id) s
    else if not (t.transaction_id == r.target_transaction) || not r.is_system_admin
    then raised payment_review_invalid_resolution
    else unless (refusal e.event_timing t r.manual) (
        ingest_lane i admins now r.target_transaction e (some (record { request = r; stored = t }))
          s (find_lane e.event_reference s))

abbrev pub ingest_fresh :
    Issuance
    → List ℕ
    → ℕ
    → ℕ
    → VerifiedPaymentEvent
    → Store
    → Option TransactionRow
    → Outcome PaymentIngestResult
ingest_fresh i admins now fresh e s (some t) = done (result_of duplicate t.transaction_id) s
ingest_fresh i admins now fresh e s none =
    ingest_lane i admins now fresh e none s (find_lane e.event_reference s)

abbrev pub is_event : VerifiedPaymentEvent → TransactionRow → Bool
is_event e t = t.provider_event_id == e.event_id

-- `ingestPayment`; `fresh` is the id of `randomUUID`.
unfoldable pub ingest_payment :
    Issuance
    → List ℕ
    → ℕ
    → ℕ
    → VerifiedPaymentEvent
    → Option Reconciliation
    → Store
    → Outcome PaymentIngestResult
ingest_payment i admins now fresh e none s =
    ingest_fresh i admins now fresh e s (select_first (is_event e) s.transactions)
ingest_payment i admins now fresh e (some r) s =
    ingest_stored i admins now e r s (select_first (is_event e) s.transactions)
