-- ===== src/Commerce/Review.antt =====
-- backend/src/modules/commerce-payment/infrastructure/commerce.repository.ts: closing the review of a
-- payment, and the evidence from which a reviewer matches it again.
use emu_key.Prelude.{
  ℕ, Bool, true, false, not, ◌&&◌, ◌||◌, Option, none, some, List, ◌==◌, if◌then◌else◌,
  select_first, update_first,
}
use emu_key.Commerce.Store.{
  Store, OrderRow, AttemptRow, TransactionRow, Outcome, raised, done, ReviewResolution,
  refund_confirmed, no_action, accept_and_fulfill, rematched, ReviewReason, reviewer_text,
  closed_no_action, resolved, ReviewStatus, is_open, payment_review_not_found,
  payment_review_invalid_resolution, payment_review_already_closed,
}
use emu_key.Commerce.Fulfilment.{notify_review}
use emu_key.Commerce.Payments.{VerifiedPaymentEvent}

-- ReviewPaymentDto and the reviewer.
pub record ReviewInput : Type 0 where
  pub resolution : ReviewResolution
  pub reason : ℕ
  pub refund : Option ℕ  -- refundReference
  pub reviewer : ℕ

abbrev pub same_resolution : Option ReviewResolution → ReviewResolution → Bool
same_resolution (some refund_confirmed) refund_confirmed = true
same_resolution (some no_action) no_action = true
same_resolution (some accept_and_fulfill) accept_and_fulfill = true
same_resolution (some rematched) rematched = true
same_resolution _ _ = false

abbrev pub same_reason : Option ReviewReason → ℕ → Bool
same_reason (some (reviewer_text r)) reason = r == reason
same_reason _ reason = false

abbrev pub is_refund : ReviewResolution → Bool
is_refund refund_confirmed = true
is_refund _ = false

abbrev pub closes_without_payment : ReviewResolution → Bool
closes_without_payment no_action = true
closes_without_payment refund_confirmed = true
closes_without_payment _ = false

abbrev pub same_refund : Option ℕ → Option ℕ → Bool
same_refund none none = true
same_refund (some a) (some b) = a == b
same_refund _ _ = false

-- Whether the review has been closed in this very way.
abbrev pub is_repeated : ReviewInput → TransactionRow → Bool
is_repeated input t =
    same_resolution t.review_resolution input.resolution
    && same_reason t.review_reason input.reason
    && (not (is_refund input.resolution) || same_refund t.refund_reference input.refund)

abbrev pub status_after : ReviewResolution → ReviewStatus
status_after no_action = closed_no_action
status_after _ = resolved

abbrev pub close_review : ReviewInput → TransactionRow → TransactionRow
close_review input t = record t {
  review_status = some (status_after input.resolution);
  review_reason = some (reviewer_text input.reason);
  review_resolution = some input.resolution;
  refund_reference = if is_refund input.resolution then input.refund else none;
  reviewed_by = some input.reviewer;
}

abbrev pub is_transaction : ℕ → TransactionRow → Bool
is_transaction id t = t.transaction_id == id

abbrev pub customer_of_order : Option ℕ → List OrderRow → Option ℕ
customer_of_order none orders = none
customer_of_order (some id) orders =
    elim (select_first (λ (o : OrderRow). o.order_id == id) orders) [
      | none ↦ none
      | some o ↦ some o.customer_user_id
    ]

abbrev pub close_found : List ℕ → ℕ → ReviewInput → Store → TransactionRow → Outcome TransactionRow
close_found admins id input s t =
    if not (is_open t.review_status)
    then (if is_repeated input t then done t s else raised payment_review_already_closed)
    else done (close_review input t) (
        notify_review false admins (customer_of_order t.payment_order_id s.orders) id (record s {
          transactions = update_first (is_transaction id) (close_review input) s.transactions;
        }))

unfoldable pub review_payment : List ℕ → ℕ → ReviewInput → Store → Outcome TransactionRow
review_payment admins id input s = elim (select_first (is_transaction id) s.transactions) [
  | none ↦ raised payment_review_not_found
  | some t ↦
      if not (closes_without_payment input.resolution)
      then raised payment_review_invalid_resolution
      else close_found admins id input s t
]

-- `paymentReviewEvidence`: the event of a stored transaction, as if it named the chosen attempt.
unfoldable pub payment_review_evidence : ℕ → ℕ → Store → Outcome VerifiedPaymentEvent
payment_review_evidence id attempt s = elim (select_first (is_transaction id) s.transactions) [
  | none ↦ raised payment_review_not_found
  | some t ↦ elim (select_first (λ (a : AttemptRow). a.attempt_id == attempt) s.attempts) [
    | none ↦ raised payment_review_not_found
    | some a ↦
        done
          (record {
            event_id = t.provider_event_id;
            event_reference = a.provider_reference;
            event_amount = t.amount_minor;
            occurred = t.occurred_at;
            event_transaction_ref = t.transaction_ref;
            event_timing = t.timing_basis;
          })
          s
  ]
]
