-- ===== src/Commerce/Checkout.antt =====
-- backend/src/modules/commerce-payment/infrastructure/commerce.repository.ts: the payment attempts of
-- a checkout. One `now` stands for the times of a transaction's statements. `is_ready` is the
-- handoff service's `requireReady`; `has_registry` that the provider has a chain address or the
-- namespace contract is configured.
pub mod Offered
pub mod Live
pub mod Stranded
use emu_key.Prelude.{
  ℕ, ◌+◌, Bool, true, false, not, ◌&&◌, ◌||◌, Option, none, some, List, [], ◌∷◌, ◌++◌, leb, ltb,
  ◌==◌, is_some, is_id, is_past, if◌then◌else◌, select_first, exists_where, map, select_all, min,
  max,
}
use emu_key.Commerce.{AttemptStatus, is_waiting_payment, is_pending}
use emu_key.Commerce.Retry.{
  PaymentRetryDecision, PaymentRetryReason, RetryAttempt, evaluate_payment_retry, payment_review,
  order_not_payable,
}
use emu_key.Commerce.Store.{
  Store, OrderRow, AttemptRow, TransactionRow, Outcome, raised, done, order_not_found,
  provider_not_ready, provider_namespace_capability_not_configured, order_not_waiting_payment,
  order_payment_expired, payment_requires_review, payment_attempt_not_retryable, database_error,
  is_matched, is_open, fulfills, select_latest, update_pending,
}
use emu_key.Commerce.Orders.{is_own, of_order}

abbrev pub has_open_review : ℕ → TransactionRow → Bool
has_open_review id t = is_id t.payment_order_id id && is_open t.review_status

abbrev pub is_uncertain : ℕ → TransactionRow → Bool
is_uncertain id t =
    is_id t.payment_order_id id
    && (not (is_matched t.classification) || is_some t.review_status || not (fulfills id t))

abbrev pub retry_attempt : AttemptRow → RetryAttempt
retry_attempt a = record { status = a.status; expires_at = a.expires_at }

-- The decision for an order that has been read.
abbrev pub decide : ℕ → OrderRow → Store → PaymentRetryDecision
decide now o s = evaluate_payment_retry (record {
  order_status = o.order_status;
  payment_due_at = o.payment_due_at;
  now = now;
  attempts = map retry_attempt (select_all (of_order o.order_id) s.attempts);
  has_uncertain_transaction = exists_where (is_uncertain o.order_id) s.transactions;
  has_open_review = exists_where (has_open_review o.order_id) s.transactions;
})

unfoldable pub payment_retry_decision : ℕ → ℕ → ℕ → Store → Outcome PaymentRetryDecision
payment_retry_decision now customer id s = elim (select_first (is_own customer id) s.orders) [
  | none ↦ raised order_not_found
  | some o ↦ done (decide now o s) s
]

pub record CheckoutPreparation : Type 0 where
  pub checkout_amount : ℕ
  pub checkout_attempt : ℕ
  pub checkout_reference : ℕ
  pub existing : Bool
  pub checkout_expires_at : ℕ

abbrev pub fifteen_minutes : ℕ
fifteen_minutes = 900000

-- `COALESCE(MAX(attempt_no), 0)` over the order's attempts
unfoldable pub last_attempt_no : ℕ → List AttemptRow → ℕ
last_attempt_no id [] = 0
last_attempt_no id (a ∷ rest) =
    let others = last_attempt_no id rest in
    if of_order id a then max a.attempt_no others else others

abbrev pub new_attempt : ℕ → ℕ → OrderRow → List AttemptRow → AttemptRow
new_attempt now fresh o attempts = record {
  attempt_id = fresh;
  attempt_order_id = o.order_id;
  attempt_no = last_attempt_no o.order_id attempts + 1;
  provider_reference = fresh;
  amount_vnd = o.price_vnd;
  status = AttemptStatus.pending;
  created_at = now;
  expires_at = min o.payment_due_at (now + fifteen_minutes);
  superseded_at = none;
}

abbrev pub prepared_with : Bool → AttemptRow → CheckoutPreparation
prepared_with existing a = record {
  checkout_amount = a.amount_vnd;
  checkout_attempt = a.attempt_id;
  checkout_reference = a.provider_reference;
  existing = existing;
  checkout_expires_at = a.expires_at;
}

-- The INSERT; enforce_payment_attempt_admission also wants the terms accepted before.
abbrev pub insert_attempt : ℕ → ℕ → OrderRow → Store → Outcome CheckoutPreparation
insert_attempt now fresh o s =
    if not (is_past o.terms_accepted_at now)
    then raised database_error
    else let attempt = new_attempt now fresh o s.attempts in
      done (prepared_with false attempt) (record s { attempts = s.attempts ++ attempt ∷ [] })

abbrev pub is_live : ℕ → ℕ → AttemptRow → Bool
is_live now id a = of_order id a && is_pending a.status && ltb now a.expires_at

-- What the decision's reason stops.
abbrev pub stopped :
    PaymentRetryReason → Bool → Outcome CheckoutPreparation → Outcome CheckoutPreparation
stopped payment_review usable next_part = raised payment_requires_review
stopped order_not_payable usable next_part = raised order_payment_expired
stopped _ false next_part = raised payment_attempt_not_retryable
stopped _ true next_part = next_part

abbrev pub insert_allowed : ℕ → ℕ → OrderRow → Bool → Store → Outcome CheckoutPreparation
insert_allowed now fresh o allowed s =
    if not allowed then raised payment_attempt_not_retryable else insert_attempt now fresh o s

abbrev pub resume_or_insert :
    ℕ → ℕ → OrderRow → Bool → Store → Option AttemptRow → Outcome CheckoutPreparation
resume_or_insert now fresh o allowed s none = insert_allowed now fresh o allowed s
resume_or_insert now fresh o allowed s (some a) = done (prepared_with true a) s

abbrev pub prepare_decided :
    ℕ → ℕ → OrderRow → PaymentRetryDecision → Store → Outcome CheckoutPreparation
prepare_decided now fresh o d s = stopped d.reason (d.allowed || d.can_resume) (
    resume_or_insert now fresh o d.allowed s
      (select_latest (is_live now o.order_id) (λ a. a.attempt_no) s.attempts))

abbrev pub prepare_own : ℕ → Bool → Bool → ℕ → Store → Option OrderRow → Outcome CheckoutPreparation
prepare_own now is_ready has_registry fresh s none = raised order_not_found
prepare_own now is_ready has_registry fresh s (some o) =
    if o.is_handoff && not is_ready
    then raised provider_not_ready
    else if not has_registry
    then raised provider_namespace_capability_not_configured
    else if not (is_waiting_payment o.order_status)
    then raised order_not_waiting_payment
    else if leb o.payment_due_at now
    then raised order_payment_expired
    else prepare_decided now fresh o (decide now o s) s

-- `prepareCheckout`; `fresh` is the id of `randomUUID`.
unfoldable pub prepare_checkout : ℕ → Bool → Bool → ℕ → ℕ → ℕ → Store → Outcome CheckoutPreparation
prepare_checkout now is_ready has_registry fresh customer id s =
    prepare_own now is_ready has_registry fresh s (select_first (is_own customer id) s.orders)

unfoldable pub fail_checkout : ℕ → ℕ → Store → Outcome Unit
fail_checkout now id s =
    elim (update_pending now AttemptStatus.failed (λ a. a.attempt_id == id) s.attempts) [
      | none ↦ raised database_error
      | some attempts ↦ done tt (record s { attempts = attempts })
    ]
