-- ===== src/Commerce/Retry.antt =====
-- backend/src/modules/commerce-payment/domain/payment-retry-policy.ts
pub mod Decision
use emu_key.Prelude.{
  ℕ, Bool, true, false, not, ◌&&◌, ◌||◌, List, [], ◌∷◌, ltb, leb, if◌then◌else◌, exists_where,
  select_all,
}
use emu_key.Commerce.{OrderStatus, AttemptStatus, is_waiting_payment, is_pending}

pub data PaymentRetryReason : Type 0 where
  ready attempt_pending payment_review order_not_payable : PaymentRetryReason

pub data CustomerNextAction : Type 0 where
  wait view_license contact_support create_new_order : CustomerNextAction

pub record PaymentRetryDecision : Type 0 where
  pub customer_next_action : CustomerNextAction
  pub allowed : Bool
  pub can_resume : Bool
  pub reason : PaymentRetryReason

pub record RetryAttempt : Type 0 where
  pub status : AttemptStatus
  pub expires_at : ℕ

pub record PaymentRetryInput : Type 0 where
  pub order_status : OrderStatus
  pub payment_due_at : ℕ
  pub now : ℕ
  pub attempts : List RetryAttempt
  pub has_uncertain_transaction : Bool
  pub has_open_review : Bool

-- `['PENDING', 'FAILED', 'EXPIRED'].includes(status)`
abbrev pub is_settled_or_pending : AttemptStatus → Bool
is_settled_or_pending AttemptStatus.pending = true
is_settled_or_pending AttemptStatus.failed = true
is_settled_or_pending AttemptStatus.expired = true
is_settled_or_pending _ = false

-- the conditional on the order's status in the first branch
abbrev pub next_action_unpayable : OrderStatus → CustomerNextAction
next_action_unpayable OrderStatus.payment_accepted = view_license
next_action_unpayable OrderStatus.waiting_service_terms_acceptance = wait
next_action_unpayable _ = create_new_order

-- `pending.length === 1 && pending[0]!.expiresAt > input.now`
abbrev pub is_sole_unexpired : ℕ → List RetryAttempt → Bool
is_sole_unexpired now [] = false
is_sole_unexpired now (a ∷ []) = ltb now a.expires_at
is_sole_unexpired now (_ ∷ _ ∷ _) = false

-- `pending.length`, as a condition
abbrev pub is_nonempty : List RetryAttempt → Bool
is_nonempty [] = false
is_nonempty (_ ∷ _) = true

unfoldable pub evaluate_payment_retry : PaymentRetryInput → PaymentRetryDecision
evaluate_payment_retry input =
    if not (is_waiting_payment input.order_status) || leb input.payment_due_at input.now
    then record {
      customer_next_action = next_action_unpayable input.order_status;
      allowed = false;
      can_resume = false;
      reason = order_not_payable;
    }
    else if input.has_uncertain_transaction
        || exists_where (λ a. not (is_settled_or_pending a.status)) input.attempts
    then record {
      customer_next_action = if input.has_open_review then wait else contact_support;
      allowed = false;
      can_resume = false;
      reason = payment_review;
    }
    else let waiting = select_all (λ (a : RetryAttempt). is_pending a.status) input.attempts in
      if is_nonempty waiting
      then record {
        customer_next_action = wait;
        allowed = false;
        can_resume = is_sole_unexpired input.now waiting;
        reason = attempt_pending;
      }
      else record {
        customer_next_action = wait;
        allowed = true;
        can_resume = false;
        reason = ready;
      }
