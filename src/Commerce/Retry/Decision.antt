-- ===== src/Commerce/Retry/Decision.antt =====
-- When a payment may be attempted again, and when the pending attempt may be resumed
-- (payment-retry-policy.ts).
use emu_key.Prelude.{
  ℕ, ◌<◌, ◌≡◌, refl, ◌↔◌, ◌⊎◌, Bool, true, false, not, List, [], ◌∷◌, arith, All, exists_where,
  select_all,
}
use emu_key.Commerce.{AttemptStatus, waiting_payment, is_pending}
use emu_key.Commerce.Retry.{
  RetryAttempt, PaymentRetryInput, evaluate_payment_retry, is_settled_or_pending, is_sole_unexpired,
}

-- The attempt has failed or has been marked expired.
abbrev pub IsClosed : RetryAttempt → Type 0
IsClosed a = (a.status ≡ AttemptStatus.failed) ⊎ (a.status ≡ AttemptStatus.expired)

-- The attempt is pending, has failed or has been marked expired.
abbrev pub IsOrdinary : RetryAttempt → Type 0
IsOrdinary a = is_settled_or_pending a.status ≡ true

abbrev extraordinary : List RetryAttempt → Bool
extraordinary = exists_where (λ a. not (is_settled_or_pending a.status))

abbrev pub waiting_attempts : List RetryAttempt → List RetryAttempt
waiting_attempts = select_all (λ a. is_pending a.status)

extraordinary-IsClosed :
    (rest : List RetryAttempt)
    → extraordinary rest ≡ false
    → waiting_attempts rest ≡ []
    → All IsClosed rest
unfolding exists_where select_all
extraordinary-IsClosed [] h k = tt
extraordinary-IsClosed (a ∷ rest) h k = ground (arith, extraordinary-IsClosed rest)

tests_of_closed :
    (rest : List RetryAttempt)
    → All IsClosed rest
    → (extraordinary rest ≡ false) × (waiting_attempts rest ≡ [])
unfolding exists_where select_all
tests_of_closed [] h = (refl, refl)
tests_of_closed (a ∷ rest) h = ground (arith, tests_of_closed rest h.1)

extraordinary-IsOrdinary :
    (rest : List RetryAttempt) → extraordinary rest ≡ false → All IsOrdinary rest
unfolding exists_where
extraordinary-IsOrdinary [] h = tt
extraordinary-IsOrdinary (a ∷ rest) h = ground (arith, extraordinary-IsOrdinary rest)

test_of_ordinary : (rest : List RetryAttempt) → All IsOrdinary rest → extraordinary rest ≡ false
unfolding exists_where
test_of_ordinary [] h = refl
test_of_ordinary (a ∷ rest) h = ground (arith, test_of_ordinary rest h.1)

-- A new attempt is allowed exactly when the order waits for payment, its due time is still ahead,
-- no transaction is uncertain, and every earlier attempt has failed or been marked expired.
pub evaluate_payment_retry-allowed_iff :
    (input : PaymentRetryInput)
    → ((evaluate_payment_retry input).allowed ≡ true) ↔ (
        (input.order_status ≡ waiting_payment)
        × (input.now < input.payment_due_at)
        × (input.has_uncertain_transaction ≡ false)
        × All IsClosed input.attempts)
unfolding evaluate_payment_retry
evaluate_payment_retry-allowed_iff input = (
  λ h. ground (arith, extraordinary-IsClosed input.attempts),
  λ h. ground (arith, tests_of_closed input.attempts h.3),
)

sole_of_test :
    (now : ℕ) (l : List RetryAttempt)
    → is_sole_unexpired now l ≡ true
    → (a : RetryAttempt) × (l ≡ a ∷ []) × (now < a.expires_at)
sole_of_test now [] h = cc
sole_of_test now (a ∷ []) h = (a, refl, ground arith)
sole_of_test now (a ∷ b ∷ l) h = cc

can_resume_tests :
    (input : PaymentRetryInput)
    → (evaluate_payment_retry input).can_resume ≡ true
    → (input.order_status ≡ waiting_payment)
      × (input.now < input.payment_due_at)
      × (input.has_uncertain_transaction ≡ false)
      × (extraordinary input.attempts ≡ false)
      × (is_sole_unexpired input.now (waiting_attempts input.attempts) ≡ true)
unfolding evaluate_payment_retry
can_resume_tests input h = ground arith

-- Resuming is offered exactly when the order waits for payment, its due time is still ahead, no
-- transaction is uncertain, every attempt is pending, failed or expired, and exactly one attempt
-- is pending, whose own expiry is still ahead.
pub evaluate_payment_retry-can_resume_iff :
    (input : PaymentRetryInput)
    → ((evaluate_payment_retry input).can_resume ≡ true) ↔ (
        (input.order_status ≡ waiting_payment)
        × (input.now < input.payment_due_at)
        × (input.has_uncertain_transaction ≡ false)
        × All IsOrdinary input.attempts
        × ((a : RetryAttempt) × (waiting_attempts input.attempts ≡ a ∷ [])
            × (input.now < a.expires_at)))
unfolding evaluate_payment_retry
evaluate_payment_retry-can_resume_iff input = (
  λ h.
      let (waits, due, certain, ordinary, sole) = can_resume_tests input h in
      (
        waits,
        due,
        certain,
        extraordinary-IsOrdinary input.attempts ordinary,
        sole_of_test input.now (waiting_attempts input.attempts) sole,
      ),
  λ h. ground (arith, test_of_ordinary input.attempts h.3),
)
