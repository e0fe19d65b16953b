-- ===== src/Examples/Commerce.antt =====
-- backend/src/modules/commerce-payment: concrete orders and dates.
use emu_key.Prelude.{ℕ, ◌+◌, ◌<◌, ◌≡◌, ◌↔◌, refl, true, false, some, [], ◌∷◌, All, max, min, arith}
use emu_key.Commerce.{waiting_payment, failed, pending}
use emu_key.Commerce.Retry.{PaymentRetryInput, RetryAttempt, evaluate_payment_retry}
use emu_key.Commerce.Retry.Decision.{
  evaluate_payment_retry-allowed_iff, evaluate_payment_retry-can_resume_iff, IsClosed, IsOrdinary,
  waiting_attempts,
}
use emu_key.Commerce.Renewal.{
  UtcDate, renewal_expiry, later_of, shift_months, add_months, last_day, days_in_month,
  is_at_or_before, returned,
}
use emu_key.Commerce.Renewal.Expiry.{renewal_expiry_extends, IsValid, IsBefore, month_index}

abbrev failed_order : PaymentRetryInput
failed_order = record {
  order_status = waiting_payment;
  payment_due_at = 1800000;
  now = 600000;
  attempts = record { status = failed; expires_at = 900000 } ∷ [];
  has_uncertain_transaction = false;
  has_open_review = false;
}

abbrev paying_order : PaymentRetryInput
paying_order = record failed_order {
  attempts = record { status = pending; expires_at = 900000 } ∷ [];
}

-- The order of a failed attempt, 20 minutes before its due time.
evaluate_payment_retry-allowed_iff_example :
    ((evaluate_payment_retry failed_order).allowed ≡ true) ↔ (
      (failed_order.order_status ≡ waiting_payment)
      × (failed_order.now < failed_order.payment_due_at)
      × (failed_order.has_uncertain_transaction ≡ false)
      × All IsClosed failed_order.attempts)
evaluate_payment_retry-allowed_iff_example = evaluate_payment_retry-allowed_iff failed_order

evaluate_payment_retry-can_resume_iff_example :
    ((evaluate_payment_retry paying_order).can_resume ≡ true) ↔ (
      (paying_order.order_status ≡ waiting_payment)
      × (paying_order.now < paying_order.payment_due_at)
      × (paying_order.has_uncertain_transaction ≡ false)
      × All IsOrdinary paying_order.attempts
      × ((a : RetryAttempt) × (waiting_attempts paying_order.attempts ≡ a ∷ [])
          × (paying_order.now < a.expires_at)))
evaluate_payment_retry-can_resume_iff_example = evaluate_payment_retry-can_resume_iff paying_order

-- A licence that expires on 31 January 2028, paid for in December 2027, and one month more.
abbrev january_end : UtcDate
january_end = record { year = 2028; month = 0; day = 31; ms_of_day = 1000 }

abbrev december : UtcDate
december = record { year = 2027; month = 11; day = 5; ms_of_day = 0 }

abbrev february_end : UtcDate
february_end = record { year = 2028; month = 1; day = 29; ms_of_day = 1000 }

january_end-IsValid : IsValid january_end
unfolding days_in_month
january_end-IsValid = record {
  year_pos = omega arith;
  month_bound = omega arith;
  day_pos = omega arith;
  day_bound = omega arith;
}

december-IsValid : IsValid december
unfolding days_in_month
december-IsValid = record {
  year_pos = omega arith;
  month_bound = omega arith;
  day_pos = omega arith;
  day_bound = omega arith;
}

renewed_to_february :
    renewal_expiry (some january_end) (some december) 1 ≡ returned (some february_end)
unfolding renewal_expiry later_of add_months shift_months last_day days_in_month is_at_or_before
renewed_to_february = refl

renewal_expiry_extends_example :
    IsValid february_end
    × IsBefore january_end february_end
    × IsBefore december february_end
    × (month_index february_end ≡ max (month_index january_end) (month_index december) + 1)
    × (february_end.day ≡ min (later_of january_end december).day (days_in_month 2028 1))
    × (february_end.ms_of_day ≡ (later_of january_end december).ms_of_day)
renewal_expiry_extends_example =
    renewal_expiry_extends january_end december 1 february_end january_end-IsValid december-IsValid
      renewed_to_february

abbrev no_months : ℕ
no_months = 0
