-- ===== src/Commerce.antt =====
-- backend/src/modules/commerce-payment: orders, payment attempts and payment transactions.
-- Identifiers are UUIDs that the code only compares, so they are numbers here; times are
-- milliseconds. The status columns are the values that backend/database/schema.sql admits.
pub mod Retry
pub mod Renewal
pub mod Store
pub mod Orders
pub mod Checkout
pub mod Fulfilment
pub mod Payments
pub mod Review
pub mod Ledger
pub mod Steps
use emu_key.Prelude.{Bool, true, false}

pub data OrderStatus : Type 0 where
  waiting_service_terms_acceptance waiting_payment payment_accepted cancelled expired : OrderStatus

pub data AttemptStatus : Type 0 where
  pending succeeded failed expired superseded : AttemptStatus

abbrev pub is_waiting_payment : OrderStatus → Bool
is_waiting_payment waiting_payment = true
is_waiting_payment _ = false

abbrev pub is_pending : AttemptStatus → Bool
is_pending pending = true
is_pending _ = false
