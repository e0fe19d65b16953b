-- ===== src/Commerce/Steps.antt =====
-- The operations on orders, attempts and payments in any order (commerce.repository.ts). Each ends a
-- transaction of the database; the calls that throw change nothing. An id of `randomUUID` is one
-- that no row has. Other parts of the program change licences and commands meanwhile.
pub mod Closed
pub mod Keeping
pub mod History
pub mod Attempts
use emu_key.Prelude.{ℕ, ◌≡◌, Bool, Option, List, count_where}
use emu_key.Commerce.Store.{Store, OrderRow, TransactionRow, Effects, done}
use emu_key.Commerce.Orders.{
  PlanRow, Placing, create_order, accept_service_terms, cancel_order, cancel_overdue_orders,
}
use emu_key.Commerce.Checkout.{CheckoutPreparation, prepare_checkout, fail_checkout}
use emu_key.Commerce.Fulfilment.{Issuance}
use emu_key.Commerce.Payments.{
  VerifiedPaymentEvent, Reconciliation, PaymentIngestResult, ingest_payment,
}
use emu_key.Commerce.Review.{ReviewInput, review_payment}
use emu_key.Commerce.Ledger.{has_order_id, has_transaction_id}
use emu_key.Commerce.Ledger.Payments.{MayFulfill}

pub data Step (s s' : Store) : Type 0 where
  placed :
      (now customer key plan_id : ℕ) (row : Option PlanRow) (target : Option ℕ) (p : Placing)
      (o : OrderRow)
      → count_where (has_order_id p.fresh_id) s.orders ≡ 0
      → create_order now customer key plan_id row target p s ≡ done o s'
      → Step s s'
  agreed :
      (now customer id version hash : ℕ) (o : OrderRow)
      → accept_service_terms now customer id version hash s ≡ done o s'
      → Step s s'
  cancelled :
      (now customer id : ℕ) (o : OrderRow) → cancel_order now customer id s ≡ done o s' → Step s s'
  swept : (now : ℕ) (due : List ℕ) → cancel_overdue_orders now due s ≡ done tt s' → Step s s'
  checked_out :
      (now fresh customer id : ℕ) (is_ready has_registry : Bool) (c : CheckoutPreparation)
      → prepare_checkout now is_ready has_registry fresh customer id s ≡ done c s'
      → Step s s'
  checkout_failed : (now id : ℕ) → fail_checkout now id s ≡ done tt s' → Step s s'
  ingested :
      (i : Issuance) (admins : List ℕ) (now fresh : ℕ) (e : VerifiedPaymentEvent)
      (given : Option Reconciliation) (result : PaymentIngestResult)
      → count_where (has_transaction_id fresh) s.transactions ≡ 0
      → MayFulfill given
      → ingest_payment i admins now fresh e given s ≡ done result s'
      → Step s s'
  reviewed :
      (admins : List ℕ) (id : ℕ) (input : ReviewInput) (t : TransactionRow)
      → review_payment admins id input s ≡ done t s'
      → Step s s'
  elsewhere : (x : Effects) → s' ≡ record s { effects = x } → Step s s'

pub data Run (start : Store) : Store → Type 0 where
  nothing_yet : Run start start
  then : {s t : Store} → Run start s → Step s t → Run start t
