-- ===== src/Commerce/Ledger.antt =====
-- Which orders are paid, and by which transactions: the books that the operations of
-- commerce.repository.ts keep.
pub mod Orders
pub mod Commanded
pub mod Ingested
pub mod Ingesting
pub mod Payments
pub mod Reviews
pub mod Placing
pub mod Run
pub mod Deliveries
pub mod Accounts
pub mod Matched
use emu_key.Prelude.{ℕ, ◌≤◌, ◌≡◌, Bool, true, false, ◌&&◌, List, ◌==◌, count_where, All}
use emu_key.Commerce.Store.{
  Store, OrderRow, TransactionRow, is_accepted, fulfills, is_open, is_fulfilling,
}

abbrev pub accepted_of : ℕ → OrderRow → Bool
accepted_of id o = o.order_id == id && is_accepted o.order_status

abbrev pub has_order_id : ℕ → OrderRow → Bool
has_order_id id o = o.order_id == id

abbrev pub has_transaction_id : ℕ → TransactionRow → Bool
has_transaction_id id t = t.transaction_id == id

abbrev pub has_event : ℕ → TransactionRow → Bool
has_event event t = t.provider_event_id == event

-- The number of rows by which an order is paid: as transactions, and as the order's status.
unfoldable pub fulfillments : ℕ → List TransactionRow → ℕ
fulfillments id transactions = count_where (fulfills id) transactions

unfoldable pub acceptances : ℕ → List OrderRow → ℕ
acceptances id orders = count_where (accepted_of id) orders

-- The review of a payment that fulfils is not open.
abbrev pub IsSettled : TransactionRow → Type 0
IsSettled t = is_open t.review_status ≡ true → is_fulfilling t.review_resolution ≡ false

pub record Ledger (s : Store) : Type 0 where
  pub one_order : (id : ℕ) → count_where (has_order_id id) s.orders ≤ 1
  pub one_transaction : (id : ℕ) → count_where (has_transaction_id id) s.transactions ≤ 1
  pub one_event : (event : ℕ) → count_where (has_event event) s.transactions ≤ 1
  pub balanced : (id : ℕ) → fulfillments id s.transactions ≡ acceptances id s.orders
  pub settled : All IsSettled s.transactions
