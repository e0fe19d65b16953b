-- ===== src/Commerce/Steps/Closed.antt =====
-- The statements of commerce.repository.ts that change something, as what a property has to keep.
use emu_key.Prelude.{
  ℕ, ◌≡◌, Bool, true, ◌&&◌, Option, some, List, [], ◌∷◌, ◌++◌, ◌==◌, leb, select_first,
  update_first, count_where,
}
use emu_key.Commerce.{AttemptStatus}
use emu_key.Commerce.Store.{
  Store, OrderRow, AttemptRow, TransactionRow, Effects, update_order, update_pending, is_open,
}
use emu_key.Commerce.Orders.{
  new_order, accept_terms, cancelled, auto_cancel, PlanRow, Placing, is_own, of_order,
}
use emu_key.Commerce.Checkout.{decide, new_attempt}
use emu_key.Commerce.Payments.{VerifiedPaymentEvent, Reconciliation, PaymentIngestResult}
use emu_key.Commerce.Review.{ReviewInput, close_review, is_transaction, closes_without_payment}
use emu_key.Commerce.Ledger.{has_order_id, has_transaction_id}
use emu_key.Commerce.Ledger.Payments.{MayFulfill}
use emu_key.Commerce.Ledger.Ingested.{Ingested}

-- A property that each statement keeps.
pub record Closed (P : Store → Type 0) : Type 0 where
  pub agrees :
      (now id : ℕ) (s : Store) (orders : List OrderRow)
      → P s
      → update_order now id (accept_terms now) s.orders ≡ some orders
      → P (record s { orders = orders })
  pub cancels :
      (now id : ℕ) (s : Store) (orders : List OrderRow) (attempts : List AttemptRow)
      → P s
      → update_order now id cancelled s.orders ≡ some orders
      → update_pending now AttemptStatus.superseded (of_order id) s.attempts ≡ some attempts
      → P (record s { orders = orders; attempts = attempts })
  pub closes :
      (now id : ℕ) (s : Store) (orders : List OrderRow) (attempts : List AttemptRow)
      → P s
      → update_order now id auto_cancel s.orders ≡ some orders
      → update_pending now AttemptStatus.expired
          (λ a. of_order id a && leb a.expires_at now)
          s.attempts
        ≡ some attempts
      → P (record s { orders = orders; attempts = attempts })
  pub places :
      (now customer key : ℕ) (plan : PlanRow) (target : Option ℕ) (handoff : Bool) (p : Placing)
      (s : Store)
      → P s
      → count_where (has_order_id p.fresh_id) s.orders ≡ 0
      → P (record s { orders = s.orders ++ new_order now customer key plan target handoff p ∷ [] })
  pub opens :
      (now fresh customer id : ℕ) (s : Store) (o : OrderRow)
      → P s
      → select_first (is_own customer id) s.orders ≡ some o
      → (decide now o s).allowed ≡ true
      → P (record s { attempts = s.attempts ++ new_attempt now fresh o s.attempts ∷ [] })
  pub fails :
      (now id : ℕ) (s : Store) (attempts : List AttemptRow)
      → P s
      → update_pending now AttemptStatus.failed (λ a. a.attempt_id == id) s.attempts ≡ some attempts
      → P (record s { attempts = attempts })
  pub pays :
      (now : ℕ) (e : VerifiedPaymentEvent) (given : Option Reconciliation) (fresh : ℕ)
      (s s' : Store) (result : PaymentIngestResult)
      → P s
      → count_where (has_transaction_id fresh) s.transactions ≡ 0
      → MayFulfill given
      → Ingested now e given fresh s result s'
      → P s'
  pub reviews :
      (id : ℕ) (input : ReviewInput) (s : Store) (t : TransactionRow)
      → P s
      → closes_without_payment input.resolution ≡ true
      → select_first (is_transaction id) s.transactions ≡ some t
      → is_open t.review_status ≡ true
      → P (record s {
        transactions = update_first (is_transaction id) (close_review input) s.transactions;
      })
  pub affects : (x : Effects) (s : Store) → P s → P (record s { effects = x })
