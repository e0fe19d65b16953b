-- ===== src/Commerce/Ledger/Ingested.antt =====
-- The three things that an event of the payment provider can do to the store: nothing, a new row
-- that pays for nothing, or the payment of an order (`ingestPayment`).
use emu_key.Prelude.{
  ℕ, ◌≡◌, true, false, ◌||◌, Option, none, some, [], ◌∷◌, ◌++◌, ◌==◌, select_first,
}
use emu_key.Commerce.Store.{
  Store, OrderRow, AttemptRow, TransactionRow, matched, duplicate, is_matched, is_fulfilling,
  is_accepted, fulfills, update_order,
}
use emu_key.Commerce.Payments.{
  VerifiedPaymentEvent, Reconciliation, Reopened, PaymentIngestResult, result_of, eligible,
  effective_at, record_effect, settle_attempts, accept_payment, is_succeeded, find_lane, is_event,
}
use emu_key.Commerce.Ledger.Commanded.{Commands}

-- Where the row of an event comes from: a new id for an event that is not stored, or the stored
-- row that a reconciliation names, which pays for nothing yet.
pub data Origin (e : VerifiedPaymentEvent) (given : Option Reconciliation) (s : Store) (fresh : ℕ)
    : Option Reopened → ℕ → Type 0 where
  from_provider :
      given ≡ none
      → select_first (is_event e) s.transactions ≡ none
      → Origin e given s fresh none fresh
  reopened :
      (k : Reopened)
      → given ≡ some k.request
      → select_first (is_event e) s.transactions ≡ some k.stored
      → k.stored.transaction_id ≡ k.request.target_transaction
      → is_fulfilling k.stored.review_resolution ≡ false
      → is_matched k.stored.classification ≡ false
      → Origin e given s fresh (some k) k.request.target_transaction

-- The payment of order `o` by attempt `a`.
pub record Paid (now : ℕ) (e : VerifiedPaymentEvent) (s s' : Store) (r : Option Reopened) (id : ℕ)
    (a : AttemptRow) (o : OrderRow) : Type 0 where
  pub lane : find_lane e.event_reference s ≡ some (a, o)
  pub same_amount : (a.amount_vnd == e.event_amount) ≡ true
  pub was_unpaid : (is_accepted o.order_status || is_succeeded a.status) ≡ false
  pub was_eligible : eligible now (effective_at now e r) r a o ≡ true
  pub rows : s'.transactions ≡ (record_effect now id e r a s).transactions
  pub settled : settle_attempts now a s.attempts ≡ some s'.attempts
  pub order : update_order now o.order_id accept_payment s.orders ≡ some s'.orders
  pub command : Commands o s.effects s'.effects

-- A new row that pays for nothing.
pub record Recorded (e : VerifiedPaymentEvent) (s s' : Store) (fresh : ℕ) (t : TransactionRow)
    : Type 0 where
  pub is_new : select_first (is_event e) s.transactions ≡ none
  pub own_id : t.transaction_id ≡ fresh
  pub own_event : t.provider_event_id ≡ e.event_id
  pub pays_nothing : (k : ℕ) → fulfills k t ≡ false
  pub not_matched : is_matched t.classification ≡ false
  pub unresolved : t.review_resolution ≡ none
  pub appended : s'.transactions ≡ s.transactions ++ t ∷ []
  pub same_orders : s'.orders ≡ s.orders
  pub same_attempts : s'.attempts ≡ s.attempts
  pub same_commands : s'.effects.commands ≡ s.effects.commands

pub data Ingested (now : ℕ) (e : VerifiedPaymentEvent) (given : Option Reconciliation) (fresh : ℕ)
    (s : Store) : PaymentIngestResult → Store → Type 0 where
  known :
      {s' : Store} (t : TransactionRow)
      → select_first (is_event e) s.transactions ≡ some t
      → s' ≡ s
      → Ingested now e given fresh s (result_of duplicate t.transaction_id) s'
  recorded :
      {s' : Store} (t : TransactionRow)
      → Recorded e s s' fresh t
      → Ingested now e given fresh s (result_of t.classification t.transaction_id) s'
  paid :
      {s' : Store} (r : Option Reopened) (id : ℕ) (a : AttemptRow) (o : OrderRow)
      → Origin e given s fresh r id
      → Paid now e s s' r id a o
      → Ingested now e given fresh s (result_of matched id) s'
