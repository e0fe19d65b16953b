-- ===== src/Commerce/Ledger/Accounts.antt =====
-- What `ingestPayment` promises: an account for each order, to which a payment is credited once.
use emu_key.Prelude.{
  ℕ, ◌+◌, ◌≡◌, refl, sym, subst, ap, ◌∙◌, Bool, Option, none, some, List, arith, ◌==◌, is_some,
  count_where, select_first,
}
use emu_key.Commerce.Store.{
  Store, OrderRow, AttemptRow, TransactionRow, CommandRow, Effects, done, is_matched, fulfills,
}
use emu_key.Commerce.Store.Counting.{one_if, count_where-append_one}
use emu_key.Commerce.Store.Outcomes.{result-Ensures}
use emu_key.Commerce.Fulfilment.{Issuance}
use emu_key.Commerce.Payments.{
  VerifiedPaymentEvent, Reconciliation, Reopened, PaymentIngestResult, ingest_payment,
  accept_payment,
}
use emu_key.Commerce.Ledger.{Ledger, fulfillments, acceptances, has_transaction_id, has_order_id}
use emu_key.Commerce.Ledger.Commanded.{Commands}
use emu_key.Commerce.Ledger.Orders.{update_order-accepts}
use emu_key.Commerce.Ledger.Payments.{MayFulfill, find_lane-some, record_effect-fulfillments}
use emu_key.Commerce.Ledger.Ingested.{Ingested, Origin, Paid, Recorded}
use emu_key.Commerce.Ledger.Ingesting.{ingest_payment-Ingested}

-- The account of an order: how often its payment is accepted, how many transactions pay for it, and
-- how many commands its licence has been sent for it.
pub record Account : Type 0 where
  pub accepted : ℕ
  pub fulfilled : ℕ
  pub commanded : ℕ

abbrev of_order_command : ℕ → CommandRow → Bool
of_order_command id c = c.command_order_id == id

unfoldable pub accounts : Store → ℕ → Account
accounts s id = record {
  accepted = acceptances id s.orders;
  fulfilled = fulfillments id s.transactions;
  commanded = count_where (of_order_command id) s.effects.commands;
}

-- The accounts after a payment of an order, or after none.
unfoldable pub credit : Option ℕ → (ℕ → Account) → ℕ → Account
credit none before id = before id
credit (some order) before id = record {
  accepted = (before id).accepted + one_if (order == id);
  fulfilled = (before id).fulfilled + one_if (order == id);
  commanded = (before id).commanded + one_if (order == id);
}

-- What an answer means for the accounts.
abbrev pub Credits : PaymentIngestResult → Store → Store → Type 0
Credits result s s' =
    (paid : Option ℕ) × (is_some paid ≡ is_matched result.outcome)
    × ((id : ℕ) → accounts s' id ≡ credit paid (accounts s) id)

paid_command :
    (o : OrderRow) (x new : Effects) (id : ℕ)
    → Commands o x new
    → count_where (of_order_command id) new.commands
      ≡ count_where (of_order_command id) x.commands + one_if (o.order_id == id)
paid_command o x new id (c, e, own) = rw e (
    count_where-append_one (of_order_command id) x.commands c
    ∙ ap (λ n. count_where (of_order_command id) x.commands + one_if (n == id)) own)

same_fulfillments :
    (e : VerifiedPaymentEvent) (s s' : Store) (fresh : ℕ) (t : TransactionRow)
    → Recorded e s s' fresh t
    → (id : ℕ) → fulfillments id s'.transactions ≡ fulfillments id s.transactions
unfolding fulfillments
same_fulfillments e s s' fresh t h id =
    let total = count_where-append_one (fulfills id) s.transactions t in
    rw h.appended (ground (arith, total, h.pays_nothing id))

module _ (now : ℕ) (e : VerifiedPaymentEvent) (given : Option Reconciliation) (fresh : ℕ)
    (s s' : Store) (books : Ledger s)
    (unused : count_where (has_transaction_id fresh) s.transactions ≡ 0)
    (may : MayFulfill given) where
  Paid-credit :
      (r : Option Reopened) (row : ℕ) (a : AttemptRow) (o : OrderRow)
      → Origin e given s fresh r row
      → Paid now e s s' r row a o
      → (id : ℕ) → accounts s' id ≡ credit (some o.order_id) (accounts s) id
  unfolding accounts credit
  Paid-credit r row a o from h id =
      let (attempt, order, own) = find_lane-some e.event_reference s a o h.lane in
      let same_order =
        subst (λ k. select_first (has_order_id k) s.orders ≡ some o) (sym own) order in
      let accepted =
        update_order-accepts now o.order_id accept_payment s.orders s'.orders (λ q. refl) id o
          (λ q. refl) same_order refl h.order in
      let rows =
        ap (fulfillments id) h.rows
        ∙ record_effect-fulfillments now e given fresh s s' books unused may r row a id from
        ∙ ap (λ k. fulfillments id s.transactions + one_if (k == id)) (sym own) in
      let command = paid_command o s.effects s'.effects id h.command in
      rw (accepted, rows, command) refl

  Ingested-Credits :
      (result : PaymentIngestResult) → Ingested now e given fresh s result s' → Credits result s s'
  unfolding accounts credit
  Ingested-Credits result (Ingested.known t n same) =
      (none, refl, λ id. ap (λ (x : Store). accounts x id) same)
  Ingested-Credits result (Ingested.recorded t h) = (
    none,
    sym h.not_matched,
    λ id. rw (same_fulfillments e s s' fresh t h id, h.same_orders, h.same_commands) refl,
  )
  Ingested-Credits result (Ingested.paid r row a o from h) =
      (some o.order_id, refl, Paid-credit r row a o from h)

-- With books that balance, a successful call credits a payment to the account of exactly one order
-- when it answers MATCHED: one acceptance, one paying transaction and one command. With any other
-- answer it leaves every account as it was.
pub ingest_payment-Credits :
    (i : Issuance) (admins : List ℕ) (now fresh : ℕ) (e : VerifiedPaymentEvent)
    (given : Option Reconciliation) (s s' : Store) (result : PaymentIngestResult)
    → Ledger s
    → count_where (has_transaction_id fresh) s.transactions ≡ 0
    → MayFulfill given
    → ingest_payment i admins now fresh e given s ≡ done result s'
    → Credits result s s'
ingest_payment-Credits i admins now fresh e given s s' result books unused may h =
    Ingested-Credits now e given fresh s s' books unused may result (
      result-Ensures (Ingested now e given fresh s) _ result s' h
        (ingest_payment-Ingested i admins now fresh e given s))
