-- ===== src/Commerce/Ledger/Deliveries.antt =====
-- Each event of the payment provider is kept, once, and a second delivery of it does nothing
-- (`ingestPayment`).
use emu_key.Prelude.{
  ℕ, ◌≡◌, refl, sym, subst, Option, none, some, List, arith, Option-cases, inl, inr, ==_iff, ◌∙◌,
  select_first, count_where, Bool,
}
use emu_key.Commerce.Store.{Store, TransactionRow, done, duplicate, matched, AttemptRow}
use emu_key.Commerce.Store.Counting.{
  count_where-none, count_where-some, count_where-append_one, count_where-update_first_eq,
}
use emu_key.Commerce.Store.Outcomes.{result-Ensures}
use emu_key.Commerce.Fulfilment.{Issuance}
use emu_key.Commerce.Payments.{
  VerifiedPaymentEvent, Reconciliation, Reopened, PaymentIngestResult, result_of, ingest_payment,
  is_event, evidence, timed, on_attempt, record_effect, reconcile_row,
}
use emu_key.Commerce.Ledger.{Ledger, has_event, has_transaction_id}
use emu_key.Commerce.Ledger.Payments.{found}
use emu_key.Commerce.Ledger.Ingested.{Ingested, Origin}
use emu_key.Commerce.Ledger.Ingesting.{ingest_payment-Ingested}

module _ (now : ℕ) (e : VerifiedPaymentEvent) (given : Option Reconciliation) (fresh : ℕ)
    (s s' : Store) (books : Ledger s) where
  stored_once :
      (t : TransactionRow)
      → select_first (is_event e) s.transactions ≡ some t
      → count_where (has_event e.event_id) s.transactions ≡ 1
  stored_once t n =
      let own = found (is_event e) s.transactions t n in
      let least = count_where-some (is_event e) (has_event e.event_id) s.transactions t n own in
      ground (arith, least, books.one_event e.event_id)

  effect_once :
      (r : Option Reopened) (id : ℕ) (a : AttemptRow)
      → Origin e given s fresh r id
      → count_where (has_event e.event_id) (record_effect now id e r a s).transactions ≡ 1
  effect_once none id a (Origin.from_provider g n) =
      let zero_before = count_where-none (is_event e) s.transactions n in
      let own = (==_iff e.event_id e.event_id).1 refl in
      let total =
        count_where-append_one (has_event e.event_id) s.transactions
          (timed e.event_timing (on_attempt a (evidence now fresh e matched))) in
      ground (arith, total, zero_before, own)
  effect_once (some q) id a (Origin.reopened _ g n own unpaid other) =
      count_where-update_first_eq (has_event e.event_id)
        (has_transaction_id q.request.target_transaction) (reconcile_row e q a) s.transactions
        (λ t. refl)
      ∙ stored_once q.stored n

  ingested_once :
      (result : PaymentIngestResult)
      → Ingested now e given fresh s result s'
      → count_where (has_event e.event_id) s'.transactions ≡ 1
  ingested_once result (Ingested.known t n same) =
      subst (λ (x : Store). count_where (has_event e.event_id) x.transactions ≡ 1) (sym same)
        (stored_once t n)
  ingested_once result (Ingested.recorded t h) =
      let zero_before = count_where-none (is_event e) s.transactions h.is_new in
      let own = (==_iff t.provider_event_id e.event_id).1 h.own_event in
      let total = count_where-append_one (has_event e.event_id) s.transactions t in
      rw h.appended (ground (arith, total, zero_before, own))
  ingested_once result (Ingested.paid r id a o from h) = rw h.rows (effect_once r id a from)

-- With books that balance, every call that succeeds leaves exactly one row for its event: none is
-- lost and none is stored twice.
pub ingest_payment_keeps_event :
    (i : Issuance) (admins : List ℕ) (now fresh : ℕ) (e : VerifiedPaymentEvent)
    (given : Option Reconciliation) (s s' : Store) (result : PaymentIngestResult)
    → Ledger s
    → ingest_payment i admins now fresh e given s ≡ done result s'
    → count_where (has_event e.event_id) s'.transactions ≡ 1
ingest_payment_keeps_event i admins now fresh e given s s' result books h =
    ingested_once now e given fresh s s' books result (
      result-Ensures (Ingested now e given fresh s) _ result s' h
        (ingest_payment-Ingested i admins now fresh e given s))

some_of_count :
    {R : Type 0} (p : R → Bool) (rs : List R)
    → count_where p rs ≡ 1
    → (r : R) × (select_first p rs ≡ some r)
some_of_count p rs h = elim (Option-cases (select_first p rs)) [
  | inl n ↦ let zero_rows = count_where-none p rs n in ground (arith, zero_rows, h)
  | inr (r, n) ↦ (r, n)
]

-- After a successful call, with books that balance, a further delivery of the same event id by the
-- provider, at any time and with any contents, is answered DUPLICATE and changes nothing.
pub ingest_payment_twice :
    (i j : Issuance) (admins others : List ℕ) (now later fresh unused : ℕ)
    (e again : VerifiedPaymentEvent) (given : Option Reconciliation) (s s' : Store)
    (result : PaymentIngestResult)
    → Ledger s
    → ingest_payment i admins now fresh e given s ≡ done result s'
    → again.event_id ≡ e.event_id
    → (id : ℕ) × (ingest_payment j others later unused again none s'
        ≡ done (result_of duplicate id) s')
unfolding ingest_payment
ingest_payment_twice i j admins others now later fresh unused e again given s s' result books h
      same =
    let once = ingest_payment_keeps_event i admins now fresh e given s s' result books h in
    let (t, n) = some_of_count (is_event again) s'.transactions (rw same once) in
    (t.transaction_id, rw (n, ingest_payment) refl)
