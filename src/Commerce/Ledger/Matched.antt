-- ===== src/Commerce/Ledger/Matched.antt =====
-- Which deliveries of the provider pay for an order (`ingestPayment` without a reconciliation).
use emu_key.Prelude.{
  ℕ, ◌≤◌, ◌<◌, ◌≡◌, ap, true, false, ◌⊎◌, Option, none, some, List, arith, ==_iff, select_first,
  ◌==◌,
}
use emu_key.Commerce.{OrderStatus, AttemptStatus, waiting_payment}
use emu_key.Commerce.Store.{Store, OrderRow, AttemptRow, done, is_matched}
use emu_key.Commerce.Store.Outcomes.{result-Ensures}
use emu_key.Commerce.Fulfilment.{Issuance}
use emu_key.Commerce.Payments.{
  VerifiedPaymentEvent, Reconciliation, Reopened, PaymentIngestResult, ingest_payment, eligible,
  effective_at,
}
use emu_key.Commerce.Ledger.Payments.{find_lane-some}
use emu_key.Commerce.Ledger.Ingested.{Ingested, Origin, Paid}
use emu_key.Commerce.Ledger.Ingesting.{ingest_payment-Ingested}

-- The order may still be paid: it waits for payment, or the sweep has cancelled it.
abbrev pub IsPayable : OrderRow → Type 0
IsPayable o =
    (o.order_status ≡ waiting_payment)
    ⊎ ((o.order_status ≡ OrderStatus.cancelled) × (o.auto_cancelled ≡ true))

-- The attempt may still be paid at a time: it is pending or expired, or superseded after it.
abbrev pub IsLane : AttemptRow → ℕ → Type 0
IsLane a at =
    (a.status ≡ AttemptStatus.pending)
    ⊎ (a.status ≡ AttemptStatus.expired)
    ⊎ ((a.status ≡ AttemptStatus.superseded)
        × ((since : ℕ) × (a.superseded_at ≡ some since) × (at < since)))

-- The time lies after the acceptance of the terms and within the attempt's and the order's windows.
abbrev pub IsWithin : AttemptRow → OrderRow → ℕ → Type 0
IsWithin a o at =
    ((agreed : ℕ) × (o.terms_accepted_at ≡ some agreed) × (agreed ≤ at))
    × (a.created_at ≤ at)
    × (at < a.expires_at)
    × (at < o.payment_due_at)

eligible_tests :
    (now at : ℕ) (a : AttemptRow) (o : OrderRow)
    → eligible now at none a o ≡ true
    → IsPayable o × IsLane a at × IsWithin a o at × (now < o.ipn_accept_until)
eligible_tests now at a o h = ground (arith, h)

-- The attempt that an event names and its order, and that the event pays for them at a time.
abbrev pub Pays : ℕ → VerifiedPaymentEvent → Store → AttemptRow → OrderRow → Type 0
Pays now e s a o =
    (select_first (λ (q : AttemptRow). q.provider_reference == e.event_reference) s.attempts
      ≡ some a)
    × (select_first (λ (q : OrderRow). q.order_id == a.attempt_order_id) s.orders ≡ some o)
    × (a.amount_vnd ≡ e.event_amount)
    × IsPayable o
    × IsLane a (effective_at now e none)
    × IsWithin a o (effective_at now e none)
    × (now < o.ipn_accept_until)

Paid-Pays :
    (now fresh : ℕ) (e : VerifiedPaymentEvent) (s s' : Store) (r : Option Reopened) (id : ℕ)
    (a : AttemptRow) (o : OrderRow)
    → Origin e none s fresh r id
    → Paid now e s s' r id a o
    → Pays now e s a o
Paid-Pays now fresh e s s' none id a o from h =
    let (attempt, order, own) = find_lane-some e.event_reference s a o h.lane in
    let (payable, lane, within, in_time) =
      eligible_tests now (effective_at now e none) a o h.was_eligible in
    (attempt, order, (==_iff _ _).0 h.same_amount, payable, lane, within, in_time)
Paid-Pays now fresh e s s' (some k) id a o (Origin.reopened _ g n own unpaid other) h = cc

ingested-Pays :
    (now fresh : ℕ) (e : VerifiedPaymentEvent) (s s' : Store) (result : PaymentIngestResult)
    → Ingested now e none fresh s result s'
    → is_matched result.outcome ≡ true
    → (a : AttemptRow) × (o : OrderRow) × Pays now e s a o
ingested-Pays now fresh e s s' result (Ingested.known t n same) m = cc
ingested-Pays now fresh e s s' result (Ingested.recorded t h) m =
    let other = h.not_matched in ground (arith, m, other)
ingested-Pays now fresh e s s' result (Ingested.paid r id a o from h) m =
    (a, o, Paid-Pays now fresh e s s' r id a o from h)

-- When a delivery of the provider is answered MATCHED, its reference names an attempt for exactly
-- its amount whose order waits for payment or was cancelled by the sweep; the attempt is pending or
-- expired, or was superseded after the payment; the payment lies after the acceptance of the terms
-- and within the windows of the attempt and of the order; and it is delivered before the order's
-- last moment for notifications.
pub ingest_payment-Pays :
    (i : Issuance) (admins : List ℕ) (now fresh : ℕ) (e : VerifiedPaymentEvent) (s s' : Store)
    (result : PaymentIngestResult)
    → ingest_payment i admins now fresh e none s ≡ done result s'
    → is_matched result.outcome ≡ true
    → (a : AttemptRow) × (o : OrderRow) × Pays now e s a o
ingest_payment-Pays i admins now fresh e s s' result h = ingested-Pays now fresh e s s' result (
    result-Ensures (Ingested now e none fresh s) _ result s' h
      (ingest_payment-Ingested i admins now fresh e none s))

ingested_spares :
    (now fresh : ℕ) (e : VerifiedPaymentEvent) (given : Option Reconciliation) (s s' : Store)
    (result : PaymentIngestResult)
    → Ingested now e given fresh s result s'
    → is_matched result.outcome ≡ false
    → (s'.orders ≡ s.orders) × (s'.attempts ≡ s.attempts)
ingested_spares now fresh e given s s' result (Ingested.known t n same) m =
    (ap (λ (x : Store). x.orders) same, ap (λ (x : Store). x.attempts) same)
ingested_spares now fresh e given s s' result (Ingested.recorded t h) m =
    (h.same_orders, h.same_attempts)
ingested_spares now fresh e given s s' result (Ingested.paid r id a o from h) m = cc

-- A call that is answered with anything but MATCHED changes no order and no attempt.
pub ingest_payment_spares :
    (i : Issuance) (admins : List ℕ) (now fresh : ℕ) (e : VerifiedPaymentEvent)
    (given : Option Reconciliation) (s s' : Store) (result : PaymentIngestResult)
    → ingest_payment i admins now fresh e given s ≡ done result s'
    → is_matched result.outcome ≡ false
    → (s'.orders ≡ s.orders) × (s'.attempts ≡ s.attempts)
ingest_payment_spares i admins now fresh e given s s' result h =
    ingested_spares now fresh e given s s' result (
      result-Ensures (Ingested now e given fresh s) _ result s' h
        (ingest_payment-Ingested i admins now fresh e given s))
