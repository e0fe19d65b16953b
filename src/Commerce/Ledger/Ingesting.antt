-- ===== src/Commerce/Ledger/Ingesting.antt =====
-- Every successful call of `ingestPayment` does one of the three things.
use emu_key.Prelude.{
  ℕ, ◌≡◌, refl, sym, ap, ◌∙◌, Bool, not-false, true, false, not, ◌||◌, Option, none, some, List,
  arith, ◌==◌, Option-cases, inl, inr, select_first,
}
use emu_key.Commerce.Store.{
  Store, OrderRow, AttemptRow, TransactionRow, Outcome, CommerceError, PaymentClassification,
  matched, duplicate, unmatched, amount_mismatch, invalid, ReviewResolution, TimingBasis,
  is_matched, is_fulfilling, is_accepted, fulfills, update_order,
}
use emu_key.Commerce.Fulfilment.{
  Issuance, Fulfilment, not_issued, issued, notify_review, notify_accepted,
}
use emu_key.Commerce.Payments.{
  VerifiedPaymentEvent, ManualMatch, Reconciliation, Reopened, PaymentIngestResult, result_of,
  insert_for_review, unless_reopened, eligible, effective_at, record_effect, settle_attempts,
  accept_payment, finish, accept_order, accept, is_same_transfer, repeated, is_succeeded,
  already_paid, ingest_matched, find_lane, is_reconcilable_lane, ingest_lane, is_reviewable,
  is_unmatched, refusal, ingest_stored, ingest_fresh, is_event, ingest_payment,
}
use emu_key.Commerce.Ledger.Commanded.{Commands, IsCommanded, fulfill-IsCommanded}
use emu_key.Commerce.Store.Outcomes.{Ensures, Ensures-if}
use emu_key.Commerce.Ledger.Ingested.{Ingested, known, recorded, paid, Origin, reopened}

own_id_of : (a b : ℕ) (admin : Bool) → (not (a == b) || not admin) ≡ false → a ≡ b
own_id_of a b admin h = ground (arith, h)

reviewable-not_matched :
    (c : PaymentClassification) (m : ReviewResolution)
    → is_reviewable c m ≡ true
    → is_matched c ≡ false
reviewable-not_matched matched m h = cc
reviewable-not_matched duplicate m h = refl
reviewable-not_matched unmatched m h = refl
reviewable-not_matched amount_mismatch m h = refl
reviewable-not_matched invalid m h = refl

unmatched-not_matched : (c : PaymentClassification) → is_unmatched c ≡ true → is_matched c ≡ false
unmatched-not_matched matched h = cc
unmatched-not_matched duplicate h = refl
unmatched-not_matched unmatched h = refl
unmatched-not_matched amount_mismatch h = refl
unmatched-not_matched invalid h = refl

-- What is reopened pays for nothing by its class.
refusal-not_matched :
    (basis : TimingBasis) (t : TransactionRow) (m : Option ManualMatch)
    → refusal basis t m ≡ none
    → is_matched t.classification ≡ false
refusal-not_matched basis t none h = unmatched-not_matched t.classification (ground (arith, h))
refusal-not_matched basis t (some m) h =
    reviewable-not_matched t.classification m.resolution (ground (arith, h))

module _ (i : Issuance) (admins : List ℕ) (now fresh : ℕ) (e : VerifiedPaymentEvent)
    (given : Option Reconciliation) (s : Store) where
  abbrev Told : Outcome PaymentIngestResult → Type 0
  Told = Ensures (Ingested now e given fresh s)

  Told-review :
      (customer : Option ℕ) (t : TransactionRow)
      → select_first (is_event e) s.transactions ≡ none
      → t.transaction_id ≡ fresh
      → t.provider_event_id ≡ e.event_id
      → ((k : ℕ) → fulfills k t ≡ false)
      → is_matched t.classification ≡ false
      → t.review_resolution ≡ none
      → Told (insert_for_review admins customer t s)
  unfolding notify_review
  Told-review customer t n own event nothing unmatched_row none_yet = recorded t (record {
    is_new = n;
    own_id = own;
    own_event = event;
    pays_nothing = nothing;
    not_matched = unmatched_row;
    unresolved = none_yet;
    appended = refl;
    same_orders = refl;
    same_attempts = refl;
    same_commands = refl;
  })

  Told-unless :
      (r : Option Reopened) (id : ℕ) (error : CommerceError) (rest : Outcome PaymentIngestResult)
      → Origin e given s fresh r id
      → (r ≡ none → id ≡ fresh → select_first (is_event e) s.transactions ≡ none → Told rest)
      → Told (unless_reopened r error rest)
  Told-unless none id error rest (Origin.from_provider g n) h = h refl refl n
  Told-unless (some k) id error rest from h = tt

  Told-finish :
      (r : Option Reopened) (id : ℕ) (a : AttemptRow) (o : OrderRow) (t : Store)
      → ((s' : Store)
          → s'.transactions ≡ t.transactions
          → s'.orders ≡ t.orders
          → s'.attempts ≡ t.attempts
          → Commands o t.effects s'.effects
          → Ingested now e given fresh s (result_of matched id) s')
      → (f : Fulfilment) → IsCommanded o t.effects f
      → Told (finish admins o r id t f)
  unfolding notify_review notify_accepted
  Told-finish r id a o t h (not_issued error) c = tt
  Told-finish none id a o t h (issued new) c = h _ refl refl refl c
  Told-finish (some k) id a o t h (issued new) c = h _ refl refl refl c

  Told-order :
      (r : Option Reopened) (id : ℕ) (a : AttemptRow) (o : OrderRow)
      → Origin e given s fresh r id
      → find_lane e.event_reference s ≡ some (a, o)
      → (a.amount_vnd == e.event_amount) ≡ true
      → (is_accepted o.order_status || is_succeeded a.status) ≡ false
      → eligible now (effective_at now e r) r a o ≡ true
      → (attempts : List AttemptRow) → settle_attempts now a s.attempts ≡ some attempts
      → Told (
          accept_order i admins now
            (effective_at now e r)
            id
            r
            o
            (record_effect now id e r a s)
            (some attempts))
  Told-order none id a o from lane amount unpaid elig attempts n =
      elim (Option-cases (update_order now o.order_id accept_payment s.orders)) [
        | inl m ↦ rw (m, accept_order) tt
        | inr (orders, m) ↦
            rw (m, accept_order)
              (Told-finish none id a o
                (record (record_effect now id e none a s) { orders = orders; attempts = attempts })
                (λ s'. λ et. λ eo. λ ea. λ c. paid none id a o from (record {
                  lane = lane;
                  same_amount = amount;
                  was_unpaid = unpaid;
                  was_eligible = elig;
                  rows = et;
                  settled = n ∙ ap some (sym ea);
                  order = m ∙ ap some (sym eo);
                  command = c;
                }))
                _ (fulfill-IsCommanded i o _ s.effects))
      ]
  Told-order (some k) id a o from lane amount unpaid elig attempts n =
      elim (Option-cases (update_order now o.order_id accept_payment s.orders)) [
        | inl m ↦ rw (m, accept_order) tt
        | inr (orders, m) ↦
            rw (m, accept_order)
              (Told-finish (some k) id a o
                (record (record_effect now id e (some k) a s) {
                  orders = orders;
                  attempts = attempts;
                })
                (λ s'. λ et. λ eo. λ ea. λ c. paid (some k) id a o from (record {
                  lane = lane;
                  same_amount = amount;
                  was_unpaid = unpaid;
                  was_eligible = elig;
                  rows = et;
                  settled = n ∙ ap some (sym ea);
                  order = m ∙ ap some (sym eo);
                  command = c;
                }))
                _ (fulfill-IsCommanded i o _ s.effects))
      ]

  Told-accept :
      (r : Option Reopened) (id : ℕ) (a : AttemptRow) (o : OrderRow)
      → Origin e given s fresh r id
      → find_lane e.event_reference s ≡ some (a, o)
      → (a.amount_vnd == e.event_amount) ≡ true
      → (is_accepted o.order_status || is_succeeded a.status) ≡ false
      → eligible now (effective_at now e r) r a o ≡ true
      → Told (accept i admins now (effective_at now e r) id e r a o s)
  Told-accept r id a o from lane amount unpaid elig =
      elim (Option-cases (settle_attempts now a s.attempts)) [
        | inl n ↦ rw n tt
        | inr (attempts, n) ↦ rw n (Told-order r id a o from lane amount unpaid elig attempts n)
      ]

  Told-repeated :
      (a : AttemptRow) (o : OrderRow) (original : Option TransactionRow)
      → select_first (is_event e) s.transactions ≡ none
      → Told (repeated admins now fresh e a o s original)
  Told-repeated a o none n = tt
  Told-repeated a o (some original) n =
      Ensures-if (Ingested now e given fresh s) (is_same_transfer e a original) _ _
        (λ same. recorded _ (record {
          is_new = n;
          own_id = refl;
          own_event = refl;
          pays_nothing = λ k. refl;
          not_matched = refl;
          unresolved = refl;
          appended = refl;
          same_orders = refl;
          same_attempts = refl;
          same_commands = refl;
        }))
        (λ other. Told-review _ _ n refl refl (λ k. refl) refl refl)

  Told-already :
      (r : Option Reopened) (id : ℕ) (a : AttemptRow) (o : OrderRow)
      → Origin e given s fresh r id
      → Told (already_paid admins now id e r a o s)
  Told-already none id a o (Origin.from_provider g n) = Told-repeated a o _ n
  Told-already (some k) id a o from = tt

  Told-matched :
      (r : Option Reopened) (id : ℕ) (a : AttemptRow) (o : OrderRow)
      → Origin e given s fresh r id
      → find_lane e.event_reference s ≡ some (a, o)
      → Told (ingest_matched i admins now id e r a o s)
  Told-matched r id a o from lane =
      Ensures-if (Ingested now e given fresh s) (not (a.amount_vnd == e.event_amount)) _ _
        (λ other.
          Told-unless r id _ _ from
            (λ none_yet. λ own. λ n. rw own (Told-review _ _ n refl refl (λ k. refl) refl refl)))
        (λ same.
          Ensures-if (Ingested now e given fresh s)
            (is_accepted o.order_status || is_succeeded a.status) _ _
            (λ before. Told-already r id a o from)
            (λ unpaid.
              Ensures-if (Ingested now e given fresh s)
                (not (eligible now (effective_at now e r) r a o)) _ _
                (λ late. Told-unless r id _ _ from (λ none_yet.
                  λ own. λ n. rw own (Told-review _ _ n refl refl (λ k. refl) refl refl)))
                (λ elig. Told-accept r id a o from lane (not-false same) unpaid (not-false elig))))

  Told-lane :
      (r : Option Reopened) (id : ℕ)
      → Origin e given s fresh r id
      → (lane : Option (AttemptRow × OrderRow)) → find_lane e.event_reference s ≡ lane
      → Told (ingest_lane i admins now id e r s lane)
  Told-lane r id from none e =
      Told-unless r id _ _ from
        (λ none_yet. λ own. λ n. rw own (Told-review _ _ n refl refl (λ k. refl) refl refl))
  Told-lane r id from (some (a, o)) lane =
      Ensures-if (Ingested now e given fresh s) (is_reconcilable_lane r a o) _ _
        (λ named. Told-matched r id a o from lane) (λ other. tt)

  Told-stored :
      (r : Reconciliation) (o : Option TransactionRow)
      → given ≡ some r
      → select_first (is_event e) s.transactions ≡ o
      → Told (ingest_stored i admins now e r s o)
  Told-stored r none g n = tt
  Told-stored r (some t) g n =
      Ensures-if (Ingested now e given fresh s) (is_fulfilling t.review_resolution) _ _
        (λ before. known t n refl)
        (λ unpaid.
          Ensures-if (Ingested now e given fresh s)
            (not (t.transaction_id == r.target_transaction) || not r.is_system_admin) _ _
            (λ other. tt)
            (λ own. elim (Option-cases (refusal e.event_timing t r.manual)) [
              | inl free ↦ rw free (
                  Told-lane _ _
                    (reopened (record { request = r; stored = t }) g n (own_id_of _ _ _ own) unpaid
                      (refusal-not_matched e.event_timing t r.manual free))
                    _ refl)
              | inr (error, stop) ↦ rw stop tt
            ]))

  Told-fresh :
      (o : Option TransactionRow)
      → given ≡ none
      → select_first (is_event e) s.transactions ≡ o
      → Told (ingest_fresh i admins now fresh e s o)
  Told-fresh none g n = Told-lane none fresh (Origin.from_provider g n) _ refl
  Told-fresh (some t) g n = known t n refl

-- Every successful call does one of the three.
pub ingest_payment-Ingested :
    (i : Issuance) (admins : List ℕ) (now fresh : ℕ) (e : VerifiedPaymentEvent)
    (given : Option Reconciliation) (s : Store)
    → Ensures (Ingested now e given fresh s) (ingest_payment i admins now fresh e given s)
unfolding ingest_payment
ingest_payment-Ingested i admins now fresh e none s =
    Told-fresh i admins now fresh e none s _ refl refl
ingest_payment-Ingested i admins now fresh e (some r) s =
    Told-stored i admins now fresh e (some r) s r _ refl refl
