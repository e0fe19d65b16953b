-- ===== src/Commerce/Ledger/Payments.antt =====
-- The books after an event of the payment provider.
use emu_key.Prelude.{
  ℕ, ◌+◌, ◌≤◌, ◌≡◌, refl, sym, subst, ap, ◌∙◌, Bool, true, false, Option, none, some, List, [], ◌∷◌,
  arith, ◌==◌, ==_iff, Bool-cases, inl, inr, select_first, count_where, All, All-append,
  All-update_first,
}
use emu_key.Commerce.Store.{
  Store, OrderRow, AttemptRow, TransactionRow, matched, is_fulfilling, fulfills,
}
use emu_key.Commerce.Store.Counting.{
  one_if, count_where-none, count_where-update_first, count_where-update_first_eq,
  select_first-by_key, count_where-append_one, count_where-append_unique,
}
use emu_key.Commerce.Payments.{
  VerifiedPaymentEvent, Reconciliation, Reopened, accept_resolution, record_effect, reconcile_row,
  evidence, accept_payment, find_lane, lane_of, lane_with, PaymentIngestResult, is_event,
}
use emu_key.Commerce.Ledger.{
  Ledger, IsSettled, fulfillments, has_transaction_id, has_order_id, has_event,
}
use emu_key.Commerce.Ledger.Orders.{update_order-ids, update_order-accepts}
use emu_key.Commerce.Ledger.Ingested.{Ingested, Origin, Paid, Recorded}

pub found :
    {R : Type 0} (p : R → Bool) (rs : List R) (r : R) → select_first p rs ≡ some r → p r ≡ true
unfolding select_first
found p [] r e = cc
found p (x ∷ rs) r e = elim (Bool-cases (p x)) [
  | inl b ↦ let same : x ≡ r = ground (arith, b, e) in subst (λ y. p y ≡ true) same b
  | inr b ↦ found p rs r (ground (arith, b, e))
]

lane_with-some :
    (b : AttemptRow) (x : Option OrderRow) (a : AttemptRow) (o : OrderRow)
    → lane_with b x ≡ some (a, o)
    → (b ≡ a) × (x ≡ some o)
lane_with-some b none a o e = cc
lane_with-some b (some q) a o e = (cc, cc)

lane_of-some :
    (s : Store) (x : Option AttemptRow) (a : AttemptRow) (o : OrderRow)
    → lane_of s x ≡ some (a, o)
    → (x ≡ some a)
      × (select_first (λ (q : OrderRow). q.order_id == a.attempt_order_id) s.orders ≡ some o)
lane_of-some s none a o e = cc
lane_of-some s (some b) a o e =
    let (same, order) = lane_with-some b _ a o e in
    (
      ap some same,
      subst
          (λ (c : AttemptRow).
            select_first (λ (q : OrderRow). q.order_id == c.attempt_order_id) s.orders ≡ some o)
          same order,
    )

-- The attempt has the event's reference, and the order is the attempt's.
pub find_lane-some :
    (reference : ℕ) (s : Store) (a : AttemptRow) (o : OrderRow)
    → find_lane reference s ≡ some (a, o)
    → (select_first (λ (q : AttemptRow). q.provider_reference == reference) s.attempts ≡ some a)
      × (select_first (λ (q : OrderRow). q.order_id == a.attempt_order_id) s.orders ≡ some o)
      × (o.order_id ≡ a.attempt_order_id)
unfolding find_lane
find_lane-some reference s a o e =
    let (attempt, order) = lane_of-some s _ a o e in
    let own = (==_iff o.order_id a.attempt_order_id).0 (found _ s.orders o order) in
    (attempt, order, own)

-- A reviewer's match fulfils: the service passes no other resolution on.
abbrev pub MayFulfill : Option Reconciliation → Type 0
MayFulfill none = Unit
MayFulfill (some r) = is_fulfilling (some (accept_resolution r.manual)) ≡ true

module _ (now : ℕ) (e : VerifiedPaymentEvent) (given : Option Reconciliation) (fresh : ℕ)
    (s s' : Store) (books : Ledger s)
    (unused : count_where (has_transaction_id fresh) s.transactions ≡ 0)
    (may : MayFulfill given) where
  unused_key :
      (k : ℕ) (t : TransactionRow)
      → t.transaction_id ≡ fresh
      → has_transaction_id k t ≡ true
      → count_where (has_transaction_id k) s.transactions ≡ 0
  unused_key k t own h =
      let same : fresh ≡ k = sym own ∙ (==_iff t.transaction_id k).0 h in
      subst (λ x. count_where (has_transaction_id x) s.transactions ≡ 0) same unused

  unused_event :
      (event : ℕ) (t : TransactionRow)
      → t.provider_event_id ≡ e.event_id
      → select_first (is_event e) s.transactions ≡ none
      → has_event event t ≡ true
      → count_where (has_event event) s.transactions ≡ 0
  unused_event event t own n h =
      let same : e.event_id ≡ event = sym own ∙ (==_iff t.provider_event_id event).0 h in
      subst (λ x. count_where (has_event x) s.transactions ≡ 0) same
        (count_where-none (is_event e) s.transactions n)

  Recorded-Ledger : (t : TransactionRow) → Recorded e s s' fresh t → Ledger s'
  unfolding fulfillments
  Recorded-Ledger t h = record {
    one_order = λ k. rw h.same_orders (books.one_order k);
    one_transaction = λ k. rw h.appended (
        count_where-append_unique (has_transaction_id k) s.transactions t (books.one_transaction k)
          (unused_key k t h.own_id));
    one_event = λ k. rw h.appended (
        count_where-append_unique (has_event k) s.transactions t (books.one_event k)
          (unused_event k t h.own_event h.is_new));
    balanced = λ k.
        rw (h.appended, h.same_orders)
          (ground (
            arith,
            count_where-append_one (fulfills k) s.transactions t,
            h.pays_nothing k,
            books.balanced k,
          ));
    settled = rw h.appended (
        All-append IsSettled s.transactions (t ∷ []) books.settled
          (λ open_row. rw h.unresolved refl, tt));
  }

  -- One fulfilling row more, of the order.
  pub record_effect-fulfillments :
      (r : Option Reopened) (id : ℕ) (a : AttemptRow) (k : ℕ)
      → Origin e given s fresh r id
      → fulfillments k (record_effect now id e r a s).transactions
        ≡ fulfillments k s.transactions + one_if (a.attempt_order_id == k)
  unfolding fulfillments
  record_effect-fulfillments none id a k (Origin.from_provider g n) =
      count_where-append_one (fulfills k) s.transactions _
  record_effect-fulfillments (some q) id a k (Origin.reopened _ g n own unpaid other) =
      let fulfilling : MayFulfill (some q.request) = subst MayFulfill g may in
      let key =
        select_first-by_key (is_event e) (has_transaction_id q.request.target_transaction)
          s.transactions q.stored (books.one_transaction _) n ((==_iff _ _).1 own) in
      let moved =
        count_where-update_first (fulfills k) (has_transaction_id q.request.target_transaction)
          (reconcile_row e q a) s.transactions q.stored key in
      let before : fulfills k q.stored ≡ false = rw (unpaid, other) refl in
      let after : fulfills k (reconcile_row e q a q.stored) ≡ (a.attempt_order_id == k) =
        rw (other, fulfilling) refl in
      ground (arith, moved, before, after)

  record_effect-keys :
      (r : Option Reopened) (id : ℕ) (a : AttemptRow) (k : ℕ)
      → Origin e given s fresh r id
      → (count_where (has_transaction_id k) (record_effect now id e r a s).transactions ≤ 1)
        × (count_where (has_event k) (record_effect now id e r a s).transactions ≤ 1)
  record_effect-keys none id a k (Origin.from_provider g n) = (
    count_where-append_unique (has_transaction_id k) s.transactions _ (books.one_transaction k)
        (unused_key k (evidence now fresh e matched) refl),
    count_where-append_unique (has_event k) s.transactions _ (books.one_event k)
        (unused_event k (evidence now fresh e matched) refl n),
  )
  record_effect-keys (some q) id a k (Origin.reopened _ g n own unpaid other) =
      let ids =
        count_where-update_first_eq (has_transaction_id k)
          (has_transaction_id q.request.target_transaction) (reconcile_row e q a) s.transactions
          (λ t. refl) in
      let events =
        count_where-update_first_eq (has_event k) (has_transaction_id q.request.target_transaction)
          (reconcile_row e q a) s.transactions (λ t. refl) in
      let i = books.one_transaction k in
      let j = books.one_event k in (ground (arith, ids, i), ground (arith, events, j))

  record_effect-IsSettled :
      (r : Option Reopened) (id : ℕ) (a : AttemptRow)
      → Origin e given s fresh r id
      → All IsSettled (record_effect now id e r a s).transactions
  record_effect-IsSettled none id a from =
      All-append IsSettled s.transactions (_ ∷ []) books.settled (λ open_row. refl, tt)
  record_effect-IsSettled (some q) id a from =
      All-update_first IsSettled (has_transaction_id id) (reconcile_row e q a) s.transactions
        (λ t. λ own. λ before. λ open_row. cc) books.settled

  Paid-Ledger :
      (r : Option Reopened) (id : ℕ) (a : AttemptRow) (o : OrderRow)
      → Origin e given s fresh r id
      → Paid now e s s' r id a o
      → Ledger s'
  unfolding fulfillments
  Paid-Ledger r id a o from h =
      let (attempt, order, own) = find_lane-some e.event_reference s a o h.lane in
      let same_order =
        subst (λ k. select_first (has_order_id k) s.orders ≡ some o) (sym own) order in
      record {
        one_order = λ k.
            subst (λ n. n ≤ 1)
              (sym (
                update_order-ids now o.order_id accept_payment s.orders s'.orders (λ q. refl) k
                  h.order))
              (books.one_order k);
        one_transaction = λ k. rw h.rows (record_effect-keys r id a k from).0;
        one_event = λ k. rw h.rows (record_effect-keys r id a k from).1;
        balanced = λ k.
            let paid_rows = record_effect-fulfillments r id a k from in
            let accepted =
              update_order-accepts now o.order_id accept_payment s.orders s'.orders (λ q. refl) k o
                (λ q. refl) same_order refl h.order in
            rw (h.rows, accepted) (ground (arith, paid_rows, own, books.balanced k));
        settled = rw h.rows (record_effect-IsSettled r id a from);
      }

  -- The books balance after the event.
  pub Ingested-Ledger :
      (result : PaymentIngestResult) → Ingested now e given fresh s result s' → Ledger s'
  Ingested-Ledger result (Ingested.known t n same) = subst Ledger (sym same) books
  Ingested-Ledger result (Ingested.recorded t h) = Recorded-Ledger t h
  Ingested-Ledger result (Ingested.paid r id a o from h) = Paid-Ledger r id a o from h
