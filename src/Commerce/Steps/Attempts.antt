-- ===== src/Commerce/Steps/Attempts.antt =====
-- The pending attempts of an order, and what a checkout offers (commerce.repository.ts).
use emu_key.Prelude.{
  ℕ, ◌≤◌, ◌≡◌, refl, sym, subst, Bool, true, false, not, ◌&&◌, Option, some, List, [], ◌∷◌, ◌++◌,
  arith, Option-cases, Bool-cases, inl, inr, leb, select_all, map, update_where, update_first,
  count_where, exists_where, All, count_where-update_where_le, count_where-update_first_le,
  if◌then◌else◌,
}
use emu_key.Commerce.{AttemptStatus, is_pending}
use emu_key.Commerce.Retry.Decision.{IsClosed, evaluate_payment_retry-allowed_iff}
use emu_key.Commerce.Store.{
  Store, OrderRow, AttemptRow, update_pending, permitted_attempt, set_attempt,
}
use emu_key.Commerce.Store.Counting.{count_where-append_unique}
use emu_key.Commerce.Orders.{of_order}
use emu_key.Commerce.Checkout.{decide, retry_attempt, new_attempt}
use emu_key.Commerce.Payments.{
  settle_attempts, is_attempt, is_other, VerifiedPaymentEvent, Reconciliation, PaymentIngestResult,
}
use emu_key.Commerce.Ledger.Ingested.{Ingested}
use emu_key.Commerce.Steps.{Run}
use emu_key.Commerce.Steps.Closed.{Closed}
use emu_key.Commerce.Steps.Keeping.{Run-Closed}

abbrev pub pending_of : ℕ → AttemptRow → Bool
pending_of id a = of_order id a && is_pending a.status

-- Whether each order has at most one pending attempt.
abbrev pub OnePending : Store → Type 0
OnePending s = (id : ℕ) → count_where (pending_of id) s.attempts ≤ 1

status-set_attempt :
    (now : ℕ) (status : AttemptStatus) (a : AttemptRow) → (set_attempt now status a).status ≡ status
status-set_attempt now AttemptStatus.pending a = refl
status-set_attempt now AttemptStatus.succeeded a = refl
status-set_attempt now AttemptStatus.failed a = refl
status-set_attempt now AttemptStatus.expired a = refl
status-set_attempt now AttemptStatus.superseded a = refl

set_attempt_settles :
    (now id : ℕ) (status : AttemptStatus) (a : AttemptRow)
    → is_pending status ≡ false
    → pending_of id (set_attempt now status a) ≡ true
    → pending_of id a ≡ true
set_attempt_settles now id status a h k =
    let e = status-set_attempt now status a in
    let still : is_pending (set_attempt now status a).status ≡ true = ground (arith, k) in
    let settled : is_pending (set_attempt now status a).status ≡ false = rw e h in
    ground (arith, still, settled)

update_pending_le :
    (now : ℕ) (status : AttemptStatus) (p : AttemptRow → Bool) (attempts new : List AttemptRow)
    (id : ℕ)
    → is_pending status ≡ false
    → update_pending now status p attempts ≡ some new
    → count_where (pending_of id) new ≤ count_where (pending_of id) attempts
unfolding update_pending
update_pending_le now status p attempts new id h e =
    elim (Bool-cases (
      exists_where (λ a. p a && is_pending a.status && not (permitted_attempt now a status))
        attempts)) [
          | inl b ↦ ground (arith, b, e)
          | inr b ↦
              let same : update_where (λ a. p a && is_pending a.status) (set_attempt now status)
                    attempts
                  ≡ new =
                ground (arith, b, e) in
              subst (λ x. count_where (pending_of id) x ≤ count_where (pending_of id) attempts) same
                (count_where-update_where_le (pending_of id) _ (set_attempt now status) attempts
                  (λ a. λ own. λ k. set_attempt_settles now id status a h k))
        ]

settle_attempts_le :
    (now : ℕ) (a : AttemptRow) (attempts new : List AttemptRow) (id : ℕ)
    → settle_attempts now a attempts ≡ some new
    → count_where (pending_of id) new ≤ count_where (pending_of id) attempts
settle_attempts_le now a attempts new id e =
    let paid =
      update_first (is_attempt a.attempt_id) (set_attempt now AttemptStatus.succeeded) attempts in
    let first =
      count_where-update_first_le (pending_of id) (is_attempt a.attempt_id)
        (set_attempt now AttemptStatus.succeeded) attempts
        (λ b. λ own. λ k. set_attempt_settles now id AttemptStatus.succeeded b refl k) in
    elim (Option-cases
      (update_pending now AttemptStatus.expired (λ b. is_other a b && leb b.expires_at now) paid)) [
        | inl n ↦ ground (arith, n, e)
        | inr (rest, n) ↦
            let second = update_pending_le now AttemptStatus.expired _ paid rest id refl n in
            let last : update_pending now AttemptStatus.superseded (is_other a) rest ≡ some new =
              ground (arith, n, e) in
            let third = update_pending_le now AttemptStatus.superseded _ rest new id refl last in
            ground (arith, first, second, third)
      ]

none_pending :
    (id : ℕ) (attempts : List AttemptRow)
    → All IsClosed (map retry_attempt (select_all (of_order id) attempts))
    → count_where (pending_of id) attempts ≡ 0
unfolding select_all count_where
none_pending id [] h = refl
none_pending id (a ∷ rest) h = elim (Bool-cases (of_order id a)) [
  | inl e ↦
      let closed : All IsClosed
          (retry_attempt a ∷ map retry_attempt (select_all (of_order id) rest)) =
        subst
          (λ b. All IsClosed (
            map retry_attempt
              (if b then a ∷ select_all (of_order id) rest else select_all (of_order id) rest)))
          e h in
      ground (arith, closed.0, none_pending id rest closed.1)
  | inr e ↦
      let others : All IsClosed (map retry_attempt (select_all (of_order id) rest)) =
        subst
          (λ b. All IsClosed (
            map retry_attempt
              (if b then a ∷ select_all (of_order id) rest else select_all (of_order id) rest)))
          e h in
      ground (arith, e, none_pending id rest others)
]

opened-OnePending :
    (now fresh : ℕ) (s : Store) (o : OrderRow)
    → OnePending s
    → (decide now o s).allowed ≡ true
    → OnePending (record s { attempts = s.attempts ++ new_attempt now fresh o s.attempts ∷ [] })
opened-OnePending now fresh s o h allowed id =
    let (waits, due, certain, closed) = (evaluate_payment_retry-allowed_iff _).0 allowed in
    count_where-append_unique (pending_of id) s.attempts (new_attempt now fresh o s.attempts) (h id)
      (λ mine.
        let same : o.order_id ≡ id = ground (arith, mine) in
        subst (λ k. count_where (pending_of k) s.attempts ≡ 0) same
          (none_pending o.order_id s.attempts closed))

with_fewer :
    (attempts new : List AttemptRow)
    → ((id : ℕ) → count_where (pending_of id) attempts ≤ 1)
    → ((id : ℕ) → count_where (pending_of id) new ≤ count_where (pending_of id) attempts)
    → (id : ℕ) → count_where (pending_of id) new ≤ 1
with_fewer attempts new h fewer id = ground (arith, h id, fewer id)

ingested-OnePending :
    (now : ℕ) (e : VerifiedPaymentEvent) (given : Option Reconciliation) (fresh : ℕ) (s s' : Store)
    (result : PaymentIngestResult)
    → OnePending s
    → Ingested now e given fresh s result s'
    → OnePending s'
ingested-OnePending now e given fresh s s' result h (Ingested.known t n same) =
    subst OnePending (sym same) h
ingested-OnePending now e given fresh s s' result h (Ingested.recorded t r) =
    λ id. rw r.same_attempts (h id)
ingested-OnePending now e given fresh s s' result h (Ingested.paid r i a o from p) =
    with_fewer s.attempts s'.attempts h
      (λ id. settle_attempts_le now a s.attempts s'.attempts id p.settled)

OnePending-Closed : Closed OnePending
OnePending-Closed = record {
  agrees = λ now id s orders h e. h;
  cancels = λ now id s orders attempts h e f.
      with_fewer s.attempts attempts h
        (λ k. update_pending_le now AttemptStatus.superseded _ s.attempts attempts k refl f);
  closes = λ now id s orders attempts h e f.
      with_fewer s.attempts attempts h
        (λ k. update_pending_le now AttemptStatus.expired _ s.attempts attempts k refl f);
  places = λ now customer key plan target handoff p s h unused. h;
  opens = λ now fresh customer id s o h own allowed. opened-OnePending now fresh s o h allowed;
  fails = λ now id s attempts h e.
      with_fewer s.attempts attempts h
        (λ k. update_pending_le now AttemptStatus.failed _ s.attempts attempts k refl e);
  pays = λ now e given fresh s s' result h unused may d.
      ingested-OnePending now e given fresh s s' result h d;
  reviews = λ id input s t h closing n o. h;
  affects = λ x s h. h;
}

-- From a store where each order has at most one pending attempt, any sequence of operations leads to
-- such a store.
pub Run-OnePending : (start t : Store) → OnePending start → Run start t → OnePending t
Run-OnePending = Run-Closed OnePending OnePending-Closed
