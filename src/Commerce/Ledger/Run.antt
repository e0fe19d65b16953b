-- ===== src/Commerce/Ledger/Run.antt =====
-- The books over any sequence of operations (commerce.repository.ts).
use emu_key.Prelude.{ℕ, ◌≤◌, ◌≡◌, refl, List, arith}
use emu_key.Commerce.Store.{Store, AttemptRow, Effects}
use emu_key.Commerce.Store.Counting.{count_where-le}
use emu_key.Commerce.Orders.{accept_terms, cancelled, auto_cancel}
use emu_key.Commerce.Ledger.{Ledger, fulfillments, acceptances, accepted_of, has_order_id}
use emu_key.Commerce.Ledger.Payments.{Ingested-Ledger}
use emu_key.Commerce.Ledger.Placing.{updated-Ledger, appended-Ledger}
use emu_key.Commerce.Ledger.Reviews.{closed-Ledger}
use emu_key.Commerce.Steps.{Run}
use emu_key.Commerce.Steps.Closed.{Closed}
use emu_key.Commerce.Steps.Keeping.{Run-Closed}

with_attempts :
    (s : Store) (attempts : List AttemptRow) → Ledger s → Ledger (record s { attempts = attempts })
with_attempts s attempts books = record {
  one_order = books.one_order;
  one_transaction = books.one_transaction;
  one_event = books.one_event;
  balanced = books.balanced;
  settled = books.settled;
}

with_effects : (x : Effects) (s : Store) → Ledger s → Ledger (record s { effects = x })
with_effects x s books = record {
  one_order = books.one_order;
  one_transaction = books.one_transaction;
  one_event = books.one_event;
  balanced = books.balanced;
  settled = books.settled;
}

Ledger-Closed : Closed Ledger
Ledger-Closed = record {
  agrees = λ now id s orders h e.
      updated-Ledger now id (accept_terms now) s orders s.attempts h (λ o. refl) (λ o. refl) e;
  cancels = λ now id s orders attempts h e f.
      updated-Ledger now id cancelled s orders attempts h (λ o. refl) (λ o. refl) e;
  closes = λ now id s orders attempts h e f.
      updated-Ledger now id auto_cancel s orders attempts h (λ o. refl) (λ o. refl) e;
  places = λ now customer key plan target handoff p s h unused.
      appended-Ledger now customer key p s h unused plan target handoff;
  opens = λ now fresh customer id s o h own allowed. with_attempts s _ h;
  fails = λ now id s attempts h e. with_attempts s attempts h;
  pays = λ now e given fresh s s' result h unused may d.
      Ingested-Ledger now e given fresh s s' h unused may result d;
  reviews = λ id input s t h closing n o. closed-Ledger id input s h closing t n o;
  affects = with_effects;
}

pub Run-Ledger : (start t : Store) → Ledger start → Run start t → Ledger t
Run-Ledger = Run-Closed Ledger Ledger-Closed

-- Whether each order is paid at most once, by as many transactions as there are acceptances.
abbrev pub PaidOnce : Store → Type 0
PaidOnce s =
    (id : ℕ)
    → (fulfillments id s.transactions ≤ 1)
      × (fulfillments id s.transactions ≡ acceptances id s.orders)

pub Ledger-PaidOnce : (s : Store) → Ledger s → PaidOnce s
unfolding acceptances
Ledger-PaidOnce s books id =
    let most =
      count_where-le (accepted_of id) (has_order_id id) s.orders (λ o. λ h. ground (arith, h)) in
    (ground (arith, most, books.one_order id, books.balanced id), books.balanced id)

-- From books that balance, any sequence of operations leads to books that balance: an order has at
-- most one transaction that pays for it, and it has one exactly when its payment is accepted.
pub Run-PaidOnce : (start t : Store) → Ledger start → Run start t → PaidOnce t
Run-PaidOnce start t books run = Ledger-PaidOnce t (Run-Ledger start t books run)
