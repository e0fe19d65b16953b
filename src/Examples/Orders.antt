-- ===== src/Examples/Orders.antt =====
-- backend/src/modules/commerce-payment: concrete orders and their attempts.
use emu_key.Prelude.{
  ◌+◌, ◌≡◌, refl, true, false, none, some, [], ◌∷◌, arith, count_where, Follows, select_first,
  exists_where, select_all, All,
}
use mathlib.Core.Option.{some-injective}
use emu_key.Commerce.{AttemptStatus, waiting_payment}
use emu_key.Commerce.Retry.{evaluate_payment_retry}
use emu_key.Commerce.Store.{
  Store, OrderRow, AttemptRow, raised, done, database_error, select_latest, matched, has_pending,
}
use emu_key.Commerce.Orders.{is_own, cancel_order, cancel_overdue_orders}
use emu_key.Commerce.Orders.Sweeps.{
  cancel_overdue_orders_progress, IsOverdue, IsTimely, overdue_orders,
}
use emu_key.Commerce.Checkout.{prepare_checkout, CheckoutPreparation, last_attempt_no}
use emu_key.Commerce.Checkout.Live.{prepare_checkout-IsLive, IsLive}
use emu_key.Commerce.Checkout.Stranded.{cancel_order_blocked, has_expired_pending}
use emu_key.Commerce.Payments.{result_of}
use emu_key.Commerce.Ledger.Accounts.{ingest_payment-Credits, Credits}
use emu_key.Commerce.Steps.{Run, Step}
use emu_key.Commerce.Steps.Attempts.{Run-OnePending, OnePending}
use emu_key.Commerce.Steps.History.{Run-Evolves, Evolves}
use emu_key.Examples.Payments.{
  order_of, attempt_of, nothing_else, shop, paid_shop, paying, sandbox, payment, shop-Ledger,
  unused_id, store_after,
}

abbrev paid_run : Run shop paid_shop
paid_run =
    Run.then Run.nothing_yet (
      Step.ingested sandbox (2 ∷ []) 600 91 payment none (result_of matched 91) unused_id tt paying)

Run-Evolves_example : Follows Evolves shop.orders paid_shop.orders
Run-Evolves_example = Run-Evolves shop paid_shop paid_run

shop-OnePending : OnePending shop
unfolding count_where
shop-OnePending id = ground arith

Run-OnePending_example : OnePending paid_shop
Run-OnePending_example = Run-OnePending shop paid_shop shop-OnePending paid_run

ingest_payment-Credits_example : Credits (result_of matched 91) shop paid_shop
ingest_payment-Credits_example =
    ingest_payment-Credits sandbox (2 ∷ []) 600 91 payment none shop paid_shop
      (result_of matched 91) shop-Ledger unused_id tt paying

abbrev new_shop : Store
new_shop = record {
  orders = order_of waiting_payment ∷ [];
  attempts = attempt_of AttemptStatus.failed ∷ [];
  transactions = [];
  effects = nothing_else;
}

abbrev offer : CheckoutPreparation
offer = record {
  checkout_amount = 50000;
  checkout_attempt = 42;
  checkout_reference = 42;
  existing = false;
  checkout_expires_at = 2000;
}

abbrev open_shop : Store
open_shop = store_after new_shop (prepare_checkout 1200 true true 42 21 1 new_shop)

checking_out : prepare_checkout 1200 true true 42 21 1 new_shop ≡ done offer open_shop
unfolding prepare_checkout select_first exists_where select_all evaluate_payment_retry select_latest
    last_attempt_no
checking_out = refl

prepare_checkout-IsLive_example :
    (o : OrderRow) × (a : AttemptRow) × (select_first (is_own 21 1) new_shop.orders ≡ some o)
    × IsLive 1200 open_shop o offer a
prepare_checkout-IsLive_example =
    prepare_checkout-IsLive 1200 42 21 1 true true new_shop open_shop offer checking_out

abbrev own_order : OrderRow
own_order = order_of waiting_payment

found_own : select_first (is_own 21 1) shop.orders ≡ some own_order
unfolding select_first
found_own = refl

run_out : has_expired_pending 1200 1 shop.attempts ≡ true
unfolding exists_where
run_out = refl

-- At 1200 the attempt of the order has run out, and the order is due at 2000.
cancel_order_blocked_example : cancel_order 1200 21 1 shop ≡ raised database_error
cancel_order_blocked_example = cancel_order_blocked 1200 21 1 shop own_order found_own refl run_out

is_late : IsOverdue 2500 shop.orders 1
unfolding select_first
is_late = (own_order, refl, refl)

its_attempt_ends : All (IsTimely shop) (1 ∷ [])
unfolding select_first exists_where
its_attempt_ends = ((λ o own. rw (← some-injective own_order o own) refl), tt)

cancel_overdue_orders_progress_example :
    (s' : Store) × (cancel_overdue_orders 2500 (1 ∷ []) shop ≡ done tt s')
    × (overdue_orders 2500 s' + 1 ≡ overdue_orders 2500 shop)
    × All (λ id. has_pending id s'.attempts ≡ false) (1 ∷ [])
cancel_overdue_orders_progress_example =
    cancel_overdue_orders_progress 2500 (1 ∷ []) shop (tt, tt) (is_late, tt) its_attempt_ends
