-- ===== src/Examples/Payments.antt =====
-- backend/src/modules/commerce-payment: a concrete order that is paid.
use emu_key.Prelude.{
  ℕ, ◌≡◌, refl, true, false, none, some, [], ◌∷◌, arith, count_where, select_first, update_first,
  update_where, exists_where,
}
use emu_key.Commerce.{OrderStatus, AttemptStatus, waiting_payment}
use emu_key.Commerce.Store.{
  Store, OrderRow, AttemptRow, Effects, new_purchase, provider, done, Outcome, matched, duplicate,
  unmatched, update_order, update_pending,
}
use emu_key.Commerce.Fulfilment.{Issuance, Calendar, fulfill, notify_review, notify_accepted}
use emu_key.Commerce.Payments.{VerifiedPaymentEvent, result_of, ingest_payment, find_lane}
use emu_key.Commerce.Ledger.{Ledger, fulfillments, acceptances, has_event, has_transaction_id}
use emu_key.Commerce.Ledger.Run.{Run-PaidOnce, PaidOnce}
use emu_key.Commerce.Ledger.Deliveries.{ingest_payment_keeps_event, ingest_payment_twice}
use emu_key.Commerce.Ledger.Matched.{ingest_payment-Pays, ingest_payment_spares, Pays}
use emu_key.Commerce.Steps.{then, nothing_yet, ingested}

abbrev pub order_of : OrderStatus → OrderRow
order_of status = record {
  order_id = 1;
  idempotency_key = 11;
  customer_user_id = 21;
  plan_id = 31;
  order_type = new_purchase;
  order_status = status;
  auto_cancelled = false;
  price_vnd = 50000;
  duration_months = 1;
  is_handoff = false;
  terms_version = 1;
  terms_hash = 7;
  payment_due_at = 2000;
  ipn_accept_until = 9000;
  terms_accepted_at = some 100;
}

abbrev pub attempt_of : AttemptStatus → AttemptRow
attempt_of status = record {
  attempt_id = 41;
  attempt_order_id = 1;
  attempt_no = 1;
  provider_reference = 41;
  amount_vnd = 50000;
  status = status;
  created_at = 200;
  expires_at = 1100;
  superseded_at = none;
}

abbrev pub nothing_else : Effects
nothing_else = record { licenses = []; commands = []; stored_keys = []; notices = [] }

abbrev pub shop : Store
shop = record {
  orders = order_of waiting_payment ∷ [];
  attempts = attempt_of AttemptStatus.pending ∷ [];
  transactions = [];
  effects = nothing_else;
}

abbrev thirty_days : ℕ
thirty_days = 2592000000

abbrev flat_calendar : Calendar
flat_calendar = record {
  date_of = λ t. some (record { year = t; month = 0; day = 1; ms_of_day = 0 });
  time_of = λ d. d.year;
  add_interval = λ t. λ months. t;
}

abbrev pub sandbox : Issuance
sandbox = record {
  calendar = flat_calendar;
  issued_license_id = 51;
  issued_command_id = 61;
  default_registry = 1;
  namespace_registry = some 2;
  has_chain_address = true;
  has_key_storage = false;
}

abbrev pub payment : VerifiedPaymentEvent
payment = record {
  event_id = 71;
  event_reference = 41;
  event_amount = 50000;
  occurred = 500;
  event_transaction_ref = some 81;
  event_timing = provider;
}

abbrev pub store_after : {A : Type 0} → Store → Outcome A → Store
store_after s (Outcome.raised e) = s
store_after s (Outcome.done a t) = t

abbrev pub paid_shop : Store
paid_shop = store_after shop (ingest_payment sandbox (2 ∷ []) 600 91 payment none shop)

pub paying :
    ingest_payment sandbox (2 ∷ []) 600 91 payment none shop ≡ done (result_of matched 91) paid_shop
unfolding ingest_payment find_lane select_first update_first update_where exists_where update_order
    update_pending fulfill notify_accepted
paying = refl

pub shop-Ledger : Ledger shop
unfolding fulfillments acceptances count_where
shop-Ledger = record {
  one_order = λ id. ground arith;
  one_transaction = λ id. omega arith;
  one_event = λ id. omega arith;
  balanced = λ id. ground arith;
  settled = tt;
}

pub unused_id : count_where (has_transaction_id 91) shop.transactions ≡ 0
unfolding count_where
unused_id = refl

Run-PaidOnce_example : PaidOnce paid_shop
Run-PaidOnce_example = Run-PaidOnce shop paid_shop shop-Ledger (
    then nothing_yet
      (ingested sandbox (2 ∷ []) 600 91 payment none (result_of matched 91) unused_id tt paying))

ingest_payment_keeps_event_example : count_where (has_event 71) paid_shop.transactions ≡ 1
ingest_payment_keeps_event_example =
    ingest_payment_keeps_event sandbox (2 ∷ []) 600 91 payment none shop paid_shop
      (result_of matched 91) shop-Ledger paying

ingest_payment_twice_example :
    (id : ℕ) × (ingest_payment sandbox [] 700 92 payment none paid_shop
      ≡ done (result_of duplicate id) paid_shop)
ingest_payment_twice_example =
    ingest_payment_twice sandbox sandbox (2 ∷ []) [] 600 700 91 92 payment payment none shop
      paid_shop (result_of matched 91) shop-Ledger paying refl

ingest_payment-Pays_example : (a : AttemptRow) × (o : OrderRow) × Pays 600 payment shop a o
ingest_payment-Pays_example =
    ingest_payment-Pays sandbox (2 ∷ []) 600 91 payment shop paid_shop (result_of matched 91) paying
      refl

abbrev late_shop : Store
late_shop = store_after shop (ingest_payment sandbox (2 ∷ []) 9600 91 payment none shop)

late :
    ingest_payment sandbox (2 ∷ []) 9600 91 payment none shop
    ≡ done (result_of unmatched 91) late_shop
unfolding ingest_payment find_lane select_first update_first update_where exists_where update_order
    update_pending fulfill notify_accepted notify_review
late = refl

ingest_payment_spares_example :
    (late_shop.orders ≡ shop.orders) × (late_shop.attempts ≡ shop.attempts)
ingest_payment_spares_example =
    ingest_payment_spares sandbox (2 ∷ []) 9600 91 payment none shop late_shop
      (result_of unmatched 91) late refl
