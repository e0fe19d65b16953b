-- ===== src/Commerce/Checkout/Offered.antt =====
-- The two things that a successful checkout does: resume a live attempt, or open a new one
-- (`prepareCheckout`).
use emu_key.Prelude.{
  ℕ, ◌≡◌, refl, Bool, not-false, true, false, not, ◌&&◌, Option, none, some, ◌++◌, [], ◌∷◌, leb,
  is_past, select_first,
}
use emu_key.Commerce.{is_waiting_payment}
use emu_key.Commerce.Retry.{
  PaymentRetryReason, ready, attempt_pending, payment_review, order_not_payable,
}
use emu_key.Commerce.Store.{Store, OrderRow, AttemptRow, Outcome, select_latest}
use emu_key.Commerce.Store.Outcomes.{Ensures, Ensures-if}
use emu_key.Commerce.Orders.{is_own}
use emu_key.Commerce.Checkout.{
  CheckoutPreparation, prepared_with, new_attempt, is_live, decide, stopped, insert_allowed,
  resume_or_insert, prepare_own, prepare_checkout,
}

pub data Offered (now fresh customer id : ℕ) (s : Store)
    : CheckoutPreparation → Store → Type 0 where
  resumed :
      {s' : Store} (o : OrderRow) (a : AttemptRow)
      → select_first (is_own customer id) s.orders ≡ some o
      → select_latest (is_live now o.order_id) (λ q. q.attempt_no) s.attempts ≡ some a
      → s' ≡ s
      → Offered now fresh customer id s (prepared_with true a) s'
  opened :
      {s' : Store} (o : OrderRow)
      → select_first (is_own customer id) s.orders ≡ some o
      → (decide now o s).allowed ≡ true
      → is_past o.terms_accepted_at now ≡ true
      → s' ≡ record s { attempts = s.attempts ++ new_attempt now fresh o s.attempts ∷ [] }
      → Offered now fresh customer id s
          (prepared_with false (new_attempt now fresh o s.attempts))
          s'

stopped-Ensures :
    (P : CheckoutPreparation → Store → Type 0) (reason : PaymentRetryReason) (usable : Bool)
    (rest : Outcome CheckoutPreparation)
    → Ensures P rest
    → Ensures P (stopped reason usable rest)
stopped-Ensures P payment_review usable rest h = tt
stopped-Ensures P order_not_payable usable rest h = tt
stopped-Ensures P ready false rest h = tt
stopped-Ensures P ready true rest h = h
stopped-Ensures P attempt_pending false rest h = tt
stopped-Ensures P attempt_pending true rest h = h

module _ (now fresh customer id : ℕ) (s : Store) where
  abbrev Gives : Outcome CheckoutPreparation → Type 0
  Gives = Ensures (Offered now fresh customer id s)

  Gives-allowed :
      (o : OrderRow)
      → select_first (is_own customer id) s.orders ≡ some o
      → Gives (insert_allowed now fresh o (decide now o s).allowed s)
  Gives-allowed o own =
      Ensures-if (Offered now fresh customer id s) (not (decide now o s).allowed) _ _ (λ h. tt)
        (λ allowed.
          Ensures-if (Offered now fresh customer id s) (not (is_past o.terms_accepted_at now)) _ _
            (λ h. tt) (λ agreed. opened o own (not-false allowed) (not-false agreed) refl))

  Gives-found :
      (o : OrderRow) (a : Option AttemptRow)
      → select_first (is_own customer id) s.orders ≡ some o
      → select_latest (is_live now o.order_id) (λ q. q.attempt_no) s.attempts ≡ a
      → Gives (resume_or_insert now fresh o (decide now o s).allowed s a)
  Gives-found o none own n = Gives-allowed o own
  Gives-found o (some a) own n = resumed o a own n refl

  Gives-own :
      (is_ready has_registry : Bool) (o : Option OrderRow)
      → select_first (is_own customer id) s.orders ≡ o
      → Gives (prepare_own now is_ready has_registry fresh s o)
  Gives-own is_ready has_registry none own = tt
  Gives-own is_ready has_registry (some o) own =
      let P = Offered now fresh customer id s in
      Ensures-if P (o.is_handoff && not is_ready) _ _ (λ h. tt)
        (λ h.
          Ensures-if P (not has_registry) _ _ (λ k. tt)
            (λ k.
              Ensures-if P (not (is_waiting_payment o.order_status)) _ _ (λ l. tt)
                (λ l.
                  Ensures-if P (leb o.payment_due_at now) _ _ (λ m. tt)
                    (λ m.
                      stopped-Ensures P (decide now o s).reason _ _ (Gives-found o _ own refl)))))

  pub prepare_checkout-Offered :
      (is_ready has_registry : Bool)
      → Gives (prepare_checkout now is_ready has_registry fresh customer id s)
  unfolding prepare_checkout
  prepare_checkout-Offered is_ready has_registry = Gives-own is_ready has_registry _ refl
