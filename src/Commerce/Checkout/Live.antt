-- ===== src/Commerce/Checkout/Live.antt =====
-- What a customer is offered in a checkout (`prepareCheckout`).
use emu_key.Prelude.{
  ℕ, ◌+◌, ◌≤◌, ◌<◌, ◌≡◌, refl, sym, subst, Bool, true, false, some, List, [], ◌∷◌, ◌++◌, arith,
  Option-cases, Bool-cases, inl, inr, ltb, select_first,
}
use mathlib.Core.List.{Memᴰ}
use emu_key.Commerce.{is_pending}
use emu_key.Commerce.Retry.Decision.{evaluate_payment_retry-allowed_iff}
use emu_key.Commerce.Store.{Store, OrderRow, AttemptRow, done, select_latest}
use emu_key.Commerce.Store.Outcomes.{result-Ensures}
use emu_key.Commerce.Orders.{is_own}
use emu_key.Commerce.Checkout.{
  new_attempt, fifteen_minutes, is_live, CheckoutPreparation, prepared_with, prepare_checkout,
}
use emu_key.Commerce.Checkout.Offered.{Offered, prepare_checkout-Offered}

latest_member :
    (p : AttemptRow → Bool) (key : AttemptRow → ℕ) (rs : List AttemptRow) (r : AttemptRow)
    → select_latest p key rs ≡ some r
    → Memᴰ r rs × (p r ≡ true)
unfolding select_latest
latest_member p key [] r e = cc
latest_member p key (q ∷ rs) r e = elim (Option-cases (select_latest p key rs)) [
  | inl n ↦ elim (Bool-cases (p q)) [
    | inl b ↦
        let same : q ≡ r = ground (arith, n, b, e) in
        (Memᴰ.head (sym same), subst (λ x. p x ≡ true) same b)
    | inr b ↦ ground (arith, n, b, e)
  ]
  | inr (t, n) ↦
      let (m, h) = latest_member p key rs t n in
      elim (Bool-cases (p q)) [
        | inl b ↦ elim (Bool-cases (ltb (key q) (key t))) [
          | inl l ↦
              let same : t ≡ r = ground (arith, n, b, l, e) in
              subst (λ x. Memᴰ x (q ∷ rs) × (p x ≡ true)) same (Memᴰ.tail m, h)
          | inr l ↦
              let same : q ≡ r = ground (arith, n, b, l, e) in
              (Memᴰ.head (sym same), subst (λ x. p x ≡ true) same b)
        ]
        | inr b ↦
            let same : t ≡ r = ground (arith, n, b, e) in
            subst (λ x. Memᴰ x (q ∷ rs) × (p x ≡ true)) same (Memᴰ.tail m, h)
      ]
]

last_member : (rs : List AttemptRow) (r : AttemptRow) → Memᴰ r (rs ++ r ∷ [])
last_member [] r = Memᴰ.head refl
last_member (q ∷ rs) r = Memᴰ.tail (last_member rs r)

-- The offer is a stored attempt of the order, pending and not expired. If it is a new one, it is for
-- the order's price and ends with the order's due time, after fifteen minutes at most.
pub record IsLive (now : ℕ) (s : Store) (o : OrderRow) (c : CheckoutPreparation) (a : AttemptRow)
    : Type 0 where
  pub offered : c ≡ prepared_with c.existing a
  pub stored : Memᴰ a s.attempts
  pub of_the_order : a.attempt_order_id ≡ o.order_id
  pub still_pending : is_pending a.status ≡ true
  pub ahead : now < a.expires_at
  pub fresh_terms :
      c.existing ≡ false
      → (a.amount_vnd ≡ o.price_vnd)
        × (a.expires_at ≤ o.payment_due_at)
        × (a.expires_at ≤ now + fifteen_minutes)

Offered-IsLive :
    (now fresh customer id : ℕ) (s s' : Store) (c : CheckoutPreparation)
    → Offered now fresh customer id s c s'
    → (o : OrderRow) × (a : AttemptRow) × (select_first (is_own customer id) s.orders ≡ some o)
      × IsLive now s' o c a
Offered-IsLive now fresh customer id s s' c (Offered.resumed o a own n e) =
    let (m, h) = latest_member (is_live now o.order_id) (λ q. q.attempt_no) s.attempts a n in
    (
      o,
      a,
      own,
      record {
        offered = refl;
        stored = rw e m;
        of_the_order = ground (arith, h);
        still_pending = ground (arith, h);
        ahead = ground (arith, h);
        fresh_terms = λ k. cc;
      },
    )
Offered-IsLive now fresh customer id s s' c (Offered.opened o own allowed terms e) =
    let (waits, due, certain, closed) = (evaluate_payment_retry-allowed_iff _).0 allowed in
    (
      o,
      new_attempt now fresh o s.attempts,
      own,
      record {
        offered = refl;
        stored = rw e (last_member s.attempts _);
        of_the_order = refl;
        still_pending = refl;
        ahead = omega (arith, due);
        fresh_terms = λ k. (refl, omega arith, omega arith);
      },
    )

-- A checkout that succeeds offers a stored attempt of the customer's own order that is pending and
-- whose expiry is still ahead; a newly opened one is for the order's price and ends no later than
-- the order is due and no later than in fifteen minutes.
pub prepare_checkout-IsLive :
    (now fresh customer id : ℕ) (is_ready has_registry : Bool) (s s' : Store)
    (c : CheckoutPreparation)
    → prepare_checkout now is_ready has_registry fresh customer id s ≡ done c s'
    → (o : OrderRow) × (a : AttemptRow) × (select_first (is_own customer id) s.orders ≡ some o)
      × IsLive now s' o c a
prepare_checkout-IsLive now fresh customer id is_ready has_registry s s' c e =
    Offered-IsLive now fresh customer id s s' c (
      result-Ensures (Offered now fresh customer id s) _ c s' e
        (prepare_checkout-Offered now fresh customer id s is_ready has_registry))
