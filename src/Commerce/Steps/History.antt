-- ===== src/Commerce/Steps/History.antt =====
-- What becomes of an order over any sequence of operations (commerce.repository.ts).
use emu_key.Prelude.{
  ℕ, ◌≡◌, refl, sym, subst, ◌∙◌, true, false, Option, some, List, [], ◌∷◌, arith, Option-cases,
  Bool-cases, inl, inr, ◌==◌, select_first, update_first, Follows, Follows-refl, Follows-trans,
  Follows-append, Follows-update_found,
}
use emu_key.Commerce.Store.{
  Store, OrderRow, is_accepted, is_cancelled, permitted_order, update_order,
}
use emu_key.Commerce.Orders.{accept_terms, cancelled, auto_cancel}
use emu_key.Commerce.Payments.{
  accept_payment, VerifiedPaymentEvent, Reconciliation, PaymentIngestResult,
}
use emu_key.Commerce.Ledger.Ingested.{Ingested}
use emu_key.Commerce.Steps.{Run}
use emu_key.Commerce.Steps.Closed.{Closed}
use emu_key.Commerce.Steps.Keeping.{Run-Closed}

-- An order later: it is the same order at the same price with the same deadlines; once its payment
-- is accepted it stays so, and once a customer has cancelled it, it stays cancelled.
pub record Evolves (o n : OrderRow) : Type 0 where
  pub same_order : n.order_id ≡ o.order_id
  pub same_customer : n.customer_user_id ≡ o.customer_user_id
  pub same_price : n.price_vnd ≡ o.price_vnd
  pub same_due : n.payment_due_at ≡ o.payment_due_at
  pub same_until : n.ipn_accept_until ≡ o.ipn_accept_until
  pub stays_accepted : is_accepted o.order_status ≡ true → is_accepted n.order_status ≡ true
  pub stays_cancelled :
      is_cancelled o.order_status ≡ true
      → o.auto_cancelled ≡ false
      → (is_cancelled n.order_status ≡ true) × (n.auto_cancelled ≡ false)

Evolves-refl : (o : OrderRow) → Evolves o o
Evolves-refl o = record {
  same_order = refl;
  same_customer = refl;
  same_price = refl;
  same_due = refl;
  same_until = refl;
  stays_accepted = λ h. h;
  stays_cancelled = λ h. λ k. (h, k);
}

Evolves-trans : (a b c : OrderRow) → Evolves a b → Evolves b c → Evolves a c
Evolves-trans a b c h k = record {
  same_order = k.same_order ∙ h.same_order;
  same_customer = k.same_customer ∙ h.same_customer;
  same_price = k.same_price ∙ h.same_price;
  same_due = k.same_due ∙ h.same_due;
  same_until = k.same_until ∙ h.same_until;
  stays_accepted = λ p. k.stays_accepted (h.stays_accepted p);
  stays_cancelled = λ p. λ q. let (i, j) = h.stays_cancelled p q in k.stays_cancelled i j;
}

abbrev AlwaysEvolves : (ℕ → OrderRow → OrderRow) → Type 0
AlwaysEvolves f =
    (now : ℕ) (o : OrderRow) → permitted_order now o (f now o) ≡ true → Evolves o (f now o)

accept_terms-AlwaysEvolves : AlwaysEvolves accept_terms
accept_terms-AlwaysEvolves now o h = record {
  same_order = refl;
  same_customer = refl;
  same_price = refl;
  same_due = refl;
  same_until = refl;
  stays_accepted = λ p. ground (arith, h, p);
  stays_cancelled = λ p. λ q. ground (arith, h, p);
}

cancelled-AlwaysEvolves : AlwaysEvolves (λ _. cancelled)
cancelled-AlwaysEvolves now o h = record {
  same_order = refl;
  same_customer = refl;
  same_price = refl;
  same_due = refl;
  same_until = refl;
  stays_accepted = λ p. ground (arith, h, p);
  stays_cancelled = λ p. λ q. (refl, q);
}

auto_cancel-AlwaysEvolves : AlwaysEvolves (λ _. auto_cancel)
auto_cancel-AlwaysEvolves now o h = record {
  same_order = refl;
  same_customer = refl;
  same_price = refl;
  same_due = refl;
  same_until = refl;
  stays_accepted = λ p. ground (arith, h, p);
  stays_cancelled = λ p. λ q. ground (arith, h, p);
}

accept_payment-AlwaysEvolves : AlwaysEvolves (λ _. accept_payment)
accept_payment-AlwaysEvolves now o h = record {
  same_order = refl;
  same_customer = refl;
  same_price = refl;
  same_due = refl;
  same_until = refl;
  stays_accepted = λ p. refl;
  stays_cancelled = λ p. λ q. ground (arith, h, p, q);
}

update_order-Follows :
    (f : ℕ → OrderRow → OrderRow) (now id : ℕ) (orders new : List OrderRow)
    → AlwaysEvolves f
    → update_order now id (f now) orders ≡ some new
    → Follows Evolves orders new
unfolding update_order
update_order-Follows f now id orders new step e =
    elim (Option-cases (select_first (λ (o : OrderRow). o.order_id == id) orders)) [
      | inl n ↦
          let same : orders ≡ new = ground (arith, n, e) in
          subst (Follows Evolves orders) same (Follows-refl Evolves Evolves-refl orders)
      | inr (o, n) ↦ elim (Bool-cases (permitted_order now o (f now o))) [
        | inr b ↦ ground (arith, n, b, e)
        | inl b ↦
            let same : update_first (λ (q : OrderRow). q.order_id == id) (f now) orders ≡ new =
              ground (arith, n, b, e) in
            subst (Follows Evolves orders) same
              (Follows-update_found Evolves _ (f now) orders o Evolves-refl n (step now o b))
      ]
    ]

module _ (start : Store) where
  abbrev HasEvolved : Store → Type 0
  HasEvolved t = Follows Evolves start.orders t.orders

  evolved_by :
      (f : ℕ → OrderRow → OrderRow) (now id : ℕ) (s : Store) (new : List OrderRow)
      → AlwaysEvolves f
      → HasEvolved s
      → update_order now id (f now) s.orders ≡ some new
      → Follows Evolves start.orders new
  evolved_by f now id s new step h e =
      Follows-trans Evolves Evolves-trans start.orders s.orders new h
        (update_order-Follows f now id s.orders new step e)

  evolved_ingest :
      (now : ℕ) (e : VerifiedPaymentEvent) (given : Option Reconciliation) (fresh : ℕ)
      (s s' : Store) (result : PaymentIngestResult)
      → HasEvolved s
      → Ingested now e given fresh s result s'
      → HasEvolved s'
  evolved_ingest now e given fresh s s' result h (Ingested.known t n same) =
      subst HasEvolved (sym same) h
  evolved_ingest now e given fresh s s' result h (Ingested.recorded t r) =
      subst (Follows Evolves start.orders) (sym r.same_orders) h
  evolved_ingest now e given fresh s s' result h (Ingested.paid r id a o from p) =
      evolved_by (λ _. accept_payment) now o.order_id s s'.orders accept_payment-AlwaysEvolves h
        p.order

  HasEvolved-Closed : Closed HasEvolved
  HasEvolved-Closed = record {
    agrees = λ now id s orders h e.
        evolved_by accept_terms now id s orders accept_terms-AlwaysEvolves h e;
    cancels = λ now id s orders attempts h e f.
        evolved_by (λ _. cancelled) now id s orders cancelled-AlwaysEvolves h e;
    closes = λ now id s orders attempts h e f.
        evolved_by (λ _. auto_cancel) now id s orders auto_cancel-AlwaysEvolves h e;
    places = λ now customer key plan target handoff p s h unused.
        Follows-append Evolves start.orders s.orders (_ ∷ []) h;
    opens = λ now fresh customer id s o h own allowed. h;
    fails = λ now id s attempts h e. h;
    pays = λ now e given fresh s s' result h unused may d.
        evolved_ingest now e given fresh s s' result h d;
    reviews = λ id input s t h closing n o. h;
    affects = λ x s h. h;
  }

-- Over any sequence of operations no order disappears: each stands in its place with its customer,
-- its price and its deadlines, an accepted payment stays accepted, and an order that a customer has
-- cancelled stays cancelled.
pub Run-Evolves : (start t : Store) → Run start t → Follows Evolves start.orders t.orders
Run-Evolves start t run =
    Run-Closed (HasEvolved start) (HasEvolved-Closed start) start t
      (Follows-refl Evolves Evolves-refl start.orders) run
