-- ===== src/Commerce/Steps/Keeping.antt =====
-- What each operation keeps, from what each statement keeps, and so every sequence of operations
-- (commerce.repository.ts).
use emu_key.Prelude.{
  ℕ, ◌≡◌, refl, sym, subst, Bool, true, false, not, ◌&&◌, ◌||◌, Option, none, some, List, [], ◌∷◌,
  ◌==◌, leb, exists_where, Option-cases, Bool-cases, inl, inr, select_first, count_where,
  if◌then◌else◌,
}
use emu_key.Commerce.{AttemptStatus}
use emu_key.Commerce.Store.{
  Store, OrderRow, AttemptRow, TransactionRow, LicenseRow, Outcome, raised, done, update_order,
  update_pending, commit, retains_pending, is_waiting_terms, is_open_order, is_open,
}
use emu_key.Commerce.Store.Outcomes.{Ensures, Ensures-if, result-Ensures}
use emu_key.Commerce.Orders.{
  accept_service_terms, cancel_order, cancel_overdue_orders, close_overdue, close_all, and_then,
  create_order, resume_or_place, place_new, place_renewal, place_for, is_orderable, create_keyed,
  insert_order, with_orders, accept_terms, cancelled, auto_cancel, supersede_pending, PlanRow,
  Placing, has_open_renewal, is_own, of_order, is_target,
}
use emu_key.Commerce.Checkout.{CheckoutPreparation, fail_checkout}
use emu_key.Commerce.Checkout.Offered.{Offered, prepare_checkout-Offered}
use emu_key.Commerce.Fulfilment.{notify_review}
use emu_key.Commerce.Review.{
  ReviewInput, review_payment, close_found, is_transaction, closes_without_payment, is_repeated,
}
use emu_key.Commerce.Ledger.{has_order_id}
use emu_key.Commerce.Ledger.Ingested.{Ingested}
use emu_key.Commerce.Ledger.Ingesting.{ingest_payment-Ingested}
use emu_key.Commerce.Steps.{Step, Run}
use emu_key.Commerce.Steps.Closed.{Closed}

module _ (P : Store → Type 0) (on : Closed P) where
  abbrev Keeps : {A : Type 0} → Outcome A → Type 0
  Keeps o = Ensures (λ _. P) o

  Keeps-if :
      {A : Type 0} (b : Bool) (x y : Outcome A)
      → (b ≡ true → Keeps x)
      → (b ≡ false → Keeps y)
      → Keeps (if b then x else y)
  Keeps-if b x y = Ensures-if (λ _. P) b x y

  Keeps-agreed :
      (result : OrderRow) (now id : ℕ) (s : Store) (new : Option (List OrderRow))
      → P s
      → update_order now id (accept_terms now) s.orders ≡ new
      → Keeps (with_orders result s new)
  Keeps-agreed result now id s none h e = tt
  Keeps-agreed result now id s (some orders) h e = on.agrees now id s orders h e

  Keeps-accept_service_terms :
      (now customer id version hash : ℕ) (s : Store)
      → P s
      → Keeps (accept_service_terms now customer id version hash s)
  unfolding accept_service_terms
  Keeps-accept_service_terms now customer id version hash s h =
      elim (Option-cases (select_first (is_own customer id) s.orders)) [
        | inl n ↦ rw (n, accept_service_terms) tt
        | inr (o, n) ↦
            rw (n, accept_service_terms)
              (Keeps-if (not (is_waiting_terms o.order_status)) _ _ (λ k. tt)
                (λ k.
                  Keeps-if (not (o.terms_version == version) || not (o.terms_hash == hash)) _ _
                    (λ l. tt) (λ l. Keeps-agreed _ now id s _ h refl)))
      ]

  Keeps-superseded :
      (now id : ℕ) (result : OrderRow) (s : Store) (new : Option (List OrderRow))
      → P s
      → update_order now id cancelled s.orders ≡ new
      → Keeps (supersede_pending now id result s new)
  Keeps-superseded now id result s none h e = tt
  Keeps-superseded now id result s (some orders) h e =
      elim (Option-cases (update_pending now AttemptStatus.superseded (of_order id) s.attempts)) [
        | inl n ↦ rw (n, supersede_pending) tt
        | inr (attempts, n) ↦ rw (n, supersede_pending) (on.cancels now id s orders attempts h e n)
      ]

  Keeps-commit : {A : Type 0} (ids : List ℕ) (o : Outcome A) → Keeps o → Keeps (commit ids o)
  Keeps-commit ids (raised e) h = tt
  Keeps-commit ids (done a s) h =
      Keeps-if (exists_where (retains_pending s) ids) _ _ (λ e. tt) (λ e. h)

  Keeps-cancel_order :
      (now customer id : ℕ) (s : Store) → P s → Keeps (cancel_order now customer id s)
  unfolding cancel_order
  Keeps-cancel_order now customer id s h =
      elim (Option-cases (select_first (is_own customer id) s.orders)) [
        | inl n ↦ rw (n, cancel_order) tt
        | inr (o, n) ↦
            rw (n, cancel_order)
              (Keeps-if (not (is_open_order o.order_status)) _ _ (λ k. tt)
                (λ k. Keeps-commit (id ∷ []) _ (Keeps-superseded now id _ s _ h refl)))
      ]

  Keeps-close_overdue : (now id : ℕ) (s : Store) → P s → Keeps (close_overdue now id s)
  Keeps-close_overdue now id s h = elim (Option-cases (update_order now id auto_cancel s.orders)) [
    | inl n ↦ rw (n, close_overdue) tt
    | inr (orders, n) ↦
        elim (Option-cases (
          update_pending now AttemptStatus.expired (λ a. of_order id a && leb a.expires_at now)
            s.attempts)) [
              | inl m ↦ rw (n, m, close_overdue) tt
              | inr (attempts, m) ↦
                  rw (n, m, close_overdue) (on.closes now id s orders attempts h n m)
            ]
  ]

  Keeps-and_then :
      {A B : Type 0} (o : Outcome A) (f : A → Store → Outcome B)
      → Keeps o
      → ((a : A) (s : Store) → P s → Keeps (f a s))
      → Keeps (and_then o f)
  Keeps-and_then (raised e) f h k = tt
  Keeps-and_then (done a s) f h k = k a s h

  Keeps-close_all : (now : ℕ) (due : List ℕ) (s : Store) → P s → Keeps (close_all now due s)
  Keeps-close_all now [] s h = h
  Keeps-close_all now (id ∷ ids) s h =
      Keeps-and_then (close_overdue now id s) (λ _. close_all now ids)
        (Keeps-close_overdue now id s h) (λ u. λ t. λ k. Keeps-close_all now ids t k)

  Keeps-sweep : (now : ℕ) (due : List ℕ) (s : Store) → P s → Keeps (cancel_overdue_orders now due s)
  unfolding cancel_overdue_orders
  Keeps-sweep now due s h = Keeps-commit due (close_all now due s) (Keeps-close_all now due s h)

  Keeps-inserted :
      (now customer key : ℕ) (p : Placing) (s : Store)
      → P s
      → count_where (has_order_id p.fresh_id) s.orders ≡ 0
      → (plan : PlanRow) (target : Option ℕ) (handoff : Bool)
      → Keeps (insert_order now customer key plan target handoff p s)
  Keeps-inserted now customer key p s h unused plan target handoff =
      Keeps-if (handoff && not plan.provider_is_ready) _ _ (λ k. tt)
        (λ k.
          Keeps-if (has_open_renewal target s.orders) _ _ (λ l. tt)
            (λ l. on.places now customer key plan target handoff p s h unused))

  Keeps-renewal :
      (now customer key : ℕ) (p : Placing) (s : Store)
      → P s
      → count_where (has_order_id p.fresh_id) s.orders ≡ 0
      → (plan : PlanRow) (license : ℕ) (l : Option LicenseRow)
      → Keeps (place_renewal now customer key plan license p s l)
  Keeps-renewal now customer key p s h unused plan license none = tt
  Keeps-renewal now customer key p s h unused plan license (some l) =
      Keeps-inserted now customer key p s h unused plan (some license) l.license_is_handoff

  Keeps-placed :
      (now customer key : ℕ) (p : Placing) (s : Store)
      → P s
      → count_where (has_order_id p.fresh_id) s.orders ≡ 0
      → (plan : PlanRow) (target : Option ℕ) → Keeps (place_for now customer key plan target p s)
  Keeps-placed now customer key p s h unused plan none =
      Keeps-inserted now customer key p s h unused plan none p.has_handoff
  Keeps-placed now customer key p s h unused plan (some license) =
      Keeps-renewal now customer key p s h unused plan license _

  Keeps-new :
      (now customer key : ℕ) (p : Placing) (s : Store)
      → P s
      → count_where (has_order_id p.fresh_id) s.orders ≡ 0
      → (row : Option PlanRow) (target : Option ℕ)
      → Keeps (place_new now customer key row target p s)
  Keeps-new now customer key p s h unused none target = tt
  Keeps-new now customer key p s h unused (some plan) target =
      Keeps-if (not (is_orderable plan target)) _ _ (λ k. tt)
        (λ k.
          Keeps-if (not plan.has_chain_address && not p.has_namespace_contract) _ _ (λ l. tt)
            (λ l. Keeps-placed now customer key p s h unused plan target))

  Keeps-resumed :
      (now customer key plan_id : ℕ) (p : Placing) (s : Store)
      → P s
      → count_where (has_order_id p.fresh_id) s.orders ≡ 0
      → (row : Option PlanRow) (target : Option ℕ) (o : Option OrderRow)
      → Keeps (resume_or_place now customer key plan_id row target p s o)
  Keeps-resumed now customer key plan_id p s h unused row target none =
      Keeps-new now customer key p s h unused row target
  Keeps-resumed now customer key plan_id p s h unused row target (some o) =
      Keeps-if (o.plan_id == plan_id) _ _ (λ k. h) (λ k. tt)

  Keeps-keyed :
      (now customer key plan_id : ℕ) (p : Placing) (s : Store)
      → P s
      → count_where (has_order_id p.fresh_id) s.orders ≡ 0
      → (row : Option PlanRow) (target : Option ℕ) (o : Option OrderRow)
      → Keeps (create_keyed now customer key plan_id row target p s o)
  Keeps-keyed now customer key plan_id p s h unused row target (some o) =
      Keeps-if (not (o.plan_id == plan_id) || not (is_target target o.order_type)) _ _ (λ k. tt)
        (λ k. h)
  Keeps-keyed now customer key plan_id p s h unused row target none =
      Keeps-resumed now customer key plan_id p s h unused row target _

  Keeps-create_order :
      (now customer key plan_id : ℕ) (p : Placing) (s : Store)
      → P s
      → count_where (has_order_id p.fresh_id) s.orders ≡ 0
      → (row : Option PlanRow) (target : Option ℕ)
      → Keeps (create_order now customer key plan_id row target p s)
  unfolding create_order
  Keeps-create_order now customer key plan_id p s h unused row target =
      Keeps-keyed now customer key plan_id p s h unused row target _

  keeps_offered :
      (now fresh customer id : ℕ) (s s' : Store) (c : CheckoutPreparation)
      → Offered now fresh customer id s c s'
      → P s
      → P s'
  keeps_offered now fresh customer id s s' c (Offered.resumed o a own n e) h = subst P (sym e) h
  keeps_offered now fresh customer id s s' c (Offered.opened o own allowed terms e) h =
      subst P (sym e) (on.opens now fresh customer id s o h own allowed)

  Keeps-fail_checkout : (now id : ℕ) (s : Store) → P s → Keeps (fail_checkout now id s)
  unfolding fail_checkout
  Keeps-fail_checkout now id s h =
      elim (Option-cases (
        update_pending now AttemptStatus.failed (λ (a : AttemptRow). a.attempt_id == id)
          s.attempts)) [
            | inl n ↦ rw (n, fail_checkout) tt
            | inr (attempts, n) ↦ rw (n, fail_checkout) (on.fails now id s attempts h n)
          ]

  Keeps-close_found :
      (admins : List ℕ) (id : ℕ) (input : ReviewInput) (s : Store)
      → P s
      → closes_without_payment input.resolution ≡ true
      → (t : TransactionRow) → select_first (is_transaction id) s.transactions ≡ some t
      → Keeps (close_found admins id input s t)
  unfolding notify_review
  Keeps-close_found admins id input s h closing t n = elim (Bool-cases (is_open t.review_status)) [
    | inl o ↦ rw (o, close_found) (on.affects _ _ (on.reviews id input s t h closing n o))
    | inr c ↦ rw (c, close_found) (Keeps-if (is_repeated input t) _ _ (λ k. h) (λ k. tt))
  ]

  Keeps-review_payment :
      (admins : List ℕ) (id : ℕ) (input : ReviewInput) (s : Store)
      → P s
      → Keeps (review_payment admins id input s)
  unfolding review_payment
  Keeps-review_payment admins id input s h =
      elim (Option-cases (select_first (is_transaction id) s.transactions)) [
        | inl n ↦ rw (n, review_payment) tt
        | inr (t, n) ↦ elim (Bool-cases (closes_without_payment input.resolution)) [
          | inl c ↦ rw (n, c, review_payment) (Keeps-close_found admins id input s h c t n)
          | inr c ↦ rw (n, c, review_payment) tt
        ]
      ]

  keeps_step : (s s' : Store) → Step s s' → P s → P s'
  keeps_step s s' (Step.placed now customer key plan_id row target p o unused e) h =
      result-Ensures (λ _. P) _ o s' e
        (Keeps-create_order now customer key plan_id p s h unused row target)
  keeps_step s s' (Step.agreed now customer id version hash o e) h =
      result-Ensures (λ _. P) _ o s' e (Keeps-accept_service_terms now customer id version hash s h)
  keeps_step s s' (Step.cancelled now customer id o e) h =
      result-Ensures (λ _. P) _ o s' e (Keeps-cancel_order now customer id s h)
  keeps_step s s' (Step.swept now due e) h =
      result-Ensures (λ _. P) _ tt s' e (Keeps-sweep now due s h)
  keeps_step s s' (Step.checked_out now fresh customer id is_ready has_registry c e) h =
      keeps_offered now fresh customer id s s' c
        (result-Ensures (Offered now fresh customer id s) _ c s' e
          (prepare_checkout-Offered now fresh customer id s is_ready has_registry))
        h
  keeps_step s s' (Step.checkout_failed now id e) h =
      result-Ensures (λ _. P) _ tt s' e (Keeps-fail_checkout now id s h)
  keeps_step s s' (Step.ingested i admins now fresh e given result unused may d) h =
      on.pays now e given fresh s s' result h unused may (
        result-Ensures (Ingested now e given fresh s) _ result s' d
          (ingest_payment-Ingested i admins now fresh e given s))
  keeps_step s s' (Step.reviewed admins id input t e) h =
      result-Ensures (λ _. P) _ t s' e (Keeps-review_payment admins id input s h)
  keeps_step s s' (Step.elsewhere x e) h = subst P (sym e) (on.affects x s h)

  -- What every statement keeps, every sequence of operations keeps.
  pub Run-Closed : (start t : Store) → P start → Run start t → P t
  Run-Closed start t h Run.nothing_yet = h
  Run-Closed start t h (Run.then {s = s} run step) = keeps_step s t step (Run-Closed start s h run)
