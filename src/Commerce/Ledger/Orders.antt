-- ===== src/Commerce/Ledger/Orders.antt =====
-- What an update of an order leaves of the books.
use emu_key.Prelude.{
  ℕ, ◌+◌, ◌≡◌, refl, true, false, some, List, arith, ◌==◌, Bool-cases, Option-cases, subst, ◌∙◌,
  inl, inr, select_first, update_first, count_where,
}
use emu_key.Commerce.{OrderStatus, is_waiting_payment}
use emu_key.Commerce.Store.{
  OrderRow, is_accepted, is_waiting_terms, is_cancelled, order_may_become, permitted_order,
  update_order,
}
use emu_key.Commerce.Store.Counting.{one_if, count_where-update_first, count_where-update_first_eq}
use emu_key.Commerce.Ledger.{accepted_of, has_order_id, acceptances}

accepted_stays :
    (now : ℕ) (o : OrderRow) (to : OrderStatus)
    → is_waiting_terms o.order_status ≡ false
    → is_waiting_payment o.order_status ≡ false
    → is_cancelled o.order_status ≡ false
    → order_may_become now o to ≡ false
accepted_stays now o OrderStatus.payment_accepted t w c = rw (w, c) refl
accepted_stays now o OrderStatus.waiting_service_terms_acceptance t w c = refl
accepted_stays now o OrderStatus.waiting_payment t w c = t
accepted_stays now o OrderStatus.cancelled t w c = rw (t, w) refl
accepted_stays now o OrderStatus.expired t w c = rw (t, w) refl

accepted_tests :
    (status : OrderStatus)
    → is_accepted status ≡ true
    → (is_waiting_terms status ≡ false)
      × (is_waiting_payment status ≡ false)
      × (is_cancelled status ≡ false)
accepted_tests OrderStatus.payment_accepted h = (refl, refl, refl)
accepted_tests OrderStatus.waiting_service_terms_acceptance h = cc
accepted_tests OrderStatus.waiting_payment h = cc
accepted_tests OrderStatus.cancelled h = cc
accepted_tests OrderStatus.expired h = cc

-- The database lets no accepted order change its status.
pub permitted_order-not_accepted :
    (now : ℕ) (o n : OrderRow) → permitted_order now o n ≡ true → is_accepted o.order_status ≡ false
permitted_order-not_accepted now o n h = elim (Bool-cases (is_accepted o.order_status)) [
  | inr e ↦ e
  | inl e ↦
      let (t, w, c) = accepted_tests o.order_status e in
      let stays = accepted_stays now o n.order_status t w c in ground (arith, stays, h)
]

module _ (now id : ℕ) (f : OrderRow → OrderRow) (orders new : List OrderRow)
    (keeps : (o : OrderRow) → (f o).order_id ≡ o.order_id) where
  -- A successful update changes no key.
  pub update_order-ids :
      (k : ℕ)
      → update_order now id f orders ≡ some new
      → count_where (has_order_id k) new ≡ count_where (has_order_id k) orders
  unfolding update_order
  update_order-ids k e =
      elim (Option-cases (select_first (λ (o : OrderRow). o.order_id == id) orders)) [
        | inl n ↦ let same : orders ≡ new = ground (arith, n, e) in rw same refl
        | inr (o, n) ↦ elim (Bool-cases (permitted_order now o (f o))) [
          | inr b ↦ ground (arith, n, b, e)
          | inl b ↦
              let same : update_first (λ (q : OrderRow). q.order_id == id) f orders ≡ new =
                ground (arith, n, b, e) in
              subst (λ x. count_where (has_order_id k) x ≡ count_where (has_order_id k) orders) same
                (count_where-update_first_eq (has_order_id k) _ f orders (λ q. rw (keeps q) refl))
        ]
      ]

  -- An update that accepts no payment leaves the accepted orders.
  pub update_order-acceptances :
      (k : ℕ)
      → ((o : OrderRow) → is_accepted (f o).order_status ≡ false)
      → update_order now id f orders ≡ some new
      → acceptances k new ≡ acceptances k orders
  unfolding update_order acceptances
  update_order-acceptances k other e =
      elim (Option-cases (select_first (λ (o : OrderRow). o.order_id == id) orders)) [
        | inl n ↦ let same : orders ≡ new = ground (arith, n, e) in rw same refl
        | inr (o, n) ↦ elim (Bool-cases (permitted_order now o (f o))) [
          | inr b ↦ ground (arith, n, b, e)
          | inl b ↦
              let same : update_first (λ (q : OrderRow). q.order_id == id) f orders ≡ new =
                ground (arith, n, b, e) in
              let moved = count_where-update_first (accepted_of k) _ f orders o n in
              let before = permitted_order-not_accepted now o (f o) b in
              let after = other o in
              subst (λ x. count_where (accepted_of k) x ≡ count_where (accepted_of k) orders) same
                (ground (arith, moved, before, after))
        ]
      ]

  -- An update that accepts the payment of an order makes one accepted order more.
  pub update_order-accepts :
      (k : ℕ) (o : OrderRow)
      → ((q : OrderRow) → is_accepted (f q).order_status ≡ true)
      → select_first (λ (q : OrderRow). q.order_id == id) orders ≡ some o
      → o.order_id ≡ id
      → update_order now id f orders ≡ some new
      → acceptances k new ≡ acceptances k orders + one_if (id == k)
  unfolding update_order acceptances
  update_order-accepts k o accepts n own e = elim (Bool-cases (permitted_order now o (f o))) [
    | inr b ↦ ground (arith, n, b, e)
    | inl b ↦
        let same : update_first (λ (q : OrderRow). q.order_id == id) f orders ≡ new =
          ground (arith, n, b, e) in
        let moved = count_where-update_first (accepted_of k) _ f orders o n in
        let before = permitted_order-not_accepted now o (f o) b in
        let after = accepts o in
        let key : (f o).order_id ≡ id = keeps o ∙ own in
        subst
          (λ x.
            count_where (accepted_of k) x ≡ count_where (accepted_of k) orders + one_if (id == k))
          same (ground (arith, moved, before, after, key, own))
  ]
