-- ===== src/Commerce/Ledger/Placing.antt =====
-- The books after an update of an order, and after a new one.
use emu_key.Prelude.{
  ℕ, ◌≤◌, ◌≡◌, sym, subst, Bool, false, Option, some, List, [], ◌∷◌, ◌++◌, arith, ==_iff,
  count_where, ◌∙◌,
}
use emu_key.Commerce.Store.{Store, OrderRow, AttemptRow, is_accepted, update_order}
use emu_key.Commerce.Store.Counting.{count_where-append_one, count_where-append_unique}
use emu_key.Commerce.Orders.{new_order, PlanRow, Placing}
use emu_key.Commerce.Ledger.{Ledger, acceptances, has_order_id, accepted_of}
use emu_key.Commerce.Ledger.Orders.{update_order-ids, update_order-acceptances}

-- A statement on orders that accepts no payment, with any change of attempts.
pub updated-Ledger :
    (now id : ℕ) (f : OrderRow → OrderRow) (s : Store) (orders : List OrderRow)
    (attempts : List AttemptRow)
    → Ledger s
    → ((o : OrderRow) → (f o).order_id ≡ o.order_id)
    → ((o : OrderRow) → is_accepted (f o).order_status ≡ false)
    → update_order now id f s.orders ≡ some orders
    → Ledger (record s { orders = orders; attempts = attempts })
updated-Ledger now id f s orders attempts books keeps other e = record {
  one_order = λ k.
      subst (λ n. n ≤ 1) (sym (update_order-ids now id f s.orders orders keeps k e))
        (books.one_order k);
  one_transaction = books.one_transaction;
  one_event = books.one_event;
  balanced = λ k.
      books.balanced k ∙ sym (update_order-acceptances now id f s.orders orders keeps k other e);
  settled = books.settled;
}

module _ (now customer key : ℕ) (p : Placing) (s : Store) (books : Ledger s)
    (unused : count_where (has_order_id p.fresh_id) s.orders ≡ 0) where
  pub appended-Ledger :
      (plan : PlanRow) (target : Option ℕ) (handoff : Bool)
      → Ledger
          (record s { orders = s.orders ++ new_order now customer key plan target handoff p ∷ [] })
  unfolding acceptances
  appended-Ledger plan target handoff =
      let order = new_order now customer key plan target handoff p in
      record {
        one_order = λ k.
            count_where-append_unique (has_order_id k) s.orders order (books.one_order k) (λ h.
              subst (λ x. count_where (has_order_id x) s.orders ≡ 0) ((==_iff p.fresh_id k).0 h)
                unused);
        one_transaction = books.one_transaction;
        one_event = books.one_event;
        balanced = λ k.
            let total = count_where-append_one (accepted_of k) s.orders order in
            let none_new : accepted_of k order ≡ false = ground arith in
            ground (arith, total, none_new, books.balanced k);
        settled = books.settled;
      }
