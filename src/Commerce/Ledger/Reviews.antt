-- ===== src/Commerce/Ledger/Reviews.antt =====
-- The books after a review is closed.
use emu_key.Prelude.{
  ℕ, ◌≤◌, ◌≡◌, refl, sym, subst, true, false, some, arith, select_first, update_first,
  All-update_first, select_first-All,
}
use emu_key.Commerce.Store.{
  Store, TransactionRow, ReviewResolution, is_open, is_fulfilling, fulfills,
}
use emu_key.Commerce.Store.Counting.{count_where-update_first, count_where-update_first_eq}
use emu_key.Commerce.Review.{ReviewInput, close_review, is_transaction, closes_without_payment}
use emu_key.Commerce.Ledger.{Ledger, IsSettled, fulfillments, has_transaction_id, has_event}

closing_pays_nothing :
    (r : ReviewResolution) → closes_without_payment r ≡ true → is_fulfilling (some r) ≡ false
closing_pays_nothing ReviewResolution.no_action h = refl
closing_pays_nothing ReviewResolution.refund_confirmed h = refl
closing_pays_nothing ReviewResolution.accept_and_fulfill h = cc
closing_pays_nothing ReviewResolution.rematched h = cc

module _ (id : ℕ) (input : ReviewInput) (s : Store) (books : Ledger s)
    (closes : closes_without_payment input.resolution ≡ true) where
  closed-fulfills :
      (k : ℕ) (t : TransactionRow)
      → is_fulfilling t.review_resolution ≡ false
      → fulfills k (close_review input t) ≡ fulfills k t
  closed-fulfills k t unpaid = rw (closing_pays_nothing input.resolution closes, unpaid) refl

  pub closed-Ledger :
      (t : TransactionRow)
      → select_first (is_transaction id) s.transactions ≡ some t
      → is_open t.review_status ≡ true
      → Ledger (record s {
        transactions = update_first (is_transaction id) (close_review input) s.transactions;
      })
  unfolding fulfillments
  closed-Ledger t n open_row =
      let (rule, own) =
        select_first-All IsSettled (is_transaction id) s.transactions n books.settled in
      let same = λ (k : ℕ). closed-fulfills k t (rule open_row) in
      record {
        one_order = books.one_order;
        one_transaction = λ k.
            subst (λ n. n ≤ 1)
              (sym (
                count_where-update_first_eq (has_transaction_id k) (is_transaction id)
                  (close_review input) s.transactions (λ q. refl)))
              (books.one_transaction k);
        one_event = λ k.
            subst (λ n. n ≤ 1)
              (sym (
                count_where-update_first_eq (has_event k) (is_transaction id) (close_review input)
                  s.transactions (λ q. refl)))
              (books.one_event k);
        balanced = λ k.
            let moved =
              count_where-update_first (fulfills k) (is_transaction id) (close_review input)
                s.transactions t n in
            let still = same k in
            let before = books.balanced k in ground (arith, moved, still, before);
        settled =
            All-update_first IsSettled (is_transaction id) (close_review input) s.transactions
              (λ q. λ own. λ h. λ op. closing_pays_nothing input.resolution closes) books.settled;
      }
