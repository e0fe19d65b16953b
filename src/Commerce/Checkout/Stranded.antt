-- ===== src/Commerce/Checkout/Stranded.antt =====
-- An order whose pending attempt has run out (`cancelOrder`, `prepareCheckout`).
use emu_key.Prelude.{
  ℕ, ◌≡◌, refl, Bool, true, not, ◌&&◌, Option, none, some, List, [], ◌∷◌, arith, leb, select_first,
  exists_where,
}
use emu_key.Commerce.{AttemptStatus, is_pending}
use emu_key.Commerce.Store.{
  Store, OrderRow, AttemptRow, raised, database_error, update_pending, permitted_attempt,
  is_open_order,
}
use emu_key.Commerce.Orders.{is_own, of_order, cancel_order, supersede_pending}

-- Whether an order has a pending attempt whose expiry has passed.
abbrev pub has_expired_pending : ℕ → ℕ → List AttemptRow → Bool
has_expired_pending now id attempts =
    exists_where (λ a. of_order id a && is_pending a.status && leb a.expires_at now) attempts

blocked :
    (now id : ℕ) (attempts : List AttemptRow)
    → has_expired_pending now id attempts ≡ true
    → exists_where
        (λ a.
          of_order id a
          && is_pending a.status
          && not (permitted_attempt now a AttemptStatus.superseded))
        attempts
      ≡ true
unfolding exists_where
blocked now id [] h = cc
blocked now id (a ∷ rest) h = ground (arith, h, blocked now id rest)

supersede_blocked :
    (now id : ℕ) (result : OrderRow) (s : Store) (new : Option (List OrderRow))
    → has_expired_pending now id s.attempts ≡ true
    → supersede_pending now id result s new ≡ raised database_error
unfolding update_pending
supersede_blocked now id result s none h = refl
supersede_blocked now id result s (some orders) h =
    rw (blocked now id s.attempts h, supersede_pending, update_pending) refl

-- While the expiry of a pending attempt of the order has passed, a customer cannot cancel their open
-- order: the statement that supersedes the attempt is refused by the database, and the call fails.
pub cancel_order_blocked :
    (now customer id : ℕ) (s : Store) (o : OrderRow)
    → select_first (is_own customer id) s.orders ≡ some o
    → is_open_order o.order_status ≡ true
    → has_expired_pending now id s.attempts ≡ true
    → cancel_order now customer id s ≡ raised database_error
unfolding cancel_order
cancel_order_blocked now customer id s o own open_order h =
    rw (own, open_order, cancel_order) (rw (supersede_blocked now id _ s _ h) refl)
