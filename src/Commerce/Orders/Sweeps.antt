-- ===== src/Commerce/Orders/Sweeps.antt =====
-- The sweep over overdue orders makes progress (`cancelOverdueOrders`).
use emu_key.Prelude.{
  ℕ, ◌+◌, ◌≡◌, refl, Bool, true, false, not, ◌&&◌, none, some, List, [], ◌∷◌, arith, Bool-cases,
  inl, inr, Option-cases, ◌==◌, leb, ltb, select_first, update_first, exists_where, count_where,
  All, length, update_where,
}
use emu_key.Commerce.{AttemptStatus, is_pending}
use emu_key.Commerce.Store.{
  Store, OrderRow, AttemptRow, done, permitted_order, permitted_attempt, update_order,
  update_pending, set_attempt, has_pending, retains_pending,
}
use emu_key.Commerce.Store.Counting.{count_where-update_first}
use emu_key.Commerce.Orders.{
  is_overdue, auto_cancel, of_order, close_overdue, close_all, cancel_overdue_orders,
}

abbrev has_id : ℕ → OrderRow → Bool
has_id id o = o.order_id == id

-- The row of an id is an overdue order.
abbrev pub IsOverdue : ℕ → List OrderRow → ℕ → Type 0
IsOverdue now orders id =
    (o : OrderRow) × (select_first (λ (q : OrderRow). q.order_id == id) orders ≡ some o)
    × (is_overdue now none o ≡ true)

-- No id stands twice, as a SELECT gives no row twice.
abbrev pub AreDistinct : List ℕ → Type 0
AreDistinct [] = Unit
AreDistinct (id ∷ rest) = All (λ k. (id == k) ≡ false) rest × AreDistinct rest

may_expire :
    (now id : ℕ) (attempts : List AttemptRow)
    → exists_where
        (λ a.
          (of_order id a && leb a.expires_at now)
          && is_pending a.status
          && not (permitted_attempt now a AttemptStatus.expired))
        attempts
      ≡ false
unfolding exists_where
may_expire now id [] = refl
may_expire now id (a ∷ rest) = ground (arith, may_expire now id rest)

overdue_permitted :
    (now : ℕ) (o : OrderRow)
    → is_overdue now none o ≡ true
    → permitted_order now o (auto_cancel o) ≡ true
overdue_permitted now o h = ground (arith, h)

abbrev closed_store : ℕ → ℕ → Store → Store
closed_store now id s = record s {
  orders = update_first (has_id id) auto_cancel s.orders;
  attempts =
      update_where (λ a. (of_order id a && leb a.expires_at now) && is_pending a.status)
        (set_attempt now AttemptStatus.expired) s.attempts;
}

close_one :
    (now id : ℕ) (s : Store)
    → IsOverdue now s.orders id
    → close_overdue now id s ≡ done tt (closed_store now id s)
unfolding update_order update_pending
close_one now id s (o, own, h) =
    rw
      (
        own,
        overdue_permitted now o h,
        may_expire now id s.attempts,
        close_overdue,
        update_order,
        update_pending,
      )
      refl

found_elsewhere :
    (id k : ℕ) (orders : List OrderRow) (o : OrderRow)
    → (id == k) ≡ false
    → select_first (has_id k) orders ≡ some o
    → select_first (has_id k) (update_first (has_id id) auto_cancel orders) ≡ some o
unfolding select_first update_first
found_elsewhere id k [] o other e = cc
found_elsewhere id k (q ∷ rest) o other e = elim (Bool-cases (has_id id q)) [
  | inl b ↦
      let not_k : has_id k q ≡ false = ground (arith, b, other) in
      rw (b, not_k) (ground (arith, not_k, e))
  | inr b ↦ rw b (elim (Bool-cases (has_id k q)) [
    | inl c ↦ ground (arith, c, e)
    | inr c ↦ ground (arith, c, found_elsewhere id k rest o other (ground (arith, c, e)))
  ])
]

still-IsOverdue :
    (now id : ℕ) (orders : List OrderRow) (ids : List ℕ)
    → All (λ k. (id == k) ≡ false) ids
    → All (IsOverdue now orders) ids
    → All (IsOverdue now (update_first (has_id id) auto_cancel orders)) ids
still-IsOverdue now id orders [] h k = tt
still-IsOverdue now id orders (x ∷ rest) (h, hs) ((o, own, late), ks) =
    ((o, found_elsewhere id x orders o h own, late), still-IsOverdue now id orders rest hs ks)

unfoldable pub overdue_orders : ℕ → Store → ℕ
overdue_orders now s = count_where (is_overdue now none) s.orders

one_closed :
    (now id : ℕ) (s : Store)
    → IsOverdue now s.orders id
    → overdue_orders now (closed_store now id s) + 1 ≡ overdue_orders now s
unfolding overdue_orders
one_closed now id s (o, own, late) =
    let moved =
      count_where-update_first (is_overdue now none) (has_id id) auto_cancel s.orders o own in
    ground (arith, moved, late)

-- No pending attempt of the order expires later than the order is due.
abbrev pub IsTimely : Store → ℕ → Type 0
IsTimely s id =
    (o : OrderRow)
    → select_first (has_id id) s.orders ≡ some o
    → exists_where (λ a. of_order id a && is_pending a.status && ltb o.payment_due_at a.expires_at)
        s.attempts
      ≡ false

-- Every pending attempt of the order has run out.
abbrev IsSpent : ℕ → List AttemptRow → ℕ → Type 0
IsSpent now attempts id =
    exists_where (λ a. of_order id a && is_pending a.status && ltb now a.expires_at) attempts
    ≡ false

run_out_of_due :
    (now id : ℕ) (o : OrderRow) (attempts : List AttemptRow)
    → is_overdue now none o ≡ true
    → exists_where
        (λ a. of_order id a && is_pending a.status && ltb o.payment_due_at a.expires_at)
        attempts
      ≡ false
    → IsSpent now attempts id
unfolding exists_where
run_out_of_due now id o [] late h = refl
run_out_of_due now id o (a ∷ rest) late h =
    ground (arith, late, h, run_out_of_due now id o rest late)

run_out_all :
    (now : ℕ) (s : Store) (ids : List ℕ)
    → All (IsOverdue now s.orders) ids
    → All (IsTimely s) ids
    → All (IsSpent now s.attempts) ids
run_out_all now s [] h k = tt
run_out_all now s (id ∷ rest) ((o, own, late), hs) (k, ks) =
    (run_out_of_due now id o s.attempts late (k o own), run_out_all now s rest hs ks)

-- The attempts after the expiry of one order's.
abbrev expire_of : ℕ → ℕ → List AttemptRow → List AttemptRow
expire_of now id attempts =
    update_where (λ a. (of_order id a && leb a.expires_at now) && is_pending a.status)
      (set_attempt now AttemptStatus.expired) attempts

expired_all :
    (now id : ℕ) (attempts : List AttemptRow)
    → IsSpent now attempts id
    → has_pending id (expire_of now id attempts) ≡ false
unfolding exists_where update_where
expired_all now id [] h = refl
expired_all now id (a ∷ rest) h = ground (arith, h, expired_all now id rest)

still_settled :
    (now id k : ℕ) (attempts : List AttemptRow)
    → has_pending k attempts ≡ false
    → has_pending k (expire_of now id attempts) ≡ false
unfolding exists_where update_where
still_settled now id k [] h = refl
still_settled now id k (a ∷ rest) h = ground (arith, h, still_settled now id k rest)

still-IsSpent :
    (now id k : ℕ) (attempts : List AttemptRow)
    → IsSpent now attempts k
    → IsSpent now (expire_of now id attempts) k
unfolding exists_where update_where
still-IsSpent now id k [] h = refl
still-IsSpent now id k (a ∷ rest) h = ground (arith, h, still-IsSpent now id k rest)

still_run_out :
    (now id : ℕ) (attempts : List AttemptRow) (ids : List ℕ)
    → All (IsSpent now attempts) ids
    → All (IsSpent now (expire_of now id attempts)) ids
still_run_out now id attempts [] h = tt
still_run_out now id attempts (k ∷ rest) (h, hs) =
    (still-IsSpent now id k attempts h, still_run_out now id attempts rest hs)

-- What the loop leaves: the number of overdue orders, and no pending attempt of the orders.
record Closes (now : ℕ) (s : Store) (ids : List ℕ) (s' : Store) : Type 0 where
  fewer : overdue_orders now s' + length ids ≡ overdue_orders now s
  settles : (k : ℕ) → has_pending k s.attempts ≡ false → has_pending k s'.attempts ≡ false
  settled : All (λ k. has_pending k s'.attempts ≡ false) ids

all_closed :
    (now : ℕ) (ids : List ℕ) (s : Store)
    → AreDistinct ids
    → All (IsOverdue now s.orders) ids
    → All (IsSpent now s.attempts) ids
    → (s' : Store) × (close_all now ids s ≡ done tt s') × Closes now s ids s'
all_closed now [] s d h r =
    (s, refl, record { fewer = omega arith; settles = λ k e. e; settled = tt })
all_closed now (id ∷ rest) s (d, ds) (h, hs) (r, rs) =
    let (s', e, c) =
      all_closed now rest (closed_store now id s) ds (still-IsOverdue now id s.orders rest d hs)
        (still_run_out now id s.attempts rest rs) in
    let one = one_closed now id s h in
    (
      s',
      rw (close_one now id s h) e,
      record {
        fewer = omega (arith, c.fewer, one);
        settles = λ k none_left. c.settles k (still_settled now id k s.attempts none_left);
        settled = (c.settles id (expired_all now id s.attempts r), c.settled);
      },
    )

retains_nothing :
    (s : Store) (id : ℕ) → has_pending id s.attempts ≡ false → retains_pending s id ≡ false
retains_nothing s id h = elim (Option-cases (select_first (has_id id) s.orders)) [
  | inl e ↦ rw (e, retains_pending) refl
  | inr (o, e) ↦ rw (e, h, retains_pending) (ground arith)
]

may_commit :
    (s : Store) (ids : List ℕ)
    → All (λ k. has_pending k s.attempts ≡ false) ids
    → exists_where (retains_pending s) ids ≡ false
unfolding exists_where
may_commit s [] h = refl
may_commit s (id ∷ rest) (h, hs) = rw (retains_nothing s id h) (may_commit s rest hs)

-- The sweep over distinct overdue orders, none of whose pending attempts expires later than its order
-- is due, succeeds, its commit included. Afterwards exactly as many orders fewer are overdue as it
-- was given, so that repeated sweeps end, and none of the given orders has a pending attempt.
pub cancel_overdue_orders_progress :
    (now : ℕ) (due : List ℕ) (s : Store)
    → AreDistinct due
    → All (IsOverdue now s.orders) due
    → All (IsTimely s) due
    → (s' : Store) × (cancel_overdue_orders now due s ≡ done tt s')
      × (overdue_orders now s' + length due ≡ overdue_orders now s)
      × All (λ id. has_pending id s'.attempts ≡ false) due
unfolding cancel_overdue_orders
cancel_overdue_orders_progress now due s d h timely =
    let (s', e, c) = all_closed now due s d h (run_out_all now s due h timely) in
    (s', rw (cancel_overdue_orders, e) (rw (may_commit s' due c.settled) refl), c.fewer, c.settled)
