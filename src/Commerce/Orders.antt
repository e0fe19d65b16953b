-- ===== src/Commerce/Orders.antt =====
-- backend/src/modules/commerce-payment/infrastructure/commerce.repository.ts: placing an order,
-- accepting its terms, cancelling it, and the sweep over overdue orders. `now` is the database's
-- clock. The rows of plans, products and users, and the handoff service's `requireReady`, are
-- arguments.
pub mod Sweeps
use emu_key.Prelude.{
  ℕ, ◌+◌, Bool, true, false, not, ◌&&◌, ◌||◌, Option, none, some, List, [], ◌∷◌, ◌++◌, leb, ltb,
  ◌==◌, if◌then◌else◌, select_first, exists_where,
}
use emu_key.Commerce.{waiting_service_terms_acceptance, waiting_payment, AttemptStatus, OrderStatus}
use emu_key.Commerce.Store.{
  Store, OrderRow, AttemptRow, OrderType, new_purchase, renewal, LicenseRow, Outcome, raised, done,
  order_not_found, order_terms_mismatch, order_terms_snapshot_changed, order_not_cancellable,
  database_error, idempotency_conflict, renewal_license_not_found, plan_not_found,
  provider_namespace_capability_not_configured, provider_not_ready, is_waiting_terms, is_open_order,
  is_accepted, CommandRow, select_latest, select_last, update_order, commit, update_pending,
}

-- An order's own row, for its customer.
abbrev pub is_own : ℕ → ℕ → OrderRow → Bool
is_own customer id o = o.order_id == id && o.customer_user_id == customer

-- The end of a transaction whose statement is an update of orders.
abbrev pub with_orders : {A : Type 0} → A → Store → Option (List OrderRow) → Outcome A
with_orders result s none = raised database_error
with_orders result s (some orders) = done result (record s { orders = orders })

abbrev pub accept_terms : ℕ → OrderRow → OrderRow
accept_terms now o = record o { order_status = waiting_payment; terms_accepted_at = some now }

unfoldable pub accept_service_terms : ℕ → ℕ → ℕ → ℕ → ℕ → Store → Outcome OrderRow
accept_service_terms now customer id version hash s =
    elim (select_first (is_own customer id) s.orders) [
      | none ↦ raised order_not_found
      | some o ↦
          if not (is_waiting_terms o.order_status)
          then raised order_terms_mismatch
          else if not (o.terms_version == version) || not (o.terms_hash == hash)
          then raised order_terms_snapshot_changed
          else with_orders (accept_terms now o) s (update_order now id (accept_terms now) s.orders)
    ]

abbrev pub cancelled : OrderRow → OrderRow
cancelled o = record o { order_status = OrderStatus.cancelled }

-- `WHERE order_id = $1`
abbrev pub of_order : ℕ → AttemptRow → Bool
of_order id a = a.attempt_order_id == id

abbrev pub supersede_pending : ℕ → ℕ → OrderRow → Store → Option (List OrderRow) → Outcome OrderRow
supersede_pending now id result s none = raised database_error
supersede_pending now id result s (some orders) =
    elim (update_pending now AttemptStatus.superseded (of_order id) s.attempts) [
      | none ↦ raised database_error
      | some attempts ↦ done result (record s { orders = orders; attempts = attempts })
    ]

unfoldable pub cancel_order : ℕ → ℕ → ℕ → Store → Outcome OrderRow
cancel_order now customer id s = elim (select_first (is_own customer id) s.orders) [
  | none ↦ raised order_not_found
  | some o ↦
      if not (is_open_order o.order_status)
      then raised order_not_cancellable
      else commit (id ∷ [])
          (supersede_pending now id (cancelled o) s (update_order now id cancelled s.orders))
]

-- The condition of `cancelOverdueOrders`, for one customer or for all.
abbrev pub is_overdue : ℕ → Option ℕ → OrderRow → Bool
is_overdue now customer o =
    is_open_order o.order_status
    && leb o.payment_due_at now
    && elim customer [ none ↦ true | some c ↦ o.customer_user_id == c ]

abbrev pub auto_cancel : OrderRow → OrderRow
auto_cancel o = record o { order_status = OrderStatus.cancelled; auto_cancelled = true }

-- The two updates of the loop, for one order.
abbrev pub close_overdue : ℕ → ℕ → Store → Outcome Unit
close_overdue now id s = elim (update_order now id auto_cancel s.orders) [
  | none ↦ raised database_error
  | some orders ↦
      elim (update_pending now AttemptStatus.expired (λ a. of_order id a && leb a.expires_at now)
        s.attempts) [
          | none ↦ raised database_error
          | some attempts ↦ done tt (record s { orders = orders; attempts = attempts })
        ]
]

abbrev pub and_then : {A B : Type 0} → Outcome A → (A → Store → Outcome B) → Outcome B
and_then (raised e) f = raised e
and_then (done a s) f = f a s

abbrev pub close_all : ℕ → List ℕ → Store → Outcome Unit
close_all now [] s = done tt s
close_all now (id ∷ ids) s = and_then (close_overdue now id s) (λ _. close_all now ids)

-- `due` are the ids that the SELECT gives: at most a hundred overdue orders that no other
-- transaction has locked.
unfoldable pub cancel_overdue_orders : ℕ → List ℕ → Store → Outcome Unit
cancel_overdue_orders now due s = commit due (close_all now due s)

-- The plan with its product and its provider, as far as the order copies or tests it.
pub record PlanRow : Type 0 where
  pub plan_row_id : ℕ
  pub price : ℕ
  pub duration : ℕ
  pub has_chain_address : Bool
  pub is_offered : Bool  -- published, of a published product; the provider is active
  pub is_renewable_offer : Bool  -- published or archived, so is the product; active
  pub provider_is_ready : Bool  -- `requireReady`

pub record ServiceTerms : Type 0 where
  pub version : ℕ
  pub hash : ℕ

-- What a new order takes from outside: the id of `randomUUID`, the configuration and the terms.
pub record Placing : Type 0 where
  pub fresh_id : ℕ
  pub grace_ms : ℕ  -- ipnDeliveryGraceSeconds
  pub has_namespace_contract : Bool
  pub has_handoff : Bool
  pub terms : ServiceTerms

abbrev pub thirty_minutes : ℕ
thirty_minutes = 1800000

abbrev pub type_of : Option ℕ → OrderType
type_of none = new_purchase
type_of (some license) = renewal license

abbrev pub is_target : Option ℕ → OrderType → Bool
is_target none new_purchase = true
is_target none (renewal l) = false
is_target (some license) new_purchase = false
is_target (some license) (renewal l) = l == license

abbrev pub new_order : ℕ → ℕ → ℕ → PlanRow → Option ℕ → Bool → Placing → OrderRow
new_order now customer key plan target handoff p = record {
  order_id = p.fresh_id;
  idempotency_key = key;
  customer_user_id = customer;
  plan_id = plan.plan_row_id;
  order_type = type_of target;
  order_status = waiting_service_terms_acceptance;
  auto_cancelled = false;
  price_vnd = plan.price;
  duration_months = plan.duration;
  is_handoff = handoff;
  terms_version = p.terms.version;
  terms_hash = p.terms.hash;
  payment_due_at = now + thirty_minutes;
  ipn_accept_until = now + thirty_minutes + p.grace_ms;
  terms_accepted_at = none;
}

-- uq_orders_one_open_renewal
abbrev pub has_open_renewal : Option ℕ → List OrderRow → Bool
has_open_renewal none orders = false
has_open_renewal (some license) orders =
    exists_where
      (λ (o : OrderRow). is_target (some license) o.order_type && is_open_order o.order_status)
      orders

abbrev pub insert_order : ℕ → ℕ → ℕ → PlanRow → Option ℕ → Bool → Placing → Store → Outcome OrderRow
insert_order now customer key plan target handoff p s =
    if handoff && not plan.provider_is_ready
    then raised provider_not_ready
    else if has_open_renewal target s.orders
    then raised database_error
    else let order = new_order now customer key plan target handoff p in
      done order (record s { orders = s.orders ++ order ∷ [] })

-- The licence that is to be renewed, of the customer and of the plan.
abbrev pub is_target_license : ℕ → ℕ → ℕ → LicenseRow → Bool
is_target_license customer plan license l =
    l.license_id == license
    && l.license_plan_id == plan
    && l.license_customer_id == customer
    && l.is_renewable

-- The order of a renewal, for the licence that has been read.
abbrev pub place_renewal :
    ℕ → ℕ → ℕ → PlanRow → ℕ → Placing → Store → Option LicenseRow → Outcome OrderRow
place_renewal now customer key plan license p s none = raised renewal_license_not_found
place_renewal now customer key plan license p s (some l) =
    insert_order now customer key plan (some license) l.license_is_handoff p s

abbrev pub place_for : ℕ → ℕ → ℕ → PlanRow → Option ℕ → Placing → Store → Outcome OrderRow
place_for now customer key plan none p s = insert_order now customer key plan none p.has_handoff p s
place_for now customer key plan (some license) p s =
    place_renewal now customer key plan license p s
      (select_first (is_target_license customer plan.plan_row_id license) s.effects.licenses)

abbrev pub is_orderable : PlanRow → Option ℕ → Bool
is_orderable plan none = plan.is_offered
is_orderable plan (some license) = plan.is_renewable_offer

abbrev pub place_new : ℕ → ℕ → ℕ → Option PlanRow → Option ℕ → Placing → Store → Outcome OrderRow
place_new now customer key none target p s = raised plan_not_found
place_new now customer key (some plan) target p s =
    if not (is_orderable plan target)
    then raised plan_not_found
    else if not plan.has_chain_address && not p.has_namespace_contract
    then raised provider_namespace_capability_not_configured
    else place_for now customer key plan target p s

-- `renewal.status = 'CONFIRMED'`, of the order's latest renewal command
abbrev pub is_renewed : ℕ → List CommandRow → Bool
is_renewed id commands =
    elim (select_latest (λ (c : CommandRow). c.command_order_id == id && not c.is_issue)
      (λ c. c.sequence) commands) [ none ↦ false | some c ↦ c.is_confirmed ]

-- The condition of PENDING_RENEWAL.
abbrev pub is_pending_renewal : ℕ → ℕ → ℕ → List CommandRow → OrderRow → Bool
is_pending_renewal now customer license commands o =
    o.customer_user_id == customer
    && is_target (some license) o.order_type
    && (is_open_order o.order_status && ltb now o.payment_due_at
        || is_accepted o.order_status && not (is_renewed o.order_id commands))

unfoldable pub find_pending_renewal : ℕ → ℕ → ℕ → Store → Option OrderRow
find_pending_renewal now customer license s =
    select_last (is_pending_renewal now customer license s.effects.commands) s.orders

abbrev pub resume_renewal : ℕ → OrderRow → Store → Outcome OrderRow
resume_renewal plan_id o s =
    if o.plan_id == plan_id then done o s else raised renewal_license_not_found

abbrev pub resume_or_place :
    ℕ → ℕ → ℕ → ℕ → Option PlanRow → Option ℕ → Placing → Store → Option OrderRow → Outcome OrderRow
resume_or_place now customer key plan_id row target p s none =
    place_new now customer key row target p s
resume_or_place now customer key plan_id row target p s (some o) = resume_renewal plan_id o s

-- The pending renewal of the licence, if the order is for one.
abbrev pub pending_renewal : ℕ → ℕ → Option ℕ → Store → Option OrderRow
pending_renewal now customer none s = none
pending_renewal now customer (some license) s = find_pending_renewal now customer license s

-- From the customer's earlier order with the key on.
abbrev pub create_keyed :
    ℕ → ℕ → ℕ → ℕ → Option PlanRow → Option ℕ → Placing → Store → Option OrderRow → Outcome OrderRow
create_keyed now customer key plan_id row target p s (some o) =
    if not (o.plan_id == plan_id) || not (is_target target o.order_type)
    then raised idempotency_conflict
    else done o s
create_keyed now customer key plan_id row target p s none =
    resume_or_place now customer key plan_id row target p s (pending_renewal now customer target s)

abbrev pub has_key : ℕ → ℕ → OrderRow → Bool
has_key customer key o = o.customer_user_id == customer && o.idempotency_key == key

-- `createOrder`; `row` is the plan that `plan_id` names.
unfoldable pub create_order :
    ℕ → ℕ → ℕ → ℕ → Option PlanRow → Option ℕ → Placing → Store → Outcome OrderRow
create_order now customer key plan_id row target p s =
    create_keyed now customer key plan_id row target p s
      (select_first (has_key customer key) s.orders)
