-- ===== src/Commerce/Store.antt =====
-- The tables of backend/src/modules/commerce-payment/infrastructure/commerce.repository.ts: orders,
-- payment attempts and payment transactions, and what an accepted payment adds to others. A row has
-- the columns that decide something; the snapshots that are only copied are left out. The triggers
-- of backend/database/schema.sql stand in `permitted_order` and `permitted_attempt`, as far as the
-- code does not test the same before; each stamps its own time, which is the statement's. What
-- enforce_payment_effect_projection tests of a cancelled order when its transaction commits stands in
-- `commit`; what it tests of an accepted order, the acceptance writes in the same transaction.
pub mod Counting
pub mod Outcomes
use emu_key.Prelude.{
  ℕ, Bool, true, false, not, ◌&&◌, ◌||◌, Option, none, some, List, [], ◌∷◌, leb, ltb, ◌==◌, is_some,
  is_id, if◌then◌else◌, select_first, update_where, update_first, exists_where,
}
use emu_key.Commerce.{
  OrderStatus, AttemptStatus, waiting_service_terms_acceptance, waiting_payment, payment_accepted,
  is_waiting_payment, is_pending,
}

pub data OrderType : Type 0 where
  new_purchase : OrderType
  renewal : ℕ → OrderType  -- target_license_id

pub data PaymentClassification : Type 0 where
  matched duplicate unmatched amount_mismatch invalid : PaymentClassification

pub data ReviewStatus : Type 0 where
  open_review resolved closed_no_action : ReviewStatus

pub data ReviewResolution : Type 0 where
  accept_and_fulfill refund_confirmed rematched no_action : ReviewResolution

pub data ReviewReason : Type 0 where
  no_matching_payment_attempt payment_amount_mismatch additional_payment : ReviewReason
  payment_outside_accepted_window : ReviewReason
  reviewer_text : ℕ → ReviewReason

pub data TimingBasis : Type 0 where
  provider sandbox_receipt : TimingBasis

pub record OrderRow : Type 0 where
  pub order_id : ℕ
  pub idempotency_key : ℕ
  pub customer_user_id : ℕ
  pub plan_id : ℕ
  pub order_type : OrderType
  pub order_status : OrderStatus
  pub auto_cancelled : Bool
  pub price_vnd : ℕ
  pub duration_months : ℕ
  pub is_handoff : Bool  -- fulfillment_mode = 'PROVIDER_HANDOFF'
  pub terms_version : ℕ
  pub terms_hash : ℕ
  pub payment_due_at : ℕ
  pub ipn_accept_until : ℕ
  pub terms_accepted_at : Option ℕ

pub record AttemptRow : Type 0 where
  pub attempt_id : ℕ
  pub attempt_order_id : ℕ
  pub attempt_no : ℕ
  pub provider_reference : ℕ
  pub amount_vnd : ℕ
  pub status : AttemptStatus
  pub created_at : ℕ
  pub expires_at : ℕ
  pub superseded_at : Option ℕ

pub record TransactionRow : Type 0 where
  pub transaction_id : ℕ
  pub provider_event_id : ℕ
  pub transaction_ref : Option ℕ
  pub payment_order_id : Option ℕ
  pub payment_attempt_id : Option ℕ
  pub amount_minor : ℕ
  pub classification : PaymentClassification
  pub review_status : Option ReviewStatus
  pub review_reason : Option ReviewReason
  pub review_resolution : Option ReviewResolution
  pub refund_reference : Option ℕ  -- review_evidence
  pub reviewed_by : Option ℕ
  pub duplicate_of : Option ℕ
  pub occurred_at : ℕ
  pub received_at : ℕ
  pub timing_basis : TimingBasis

pub record LicenseRow : Type 0 where
  pub license_id : ℕ
  pub origin_order_id : ℕ
  pub license_customer_id : ℕ
  pub license_plan_id : ℕ
  pub period_start : ℕ
  pub license_expires_at : ℕ
  pub license_is_handoff : Bool
  pub is_renewable : Bool  -- status IN ('ACTIVE', 'SUSPENDED', 'EXPIRED')

-- The columns of chain_commands that a payment writes and reads.
pub record CommandRow : Type 0 where
  pub command_id : ℕ
  pub is_issue : Bool  -- command_type = 'ISSUE_LICENSE'
  pub command_order_id : ℕ
  pub command_license_id : ℕ
  pub sequence : ℕ
  pub predecessor_id : Option ℕ
  pub basis_event_id : Option ℕ
  pub registry : ℕ
  pub command_expires_at : ℕ
  pub is_confirmed : Bool
  pub confirmation_event_id : Option ℕ

-- A call of `enqueueInTransaction`: the review of a transaction is required or resolved, or a
-- payment is accepted; with the user who is told.
pub data Notice : Type 0 where
  review_required review_resolved : ℕ → ℕ → Notice
  payment_was_accepted : ℕ → ℕ → Notice

-- What a payment adds to other tables; `stored_keys` are the commands of `persistKey`.
pub record Effects : Type 0 where
  pub licenses : List LicenseRow
  pub commands : List CommandRow
  pub stored_keys : List ℕ
  pub notices : List Notice

pub record Store : Type 0 where
  pub orders : List OrderRow
  pub attempts : List AttemptRow
  pub transactions : List TransactionRow
  pub effects : Effects

pub data CommerceError : Type 0 where
  idempotency_conflict renewal_license_not_found plan_not_found : CommerceError
  provider_namespace_capability_not_configured provider_not_ready : CommerceError
  order_not_found order_terms_mismatch order_terms_snapshot_changed : CommerceError
  order_not_cancellable order_not_waiting_payment order_payment_expired : CommerceError
  payment_requires_review payment_attempt_not_retryable : CommerceError
  payment_review_invalid_resolution payment_review_not_found : CommerceError
  payment_review_already_closed sandbox_payment_not_reconcilable : CommerceError
  sandbox_payment_already_fulfilled sandbox_payment_outside_accepted_window : CommerceError
  payment_effect_not_found renewal_canonical_basis_not_found : CommerceError
  provider_key_storage_required invalid_renewal_period invalid_time_value database_error :
      CommerceError

-- A transaction of the database: an error, which leaves the store as it was, or a result and the
-- new store.
pub data Outcome (A : Type 0) : Type 0 where
  raised : CommerceError → Outcome A
  done : A → Store → Outcome A

abbrev pub is_accepted : OrderStatus → Bool
is_accepted payment_accepted = true
is_accepted _ = false

abbrev pub is_waiting_terms : OrderStatus → Bool
is_waiting_terms waiting_service_terms_acceptance = true
is_waiting_terms _ = false

abbrev pub is_cancelled : OrderStatus → Bool
is_cancelled OrderStatus.cancelled = true
is_cancelled _ = false

abbrev pub is_open_order : OrderStatus → Bool
is_open_order status = is_waiting_terms status || is_waiting_payment status

abbrev pub is_open : Option ReviewStatus → Bool
is_open (some open_review) = true
is_open _ = false

abbrev pub is_matched : PaymentClassification → Bool
is_matched matched = true
is_matched _ = false

-- `['ACCEPT_AND_FULFILL','REMATCHED'].includes(review_resolution)`
abbrev pub is_fulfilling : Option ReviewResolution → Bool
is_fulfilling (some accept_and_fulfill) = true
is_fulfilling (some rematched) = true
is_fulfilling _ = false

-- The generated column `fulfillment_order_id` is the order's id.
abbrev pub fulfills : ℕ → TransactionRow → Bool
fulfills order t =
    (is_matched t.classification || is_fulfilling t.review_resolution)
    && is_id t.payment_order_id order

-- The trigger's table of the changes of an order's status.
abbrev pub order_may_become : ℕ → OrderRow → OrderStatus → Bool
order_may_become now o waiting_payment = is_waiting_terms o.order_status
order_may_become now o OrderStatus.cancelled = is_open_order o.order_status
order_may_become now o OrderStatus.expired = is_open_order o.order_status
order_may_become now o payment_accepted =
    is_waiting_payment o.order_status
    || (is_cancelled o.order_status
        && o.auto_cancelled
        && is_some o.terms_accepted_at
        && ltb now o.ipn_accept_until)
order_may_become now o waiting_service_terms_acceptance = false

-- guard_order_snapshot_and_lifecycle, for an update that changes the status to another than
-- EXPIRED, which nothing here does.
abbrev pub permitted_order : ℕ → OrderRow → OrderRow → Bool
permitted_order now o n =
    order_may_become now o n.order_status
    && (is_accepted n.order_status
        || (if n.auto_cancelled
            then is_cancelled n.order_status && leb o.payment_due_at now
            else ltb now o.payment_due_at))

-- guard_payment_attempt_identity_and_lifecycle, for an update of a pending attempt: none expires
-- before its time, none is superseded after it.
abbrev pub permitted_attempt : ℕ → AttemptRow → AttemptStatus → Bool
permitted_attempt now a AttemptStatus.expired = leb a.expires_at now
permitted_attempt now a AttemptStatus.superseded = ltb now a.expires_at
permitted_attempt now a _ = true

-- `UPDATE orders SET … WHERE id = $1`; `none` is an exception of the trigger.
unfoldable pub update_order : ℕ → ℕ → (OrderRow → OrderRow) → List OrderRow → Option (List OrderRow)
update_order now id f orders = elim (select_first (λ (o : OrderRow). o.order_id == id) orders) [
  | none ↦ some orders
  | some o ↦
      if permitted_order now o (f o)
      then some (update_first (λ (q : OrderRow). q.order_id == id) f orders)
      else none
]

-- `order_id = v_order_id AND status = 'PENDING'`
abbrev pub has_pending : ℕ → List AttemptRow → Bool
has_pending id attempts =
    exists_where (λ a. a.attempt_order_id == id && is_pending a.status) attempts

-- Whether the order is cancelled with an attempt still pending.
abbrev pub retains_pending : Store → ℕ → Bool
retains_pending s id = elim (select_first (λ (o : OrderRow). o.order_id == id) s.orders) [
  | none ↦ false
  | some o ↦ is_cancelled o.order_status && has_pending id s.attempts
]

-- The commit of a transaction that cancelled these orders: enforce_payment_effect_projection, which
-- is deferred to it, raises if one of them retains a pending attempt.
abbrev pub commit : {A : Type 0} → List ℕ → Outcome A → Outcome A
commit ids (raised e) = raised e
commit ids (done a s) =
    if exists_where (retains_pending s) ids then raised database_error else done a s

-- `ORDER BY key DESC LIMIT 1`; of equal keys, the row that was created first.
unfoldable pub select_latest : {R : Type 0} → (R → Bool) → (R → ℕ) → List R → Option R
select_latest p key [] = none
select_latest p key (r ∷ rs) =
    let rest = select_latest p key rs in
    if p r
    then elim rest [ none ↦ some r | some q ↦ if ltb (key r) (key q) then some q else some r ]
    else rest

-- `ORDER BY created_at DESC LIMIT 1`, the row that was created last.
unfoldable pub select_last : {R : Type 0} → (R → Bool) → List R → Option R
select_last p [] = none
select_last p (r ∷ rs) =
    let rest = select_last p rs in
    elim rest [ none ↦ if p r then some r else none | some q ↦ some q ]

-- The row after the trigger, which stamps the time of a supersession.
abbrev pub set_attempt : ℕ → AttemptStatus → AttemptRow → AttemptRow
set_attempt now AttemptStatus.superseded a = record a {
  status = AttemptStatus.superseded;
  superseded_at = some now;
}
set_attempt now status a = record a { status = status; superseded_at = none }

-- `UPDATE payment_attempts SET status … WHERE … AND status = 'PENDING'`.
unfoldable pub update_pending :
    ℕ → AttemptStatus → (AttemptRow → Bool) → List AttemptRow → Option (List AttemptRow)
update_pending now status p attempts =
    if exists_where (λ a. p a && is_pending a.status && not (permitted_attempt now a status))
      attempts
    then none
    else some (update_where (λ a. p a && is_pending a.status) (set_attempt now status) attempts)
