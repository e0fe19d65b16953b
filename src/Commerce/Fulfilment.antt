-- ===== src/Commerce/Fulfilment.antt =====
-- backend/src/modules/commerce-payment/infrastructure/commerce.repository.ts: what an accepted
-- payment adds for the licence (the second half of `ingestPayment`), and the notices. The calendar
-- of Date and of PostgreSQL, the configuration and the provider's row are arguments. A registry is
-- the network, the chain and the contract.
use emu_key.Prelude.{
  ℕ, ◌+◌, Bool, true, false, not, ◌&&◌, Option, none, some, List, [], ◌∷◌, ◌++◌, leb, ◌==◌,
  if◌then◌else◌, select_first, map,
}
use emu_key.Commerce.Renewal.{UtcDate, renewal_expiry, Renewed, invalid_period, returned}
use emu_key.Commerce.Store.{
  Store, OrderRow, OrderType, new_purchase, renewal, LicenseRow, CommandRow, Effects, Notice,
  review_required, review_resolved, payment_was_accepted, CommerceError, select_latest,
  provider_namespace_capability_not_configured, provider_key_storage_required, database_error,
  invalid_renewal_period, invalid_time_value, renewal_canonical_basis_not_found,
}

pub record Calendar : Type 0 where
  pub date_of : ℕ → Option UtcDate
  pub time_of : UtcDate → ℕ
  pub add_interval : ℕ → ℕ → ℕ  -- `+ make_interval(months => …)`

-- IssuanceMaterial and ChainConfiguration, with what else of the surroundings is read.
pub record Issuance : Type 0 where
  pub calendar : Calendar
  pub issued_license_id : ℕ
  pub issued_command_id : ℕ
  pub default_registry : ℕ
  pub namespace_registry : Option ℕ
  pub has_chain_address : Bool  -- provider_chain_address IS NOT NULL
  pub has_key_storage : Bool  -- `this.handoff && secret`

pub data Fulfilment : Type 0 where
  not_issued : CommerceError → Fulfilment
  issued : Effects → Fulfilment

abbrev pub registry_of : Issuance → Option ℕ
registry_of i = if i.has_chain_address then some i.default_registry else i.namespace_registry

abbrev pub issue_license : Issuance → OrderRow → ℕ → LicenseRow
issue_license i o at = record {
  license_id = i.issued_license_id;
  origin_order_id = o.order_id;
  license_customer_id = o.customer_user_id;
  license_plan_id = o.plan_id;
  period_start = at;
  license_expires_at = i.calendar.add_interval at o.duration_months;
  license_is_handoff = o.is_handoff;
  is_renewable = false;
}

abbrev pub issue_command : Issuance → OrderRow → ℕ → ℕ → CommandRow
issue_command i o at registry = record {
  command_id = i.issued_command_id;
  is_issue = true;
  command_order_id = o.order_id;
  command_license_id = i.issued_license_id;
  sequence = 1;
  predecessor_id = none;
  basis_event_id = none;
  registry = registry;
  command_expires_at = i.calendar.add_interval at o.duration_months;
  is_confirmed = false;
  confirmation_event_id = none;
}

-- `persistKey` of an order that the provider hands over.
abbrev pub persist_key : Issuance → OrderRow → Effects → Fulfilment
persist_key i o new =
    if not o.is_handoff
    then issued new
    else if i.has_key_storage
    then issued (record new { stored_keys = new.stored_keys ++ i.issued_command_id ∷ [] })
    else not_issued provider_key_storage_required

abbrev pub issue_on : Issuance → OrderRow → ℕ → Effects → Option ℕ → Fulfilment
issue_on i o at x none = not_issued provider_namespace_capability_not_configured
issue_on i o at x (some registry) = persist_key i o (record x {
  licenses = x.licenses ++ issue_license i o at ∷ [];
  commands = x.commands ++ issue_command i o at registry ∷ [];
})

-- The licence's latest command, its first issue and the event that confirmed it last.
pub record Predecessor : Type 0 where
  pub latest : CommandRow
  pub issue_registry : ℕ
  pub basis : ℕ

abbrev pub of_license : ℕ → CommandRow → Bool
of_license license c = c.command_license_id == license

abbrev pub confirmed_basis : ℕ → ℕ → List CommandRow → Option ℕ
confirmed_basis license up_to commands =
    elim (select_latest (λ c. of_license license c && c.is_confirmed && leb c.sequence up_to)
      (λ (c : CommandRow). c.sequence) commands) [ none ↦ none | some c ↦ c.confirmation_event_id ]

-- The commands of a licence stand in the order of their sequence.
abbrev pub predecessor : ℕ → List CommandRow → Option Predecessor
predecessor license commands =
    elim (select_latest (of_license license) (λ (c : CommandRow). c.sequence) commands) [
      | none ↦ none
      | some c ↦ elim (select_first (λ q. of_license license q && q.is_issue) commands) [
        | none ↦ none
        | some q ↦ elim (confirmed_basis license c.sequence commands) [
          | none ↦ none
          | some event ↦ some (record { latest = c; issue_registry = q.registry; basis = event })
        ]
      ]
    ]

abbrev pub renew_command : Issuance → OrderRow → ℕ → ℕ → Predecessor → CommandRow
renew_command i o license expires_at p = record {
  command_id = i.issued_command_id;
  is_issue = false;
  command_order_id = o.order_id;
  command_license_id = license;
  sequence = p.latest.sequence + 1;
  predecessor_id = some p.latest.command_id;
  basis_event_id = some p.basis;
  registry = p.issue_registry;
  command_expires_at = expires_at;
  is_confirmed = false;
  confirmation_event_id = none;
}

abbrev pub renew_after : Issuance → OrderRow → ℕ → ℕ → Effects → Option Predecessor → Fulfilment
renew_after i o license until x none = not_issued renewal_canonical_basis_not_found
renew_after i o license until x (some p) =
    issued (record x { commands = x.commands ++ renew_command i o license until p ∷ [] })

-- `toISOString` throws on an Invalid Date.
abbrev pub renew_until : Issuance → OrderRow → ℕ → Effects → Renewed → Fulfilment
renew_until i o license x invalid_period = not_issued invalid_renewal_period
renew_until i o license x (returned none) = not_issued invalid_time_value
renew_until i o license x (returned (some until)) =
    renew_after i o license (i.calendar.time_of until) x (predecessor license x.commands)

abbrev pub renew_on : Issuance → OrderRow → ℕ → ℕ → Effects → Option LicenseRow → Fulfilment
renew_on i o at license x none = not_issued database_error
renew_on i o at license x (some l) = renew_until i o license x (
    renewal_expiry (i.calendar.date_of l.license_expires_at) (i.calendar.date_of at)
      o.duration_months)

abbrev pub fulfill_type : Issuance → OrderRow → ℕ → Effects → OrderType → Fulfilment
fulfill_type i o at x new_purchase = issue_on i o at x (registry_of i)
fulfill_type i o at x (renewal license) =
    renew_on i o at license x
      (select_first (λ (l : LicenseRow). l.license_id == license) x.licenses)

-- `at` is the payment's effective time, which is also payment_effective_time of its row.
unfoldable pub fulfill : Issuance → OrderRow → ℕ → Effects → Fulfilment
fulfill i o at x = fulfill_type i o at x o.order_type

abbrev pub add_notices : List Notice → Store → Store
add_notices new s = record s { effects = record s.effects { notices = s.effects.notices ++ new } }

abbrev pub customer_of : Option ℕ → List ℕ
customer_of none = []
customer_of (some c) = c ∷ []

-- `notifyPaymentReview`, to the active system administrators and to the order's customer
unfoldable pub notify_review : Bool → List ℕ → Option ℕ → ℕ → Store → Store
notify_review required admins customer id s =
    add_notices
      (map (λ user. if required then review_required id user else review_resolved id user)
        (admins ++ customer_of customer))
      s

-- the notice of an accepted payment
unfoldable pub notify_accepted : ℕ → ℕ → Store → Store
notify_accepted id customer s = add_notices (payment_was_accepted id customer ∷ []) s
