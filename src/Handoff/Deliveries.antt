-- ===== src/Handoff/Deliveries.antt =====
-- backend/src/modules/licensing/infrastructure/provider-delivery.repository.ts
-- Each statement is a function on the tables; `now` is the database's clock and `token` the UUID
-- that the statement draws.
mod Rows
pub mod Lifecycle
pub mod Leases
use Prim.Native.String.{String}
use emu_key.Prelude.{
  ℕ, ◌+◌, Bool, true, false, not, ◌&&◌, ◌||◌, Option, none, some, List, [], ◌∷◌, ◌++◌, ltb, leb,
  ◌==◌, if◌then◌else◌, is_some, is_id, is_past, select_first, update_where, update_first,
  exists_where,
}
use emu_key.Handoff.{
  DeliveryStatus, pending, sending, retry_wait, failed, delivered, superseded, Snapshot,
  DeliveryRow, IntegrationRow, LicenseRow, KeyMaterialRow, Store, is_sending, is_enabled,
}

-- `requireReady`: `false` is the error PROVIDER_INTEGRATION_NOT_READY
unfoldable pub require_ready : ℕ → Store → Bool
require_ready provider_id s =
    exists_where
      (λ i.
        i.provider_user_id == provider_id
        && is_enabled i.status
        && is_id i.verified_config_version i.config_version)
      s.integrations

-- `status IN ('PENDING','SENDING','RETRY_WAIT','FAILED')`
abbrev pub is_live : DeliveryStatus → Bool
is_live pending = true
is_live sending = true
is_live retry_wait = true
is_live failed = true
is_live delivered = false
is_live superseded = false

abbrev pub supersede : DeliveryRow → DeliveryRow
supersede d = record d { status = superseded; lease_token = none; lease_expires_at = none }

abbrev pub new_delivery : ℕ → ℕ → ℕ → ℕ → ℕ → Snapshot → DeliveryRow
new_delivery now license_id provider_user_id integration_id config_version message = record {
  id = message.delivery_id;
  license_id = license_id;
  provider_user_id = provider_user_id;
  integration_id = integration_id;
  config_version = config_version;
  revision = message.revision;
  key_version = message.key_version;
  snapshot = message;
  status = pending;
  attempt_count = 0;
  next_attempt_at = now;
  lease_token = none;
  lease_expires_at = none;
  receipt_id = none;
  accepted_at = none;
  last_error_code = none;
}

unfoldable pub record_snapshot : ℕ → ℕ → ℕ → ℕ → ℕ → Snapshot → Store → Store
record_snapshot now license_id provider_user_id integration_id config_version message s = record s {
  licenses =
      update_where (λ l. l.id == license_id)
        (λ l. record l { provider_revision = message.revision }) s.licenses;
  deliveries =
      update_where (λ d. d.license_id == license_id && is_live d.status) supersede s.deliveries
      ++ new_delivery now license_id provider_user_id integration_id config_version message ∷ [];
}

-- `WHERE id=$1 AND lease_token=$2 AND status='SENDING' AND lease_expires_at>now()`
abbrev pub holds_lease : ℕ → ℕ → ℕ → DeliveryRow → Bool
holds_lease now id token d =
    d.id == id
    && is_id d.lease_token token
    && is_sending d.status
    && is_some d.lease_expires_at
    && not (is_past d.lease_expires_at now)

abbrev pub accept : ℕ → String → DeliveryRow → DeliveryRow
accept now receipt d = record d {
  status = delivered;
  receipt_id = some receipt;
  accepted_at = some now;
  lease_token = none;
  lease_expires_at = none;
  last_error_code = none;
}

abbrev pub retire : ℕ → KeyMaterialRow → KeyMaterialRow
retire now k = record k { retired_at = if is_some k.retired_at then k.retired_at else some now }

-- The lease that a worker was given by `claim`.
pub record Lease : Type 0 where
  pub id : ℕ
  pub token : ℕ
  pub license_id : ℕ
  pub key_version : ℕ
  pub revision : ℕ

-- `complete`; the Boolean tells whether the lease was still held. `notify` runs in the same
-- transaction.
unfoldable pub complete : ℕ → Lease → String → (Store → Store) → Store → Bool × Store
complete now lease receipt notify s =
    if exists_where (holds_lease now lease.id lease.token) s.deliveries
    then (
      true,
      notify (record s {
        deliveries =
            update_where (holds_lease now lease.id lease.token) (accept now receipt) s.deliveries;
        keys =
            update_where
              (λ k. k.license_id == lease.license_id && ltb k.key_version lease.key_version)
              (retire now) s.keys;
      }),
    )
    else (false, s)

unfoldable pub customer_for_current_revision : ℕ → ℕ → Store → Option ℕ
customer_for_current_revision license_id revision s =
    elim (select_first (λ l. l.id == license_id && l.provider_revision == revision) s.licenses) [
      | none ↦ none
      | some l ↦ some l.customer_user_id
    ]

-- `WHERE id=$1 AND lease_token=$2 AND status='SENDING'`
abbrev pub is_leased_by : ℕ → ℕ → DeliveryRow → Bool
is_leased_by id token d = d.id == id && is_id d.lease_token token && is_sending d.status

abbrev pub refuse : ℕ → String → Option ℕ → DeliveryRow → DeliveryRow
refuse now code delay d = record d {
  status = elim delay [ none ↦ failed | some _ ↦ retry_wait ];
  last_error_code = some code;
  next_attempt_at = now + (elim delay [ none ↦ 0 | some ms ↦ ms ]);
  lease_token = none;
  lease_expires_at = none;
}

unfoldable pub fail : ℕ → Lease → String → Option ℕ → Store → Store
fail now lease code delay s = record s {
  deliveries =
      update_where (is_leased_by lease.id lease.token) (refuse now code delay) s.deliveries;
}

abbrev pub is_retryable_status : DeliveryStatus → Bool
is_retryable_status failed = true
is_retryable_status retry_wait = true
is_retryable_status _ = false

-- The integration that a retry joins: enabled, and verified in its present configuration.
abbrev pub is_ready : ℕ → IntegrationRow → Bool
is_ready id i =
    i.id == id && is_enabled i.status && is_id i.verified_config_version i.config_version

abbrev pub is_retryable : ℕ → Option ℕ → Store → DeliveryRow → Bool
is_retryable id provider s d =
    d.id == id
    && (not (is_some provider) || is_id provider d.provider_user_id)
    && exists_where (is_ready d.integration_id) s.integrations
    && exists_where (λ l. l.id == d.license_id && l.provider_revision == d.revision) s.licenses
    && is_retryable_status d.status

abbrev pub config_of : Option IntegrationRow → ℕ → ℕ
config_of none old = old
config_of (some i) old = i.config_version

abbrev pub requeue : ℕ → Store → DeliveryRow → DeliveryRow
requeue now s d = record d {
  status = pending;
  attempt_count = 0;
  next_attempt_at = now;
  last_error_code = some "MANUAL_RETRY";
  config_version =
      config_of (select_first (is_ready d.integration_id) s.integrations) d.config_version;
}

-- `retry`; the reason is long enough exactly if `length($3)>=3` holds of it, which the caller has
-- measured
unfoldable pub retry : ℕ → ℕ → Option ℕ → Bool → Store → Bool × Store
retry now id provider long_enough s =
    if long_enough && exists_where (is_retryable id provider s) s.deliveries
    then (
      true,
      record s {
        deliveries = update_where (is_retryable id provider s) (requeue now s) s.deliveries;
      },
    )
    else (false, s)

-- `WHERE status='SENDING' AND lease_expires_at<=now() AND attempt_count>=8`
abbrev pub is_exhausted : ℕ → DeliveryRow → Bool
is_exhausted now d = is_sending d.status && is_past d.lease_expires_at now && leb 8 d.attempt_count

abbrev pub exhaust : DeliveryRow → DeliveryRow
exhaust d = record d {
  status = failed;
  last_error_code = some "PROVIDER_LEASE_EXHAUSTED";
  lease_token = none;
  lease_expires_at = none;
}

abbrev pub is_waiting : DeliveryStatus → Bool
is_waiting pending = true
is_waiting retry_wait = true
is_waiting _ = false

-- The conditions on a candidate that need no other table.
abbrev pub is_due : ℕ → DeliveryRow → Bool
is_due now d =
    ltb d.attempt_count 8
    && (is_waiting d.status && leb d.next_attempt_at now
        || is_sending d.status && is_past d.lease_expires_at now)

abbrev pub is_candidate : ℕ → List IntegrationRow → DeliveryRow → Bool
is_candidate now integrations d =
    is_due now d
    && exists_where
        (λ i.
          i.id == d.integration_id && i.config_version == d.config_version && is_enabled i.status)
        integrations

abbrev pub lease_ms : ℕ
lease_ms = 45000

abbrev pub take_lease : ℕ → ℕ → DeliveryRow → DeliveryRow
take_lease now token d = record d {
  status = sending;
  lease_token = some token;
  lease_expires_at = some (now + lease_ms);
  attempt_count = d.attempt_count + 1;
}

-- The first statement of `claim`.
unfoldable pub fail_exhausted : ℕ → Store → Store
fail_exhausted now s = record s {
  deliveries = update_where (is_exhausted now) exhaust s.deliveries;
}

-- The second statement of `claim`: it takes the first candidate, by its primary key; rows stand in
-- the order of `created_at`.
unfoldable pub take_next : ℕ → ℕ → Store → Option DeliveryRow × Store
take_next now token s = elim (select_first (is_candidate now s.integrations) s.deliveries) [
  | none ↦ (none, s)
  | some d ↦ (
    some (take_lease now token d),
    record s {
      deliveries =
          update_first (is_candidate now s.integrations) (take_lease now token) s.deliveries;
    },
  )
]

unfoldable pub claim : ℕ → ℕ → Store → Option DeliveryRow × Store
unfolding fail_exhausted take_next
claim now token s = take_next now token (fail_exhausted now s)
