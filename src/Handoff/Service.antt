-- ===== src/Handoff/Service.antt =====
-- backend/src/modules/licensing/application/provider-handoff.service.ts
-- The provider's server, the cipher and the clock are arguments. A worker's run has two parts, the
-- claim and the settlement; `meanwhile` is what other workers and requests do between them.
pub mod Publishing
pub mod Settling
use Prim.Native.Nat
use Prim.Native.String.{String}
use text.Mathlib.Text.{◌==◌ as str_eq}
use emu_key.Prelude.{
  ℕ, ◌+◌, ◌-◌, ◌*◌, ◌/◌, ◌^◌, Bool, true, false, not, ◌&&◌, ◌||◌, Option, none, some, List, [], ◌∷◌,
  ltb, leb, ◌==◌, if◌then◌else◌, max, select_first, exists_where,
}
use emu_key.Handoff.{
  DeliveryStatus, pending, delivered, Snapshot, DeliveryRow, IntegrationRow, LicenseRow,
  KeyMaterialRow, Store, is_enabled,
}
use emu_key.Handoff.Policy.{
  LicenseStatus, pending_onchain, suspended, is_active, is_trusted, LicenseBasis,
  can_receive_provider_key, Answer, object, not_object, Scalar, str, valid_provider_receipt,
  delivery_retry_delay,
}
use emu_key.Handoff.Deliveries.{
  record_snapshot, Lease, complete, customer_for_current_revision, fail, claim,
}

-- The table of published event types.
abbrev pub published_type : String → String
published_type event =
    if str_eq event "LICENSE_ISSUED"
    then "ISSUED"
    else if str_eq event "LICENSE_RENEWED"
    then "RENEWED"
    else if str_eq event "KEY_ROTATED"
    then "KEY_REPLACED"
    else if str_eq event "LICENSE_SUSPENDED"
    then "SUSPENDED"
    else if str_eq event "LICENSE_RESUMED"
    then "RESUMED"
    else if str_eq event "LICENSE_REVOKED"
    then "REVOKED"
    else "TRUST_CHANGED"

-- `row.status === 'PENDING_ONCHAIN' ? 'SUSPENDED' : row.status`
abbrev pub published_status : LicenseStatus → LicenseStatus
published_status pending_onchain = suspended
published_status status = status

abbrev pub max_safe_integer : ℕ
max_safe_integer = 2 ^ 53 - 1

-- `new Date(String(date))`: the text of a date has whole seconds, so its milliseconds are lost.
abbrev pub reparse : ℕ → ℕ
reparse time = time / 1000 * 1000

-- The message of `publish`, with the fields that the model keeps.
abbrev pub message_of : ℕ → ℕ → String → LicenseRow → Snapshot
message_of now delivery_id event l = record {
  delivery_id = delivery_id;
  event_type = published_type event;
  revision = l.provider_revision + 1;
  license_id = l.id;
  key_version = l.activation_key_version;
  expires_at = reparse l.expires_at;
  status = published_status l.status;
  usable = is_active l.status && is_trusted l.trust && ltb now (reparse l.expires_at);
}

-- `publish`; `none` is the error PROVIDER_REVISION_OVERFLOW
unfoldable pub publish : ℕ → ℕ → ℕ → String → Store → Option Store
publish now delivery_id license_id event s =
    elim (select_first (λ l. l.id == license_id && l.provider_managed) s.licenses) [
      | none ↦ some s
      | some l ↦
          elim (select_first (λ i. i.provider_user_id == l.provider_user_id) s.integrations) [
            | none ↦ some s
            | some i ↦
                if leb (l.provider_revision + 1) max_safe_integer
                then some (
                    record_snapshot now license_id l.provider_user_id i.id i.config_version
                      (message_of now delivery_id event l) s)
                else none
          ]
    ]

pub record CustomerInfo : Type 0 where
  pub provider_delivery_status : DeliveryStatus
  pub provider_revision : ℕ
  pub provider_accepted_revision : Option ℕ
  pub key_available : Bool
  pub key_version : ℕ

abbrev pub is_delivered : DeliveryStatus → Bool
is_delivered delivered = true
is_delivered _ = false

-- The delivery that `customerBasis` joins, if there is one.
abbrev pub status_of : Option DeliveryRow → DeliveryStatus
status_of none = pending
status_of (some d) = d.status

-- `Number(row.accepted_revision)`, where `Number(null)` is 0
abbrev pub revision_of : Option DeliveryRow → ℕ
revision_of none = 0
revision_of (some d) = d.revision

abbrev pub info_of : ℕ → LicenseRow → Option DeliveryRow → CustomerInfo
info_of now l d = record {
  provider_delivery_status = status_of d;
  provider_revision = l.provider_revision;
  provider_accepted_revision = if is_delivered (status_of d) then some (revision_of d) else none;
  key_available =
      is_delivered (status_of d)
      && can_receive_provider_key
          (record {
            status = l.status;
            trust = l.trust;
            expires_at = reparse l.expires_at;
            revision = l.provider_revision;
            accepted_revision = some (revision_of d);
          })
          now;
  key_version = l.activation_key_version;
}

-- The delivery of the licence's present revision.
abbrev pub current_delivery : LicenseRow → Store → Option DeliveryRow
current_delivery l s =
    select_first (λ d. d.license_id == l.id && d.revision == l.provider_revision) s.deliveries

unfoldable pub customer_info : ℕ → ℕ → ℕ → Store → Option CustomerInfo
customer_info now customer_id license_id s =
    elim (select_first (λ l. l.id == license_id && l.customer_user_id == customer_id) s.licenses) [
      | none ↦ none
      | some l ↦ if l.provider_managed then some (info_of now l (current_delivery l s)) else none
    ]

-- How the provider's server answered `send`: with a value, by a ProviderTransportError with its
-- code, whether it may be retried and after how long, or by any other error.
pub data Outcome : Type 0 where
  answered : Answer → Outcome
  transport_error : String → Bool → Option ℕ → Outcome
  crashed : Outcome

-- What the code does not implement: the texts of UUIDs, the length of a text, the cipher (`none`
-- is an error) and the provider's server.
pub record Provider : Type 0 where
  pub uuid : ℕ → String
  pub size : String → ℕ
  pub decrypt : KeyMaterialRow → Option String
  pub send : IntegrationRow → Snapshot → String → Outcome

-- `receipt.receiptId`
abbrev pub receipt_text : Answer → String
receipt_text not_object = ""
receipt_text (object r) = elim r.receipt_id [ str id ↦ id | _ ↦ "" ]

-- How the `try` block of `runOne` ends before `complete`.
pub data Attempt : Type 0 where
  receipted : String → Attempt
  refused : String → Bool → Option ℕ → Attempt
  internal : Attempt

-- `throw new ProviderTransportError(code)`
abbrev pub final_refusal : String → Attempt
final_refusal code = refused code false none

abbrev pub judge : Provider → Snapshot → Outcome → Attempt
judge p message (answered receipt) =
    if valid_provider_receipt p.size receipt (record {
      delivery_id = p.uuid message.delivery_id;
      license_id = p.uuid message.license_id;
      revision = message.revision;
    })
    then receipted (receipt_text receipt)
    else final_refusal "PROVIDER_RECEIPT_INVALID"
judge p message (transport_error code retryable retry_after) = refused code retryable retry_after
judge p message crashed = internal

unfoldable pub attempt : Provider → DeliveryRow → Store → Attempt
attempt p row s =
    elim (select_first (λ i. i.provider_user_id == row.provider_user_id) s.integrations) [
      | none ↦ final_refusal "PROVIDER_CONFIG_CHANGED"
      | some i ↦
          if not (i.config_version == row.config_version) || not (is_enabled i.status)
          then final_refusal "PROVIDER_CONFIG_CHANGED"
          else elim (select_first
              (λ k. k.license_id == row.license_id && k.key_version == row.key_version) s.keys) [
                | none ↦ final_refusal "KEY_MATERIAL_MISSING"
                | some k ↦ elim (p.decrypt k) [
                  | none ↦ internal
                  | some secret ↦ judge p row.snapshot (p.send i row.snapshot secret)
                ]
              ]
    ]

-- `enqueueInTransaction` with the event key of an accepted delivery: one notice for each user.
abbrev pub enqueue_notice : ℕ → ℕ → Store → Store
enqueue_notice user delivery s =
    if exists_where (λ n. n.0 == user && n.1 == delivery) s.notices
    then s
    else record s { notices = (user, delivery) ∷ s.notices }

-- What `complete` runs in its transaction.
abbrev pub notify_owner : Lease → Store → Store
notify_owner lease s = elim (customer_for_current_revision lease.license_id lease.revision s) [
  | none ↦ s
  | some owner ↦ enqueue_notice owner lease.id s
]

-- The delay that the `catch` block gives to `fail`: the attempt's, or what the provider asks for,
-- whichever is longer.
unfoldable pub failure_delay : ℕ → (ℕ → ℕ) → Bool → Option ℕ → Option ℕ
failure_delay attempt_count jittered retryable retry_after =
    elim (if retryable then delivery_retry_delay attempt_count jittered else none) [
      | none ↦ none
      | some delay ↦ some (max delay (elim retry_after [ none ↦ 0 | some ms ↦ ms ]))
    ]

unfoldable pub settle : ℕ → (ℕ → ℕ) → ℕ → Lease → Attempt → Store → Store
settle now jittered attempt_count lease (receipted receipt) s =
    (complete now lease receipt (notify_owner lease) s).1
settle now jittered attempt_count lease (refused code retryable retry_after) s =
    fail now lease code (failure_delay attempt_count jittered retryable retry_after) s
settle now jittered attempt_count lease internal s =
    fail now lease "PROVIDER_DELIVERY_INTERNAL_ERROR" none s

abbrev pub lease_of : ℕ → DeliveryRow → Lease
lease_of token d = record {
  id = d.id;
  token = token;
  license_id = d.license_id;
  key_version = d.key_version;
  revision = d.revision;
}

-- `runOne` after the claim.
unfoldable pub run_claimed :
    Provider → ℕ → ℕ → (ℕ → ℕ) → (Store → Store) → Option DeliveryRow × Store → Bool × Store
run_claimed p later token jittered meanwhile (none, s) = (false, s)
run_claimed p later token jittered meanwhile (some row, s) = (
  true,
  settle later jittered row.attempt_count (lease_of token row) (attempt p row s) (meanwhile s),
)

-- `runOne`: claim at `now`, settle at `later`.
unfoldable pub run_one : Provider → ℕ → ℕ → ℕ → (ℕ → ℕ) → (Store → Store) → Store → Bool × Store
unfolding run_claimed
run_one p now later token jittered meanwhile s =
    run_claimed p later token jittered meanwhile (claim now token s)
