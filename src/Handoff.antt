-- ===== src/Handoff.antt =====
-- backend/src/modules/licensing: the handing over of issued licences to their providers. The
-- tables that the delivery repository reads and writes, with the columns that its statements use.
-- Identifiers are UUIDs that the code only compares, so they are numbers; times are milliseconds.
pub mod Policy
pub mod Deliveries
pub mod Integrations
pub mod Service
use Prim.Native.String.{String}
use emu_key.Prelude.{ℕ, Bool, true, false, Option, List}
use emu_key.Handoff.Policy.{LicenseStatus, TrustStatus}

pub data DeliveryStatus : Type 0 where
  pending sending retry_wait failed delivered superseded : DeliveryStatus

pub data IntegrationStatus : Type 0 where
  disabled enabled : IntegrationStatus

-- ProviderLicenseMessage without its key: what is sent to the provider.
pub record Snapshot : Type 0 where
  pub delivery_id : ℕ
  pub event_type : String
  pub revision : ℕ
  pub license_id : ℕ
  pub key_version : ℕ
  pub expires_at : ℕ
  pub status : LicenseStatus
  pub usable : Bool

pub record DeliveryRow : Type 0 where
  pub id : ℕ
  pub license_id : ℕ
  pub provider_user_id : ℕ
  pub integration_id : ℕ
  pub config_version : ℕ
  pub revision : ℕ
  pub key_version : ℕ
  pub snapshot : Snapshot
  pub status : DeliveryStatus
  pub attempt_count : ℕ
  pub next_attempt_at : ℕ
  pub lease_token : Option ℕ
  pub lease_expires_at : Option ℕ
  pub receipt_id : Option String
  pub accepted_at : Option ℕ
  pub last_error_code : Option String

pub record IntegrationRow : Type 0 where
  pub id : ℕ
  pub provider_user_id : ℕ
  pub status : IntegrationStatus
  pub config_version : ℕ
  pub verified_config_version : Option ℕ

pub record LicenseRow : Type 0 where
  pub id : ℕ
  pub provider_user_id : ℕ
  pub customer_user_id : ℕ
  pub provider_managed : Bool  -- fulfillment_mode = 'PROVIDER_HANDOFF'
  pub status : LicenseStatus
  pub trust : TrustStatus
  pub expires_at : ℕ
  pub provider_revision : ℕ
  pub activation_key_version : ℕ

pub record KeyMaterialRow : Type 0 where
  pub license_id : ℕ
  pub key_version : ℕ
  pub command_id : ℕ
  pub commitment : ℕ
  pub ciphertext : String
  pub retired_at : Option ℕ

-- The tables of one database.
pub record Store : Type 0 where
  pub deliveries : List DeliveryRow
  pub integrations : List IntegrationRow
  pub licenses : List LicenseRow
  pub keys : List KeyMaterialRow
  pub notices : List (ℕ × ℕ)  -- the user and the delivery of each acceptance notice

abbrev pub is_sending : DeliveryStatus → Bool
is_sending sending = true
is_sending _ = false

abbrev pub is_enabled : IntegrationStatus → Bool
is_enabled enabled = true
is_enabled disabled = false
