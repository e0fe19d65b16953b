-- ===== src/Handoff/Policy.antt =====
-- backend/src/modules/licensing/domain/provider-delivery-policy.ts
use Prim.Native.String.{String}
use text.Mathlib.Text.{◌==◌ as str_eq}
use emu_key.Prelude.{
  ℕ, zero, suc, Bool, true, false, ◌&&◌, Option, none, some, ltb, leb, ◌==◌, is_id,
}

pub data LicenseStatus : Type 0 where
  pending_onchain active suspended expired revoked : LicenseStatus

pub data TrustStatus : Type 0 where
  trusted untrusted : TrustStatus

abbrev pub is_active : LicenseStatus → Bool
is_active active = true
is_active _ = false

abbrev pub is_trusted : TrustStatus → Bool
is_trusted trusted = true
is_trusted untrusted = false

pub record LicenseBasis : Type 0 where
  pub status : LicenseStatus
  pub trust : TrustStatus
  pub expires_at : ℕ
  pub revision : ℕ
  pub accepted_revision : Option ℕ

unfoldable pub can_receive_provider_key : LicenseBasis → ℕ → Bool
can_receive_provider_key license now =
    is_active license.status
    && is_trusted license.trust
    && ltb now license.expires_at
    && ltb 0 license.revision
    && is_id license.accepted_revision license.revision

-- A parsed JSON value, as far as a receipt's fields tell values apart: `other` is an array, an
-- object, a Boolean or a number that is no natural number.
pub data Scalar : Type 0 where
  absent null other : Scalar
  num : ℕ → Scalar
  str : String → Scalar

pub record ReceiptFields : Type 0 where
  pub delivery_id : Scalar
  pub license_id : Scalar
  pub revision : Scalar
  pub receipt_id : Scalar
  pub result : Scalar

-- The value that a provider answered: an object, of which the code reads five fields, or not.
pub data Answer : Type 0 where
  object : ReceiptFields → Answer
  not_object : Answer

-- `===` against a text and against a number
abbrev pub is_str : Scalar → String → Bool
is_str (str s) t = str_eq s t
is_str _ t = false

abbrev pub is_num : Scalar → ℕ → Bool
is_num (num n) m = n == m
is_num _ m = false

-- `typeof v === 'string' && v.length > 0 && v.length <= 200`; the length is a parameter, since it
-- counts UTF-16 units
abbrev pub is_receipt_id : (String → ℕ) → Scalar → Bool
is_receipt_id length (str s) = ltb 0 (length s) && leb (length s) 200
is_receipt_id length _ = false

pub record ExpectedReceipt : Type 0 where
  pub delivery_id : String
  pub license_id : String
  pub revision : ℕ

unfoldable pub valid_provider_receipt : (String → ℕ) → Answer → ExpectedReceipt → Bool
valid_provider_receipt length not_object expected = false
valid_provider_receipt length (object receipt) expected =
    is_str receipt.result "ACCEPTED"
    && is_str receipt.delivery_id expected.delivery_id
    && is_str receipt.license_id expected.license_id
    && is_num receipt.revision expected.revision
    && is_receipt_id length receipt.receipt_id

-- `[5_000, …][attempt - 1]`
unfoldable base_delay : ℕ → Option ℕ
base_delay zero = none
base_delay (suc zero) = some 5000
base_delay (suc (suc zero)) = some 30000
base_delay (suc (suc (suc zero))) = some 120000
base_delay (suc (suc (suc (suc zero)))) = some 600000
base_delay (suc (suc (suc (suc (suc zero))))) = some 1800000
base_delay (suc (suc (suc (suc (suc (suc zero)))))) = some 7200000
base_delay (suc (suc (suc (suc (suc (suc (suc zero))))))) = some 21600000
base_delay (suc (suc (suc (suc (suc (suc (suc (suc _)))))))) = none

-- `Math.round(delay * (0.8 + Math.max(0, Math.min(1, jitter)) * 0.4))` of a drawn jitter, which
-- JavaScript's floating-point numbers compute, is the argument `jittered`.
unfoldable pub delivery_retry_delay : ℕ → (ℕ → ℕ) → Option ℕ
unfolding base_delay
delivery_retry_delay attempt jittered = elim (base_delay attempt) [
  | none ↦ none
  | some delay ↦ some (jittered delay)
]
