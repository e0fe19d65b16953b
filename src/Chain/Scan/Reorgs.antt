-- ===== src/Chain/Scan/Reorgs.antt =====
-- backend/src/modules/blockchain/application/rpc-chain-indexer.service.ts: what the indexer does with
-- the logs of a range. Stored events that the chain no longer has are marked as reorged, and each
-- log is ingested for the command that it names.
pub mod Canonical
use emu_key.Prelude.{
  ℕ, Bool, true, false, not, ◌&&◌, Option, none, some, List, [], ◌∷◌, ◌==◌, if◌then◌else◌, is_id,
  select_all,
}
use emu_key.Chain.Scan.{
  EventName, license_issued, license_issued_for_provider, license_renewed, activation_key_rotated,
  active_device_count_synced, license_status_changed, other_event, RpcContractEvent,
}

pub data ChainEventType : Type 0 where
  event_issued event_renewed event_key_rotated event_count_synced : ChainEventType
  event_resumed event_suspended event_revoked : ChainEventType

-- `eventType` of a LicenseStatusChanged log; `none` is CHAIN_EVENT_LICENSE_STATUS_UNSUPPORTED
abbrev pub status_type : ℕ → Option ChainEventType
status_type status =
    if status == 1
    then some event_resumed
    else if status == 2
    then some event_suspended
    else if status == 3
    then some event_revoked
    else none

-- `eventType`; `none` is an error
unfoldable pub event_type : EventName → ℕ → Option ChainEventType
event_type license_issued status = some event_issued
event_type license_issued_for_provider status = some event_issued
event_type license_renewed status = some event_renewed
event_type activation_key_rotated status = some event_key_rotated
event_type active_device_count_synced status = some event_count_synced
event_type license_status_changed status = status_type status
event_type other_event status = none

-- IndexedEventIdentity
pub record IndexedEvent : Type 0 where
  pub id : ℕ
  pub block_hash : ℕ
  pub transaction_hash : ℕ
  pub log_index : ℕ

-- `identity(a) === identity(b)`
abbrev pub same_identity : IndexedEvent → RpcContractEvent → Bool
same_identity stored log =
    log.transaction_hash == stored.transaction_hash && log.log_index == stored.log_index

-- `canonical.get(identity(stored))`: of the logs with one identity, the map keeps the last.
abbrev pub or_else : Option ℕ → Option ℕ → Option ℕ
or_else none y = y
or_else (some x) y = some x

unfoldable pub canonical_hash : IndexedEvent → List RpcContractEvent → Option ℕ
canonical_hash stored [] = none
canonical_hash stored (log ∷ logs) =
    or_else (canonical_hash stored logs)
      (if same_identity stored log then some log.block_hash else none)

abbrev pub is_reorged : List RpcContractEvent → IndexedEvent → Bool
is_reorged logs stored = not (is_id (canonical_hash stored logs) stored.block_hash)

-- The stored events that `indexRange` passes to `markReorged`.
unfoldable pub reorged_events : List RpcContractEvent → List IndexedEvent → List IndexedEvent
reorged_events logs existing = select_all (is_reorged logs) existing

-- What `ingest` does with a log: nothing, when the database has no such command; an error; or the
-- event that it hands to the event repository.
pub data Ingestion : Type 0 where
  ignored refused : Ingestion
  ingested : ChainEventType → Ingestion

abbrev pub of_type : Option ChainEventType → Ingestion
of_type none = refused
of_type (some t) = ingested t

-- `ingest`; the context is the licence of the command that the log names, if there is one.
unfoldable pub ingest : Option ℕ → RpcContractEvent → Ingestion
ingest none log = ignored
ingest (some license_id) log =
    if license_id == log.license_id then of_type (event_type log.event_name log.status) else refused
