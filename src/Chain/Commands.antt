-- ===== src/Chain/Commands.antt =====
-- The rows of chain_commands, as backend/src/modules/blockchain/infrastructure/
-- chain-command.repository.ts reads and writes them, and the database's rules for an update of one:
-- the trigger guard_chain_command_immutable_fields and the CHECK constraints of
-- backend/database/schema.sql. An address stands for its lower-case form, which is the one that the
-- table admits. Times are in milliseconds.
pub mod Repository
pub mod Tracking
pub mod Recovery
pub mod Kept
pub mod Frames
pub mod History
pub mod Steps
pub mod Nonces
use emu_key.Prelude.{
  ℕ, Bool, true, false, not, ◌&&◌, ◌||◌, Option, none, some, List, [], ◌∷◌, ltb, ◌==◌,
  if◌then◌else◌, is_some, is_id,
}

pub data ChainCommandStatus : Type 0 where
  pending submitted submitted_unknown confirmed : ChainCommandStatus
  retryable_failed dead_letter abandoned superseded : ChainCommandStatus

pub data ReceiptStatus : Type 0 where
  receipt_pending receipt_reverted receipt_success : ReceiptStatus

pub data CommandType : Type 0 where
  issue_license rotate_key other_command : CommandType

pub data EvidenceType : Type 0 where
  evidence_reverted evidence_no_effect : EvidenceType

-- ChainCommandRecord with the columns that only the statements use. Of the payload, the members
-- that the relay compares.
pub record ChainCommandRecord : Type 0 where
  pub command_id : ℕ
  pub command_type : CommandType
  pub license_id : ℕ
  pub network : ℕ
  pub chain_id : ℕ
  pub activation_commitment : ℕ  -- payload.activationCommitment
  pub key_version : ℕ  -- payload.keyVersion
  pub status : ChainCommandStatus
  pub relayer_address : Option ℕ
  pub nonce : Option ℕ
  pub signed_transaction : Option ℕ
  pub transaction_hash : Option ℕ
  pub receipt_status : Option ReceiptStatus
  pub receipt_block : Option ℕ  -- the number and the hash of the block
  pub receipt_checked_at : Option ℕ
  pub attempt_count : ℕ
  pub next_attempt_at : Option ℕ
  pub locked_by : Option ℕ
  pub locked_at : Option ℕ
  pub submitted_at : Option ℕ
  pub resolution : Option EvidenceType
  pub updated_at : ℕ

abbrev pub is_resolved : ChainCommandStatus → Bool
is_resolved abandoned = true
is_resolved superseded = true
is_resolved _ = false

abbrev pub is_dead : ChainCommandStatus → Bool
is_dead dead_letter = true
is_dead _ = false

abbrev pub is_pending : ChainCommandStatus → Bool
is_pending pending = true
is_pending _ = false

abbrev pub is_retryable : ChainCommandStatus → Bool
is_retryable retryable_failed = true
is_retryable _ = false

-- `receipt_status = 'REVERTED'`
abbrev pub is_reverted : Option ReceiptStatus → Bool
is_reverted (some receipt_reverted) = true
is_reverted _ = false

-- `receipt_status = 'SUCCESS'`
abbrev pub is_success : Option ReceiptStatus → Bool
is_success (some receipt_success) = true
is_success _ = false

-- The trigger's table of the changes of status; a status may stay.
abbrev pub may_become : ChainCommandStatus → ChainCommandStatus → Bool
may_become pending submitted = true
may_become pending retryable_failed = true
may_become pending dead_letter = true
may_become pending abandoned = true
may_become retryable_failed pending = true
may_become retryable_failed dead_letter = true
may_become submitted confirmed = true
may_become submitted submitted_unknown = true
may_become submitted dead_letter = true
may_become submitted_unknown submitted = true
may_become submitted_unknown confirmed = true
may_become submitted_unknown dead_letter = true
may_become submitted_unknown abandoned = true
may_become submitted_unknown superseded = true
may_become dead_letter pending = true
may_become dead_letter submitted_unknown = true
may_become dead_letter abandoned = true
may_become dead_letter superseded = true
may_become confirmed submitted_unknown = true
may_become pending pending = true
may_become submitted submitted = true
may_become submitted_unknown submitted_unknown = true
may_become confirmed confirmed = true
may_become retryable_failed retryable_failed = true
may_become dead_letter dead_letter = true
may_become _ _ = false

-- A column that is written once: `OLD.x IS NOT NULL AND NEW.x IS DISTINCT FROM OLD.x` raises.
abbrev pub keeps : Option ℕ → Option ℕ → Bool
keeps none new = true
keeps (some x) new = is_id new x

abbrev pub same_receipt_status : Option ReceiptStatus → Option ReceiptStatus → Bool
same_receipt_status (some receipt_reverted) new = is_reverted new
same_receipt_status (some receipt_success) new = is_success new
same_receipt_status _ new = true

-- `OLD.receipt_status IN ('SUCCESS', 'REVERTED')`
abbrev pub is_definitive : Option ReceiptStatus → Bool
is_definitive (some receipt_reverted) = true
is_definitive (some receipt_success) = true
is_definitive _ = false

-- `NEW.x IS NOT DISTINCT FROM OLD.x`
abbrev pub same_value : Option ℕ → Option ℕ → Bool
same_value none new = not (is_some new)
same_value (some x) new = is_id new x

-- A definitive receipt, its block and the time of its check are written once.
abbrev pub same_receipt : ChainCommandRecord → ChainCommandRecord → Bool
same_receipt old new =
    same_receipt_status old.receipt_status new.receipt_status
    && (not (is_definitive old.receipt_status)
        || same_value old.receipt_block new.receipt_block
          && same_value old.receipt_checked_at new.receipt_checked_at)

-- ck_chain_commands_receipt_evidence, on whether the hash, the time of the check and the block are
-- there.
abbrev pub has_receipt_evidence : Option ReceiptStatus → Bool → Bool → Bool → Bool
has_receipt_evidence none has_hash is_checked has_block = not has_block
has_receipt_evidence (some receipt_pending) has_hash is_checked has_block =
    is_checked && has_hash && not has_block
has_receipt_evidence (some receipt_success) has_hash is_checked has_block =
    is_checked && has_hash && has_block
has_receipt_evidence (some receipt_reverted) has_hash is_checked has_block =
    is_checked && has_hash && has_block

-- The statuses that need the evidence of a submission.
abbrev pub is_submission : ChainCommandStatus → Bool
is_submission submitted = true
is_submission submitted_unknown = true
is_submission confirmed = true
is_submission _ = false

-- The CHECK constraints ck_chain_commands_transaction_evidence, _receipt_evidence and
-- _status_evidence, as far as they speak of these columns.
abbrev pub satisfies_checks : ChainCommandRecord → Bool
satisfies_checks c =
    (is_some c.relayer_address && is_some c.nonce
      || not (is_some c.relayer_address) && not (is_some c.nonce))
    && (is_some c.signed_transaction && is_some c.transaction_hash && is_some c.nonce
        || not (is_some c.signed_transaction) && not (is_some c.transaction_hash))
    && (not (is_submission c.status) || is_some c.signed_transaction && is_some c.submitted_at)
    && has_receipt_evidence c.receipt_status (is_some c.transaction_hash)
        (is_some c.receipt_checked_at) (is_some c.receipt_block)
    && (not (is_reverted c.receipt_status) || is_dead c.status || is_resolved c.status)

abbrev pub is_reopening : ChainCommandStatus → ChainCommandStatus → Bool
is_reopening pending pending = false
is_reopening submitted submitted = false
is_reopening _ pending = true
is_reopening _ submitted = true
is_reopening _ _ = false

abbrev pub is_issue : CommandType → Bool
is_issue issue_license = true
is_issue _ = false

-- Whether the database lets a row become another. `basis id` tells whether the command's basis is
-- the latest confirmed event of its licence.
unfoldable pub permitted : (ℕ → Bool) → ChainCommandRecord → ChainCommandRecord → Bool
permitted basis old new =
    not (is_resolved old.status)
    && may_become old.status new.status
    && keeps old.relayer_address new.relayer_address
    && keeps old.nonce new.nonce
    && keeps old.signed_transaction new.signed_transaction
    && keeps old.transaction_hash new.transaction_hash
    && same_receipt old new
    && (is_issue new.command_type
        || not (is_reopening old.status new.status)
        || basis new.command_id)
    && (not (is_dead old.status && is_pending new.status) || not (is_some old.signed_transaction))
    && satisfies_checks new

-- What an UPDATE of the one row that satisfies a condition does: nothing, an error of the database,
-- or the row as it is afterwards (RETURNING *) and the table.
pub data Update : Type 0 where
  no_row refused : Update
  updated : ChainCommandRecord → List ChainCommandRecord → Update

abbrev pub behind : ChainCommandRecord → Update → Update
behind c no_row = no_row
behind c refused = refused
behind c (updated new cs) = updated new (c ∷ cs)

unfoldable pub update_row :
    (ℕ → Bool)
    → (ChainCommandRecord → Bool)
    → (ChainCommandRecord → ChainCommandRecord)
    → List ChainCommandRecord
    → Update
update_row basis p f [] = no_row
update_row basis p f (c ∷ cs) =
    if p c
    then if permitted basis c (f c) then updated (f c) (f c ∷ cs) else refused
    else behind c (update_row basis p f cs)
