-- ===== src/Chain/Commands/Recovery.antt =====
-- backend/src/modules/blockchain/infrastructure/chain-command.repository.ts: `recoverDeadLetter`,
-- an operator's decision on a command that has failed for good.
pub mod Reconciliation
use emu_key.Prelude.{
  ℕ, Bool, true, false, not, ◌&&◌, ◌||◌, Option, none, some, List, ltb, ◌==◌, if◌then◌else◌,
  is_some, select_first,
}
use emu_key.Chain.Commands.{
  pending, submitted_unknown, abandoned, ChainCommandRecord, is_dead, is_reverted,
  evidence_reverted, evidence_no_effect, update_row,
}
use emu_key.Chain.Commands.Repository.{
  CommandError, Outcome, raised, unlock, required, chain_command_not_found,
  chain_command_not_dead_letter, dead_letter_submission_evidence_exists,
  dead_letter_raw_evidence_required, dead_letter_reverted_is_final,
  dead_letter_reverted_receipt_required, dead_letter_no_effect_evidence_invalid,
  dead_letter_no_effect_evidence_required, dead_letter_no_effect_proof_required,
  chain_command_recovery_conflict, database_error,
}

pub data RecoveryMode : Type 0 where
  requeue_no_submission reconcile_same_raw abandon_reverted abandon_no_effect : RecoveryMode

-- The members of `evidence` that the code looks at; `none` is `undefined`.
pub record Evidence : Type 0 where
  pub rpc_source : Option ℕ
  pub finalized_block_number : Option ℕ
  pub finalized_block_hash : Option ℕ
  pub observed_nonce : Option ℕ
  pub consuming_transaction_hash : Option ℕ
  pub contract_state_no_effect : Bool

abbrev pub has_raw : ChainCommandRecord → Bool
has_raw c = is_some c.signed_transaction || is_some c.transaction_hash

abbrev pub is_complete : Evidence → Bool
is_complete e =
    is_some e.rpc_source
    && is_some e.finalized_block_number
    && is_some e.finalized_block_hash
    && is_some e.observed_nonce
    && is_some e.consuming_transaction_hash

-- The error of a mode's own checks, in their order.
abbrev pub recovery_error : RecoveryMode → Evidence → ChainCommandRecord → Option CommandError
recovery_error requeue_no_submission e c =
    if has_raw c then some dead_letter_submission_evidence_exists else none
recovery_error reconcile_same_raw e c =
    if not (is_some c.signed_transaction && is_some c.transaction_hash)
    then some dead_letter_raw_evidence_required
    else if is_reverted c.receipt_status
    then some dead_letter_reverted_is_final
    else none
recovery_error abandon_reverted e c =
    if is_reverted c.receipt_status then none else some dead_letter_reverted_receipt_required
recovery_error abandon_no_effect e c =
    if not (has_raw c) || is_some c.receipt_status
    then some dead_letter_no_effect_evidence_invalid
    else if not (is_complete e)
    then some dead_letter_no_effect_evidence_required
    else if e.contract_state_no_effect
    then none
    else some dead_letter_no_effect_proof_required

abbrev pub resolve : ℕ → RecoveryMode → ChainCommandRecord → ChainCommandRecord
resolve now requeue_no_submission c = record (unlock now c) {
  status = pending;
  next_attempt_at = none;
}
resolve now reconcile_same_raw c = record (unlock now c) { status = submitted_unknown }
resolve now abandon_reverted c = record (unlock now c) {
  status = abandoned;
  resolution = some evidence_reverted;
}
resolve now abandon_no_effect c = record (unlock now c) {
  status = abandoned;
  resolution = some evidence_no_effect;
}

-- The CHECK constraint ck_chain_commands_resolution_evidence on the evidence that is stored for
-- `abandon_no_effect`: another transaction has consumed a later nonce.
abbrev pub is_past_nonce : Option ℕ → Option ℕ → Bool
is_past_nonce (some observed) (some n) = ltb n observed
is_past_nonce _ _ = false

abbrev pub is_other : Option ℕ → Option ℕ → Bool
is_other (some consuming) (some hash) = not (consuming == hash)
is_other _ _ = false

abbrev pub admits_evidence : RecoveryMode → Evidence → ChainCommandRecord → Bool
admits_evidence abandon_no_effect e c =
    is_past_nonce e.observed_nonce c.nonce
    && is_other e.consuming_transaction_hash c.transaction_hash
admits_evidence _ e c = true

unfoldable pub recover_dead_letter :
    (ℕ → Bool)
    → ℕ
    → ℕ
    → RecoveryMode
    → Evidence
    → List ChainCommandRecord
    → Outcome ChainCommandRecord
recover_dead_letter basis now id mode e cs = elim (select_first (λ c. c.command_id == id) cs) [
  | none ↦ raised chain_command_not_found
  | some c ↦
      if is_dead c.status
      then elim (recovery_error mode e c) [
        | some error ↦ raised error
        | none ↦
            if admits_evidence mode e c
            then required chain_command_recovery_conflict (
                update_row basis (λ q. q.command_id == id && is_dead q.status) (resolve now mode)
                  cs)
            else raised database_error
      ]
      else raised chain_command_not_dead_letter
]
