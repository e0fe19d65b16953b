-- ===== src/Examples/Commands.antt =====
-- backend/src/modules/blockchain: concrete commands, statements and runs of the relay.
use emu_key.Prelude.{
  ℕ, ◌≤◌, ◌≡◌, refl, Bool, true, false, Option, none, some, List, [], ◌∷◌, arith, Follows,
  count_where, select_first, ◌==◌,
}
use emu_key.Chain.Commands.{
  submitted_unknown, ChainCommandRecord, issue_license, pending, dead_letter,
}
use emu_key.Chain.Commands.Repository.{
  raised, database_error, dead_letter_submission_evidence_exists, PreparedChainTransaction,
  reserve_nonce,
}
use emu_key.Chain.Commands.Recovery.{
  Evidence, requeue_no_submission, reconcile_same_raw, recover_dead_letter,
}
use emu_key.Chain.Commands.Recovery.Reconciliation.{recover_dead_letter_unsubmitted}
use emu_key.Chain.Commands.Kept.{Kept}
use emu_key.Chain.Commands.Steps.{Run, nothing_yet, reserved, table_after, Run-Kept}
use emu_key.Chain.Commands.Nonces.{in_slot, UniqueNonces, Run-UniqueNonces}
use emu_key.Chain.Relay.{ChainRelayer, Activation, accepted, process_next}
use emu_key.Chain.Relay.Reconcile.{reconcile_unknown}
use emu_key.Chain.Relay.Reconciling.{reconcile_unknown-SentIsStored}
use emu_key.Chain.Relay.Broadcasts.{SentIsStored, process_next-SentIsStored}

abbrev any_basis : ℕ → Bool
any_basis id = true

abbrev new_command : ChainCommandRecord
new_command = record {
  command_id = 1;
  command_type = issue_license;
  license_id = 9;
  network = 1;
  chain_id = 5;
  activation_commitment = 44;
  key_version = 1;
  status = pending;
  relayer_address = none;
  nonce = none;
  signed_transaction = none;
  transaction_hash = none;
  receipt_status = none;
  receipt_block = none;
  receipt_checked_at = none;
  attempt_count = 0;
  next_attempt_at = none;
  locked_by = none;
  locked_at = none;
  submitted_at = none;
  resolution = none;
  updated_at = 0;
}

abbrev held_command : ChainCommandRecord
held_command = record new_command { command_id = 2; relayer_address = some 7; nonce = some 3 }

abbrev commands : List ChainCommandRecord
commands = new_command ∷ held_command ∷ []

-- A reservation for the command without a nonce.
reservation : Run commands (table_after commands (reserve_nonce any_basis 10 1 7 0 commands))
reservation = reserved nothing_yet any_basis 10 1 7 0

Run-Kept_example :
    Follows Kept commands (table_after commands (reserve_nonce any_basis 10 1 7 0 commands))
Run-Kept_example =
    Run-Kept commands (table_after commands (reserve_nonce any_basis 10 1 7 0 commands)) reservation

commands-UniqueNonces : UniqueNonces commands
unfolding count_where
commands-UniqueNonces network chain_id relayer n = ground arith

-- The command that gets a nonce gets the one after 3.
Run-UniqueNonces_example :
    count_where (in_slot 1 5 7 4) (table_after commands (reserve_nonce any_basis 10 1 7 0 commands))
    ≤ 1
Run-UniqueNonces_example =
    Run-UniqueNonces commands (table_after commands (reserve_nonce any_basis 10 1 7 0 commands))
      commands-UniqueNonces reservation 1 5 7 4

abbrev prepared_as : ℕ → PreparedChainTransaction
prepared_as n = record {
  network = 1;
  nonce = n;
  raw_transaction = 1000;
  relayer_address = 7;
  transaction_hash = 2000;
}

abbrev relayer : ChainRelayer
relayer = record {
  submission_context = some (7, 0);
  prepare = λ n. some (prepared_as n);
  broadcast = λ t. accepted;
  receipt = λ hash. none;
}

abbrev activation : ℕ → Option Activation
activation id = some (record {
  has_durable_key = true;
  envelope = none;
  durable = some (record { license_id = 9; commitment = 44; key_version = 1 });
})

process_next-SentIsStored_example :
    SentIsStored (process_next any_basis 10 3 relayer activation commands)
process_next-SentIsStored_example =
    process_next-SentIsStored any_basis 10 3 relayer activation commands

-- A command that was signed, and failed for good before it was marked as submitted.
abbrev stuck : ChainCommandRecord
stuck = record held_command {
  status = dead_letter;
  signed_transaction = some 1000;
  transaction_hash = some 2000;
  attempt_count = 5;
}

abbrev no_evidence : Evidence
no_evidence = record {
  rpc_source = none;
  finalized_block_number = none;
  finalized_block_hash = none;
  observed_nonce = none;
  consuming_transaction_hash = none;
  contract_state_no_effect = false;
}

stuck_found : select_first (λ q. q.command_id == 2) (stuck ∷ []) ≡ some stuck
unfolding select_first
stuck_found = refl

recover_dead_letter_unsubmitted_example :
    (recover_dead_letter any_basis 20 2 requeue_no_submission no_evidence (stuck ∷ [])
      ≡ raised dead_letter_submission_evidence_exists)
    × (recover_dead_letter any_basis 20 2 reconcile_same_raw no_evidence (stuck ∷ [])
        ≡ raised database_error)
recover_dead_letter_unsubmitted_example =
    recover_dead_letter_unsubmitted any_basis 20 2 no_evidence stuck (stuck ∷ []) stuck_found refl
      refl refl refl refl

-- A command whose submission has an unknown outcome, and which the node does not know: it is sent
-- again.
abbrev doubtful : ChainCommandRecord
doubtful = record held_command {
  status = submitted_unknown;
  signed_transaction = some 1000;
  transaction_hash = some 2000;
  submitted_at = some 5;
}

abbrev forgetful : ChainRelayer
forgetful = record relayer { receipt = λ hash. some none }

reconcile_unknown-SentIsStored_example :
    SentIsStored (reconcile_unknown any_basis 30 3 forgetful (doubtful ∷ []))
reconcile_unknown-SentIsStored_example =
    reconcile_unknown-SentIsStored any_basis 30 3 forgetful (doubtful ∷ [])
