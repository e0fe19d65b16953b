-- ===== src/Chain/Relay.antt =====
-- backend/src/modules/blockchain/application/chain-command.service.ts: sending the commands. The
-- relayer is an argument; a call of it answers or throws. The service is the one without
-- `recovery`, which its constructor leaves optional.
pub mod Broadcasts
pub mod Reconcile
pub mod Reconciling
use emu_key.Prelude.{
  ℕ, Bool, true, false, not, ◌&&◌, ◌||◌, Option, none, some, List, ◌==◌, if◌then◌else◌, is_some,
  is_id,
}
use emu_key.Chain.Commands.{
  ChainCommandRecord, CommandType, issue_license, rotate_key, other_command, is_retryable,
  submitted_unknown, submitted, ReceiptStatus, receipt_reverted, receipt_pending, receipt_success,
  is_reverted,
}
use emu_key.Chain.Commands.Repository.{
  Outcome, raised, done, CommandError, claim_next, mark_pending, reserve_nonce, mark_prepared,
  PreparedChainTransaction,
}
use emu_key.Chain.Commands.Tracking.{
  ChainReceipt, mark_submitted, mark_unknown, mark_receipt, mark_reverted, mark_failure, release,
  claim_status, coalesce,
}

-- A broadcast returns, ends in ChainSubmissionUnknownError with or without a hash, or fails.
pub data Sent : Type 0 where
  accepted : Sent
  unknown : Option ℕ → Sent
  rejected : Sent

-- ChainRelayerPort. `submission_context` gives the relayer's address and its pending nonce; `none`
-- is an error.
pub record ChainRelayer : Type 0 where
  pub submission_context : Option (ℕ × ℕ)
  pub prepare : ℕ → Option PreparedChainTransaction  -- from the nonce
  pub broadcast : PreparedChainTransaction → Sent
  pub receipt : ℕ → Option (Option ChainReceipt)  -- from the transaction hash

-- An activation envelope, or a commitment of the licence: the licence, the commitment and the
-- version of the key.
pub record Commitment : Type 0 where
  pub license_id : ℕ
  pub commitment : ℕ
  pub key_version : ℕ

-- What the service reads of other parts for a command: `hasDurableCommandKey`, the envelope that is
-- stored for it, and the licence's own commitment.
pub record Activation : Type 0 where
  pub has_durable_key : Bool
  pub envelope : Option Commitment
  pub durable : Option Commitment

abbrev pub matches_envelope : ChainCommandRecord → Commitment → Option Commitment → Bool
matches_envelope command d none = false
matches_envelope command d (some e) =
    e.license_id == command.license_id
    && e.commitment == d.commitment
    && e.key_version == d.key_version

abbrev pub matches_durable : ChainCommandRecord → Activation → Option Commitment → Bool
matches_durable command a none = false
matches_durable command a (some d) =
    command.activation_commitment == d.commitment
    && command.key_version == d.key_version
    && (a.has_durable_key || matches_envelope command d a.envelope)

-- The precondition of an activation; `false` is ACTIVATION_ENVELOPE_PRECONDITION_FAILED, or the
-- error of one of the reads, which is `none`.
abbrev pub activation_precondition : CommandType → ChainCommandRecord → Option Activation → Bool
activation_precondition other_command command a = true
activation_precondition issue_license command none = false
activation_precondition issue_license command (some a) = matches_durable command a a.durable
activation_precondition rotate_key command none = false
activation_precondition rotate_key command (some a) = matches_durable command a a.durable

-- `requirePrepared` and `toPrepared`; `none` is CHAIN_TRANSACTION_NOT_PREPARED.
abbrev pub prepared_from :
    ℕ → Option ℕ → Option ℕ → Option ℕ → Option ℕ → Option PreparedChainTransaction
prepared_from network (some n) (some relayer) (some raw) (some hash) = some (record {
  network = network;
  nonce = n;
  raw_transaction = raw;
  relayer_address = relayer;
  transaction_hash = hash;
})
prepared_from network _ _ _ _ = none

abbrev pub require_prepared : ChainCommandRecord → Option PreparedChainTransaction
require_prepared c =
    prepared_from c.network c.nonce c.relayer_address c.signed_transaction c.transaction_hash

-- The table with what a part of the work has made of it; `failed` is an exception, which keeps the
-- transactions that have committed before.
pub data Work (A : Type 0) : Type 0 where
  failed : List ChainCommandRecord → Work A
  made : A → List ChainCommandRecord → Work A

abbrev pub attempt : {A : Type 0} → List ChainCommandRecord → Outcome A → Work A
attempt cs (raised e) = failed cs
attempt cs (done a new) = made a new

abbrev pub then_do : {A B : Type 0} → Work A → (A → List ChainCommandRecord → Work B) → Work B
then_do (failed cs) next_part = failed cs
then_do (made a cs) next_part = next_part a cs

abbrev pub or_fail : {A : Type 0} → List ChainCommandRecord → Option A → Work A
or_fail cs none = failed cs
or_fail cs (some a) = made a cs

-- The nonce of a command: the one that it has, or a new reservation.
abbrev pub reserved_nonce :
    (ℕ → Bool) → ℕ → ChainRelayer → ChainCommandRecord → List ChainCommandRecord → Work (ℕ × ℕ)
reserved_nonce basis now relayer c cs =
    if is_some c.nonce && is_some c.relayer_address
    then or_fail cs (elim c.nonce [
      | none ↦ none
      | some n ↦ elim c.relayer_address [ none ↦ none | some address ↦ some (n, address) ]
    ])
    else then_do (or_fail cs relayer.submission_context) (λ context. λ same.
      then_do (attempt same (reserve_nonce basis now c.command_id context.0 context.1 same))
        (λ n. λ new. made (n, context.0) new))

abbrev pub prepare_with :
    (ℕ → Bool)
    → ℕ
    → ChainRelayer
    → ChainCommandRecord
    → ℕ
    → ℕ
    → List ChainCommandRecord
    → Work PreparedChainTransaction
prepare_with basis now relayer c n address cs = then_do (or_fail cs (relayer.prepare n)) (λ t.
    λ same.
      if t.relayer_address == address
      then then_do (attempt same (mark_prepared basis now c.command_id t same))
          (λ stored. λ new. or_fail new (require_prepared stored))
      else failed same)

-- `prepareTransaction`
abbrev pub prepare_transaction :
    (ℕ → Bool)
    → ℕ
    → ChainRelayer
    → ChainCommandRecord
    → List ChainCommandRecord
    → Work PreparedChainTransaction
prepare_transaction basis now relayer c cs =
    if is_some c.signed_transaction || is_some c.transaction_hash
    then or_fail cs (require_prepared c)
    else then_do (reserved_nonce basis now relayer c cs)
        (λ slot. λ new. prepare_with basis now relayer c slot.0 slot.1 new)

-- The table at the time of a broadcast, and the transaction.
pub record Broadcast : Type 0 where
  pub transaction : PreparedChainTransaction
  pub at : List ChainCommandRecord

-- The result of `processNext`: the command's id, or `thrown` when the last statement fails too; the
-- table; and what was broadcast.
pub data Processed : Type 0 where
  nothing_due : List ChainCommandRecord → Processed
  processed : ℕ → List ChainCommandRecord → Option Broadcast → Processed
  thrown : List ChainCommandRecord → Option Broadcast → Processed

abbrev pub conclude : ℕ → List ChainCommandRecord → Option Broadcast → Outcome Unit → Processed
conclude id cs sent (raised e) = thrown cs sent
conclude id cs sent (done u new) = processed id new sent

-- The `catch` for an error that is not ChainSubmissionUnknownError.
abbrev pub give_up :
    (ℕ → Bool) → ℕ → ChainCommandRecord → List ChainCommandRecord → Option Broadcast → Processed
give_up basis now c cs sent =
    conclude c.command_id cs sent (mark_failure basis now c.command_id c.attempt_count cs)

abbrev pub after_submitted :
    (ℕ → Bool)
    → ℕ
    → ChainCommandRecord
    → List ChainCommandRecord
    → Option Broadcast
    → Outcome Unit
    → Processed
after_submitted basis now c cs sent (raised e) = give_up basis now c cs sent
after_submitted basis now c cs sent (done u new) = processed c.command_id new sent

abbrev pub after_broadcast :
    (ℕ → Bool)
    → ℕ
    → ChainCommandRecord
    → List ChainCommandRecord
    → Option Broadcast
    → Sent
    → Processed
after_broadcast basis now c cs sent accepted =
    after_submitted basis now c cs sent (mark_submitted basis now c.command_id cs)
after_broadcast basis now c cs sent (unknown hash) =
    conclude c.command_id cs sent
      (mark_unknown basis now c.command_id (coalesce hash c.transaction_hash) cs)
after_broadcast basis now c cs sent rejected = give_up basis now c cs sent

abbrev pub broadcast_prepared :
    (ℕ → Bool) → ℕ → ChainRelayer → ChainCommandRecord → Work PreparedChainTransaction → Processed
broadcast_prepared basis now relayer c (failed cs) = give_up basis now c cs none
broadcast_prepared basis now relayer c (made t cs) =
    after_broadcast basis now c cs (some (record { transaction = t; at = cs }))
      (relayer.broadcast t)

abbrev pub send_ready :
    (ℕ → Bool)
    → ℕ
    → ChainRelayer
    → Option Activation
    → ChainCommandRecord
    → List ChainCommandRecord
    → Processed
send_ready basis now relayer a c cs =
    if activation_precondition c.command_type c a
    then broadcast_prepared basis now relayer c (prepare_transaction basis now relayer c cs)
    else give_up basis now c cs none

abbrev pub send_pended :
    (ℕ → Bool)
    → ℕ
    → ChainRelayer
    → Option Activation
    → ChainCommandRecord
    → List ChainCommandRecord
    → Outcome ChainCommandRecord
    → Processed
send_pended basis now relayer a c cs (raised e) = give_up basis now c cs none
send_pended basis now relayer a c cs (done row new) = send_ready basis now relayer a c new

abbrev pub send_claimed :
    (ℕ → Bool)
    → ℕ
    → ℕ
    → ChainRelayer
    → (ℕ → Option Activation)
    → List ChainCommandRecord
    → Outcome (Option ChainCommandRecord)
    → Processed
send_claimed basis now worker relayer activation cs (raised e) = thrown cs none
send_claimed basis now worker relayer activation cs (done none new) = nothing_due new
send_claimed basis now worker relayer activation cs (done (some c) new) =
    if is_retryable c.status
    then send_pended basis now relayer (activation c.command_id) c new
        (mark_pending basis now c.command_id worker new)
    else send_ready basis now relayer (activation c.command_id) c new

unfoldable pub process_next :
    (ℕ → Bool)
    → ℕ
    → ℕ
    → ChainRelayer
    → (ℕ → Option Activation)
    → List ChainCommandRecord
    → Processed
process_next basis now worker relayer activation cs =
    send_claimed basis now worker relayer activation cs (claim_next basis now worker cs)
