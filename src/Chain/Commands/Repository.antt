-- ===== src/Chain/Commands/Repository.antt =====
-- backend/src/modules/blockchain/infrastructure/chain-command.repository.ts: the statements. Rows
-- stand in the order of their creation; `now` is the database's clock.
use emu_key.Prelude.{
  ℕ, ◌+◌, Bool, true, not, ◌&&◌, ◌||◌, Option, none, some, List, [], ◌∷◌, ltb, ◌==◌, if◌then◌else◌,
  is_some, is_id, is_past, max, select_first,
}
use emu_key.Chain.Commands.{
  pending, ChainCommandRecord, is_pending, is_retryable, Update, no_row, refused, updated,
  update_row,
}

pub data CommandError : Type 0 where
  chain_retry_claim_lost chain_command_not_found chain_command_not_dead_letter : CommandError
  dead_letter_submission_evidence_exists dead_letter_raw_evidence_required : CommandError
  dead_letter_reverted_is_final dead_letter_reverted_receipt_required : CommandError
  dead_letter_no_effect_evidence_invalid dead_letter_no_effect_evidence_required : CommandError
  dead_letter_no_effect_proof_required chain_command_recovery_conflict : CommandError
  invalid_relayer_nonce chain_relayer_changed chain_transaction_preparation_conflict : CommandError
  database_error : CommandError

-- A transaction: an error, which leaves the table as it was, or a result and the new table.
pub data Outcome (A : Type 0) : Type 0 where
  raised : CommandError → Outcome A
  done : A → List ChainCommandRecord → Outcome A

abbrev pub two_minutes : ℕ
two_minutes = 120000

-- `locked_at IS NULL OR locked_at < now() - interval '2 minutes'`
abbrev pub is_unlocked : ℕ → ChainCommandRecord → Bool
is_unlocked now c = elim c.locked_at [ none ↦ true | some since ↦ ltb (since + two_minutes) now ]

-- The condition of `claimNext`.
abbrev pub is_due : ℕ → ChainCommandRecord → Bool
is_due now c =
    (is_pending c.status || is_retryable c.status)
    && (not (is_some c.next_attempt_at) || is_past c.next_attempt_at now)
    && is_unlocked now c

abbrev pub lock : ℕ → ℕ → ChainCommandRecord → ChainCommandRecord
lock now worker c = record c { locked_by = some worker; locked_at = some now; updated_at = now }

abbrev pub unlock : ℕ → ChainCommandRecord → ChainCommandRecord
unlock now c = record c { locked_by = none; locked_at = none; updated_at = now }

-- The result of an UPDATE whose RETURNING row is the result, or nothing.
abbrev pub optional : List ChainCommandRecord → Update → Outcome (Option ChainCommandRecord)
optional cs no_row = done none cs
optional cs refused = raised database_error
optional cs (updated c new) = done (some c) new

-- The result of an UPDATE that has to find its row.
abbrev pub required : CommandError → Update → Outcome ChainCommandRecord
required error no_row = raised error
required error refused = raised database_error
required error (updated c new) = done c new

unfoldable pub claim_next :
    (ℕ → Bool) → ℕ → ℕ → List ChainCommandRecord → Outcome (Option ChainCommandRecord)
claim_next basis now worker cs = optional cs (
    update_row basis (is_due now)
      (λ c. record (lock now worker c) { attempt_count = c.attempt_count + 1 }) cs)

unfoldable pub mark_pending :
    (ℕ → Bool) → ℕ → ℕ → ℕ → List ChainCommandRecord → Outcome ChainCommandRecord
mark_pending basis now id worker cs = required chain_retry_claim_lost (
    update_row basis (λ c. c.command_id == id && is_retryable c.status && is_id c.locked_by worker)
      (λ c. record (lock now worker c) { status = pending; next_attempt_at = none }) cs)

-- `GREATEST($4, COALESCE(MAX(nonce) + 1, 0))` over the commands of the relayer on the chain.
abbrev nonce_after : ℕ → Option ℕ → ℕ
nonce_after floor none = floor
nonce_after floor (some n) = max floor (n + 1)

unfoldable pub next_nonce : ℕ → ℕ → ℕ → ℕ → List ChainCommandRecord → ℕ
next_nonce network chain_id relayer floor [] = floor
next_nonce network chain_id relayer floor (c ∷ cs) =
    if c.network == network && c.chain_id == chain_id && is_id c.relayer_address relayer
    then nonce_after (next_nonce network chain_id relayer floor cs) c.nonce
    else next_nonce network chain_id relayer floor cs

-- Number.MAX_SAFE_INTEGER
abbrev pub max_safe_integer : ℕ
max_safe_integer = 9007199254740991

abbrev pub returned_nonce : Update → Outcome ℕ
returned_nonce no_row = raised chain_command_not_found
returned_nonce refused = raised database_error
returned_nonce (updated c new) = elim c.nonce [ none ↦ raised database_error | some n ↦ done n new ]

abbrev pub set_nonce : ℕ → ℕ → ℕ → ChainCommandRecord → ChainCommandRecord
set_nonce now relayer n c = record c {
  relayer_address = some relayer;
  nonce = some n;
  updated_at = now;
}

unfoldable pub reserve_nonce : (ℕ → Bool) → ℕ → ℕ → ℕ → ℕ → List ChainCommandRecord → Outcome ℕ
reserve_nonce basis now id relayer suggested cs =
    if ltb max_safe_integer suggested
    then raised invalid_relayer_nonce
    else elim (select_first (λ c. c.command_id == id) cs) [
      | none ↦ raised chain_command_not_found
      | some c ↦
          if is_some c.relayer_address && not (is_id c.relayer_address relayer)
          then raised chain_relayer_changed
          else elim c.nonce [
            | some n ↦ done n cs
            | none ↦ returned_nonce (
                update_row basis (λ q. q.command_id == id)
                  (set_nonce now relayer (next_nonce c.network c.chain_id relayer suggested cs)) cs)
          ]
    ]

pub record PreparedChainTransaction : Type 0 where
  pub network : ℕ
  pub nonce : ℕ
  pub raw_transaction : ℕ
  pub relayer_address : ℕ
  pub transaction_hash : ℕ

abbrev pub set_prepared : ℕ → PreparedChainTransaction → ChainCommandRecord → ChainCommandRecord
set_prepared now t c = record c {
  signed_transaction = some t.raw_transaction;
  transaction_hash = some t.transaction_hash;
  updated_at = now;
}

-- The columns that `markPrepared` compares.
abbrev pub is_same : PreparedChainTransaction → ChainCommandRecord → Bool
is_same t c =
    is_id c.nonce t.nonce
    && is_id c.relayer_address t.relayer_address
    && is_id c.transaction_hash t.transaction_hash
    && is_id c.signed_transaction t.raw_transaction

-- The command that an earlier `markPrepared` has left, if it is the same transaction.
abbrev pub already_prepared :
    PreparedChainTransaction
    → List ChainCommandRecord
    → Option ChainCommandRecord
    → Outcome ChainCommandRecord
already_prepared t cs none = raised chain_command_not_found
already_prepared t cs (some c) =
    if is_same t c then done c cs else raised chain_transaction_preparation_conflict

-- The result of the UPDATE, or a second look at the row when it has changed nothing.
abbrev pub prepared :
    PreparedChainTransaction
    → List ChainCommandRecord
    → Update
    → Option ChainCommandRecord
    → Outcome ChainCommandRecord
prepared t cs (updated c new) existing = done c new
prepared t cs refused existing = raised database_error
prepared t cs no_row existing = already_prepared t cs existing

unfoldable pub mark_prepared :
    (ℕ → Bool)
    → ℕ
    → ℕ
    → PreparedChainTransaction
    → List ChainCommandRecord
    → Outcome ChainCommandRecord
mark_prepared basis now id t cs =
    prepared t cs
      (update_row basis
        (λ c.
          c.command_id == id
          && is_id c.nonce t.nonce
          && is_id c.relayer_address t.relayer_address
          && not (is_some c.signed_transaction))
        (set_prepared now t) cs)
      (select_first (λ c. c.command_id == id) cs)
