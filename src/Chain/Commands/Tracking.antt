-- ===== src/Chain/Commands/Tracking.antt =====
-- backend/src/modules/blockchain/infrastructure/chain-command.repository.ts: what becomes of a
-- command after it is prepared, and the claims of the reconciliation.
use emu_key.Prelude.{
  ℕ, ◌+◌, ◌*◌, ◌^◌, Bool, true, false, not, ◌&&◌, ◌||◌, Option, none, some, List, [], ◌∷◌, ltb, leb,
  ◌==◌, if◌then◌else◌, is_some, is_id, min,
}
use emu_key.Chain.Commands.{
  ChainCommandStatus, pending, submitted, submitted_unknown, confirmed, retryable_failed,
  dead_letter, abandoned, superseded, ReceiptStatus, receipt_reverted, ChainCommandRecord,
  is_pending, is_success, Update, no_row, refused, updated, update_row,
}
use emu_key.Chain.Commands.Repository.{
  Outcome, raised, done, database_error, is_unlocked, lock, unlock, optional,
}

-- ChainReceipt
pub record ChainReceipt : Type 0 where
  pub status : ReceiptStatus
  pub block : Option ℕ  -- the number and the hash of the block
  pub transaction_hash : ℕ

-- An UPDATE whose RETURNING row nothing reads.
abbrev pub ignored : List ChainCommandRecord → Update → Outcome Unit
ignored cs no_row = done tt cs
ignored cs refused = raised database_error
ignored cs (updated c new) = done tt new

-- `COALESCE(x, y)`
abbrev pub coalesce : Option ℕ → Option ℕ → Option ℕ
coalesce none y = y
coalesce (some x) y = some x

unfoldable pub mark_submitted : (ℕ → Bool) → ℕ → ℕ → List ChainCommandRecord → Outcome Unit
mark_submitted basis now id cs = ignored cs (
    update_row basis
      (λ c. c.command_id == id && is_some c.transaction_hash && is_some c.signed_transaction)
      (λ c. record (unlock now c) {
        status = submitted;
        submitted_at = coalesce c.submitted_at (some now);
      })
      cs)

-- The second statement of `markUnknown`, on what the first one has left.
abbrev set_unknown : ℕ → Option ℕ → ChainCommandRecord → ChainCommandRecord
set_unknown now hash c = record (unlock now c) {
  status = submitted_unknown;
  transaction_hash = coalesce hash c.transaction_hash;
}

abbrev pub then_unknown : (ℕ → Bool) → ℕ → ℕ → Option ℕ → Outcome Unit → Outcome Unit
then_unknown basis now id hash (raised e) = raised e
then_unknown basis now id hash (done u cs) =
    ignored cs (update_row basis (λ c. c.command_id == id) (set_unknown now hash) cs)

unfoldable pub mark_unknown : (ℕ → Bool) → ℕ → ℕ → Option ℕ → List ChainCommandRecord → Outcome Unit
mark_unknown basis now id hash cs = then_unknown basis now id hash (
    ignored cs (
      update_row basis
        (λ c.
          c.command_id == id
          && is_pending c.status
          && is_some c.transaction_hash
          && is_some c.signed_transaction)
        (λ c. record c {
          status = submitted;
          submitted_at = coalesce c.submitted_at (some now);
          updated_at = now;
        })
        cs))

unfoldable pub mark_receipt :
    (ℕ → Bool) → ℕ → ℕ → ChainReceipt → List ChainCommandRecord → Outcome Unit
mark_receipt basis now id receipt cs = ignored cs (
    update_row basis (λ c. c.command_id == id && is_id c.transaction_hash receipt.transaction_hash)
      (λ c. record (unlock now c) {
        receipt_status = some receipt.status;
        receipt_block = coalesce receipt.block c.receipt_block;
        receipt_checked_at = some now;
      })
      cs)

unfoldable pub mark_reverted :
    (ℕ → Bool) → ℕ → ℕ → ChainReceipt → List ChainCommandRecord → Outcome Unit
mark_reverted basis now id receipt cs = ignored cs (
    update_row basis (λ c. c.command_id == id && is_id c.transaction_hash receipt.transaction_hash)
      (λ c. record (unlock now c) {
        status = dead_letter;
        receipt_status = some receipt_reverted;
        receipt_block = receipt.block;
        receipt_checked_at = some now;
      })
      cs)

-- `attemptCount >= 5`
abbrev pub is_terminal : ℕ → Bool
is_terminal attempt_count = leb 5 attempt_count

-- `LEAST(300, power(2, attempt_count))` seconds
abbrev pub back_off : ℕ → ℕ
back_off attempt_count = 1000 * min 300 (2 ^ attempt_count)

abbrev pub set_failure : ℕ → ℕ → ChainCommandRecord → ChainCommandRecord
set_failure now attempt_count c = record (unlock now c) {
  status = if is_terminal attempt_count then dead_letter else retryable_failed;
  next_attempt_at = if is_terminal attempt_count then none else some (now + back_off attempt_count);
}

unfoldable pub mark_failure : (ℕ → Bool) → ℕ → ℕ → ℕ → List ChainCommandRecord → Outcome Unit
mark_failure basis now id attempt_count cs =
    ignored cs (update_row basis (λ c. c.command_id == id) (set_failure now attempt_count) cs)

-- `releaseUnknown`
unfoldable pub release : (ℕ → Bool) → ℕ → ℕ → List ChainCommandRecord → Outcome Unit
release basis now id cs = ignored cs (update_row basis (λ c. c.command_id == id) (unlock now) cs)

unfoldable pub release_submitted : (ℕ → Bool) → ℕ → ℕ → List ChainCommandRecord → Outcome Unit
release_submitted basis now id cs = ignored cs (
    update_row basis (λ c. c.command_id == id)
      (λ c. record (unlock now c) { receipt_checked_at = some now }) cs)

abbrev pub same_status : ChainCommandStatus → ChainCommandStatus → Bool
same_status pending pending = true
same_status submitted submitted = true
same_status submitted_unknown submitted_unknown = true
same_status confirmed confirmed = true
same_status retryable_failed retryable_failed = true
same_status dead_letter dead_letter = true
same_status abandoned abandoned = true
same_status superseded superseded = true
same_status _ _ = false

-- `ORDER BY updated_at LIMIT 1`: the row that was updated first.
abbrev earlier : ChainCommandRecord → Option ChainCommandRecord → ChainCommandRecord
earlier c none = c
earlier c (some d) = if ltb d.updated_at c.updated_at then d else c

unfoldable pub least_recent :
    (ChainCommandRecord → Bool) → List ChainCommandRecord → Option ChainCommandRecord
least_recent p [] = none
least_recent p (c ∷ cs) = if p c then some (earlier c (least_recent p cs)) else least_recent p cs

abbrev pub is_claimable : ℕ → ChainCommandStatus → Bool → ChainCommandRecord → Bool
is_claimable now status exclude_successful_receipt c =
    same_status c.status status
    && (not exclude_successful_receipt || not (is_success c.receipt_status))
    && is_unlocked now c

-- `claimStatus`; `claimUnknown` and `claimSubmitted` call it.
unfoldable pub claim_status :
    (ℕ → Bool)
    → ℕ
    → ℕ
    → ChainCommandStatus
    → Bool
    → List ChainCommandRecord
    → Outcome (Option ChainCommandRecord)
claim_status basis now worker status exclude cs =
    elim (least_recent (is_claimable now status exclude) cs) [
      | none ↦ done none cs
      | some chosen ↦
          optional cs
            (update_row basis (λ c. c.command_id == chosen.command_id) (lock now worker) cs)
    ]
