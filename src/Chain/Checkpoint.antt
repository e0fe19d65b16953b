-- ===== src/Chain/Checkpoint.antt =====
-- backend/src/modules/blockchain/infrastructure/chain-indexer-checkpoint.repository.ts
-- The row of one registry in chain_indexer_checkpoints; times are milliseconds.
pub mod Coverage
pub mod Progress
use emu_key.Prelude.{
  ℕ, ◌+◌, ◌-◌, Bool, true, false, Option, none, some, ltb, if◌then◌else◌, is_id, min, max,
}

pub record ClaimedBlockRange : Type 0 where
  pub from_block : ℕ
  pub to_block : ℕ

pub record CheckpointRow : Type 0 where
  pub next_block : ℕ
  pub last_scanned_block : Option ℕ
  pub last_scanned_block_hash : Option ℕ
  pub locked_by : Option ℕ
  pub locked_at : Option ℕ

-- What an indexer is configured with.
pub record ScanOptions : Type 0 where
  pub deployment_block : ℕ
  pub batch_size : ℕ
  pub overlap : ℕ

-- `INSERT … ON CONFLICT DO NOTHING`
abbrev pub ensure_row : ℕ → Option CheckpointRow → CheckpointRow
ensure_row deployment_block none = record {
  next_block = deployment_block;
  last_scanned_block = none;
  last_scanned_block_hash = none;
  locked_by = none;
  locked_at = none;
}
ensure_row deployment_block (some row) = row

abbrev pub lock_ms : ℕ
lock_ms = 120000

-- `locked_at IS NULL OR locked_at < now() - interval '2 minutes'`
abbrev pub is_unlocked : ℕ → Option ℕ → Bool
is_unlocked now none = true
is_unlocked now (some t) = ltb (t + lock_ms) now

abbrev pub range_from : ScanOptions → ℕ → ℕ → ClaimedBlockRange
range_from options latest_block next_block =
    let from = max options.deployment_block (next_block - options.overlap) in
    record { from_block = from; to_block = min latest_block (from + options.batch_size - 1) }

unfoldable pub claim_range :
    ScanOptions → ℕ → ℕ → ℕ → Option CheckpointRow → Option ClaimedBlockRange × CheckpointRow
claim_range options now worker latest_block stored =
    let row = ensure_row options.deployment_block stored in
    if is_unlocked now row.locked_at
    then (
      some (range_from options latest_block row.next_block),
      record row { locked_by = some worker; locked_at = some now },
    )
    else (none, row)

unfoldable pub complete_range : ℕ → ClaimedBlockRange → ℕ → CheckpointRow → CheckpointRow
complete_range worker range block_hash row =
    if is_id row.locked_by worker
    then record {
      next_block = max row.next_block (range.to_block + 1);
      last_scanned_block = some range.to_block;
      last_scanned_block_hash = some block_hash;
      locked_by = none;
      locked_at = none;
    }
    else row

unfoldable pub release : ℕ → CheckpointRow → CheckpointRow
release worker row =
    if is_id row.locked_by worker then record row { locked_by = none; locked_at = none } else row
