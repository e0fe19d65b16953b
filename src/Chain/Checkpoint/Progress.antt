-- ===== src/Chain/Checkpoint/Progress.antt =====
-- When the indexer gets on (rpc-chain-indexer.service.ts, `poll`, on the statements of
-- chain-indexer-checkpoint.repository.ts): the service gives the required confirmations plus one as the overlap.
use emu_key.Prelude.{
  ℕ, ◌+◌, ◌≤◌, ◌<◌, ◌≡◌, ◌⊎◌, Bool, false, ◌||◌, Option, none, some, arith, ltb, leb, if◌then◌else◌,
}
use emu_key.Chain.Checkpoint.{CheckpointRow, ScanOptions, claim_range, complete_range, release}

-- Whether this process has already read up to the latest block.
abbrev pub has_read : Option ℕ → ℕ → Bool
has_read none latest = false
has_read (some block) latest = leb latest block

-- What `poll` makes of the checkpoint for a worker that is alone. The scan of the claimed range
-- yields the hash of its last block, or fails with `none`: then the worker gives its lock up. The
-- earlier pass over single receipt blocks leaves the checkpoint alone.
abbrev pub poll_once : ScanOptions → ℕ → ℕ → ℕ → Option ℕ → Option ℕ → CheckpointRow → CheckpointRow
poll_once options now worker latest last_completed scanned row =
    if ltb latest options.deployment_block || has_read last_completed latest
    then row
    else let (claimed, locked) = claim_range options now worker latest (some row) in
      elim claimed [
        | none ↦ locked
        | some range ↦ elim scanned [
          | none ↦ release worker locked
          | some block_hash ↦ complete_range worker range block_hash locked
        ]
      ]

-- A poll of a lone worker that finds the checkpoint unlocked, with new blocks that its process has
-- not read, a batch larger than the overlap and the deployment block reached: if the scan fails, the
-- next block stays and the lock is given up; if it succeeds, the next block grows, by the batch less
-- the overlap or to the block after the latest one.
pub poll_once_progress :
    (options : ScanOptions) (now worker latest : ℕ) (last_completed scanned : Option ℕ)
    (row : CheckpointRow)
    → options.overlap < options.batch_size
    → options.deployment_block ≤ row.next_block
    → row.next_block ≤ latest
    → has_read last_completed latest ≡ false
    → row.locked_at ≡ none
    → let after = poll_once options now worker latest last_completed scanned row in
      (scanned ≡ none → (after.next_block ≡ row.next_block) × (after.locked_at ≡ none))
      × ((block_hash : ℕ)
          → scanned ≡ some block_hash
          → (row.next_block < after.next_block)
            × ((row.next_block + options.batch_size ≤ after.next_block + options.overlap)
                ⊎ (after.next_block ≡ latest + 1)))
unfolding claim_range complete_range release
poll_once_progress options now worker latest last_completed scanned row big started new unread
      free =
    (λ e. ground (arith, e, unread, free), λ block_hash e. ground (arith, e, unread, free))

-- If the batch is not larger than the overlap, the indexer stalls: once the checkpoint is at least
-- the overlap past the deployment block, no poll of a lone worker moves it, however many blocks there
-- are and whether or not the scan fails.
pub poll_once_stalls :
    (options : ScanOptions) (now worker latest : ℕ) (last_completed scanned : Option ℕ)
    (row : CheckpointRow)
    → 1 ≤ options.batch_size
    → options.batch_size ≤ options.overlap
    → options.deployment_block + options.overlap ≤ row.next_block
    → (poll_once options now worker latest last_completed scanned row).next_block ≡ row.next_block
unfolding claim_range complete_range release
poll_once_stalls options now worker latest last_completed scanned row positive small far =
    ground arith
