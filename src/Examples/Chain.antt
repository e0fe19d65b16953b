-- ===== src/Examples/Chain.antt =====
-- backend/src/modules/blockchain: concrete polls and reads of the indexer.
use mathlib.Core.List.{Memᴰ}
use emu_key.Prelude.{
  ◌↔◌, count_where, exists_where, false, ℕ, ◌+◌, ◌-◌, ◌≤◌, ◌<◌, ◌≡◌, ◌⊎◌, refl, true, none, some,
  Option, List, [], ◌∷◌, leb, arith, if◌then◌else◌,
}
use emu_key.Chain.Checkpoint.{
  CheckpointRow, ClaimedBlockRange, ScanOptions, claim_range, complete_range,
}
use emu_key.Chain.Checkpoint.Coverage.{
  Fleet, claimed, completed, Reach, here, next, start, IsScanned, Reach-covered,
}
use emu_key.Chain.Checkpoint.Progress.{poll_once, poll_once_progress, poll_once_stalls}
use emu_key.Chain.Scan.{
  RpcContractEvent, license_renewed, logs, failure, Rpc, fetched, contract_events,
}
use emu_key.Chain.Scan.Reorgs.{IndexedEvent, same_identity, reorged_events}
use emu_key.Chain.Scan.Reorgs.Canonical.{is_log_of, reorged_events_iff}
use emu_key.Chain.Scan.Chunks.{block_range, Serves, Refuses, contract_events_reads_range}

abbrev options : ScanOptions
options = record { deployment_block = 100; batch_size = 50; overlap = 13 }

abbrev narrow : ScanOptions
narrow = record { deployment_block = 100; batch_size = 10; overlap = 13 }

abbrev free_row : CheckpointRow
free_row = record {
  next_block = 200;
  last_scanned_block = none;
  last_scanned_block_hash = none;
  locked_by = none;
  locked_at = none;
}

abbrev first_range : ClaimedBlockRange
first_range = record { from_block = 100; to_block = 149 }

abbrev claimed_fleet : Fleet
claimed_fleet = record {
  row = record {
    next_block = 100;
    last_scanned_block = none;
    last_scanned_block_hash = none;
    locked_by = some 1;
    locked_at = some 5;
  };
  claims = (1, first_range) ∷ [];
  scanned = [];
}

abbrev scanned_fleet : Fleet
scanned_fleet = record {
  row = record {
    next_block = 150;
    last_scanned_block = some 149;
    last_scanned_block_hash = some 77;
    locked_by = none;
    locked_at = none;
  };
  claims = (1, first_range) ∷ [];
  scanned = first_range ∷ [];
}

one_poll : Reach options (start options) scanned_fleet
unfolding claim_range complete_range
one_poll =
    next {g = claimed_fleet} (next {g = start options} here (claimed (start options) 5 1 1000))
      (completed claimed_fleet 1 77 first_range (Memᴰ.head refl))

Reach-covered_example : IsScanned 120 scanned_fleet.scanned
Reach-covered_example = Reach-covered options scanned_fleet 120 one_poll (omega arith) (omega arith)

abbrev block_77 : Option ℕ
block_77 = some 77

poll_once_progress_example :
    let after = poll_once options 5 1 1000 (some 150) block_77 free_row in
    (block_77 ≡ none → (after.next_block ≡ 200) × (after.locked_at ≡ none))
    × ((block_hash : ℕ)
        → block_77 ≡ some block_hash
        → (200 < after.next_block)
          × ((200 + 50 ≤ after.next_block + 13) ⊎ (after.next_block ≡ 1000 + 1)))
poll_once_progress_example =
    poll_once_progress options 5 1 1000 (some 150) block_77 free_row (omega arith) (omega arith)
      (omega arith) refl refl

poll_once_stalls_example : (poll_once narrow 5 1 1000 none (some 77) free_row).next_block ≡ 200
poll_once_stalls_example =
    poll_once_stalls narrow 5 1 1000 none (some 77) free_row (omega arith) (omega arith)
      (omega arith)

-- A chain with one renewal in each block, and a node with a limit of two blocks.
abbrev renewals : ℕ → List RpcContractEvent
renewals block =
    record {
      event_name = license_renewed;
      status = 0;
      command_id = block;
      license_id = 1;
      block_number = block;
      block_hash = block;
      transaction_hash = block;
      log_index = 0;
    }
    ∷ []

abbrev node : Rpc
node from to =
    if leb (to + 1 - from) 2
    then logs (block_range renewals from (to + 1 - from))
    else failure (some 2)

node-Serves : Serves renewals 2 node
node-Serves from to ordered short =
    let within : leb (to + 1 - from) 2 ≡ true = ground arith in rw within refl

node-Refuses : Refuses 2 node
node-Refuses from to long =
    let beyond : leb (to + 1 - from) 2 ≡ false = ground arith in rw beyond refl

contract_events_reads_range_example :
    (contract_events node none 10 14 ≡ (fetched (block_range renewals 10 5), some 2))
    × (contract_events node (some 1) 10 14 ≡ (fetched (block_range renewals 10 5), some 1))
contract_events_reads_range_example =
    contract_events_reads_range renewals 2 node (omega arith) node-Serves node-Refuses 10 14 1
      (omega arith) (omega arith) (omega arith)

-- The renewal of block 11 was stored from another block with the same transaction.
abbrev stale_event : IndexedEvent
stale_event = record { id = 900; block_hash = 12; transaction_hash = 11; log_index = 0 }

one_log : count_where (same_identity stale_event) (renewals 11) ≤ 1
unfolding count_where
one_log = omega arith

reorged_events_iff_example : Memᴰ stale_event (reorged_events (renewals 11) (stale_event ∷ [])) ↔ (
    Memᴰ stale_event (stale_event ∷ [])
    × (exists_where (is_log_of stale_event) (renewals 11) ≡ false))
reorged_events_iff_example = reorged_events_iff (renewals 11) (stale_event ∷ []) stale_event one_log
