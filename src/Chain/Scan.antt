-- ===== src/Chain/Scan.antt =====
-- backend/src/modules/blockchain/application/rpc-chain-indexer.service.ts: reading a range of
-- blocks. The RPC is an argument: it answers with the logs of a range, or fails, and its error
-- message may name a limit on the number of blocks ("up to a N block range"), which is given as the
-- number that the code parses.
pub mod Chunks
pub mod Reorgs
use emu_key.Prelude.{
  ℕ, zero, suc, ◌+◌, ◌-◌, Bool, true, false, not, ◌&&◌, Option, none, some, List, [], ◌∷◌, ◌++◌,
  ltb, leb, ◌==◌, if◌then◌else◌, min, length, is_id,
}

-- RpcContractEvent: a log of the registry. The names of its arguments are those of the events.
pub data EventName : Type 0 where
  license_issued license_issued_for_provider license_renewed activation_key_rotated : EventName
  active_device_count_synced license_status_changed other_event : EventName

pub record RpcContractEvent : Type 0 where
  pub event_name : EventName
  pub status : ℕ  -- `args.status`
  pub command_id : ℕ
  pub license_id : ℕ
  pub block_number : ℕ
  pub block_hash : ℕ
  pub transaction_hash : ℕ
  pub log_index : ℕ

pub data Answer : Type 0 where
  logs : List RpcContractEvent → Answer
  failure : Option ℕ → Answer  -- the limit that the message names

abbrev pub Rpc : Type 0
Rpc = ℕ → ℕ → Answer

-- The answers of a loop: `exhausted` is the model's fuel running out.
pub data Fetched : Type 0 where
  fetched : List RpcContractEvent → Fetched
  failed exhausted : Fetched

abbrev pub prepend : List RpcContractEvent → Fetched → Fetched
prepend first (fetched more) = fetched (first ++ more)
prepend first failed = failed
prepend first exhausted = exhausted

-- `contractEventsInChunks`: the loop over `chunkFrom`, with fuel for its rounds.
unfoldable pub contract_events_in_chunks : ℕ → Rpc → ℕ → ℕ → ℕ → Fetched
contract_events_in_chunks zero rpc chunk_from to_block size = exhausted
contract_events_in_chunks (suc fuel) rpc chunk_from to_block size = elim (leb chunk_from to_block) [
  | false ↦ fetched []
  | true ↦ elim (rpc chunk_from (min (chunk_from + size - 1) to_block)) [
    | failure limit ↦ failed
    | logs first ↦
        prepend first (contract_events_in_chunks fuel rpc (chunk_from + size) to_block size)
  ]
]

-- Each round moves `chunkFrom` on by at least one block.
abbrev pub chunk_fuel : ℕ → ℕ → ℕ
chunk_fuel from_block to_block = suc (to_block + 1 - from_block)

-- `contractEvents`: the events, and the limit that is remembered.
unfoldable pub contract_events : Rpc → Option ℕ → ℕ → ℕ → Fetched × Option ℕ
contract_events rpc (some limit) from_block to_block = (
  contract_events_in_chunks (chunk_fuel from_block to_block) rpc from_block to_block limit,
  some limit,
)
contract_events rpc none from_block to_block = elim (rpc from_block to_block) [
  | logs all ↦ (fetched all, none)
  | failure none ↦ (failed, none)
  | failure (some limit) ↦ if leb (to_block + 1 - from_block) limit then (failed, none) else (
    contract_events_in_chunks (chunk_fuel from_block to_block) rpc from_block to_block limit,
    some limit,
  )
]
