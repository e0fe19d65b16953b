-- ===== src/Chain/Scan/Chunks.antt =====
-- Reading a range in chunks gives what reading it at once would give
-- (rpc-chain-indexer.service.ts).
use emu_key.Prelude.{
  ℕ, zero, suc, ◌+◌, ◌-◌, ◌≤◌, ◌<◌, ◌≡◌, refl, ap, ◌∙◌, none, some, if◌then◌else◌, List, [], ◌++◌,
  arith, leb, min, Bool-cases, inl, inr,
}
use mathlib.Core.List.{append_assoc, append-nil}
use native.Mathlib.Decide.{dec_lt}
use emu_key.Chain.Scan.{
  RpcContractEvent, logs, failure, Rpc, fetched, contract_events_in_chunks, chunk_fuel,
  contract_events,
}

-- The logs of `count` blocks from `from_block`, block by block.
pub block_range : (ℕ → List RpcContractEvent) → ℕ → ℕ → List RpcContractEvent
block_range blocks from_block zero = []
block_range blocks from_block (suc count) =
    blocks from_block ++ block_range blocks (from_block + 1) count

-- The RPC knows the chain's logs: it answers every range of at most `limit` blocks with the logs of
-- its blocks in order.
abbrev pub Serves : (ℕ → List RpcContractEvent) → ℕ → Rpc → Type 0
Serves blocks limit rpc =
    (from_block to_block : ℕ)
    → from_block ≤ to_block
    → to_block + 1 ≤ from_block + limit
    → rpc from_block to_block ≡ logs (block_range blocks from_block (to_block + 1 - from_block))

-- It refuses every longer range, and says the limit.
abbrev pub Refuses : ℕ → Rpc → Type 0
Refuses limit rpc =
    (from_block to_block : ℕ)
    → from_block + limit < to_block + 1
    → rpc from_block to_block ≡ failure (some limit)

block_range-add :
    (blocks : ℕ → List RpcContractEvent) (from m n : ℕ)
    → block_range blocks from m ++ block_range blocks (from + m) n ≡ block_range blocks from (m + n)
unfolding block_range
block_range-add blocks from zero n =
    let start : from + 0 ≡ from = omega arith in
    let count : n ≡ 0 + n = omega arith in
    ap (λ k. block_range blocks k n) start ∙ ap (block_range blocks from) count
block_range-add blocks from (suc m) n =
    let start : from + suc m ≡ from + 1 + m = omega arith in
    let shifted : block_range blocks (from + suc m) n ≡ block_range blocks (from + 1 + m) n =
      ap (λ k. block_range blocks k n) start in
    let count : suc (m + n) ≡ suc m + n = omega arith in
    rw (shifted, append_assoc (blocks from), block_range-add blocks (from + 1) m n)
      (ap (block_range blocks from) count)

-- Splitting a range after a chunk: its first blocks, and the rest, which may be empty.
block_range-chunk :
    (blocks : ℕ → List RpcContractEvent) (from to size : ℕ)
    → from ≤ to
    → 1 ≤ size
    → block_range blocks from (min (from + size - 1) to + 1 - from)
        ++ block_range blocks (from + size) (to + 1 - (from + size))
      ≡ block_range blocks from (to + 1 - from)
unfolding block_range
block_range-chunk blocks from to size ordered some_size = elim (dec_lt to (from + size)) [
  | yes last ↦
      let whole : min (from + size - 1) to + 1 - from ≡ to + 1 - from = omega (arith, last) in
      let nothing : to + 1 - (from + size) ≡ 0 = omega (arith, last) in
      rw (whole, nothing) (append-nil (block_range blocks from (to + 1 - from)))
  | no more ↦
      let whole : min (from + size - 1) to + 1 - from ≡ size = omega (arith, more) in
      let both : size + (to + 1 - (from + size)) ≡ to + 1 - from = omega (arith, more) in
      rw whole (
        block_range-add blocks from size (to + 1 - (from + size))
        ∙ ap (block_range blocks from) both)
]

-- A read of one chunk, from what the node serves.
rpc-chunk :
    (blocks : ℕ → List RpcContractEvent) (limit : ℕ) (rpc : Rpc)
    → Serves blocks limit rpc
    → (from to size : ℕ) → from ≤ to
    → 1 ≤ size
    → size ≤ limit
    → rpc from (min (from + size - 1) to)
      ≡ logs (block_range blocks from (min (from + size - 1) to + 1 - from))
rpc-chunk blocks limit rpc serves from to size ordered some_size served =
    serves from (min (from + size - 1) to) (omega arith) (omega arith)

-- The loop reads the whole range when its fuel covers it, in chunks of any size that is served.
contract_events_in_chunks-fetched :
    (blocks : ℕ → List RpcContractEvent) (limit : ℕ) (rpc : Rpc)
    → Serves blocks limit rpc
    → (fuel from to size : ℕ) → 1 ≤ size
    → size ≤ limit
    → to + 1 - from < fuel
    → contract_events_in_chunks fuel rpc from to size
      ≡ fetched (block_range blocks from (to + 1 - from))
unfolding contract_events_in_chunks block_range
contract_events_in_chunks-fetched blocks limit rpc serves zero from to size some_size served
      enough =
    absurd (omega (arith, enough))
contract_events_in_chunks-fetched blocks limit rpc serves (suc fuel) from to size some_size served
      enough =
    elim (Bool-cases (leb from to)) [
      | inl e ↦
          let ordered : from ≤ to = ground (arith, e) in
          let enough' : to + 1 - (from + size) < fuel = omega arith in
          rw
            (
              e,
              rpc-chunk blocks limit rpc serves from to size ordered some_size served,
              contract_events_in_chunks-fetched blocks limit rpc serves fuel (from + size) to size
                  some_size served enough',
              contract_events_in_chunks,
            )
            (ap fetched (block_range-chunk blocks from to size ordered some_size))
      | inr e ↦
          let nothing : to + 1 - from ≡ 0 = ground (arith, e) in
          rw (e, nothing, contract_events_in_chunks) refl
    ]

-- A node that serves the chain's logs in ranges of at most `limit` blocks and refuses longer ones
-- with that limit: whatever the range, `contractEvents` returns exactly the logs of its blocks, in
-- the order of the blocks, whether it reads them at once, learns the limit and reads in chunks, or
-- knows a limit of at least one block that the node serves; and a range longer than the limit
-- leaves the limit remembered.
pub contract_events_reads_range :
    (blocks : ℕ → List RpcContractEvent) (limit : ℕ) (rpc : Rpc)
    → 1 ≤ limit
    → Serves blocks limit rpc
    → Refuses limit rpc
    → (from to known : ℕ) → from ≤ to
    → 1 ≤ known
    → known ≤ limit
    → (contract_events rpc none from to ≡ (
      fetched (block_range blocks from (to + 1 - from)),
      if leb (to + 1 - from) limit then none else some limit,
    ))
      × (contract_events rpc (some known) from to
          ≡ (fetched (block_range blocks from (to + 1 - from)), some known))
unfolding contract_events
contract_events_reads_range blocks limit rpc some_limit serves refuses from to known ordered
      some_known served =
    (
      elim (Bool-cases (leb (to + 1 - from) limit)) [
        | inl e ↦
            let short : to + 1 ≤ from + limit = ground (arith, e) in
            rw (e, serves from to ordered short, contract_events) refl
        | inr e ↦
            let long : from + limit < to + 1 = ground (arith, e) in
            rw
              (
                refuses from to long,
                contract_events,
                e,
                contract_events_in_chunks-fetched blocks limit rpc serves (chunk_fuel from to) from
                    to limit some_limit (omega arith) (omega arith),
              )
              refl
      ],
      ap (λ r. (r, some known))
          (contract_events_in_chunks-fetched blocks limit rpc serves (chunk_fuel from to) from to
            known some_known served (omega arith)),
    )
