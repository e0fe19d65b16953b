-- ===== src/Chain/Checkpoint/Coverage.antt =====
-- No block is skipped: whatever several workers do, in any order, with locks that expire, every
-- block below the checkpoint has been scanned (chain-indexer-checkpoint.repository.ts and the
-- calls that rpc-chain-indexer.service.ts makes).
use mathlib.Core.List.{Memᴰ}
use native.Mathlib.Decide.{dec_lt}
use emu_key.Prelude.{
  ℕ, ◌+◌, ◌≤◌, ◌<◌, ◌≡◌, refl, ap, ◌⊎◌, true, false, Option, none, some, List, [], ◌∷◌, arith,
  if◌then◌else◌, is_id, All, Bool-cases, inl, inr, max,
}
use emu_key.Chain.Checkpoint.{
  ClaimedBlockRange, CheckpointRow, ScanOptions, ensure_row, range_from, claim_range,
  complete_range, release,
}

-- The checkpoint, the ranges that workers were given and may still complete, and the ranges whose
-- completion was recorded.
pub record Fleet : Type 0 where
  pub row : CheckpointRow
  pub claims : List (ℕ × ClaimedBlockRange)
  pub scanned : List ClaimedBlockRange

abbrev with_claim :
    ℕ → Option ClaimedBlockRange → List (ℕ × ClaimedBlockRange) → List (ℕ × ClaimedBlockRange)
with_claim worker none claims = claims
with_claim worker (some range) claims = (worker, range) ∷ claims

abbrev recorded :
    ℕ → CheckpointRow → ClaimedBlockRange → List ClaimedBlockRange → List ClaimedBlockRange
recorded worker row range scanned = if is_id row.locked_by worker then range ∷ scanned else scanned

-- One statement of one worker. A claim stays at hand for ever: a slow worker may complete it at
-- any later time.
pub data Move (options : ScanOptions) : Fleet → Fleet → Type 0 where
  claimed :
      (f : Fleet) (now worker latest : ℕ)
      → Move options f (record f {
        row = (claim_range options now worker latest (some f.row)).1;
        claims = with_claim worker (claim_range options now worker latest (some f.row)).0 f.claims;
      })
  completed :
      (f : Fleet) (worker block_hash : ℕ) (range : ClaimedBlockRange)
      → Memᴰ (worker, range) f.claims
      → Move options f (record f {
        row = complete_range worker range block_hash f.row;
        scanned = recorded worker f.row range f.scanned;
      })
  released : (f : Fleet) (worker : ℕ) → Move options f (record f { row = release worker f.row })

pub data Reach (options : ScanOptions) (f : Fleet) : Fleet → Type 0 where
  here : Reach options f f
  next : {g h : Fleet} → Reach options f g → Move options g h → Reach options f h

abbrev pub Covers : ℕ → ClaimedBlockRange → Type 0
Covers b range = (range.from_block ≤ b) × (b ≤ range.to_block)

abbrev pub IsScanned : ℕ → List ClaimedBlockRange → Type 0
IsScanned b ranges = (range : ClaimedBlockRange) × Memᴰ range ranges × Covers b range

-- What holds between two statements of the checkpoint, the claims at hand and the scanned ranges.
pub record Inv (options : ScanOptions) (next_block : ℕ) (claims : List (ℕ × ClaimedBlockRange))
    (scanned : List ClaimedBlockRange) : Type 0 where
  pub started : options.deployment_block ≤ next_block
  pub behind : All (λ c. c.1.from_block ≤ next_block) claims
  pub covered : (b : ℕ) → options.deployment_block ≤ b → b < next_block → IsScanned b scanned

abbrev pub FleetInv : ScanOptions → Fleet → Type 0
FleetInv options f = Inv options f.row.next_block f.claims f.scanned

-- A fleet before its first poll: the checkpoint row is at the deployment block.
abbrev pub start : ScanOptions → Fleet
start options = record { row = ensure_row options.deployment_block none; claims = []; scanned = [] }

start-Inv : (options : ScanOptions) → FleetInv options (start options)
start-Inv options = record {
  started = omega arith;
  behind = tt;
  covered = λ b h k. absurd (omega arith);
}

claim_range_from :
    (options : ScanOptions) (now worker latest : ℕ) (row : CheckpointRow)
    → ((claim_range options now worker latest (some row)).1.next_block ≡ row.next_block)
      × (((claim_range options now worker latest (some row)).0 ≡ none)
          ⊎ ((claim_range options now worker latest (some row)).0
              ≡ some (range_from options latest row.next_block)))
unfolding claim_range
claim_range_from options now worker latest row = ground arith

behind_weaken :
    (claims : List (ℕ × ClaimedBlockRange)) (m n : ℕ)
    → m ≤ n
    → All (λ c. c.1.from_block ≤ m) claims
    → All (λ c. c.1.from_block ≤ n) claims
behind_weaken [] m n h k = tt
behind_weaken (c ∷ claims) m n h (k, ks) = (omega arith, behind_weaken claims m n h ks)

from_of_claim :
    (claims : List (ℕ × ClaimedBlockRange)) (worker n : ℕ) (range : ClaimedBlockRange)
    → Memᴰ (worker, range) claims
    → All (λ c. c.1.from_block ≤ n) claims
    → range.from_block ≤ n
from_of_claim [] worker n range m h = elim m [ ]
from_of_claim (c ∷ claims) worker n range (Memᴰ.head e) (h, hs) =
    let same : range ≡ c.1 = ap (λ (p : ℕ × ClaimedBlockRange). p.1) e in rw same h
from_of_claim (c ∷ claims) worker n range (Memᴰ.tail m) (h, hs) =
    from_of_claim claims worker n range m hs

claim-Inv :
    (options : ScanOptions) (latest worker n : ℕ) (claims : List (ℕ × ClaimedBlockRange))
    (scanned : List ClaimedBlockRange)
    → Inv options n claims scanned
    → Inv options n ((worker, range_from options latest n) ∷ claims) scanned
claim-Inv options latest worker n claims scanned h = record {
  started = h.started;
  behind = (omega (arith, h.started), h.behind);
  covered = h.covered;
}

complete-Inv :
    (options : ScanOptions) (n : ℕ) (claims : List (ℕ × ClaimedBlockRange))
    (scanned : List ClaimedBlockRange) (range : ClaimedBlockRange)
    → range.from_block ≤ n
    → Inv options n claims scanned
    → Inv options (max n (range.to_block + 1)) claims (range ∷ scanned)
complete-Inv options n claims scanned range from h = record {
  started = omega (arith, h.started);
  behind = behind_weaken claims n (max n (range.to_block + 1)) (omega arith) h.behind;
  covered = λ b low high. elim (dec_lt b n) [
    | yes old ↦ let (r, m, c) = h.covered b low old in (r, Memᴰ.tail m, c)
    | no new ↦ (range, Memᴰ.head refl, (omega arith, omega arith))
  ];
}

complete_range_next :
    (worker block_hash : ℕ) (range : ClaimedBlockRange) (row : CheckpointRow)
    → is_id row.locked_by worker ≡ true
    → (complete_range worker range block_hash row).next_block
      ≡ max row.next_block (range.to_block + 1)
unfolding complete_range
complete_range_next worker block_hash range row e = ground arith

complete_range_lost :
    (worker block_hash : ℕ) (range : ClaimedBlockRange) (row : CheckpointRow)
    → is_id row.locked_by worker ≡ false
    → complete_range worker range block_hash row ≡ row
unfolding complete_range
complete_range_lost worker block_hash range row e = rw e

release_next : (worker : ℕ) (row : CheckpointRow) → (release worker row).next_block ≡ row.next_block
unfolding release
release_next worker row = ground arith

Move-Inv :
    {options : ScanOptions} {f g : Fleet}
    → Move options f g
    → FleetInv options f
    → FleetInv options g
Move-Inv {options} (claimed f now worker latest) h =
    let (same, which) = claim_range_from options now worker latest f.row in
    elim which [
      | inl e ↦ rw (same, e) h
      | inr e ↦ rw (same, e) (claim-Inv options latest worker f.row.next_block f.claims f.scanned h)
    ]
Move-Inv {options} (completed f worker block_hash range m) h =
    elim (Bool-cases (is_id f.row.locked_by worker)) [
      | inl e ↦
          rw (complete_range_next worker block_hash range f.row e, e)
            (complete-Inv options f.row.next_block f.claims f.scanned range
              (from_of_claim f.claims worker f.row.next_block range m h.behind) h)
      | inr e ↦ rw (complete_range_lost worker block_hash range f.row e, e) h
    ]
Move-Inv {options} (released f worker) h = rw (release_next worker f.row) h

Reach-Inv :
    {options : ScanOptions} {f g : Fleet}
    → Reach options f g
    → FleetInv options f
    → FleetInv options g
Reach-Inv here h = h
Reach-Inv (next r m) h = Move-Inv m (Reach-Inv r h)

-- Whatever several workers do, in any order, with locks that expire and completions that come late,
-- every block from the deployment block up to below the checkpoint's next block lies in a range
-- whose scan was recorded.
pub Reach-covered :
    (options : ScanOptions) (f : Fleet) (b : ℕ)
    → Reach options (start options) f
    → options.deployment_block ≤ b
    → b < f.row.next_block
    → IsScanned b f.scanned
Reach-covered options f b r low high = (Reach-Inv r (start-Inv options)).covered b low high
