-- ===== src/Chain/Commands/Steps.antt =====
-- Every order in which the statements of chain-command.repository.ts can run on the table, and what
-- all of them keep.
use emu_key.Prelude.{
  ℕ, ◌≡◌, Bool, Option, none, List, [], ◌∷◌, ◌++◌, Follows, Follows-refl, Follows-append,
  Follows-trans, Rewritten, Rewritten-refl, Rewritten-Follows,
}
use emu_key.Chain.Commands.{ChainCommandRecord, ChainCommandStatus}
use emu_key.Chain.Commands.Repository.{
  Outcome, raised, done, claim_next, mark_pending, reserve_nonce, mark_prepared,
  PreparedChainTransaction,
}
use emu_key.Chain.Commands.Tracking.{
  mark_submitted, mark_unknown, mark_receipt, mark_reverted, mark_failure, release,
  release_submitted, claim_status, ChainReceipt,
}
use emu_key.Chain.Commands.Recovery.{RecoveryMode, Evidence, recover_dead_letter}
use emu_key.Chain.Commands.Kept.{Kept, Kept-refl, Kept-trans, Quiet, kept_frame, quiet_frame, Frame}
use emu_key.Chain.Commands.Frames.{Leaves}
use emu_key.Chain.Commands.History.{
  claim_next-Leaves, mark_pending-Leaves, reserve_nonce-Leaves, mark_prepared-Leaves,
  mark_submitted-Leaves, mark_unknown-Leaves, mark_receipt-Leaves, mark_reverted-Leaves,
  mark_failure-Leaves, release-Leaves, release_submitted-Leaves, claim_status-Leaves,
  recover_dead_letter-Leaves,
}

-- The statements but the reservation of a nonce, which is apart.
pub data Statement : Type 0 where
  claim : (worker : ℕ) → Statement
  pend : (id worker : ℕ) → Statement
  prepare : (id : ℕ) → PreparedChainTransaction → Statement
  submit : (id : ℕ) → Statement
  doubt : (id : ℕ) → (hash : Option ℕ) → Statement
  receive : (id : ℕ) → ChainReceipt → Statement
  revert : (id : ℕ) → ChainReceipt → Statement
  fail : (id attempt_count : ℕ) → Statement
  let_go : (id : ℕ) → Statement
  let_go_submitted : (id : ℕ) → Statement
  claim_with : (worker : ℕ) → ChainCommandStatus → Bool → Statement
  recover : (id : ℕ) → RecoveryMode → Evidence → Statement

-- The table after a transaction: as it was, when the transaction has raised an error.
abbrev pub table_after :
    {A : Type 0} → List ChainCommandRecord → Outcome A → List ChainCommandRecord
table_after cs (raised e) = cs
table_after cs (done a new) = new

abbrev pub execute : (ℕ → Bool) → ℕ → Statement → List ChainCommandRecord → List ChainCommandRecord
execute basis now (claim worker) cs = table_after cs (claim_next basis now worker cs)
execute basis now (pend id worker) cs = table_after cs (mark_pending basis now id worker cs)
execute basis now (prepare id t) cs = table_after cs (mark_prepared basis now id t cs)
execute basis now (submit id) cs = table_after cs (mark_submitted basis now id cs)
execute basis now (doubt id hash) cs = table_after cs (mark_unknown basis now id hash cs)
execute basis now (receive id receipt) cs = table_after cs (mark_receipt basis now id receipt cs)
execute basis now (revert id receipt) cs = table_after cs (mark_reverted basis now id receipt cs)
execute basis now (fail id attempts) cs = table_after cs (mark_failure basis now id attempts cs)
execute basis now (let_go id) cs = table_after cs (release basis now id cs)
execute basis now (let_go_submitted id) cs = table_after cs (release_submitted basis now id cs)
execute basis now (claim_with worker status exclude) cs =
    table_after cs (claim_status basis now worker status exclude cs)
execute basis now (recover id mode e) cs =
    table_after cs (recover_dead_letter basis now id mode e cs)

-- The runs: any statements in any order, at any times, and new commands, which have no nonce yet.
pub data Run (start : List ChainCommandRecord) : List ChainCommandRecord → Type 0 where
  nothing_yet : Run start start
  stated :
      {cs : List ChainCommandRecord}
      → Run start cs
      → (basis : ℕ → Bool) (now : ℕ) (s : Statement) → Run start (execute basis now s cs)
  reserved :
      {cs : List ChainCommandRecord}
      → Run start cs
      → (basis : ℕ → Bool) (now id relayer suggested : ℕ)
      → Run start (table_after cs (reserve_nonce basis now id relayer suggested cs))
  inserted :
      {cs : List ChainCommandRecord}
      → Run start cs
      → (c : ChainCommandRecord) → c.nonce ≡ none
      → Run start (cs ++ c ∷ [])

Leaves-after :
    {A : Type 0} (F : Frame) (cs : List ChainCommandRecord) (o : Outcome A)
    → Leaves F cs o
    → Rewritten F.rel cs (table_after cs o)
unfolding Leaves
Leaves-after F cs (raised e) h = Rewritten-refl F.rel F.same cs
Leaves-after F cs (done a new) h = h

-- A statement other than a reservation leaves every nonce.
pub execute-Quiet :
    (basis : ℕ → Bool) (now : ℕ) (s : Statement) (cs : List ChainCommandRecord)
    → Rewritten Quiet cs (execute basis now s cs)
execute-Quiet basis now (claim worker) cs =
    Leaves-after quiet_frame cs _ (claim_next-Leaves basis now worker cs)
execute-Quiet basis now (pend id worker) cs =
    Leaves-after quiet_frame cs _ (mark_pending-Leaves basis now id worker cs)
execute-Quiet basis now (prepare id t) cs =
    Leaves-after quiet_frame cs _ (mark_prepared-Leaves basis now id t cs)
execute-Quiet basis now (submit id) cs =
    Leaves-after quiet_frame cs _ (mark_submitted-Leaves basis now id cs)
execute-Quiet basis now (doubt id hash) cs =
    Leaves-after quiet_frame cs _ (mark_unknown-Leaves basis now id hash cs)
execute-Quiet basis now (receive id receipt) cs =
    Leaves-after quiet_frame cs _ (mark_receipt-Leaves basis now id receipt cs)
execute-Quiet basis now (revert id receipt) cs =
    Leaves-after quiet_frame cs _ (mark_reverted-Leaves basis now id receipt cs)
execute-Quiet basis now (fail id attempts) cs =
    Leaves-after quiet_frame cs _ (mark_failure-Leaves basis now id attempts cs)
execute-Quiet basis now (let_go id) cs =
    Leaves-after quiet_frame cs _ (release-Leaves basis now id cs)
execute-Quiet basis now (let_go_submitted id) cs =
    Leaves-after quiet_frame cs _ (release_submitted-Leaves basis now id cs)
execute-Quiet basis now (claim_with worker status exclude) cs =
    Leaves-after quiet_frame cs _ (claim_status-Leaves basis now worker status exclude cs)
execute-Quiet basis now (recover id mode e) cs =
    Leaves-after quiet_frame cs _ (recover_dead_letter-Leaves basis now id mode e cs)

-- Whatever statements run, in whatever order and however they fail, a row that has a relayer, a
-- nonce, a signed transaction, a transaction hash or a definitive receipt (SUCCESS or REVERTED)
-- keeps it, a definitive receipt with its block and the time of its check, and no row disappears or changes its id, network or chain.
pub Run-Kept : (start cs : List ChainCommandRecord) → Run start cs → Follows Kept start cs
Run-Kept start cs nothing_yet = Follows-refl Kept Kept-refl cs
Run-Kept start cs (stated {cs = before} earlier basis now s) =
    Follows-trans Kept Kept-trans start before _ (Run-Kept start before earlier) (
      Rewritten-Follows Quiet Kept (λ a. λ b. λ h. h.kept) before _
        (execute-Quiet basis now s before))
Run-Kept start cs (reserved {cs = before} earlier basis now id relayer suggested) =
    Follows-trans Kept Kept-trans start before _ (Run-Kept start before earlier) (
      Rewritten-Follows Kept Kept (λ a. λ b. λ h. h) before _
        (Leaves-after kept_frame before _
          (reserve_nonce-Leaves basis now id relayer suggested before)))
Run-Kept start cs (inserted {cs = before} earlier c fresh) =
    Follows-append Kept start before (c ∷ []) (Run-Kept start before earlier)
