-- ===== src/Chain/Relay/Reconcile.antt =====
-- backend/src/modules/blockchain/application/chain-command.service.ts: `reconcileUnknown`, for the
-- commands whose submission has an unknown outcome.
use emu_key.Prelude.{ℕ, Bool, false, Option, none, some, List, if◌then◌else◌}
use emu_key.Chain.Commands.{ChainCommandRecord, submitted_unknown, is_reverted}
use emu_key.Chain.Commands.Repository.{Outcome, raised, done, PreparedChainTransaction}
use emu_key.Chain.Commands.Tracking.{
  ChainReceipt, mark_submitted, mark_unknown, mark_receipt, mark_reverted, release, claim_status,
  coalesce,
}
use emu_key.Chain.Relay.{
  require_prepared, conclude, ChainRelayer, Broadcast, Sent, accepted, unknown, rejected, Processed,
  nothing_due, processed, thrown,
}

-- `reconcileUnknown` after its claim. Every error of a statement or of the relayer ends in
-- `releaseUnknown`, but an unknown outcome of the broadcast in `markUnknown`.
abbrev pub let_go : (ℕ → Bool) → ℕ → ℕ → List ChainCommandRecord → Option Broadcast → Processed
let_go basis now id cs sent = conclude id cs sent (release basis now id cs)

abbrev pub or_let_go :
    (ℕ → Bool) → ℕ → ℕ → List ChainCommandRecord → Option Broadcast → Outcome Unit → Processed
or_let_go basis now id cs sent (raised e) = let_go basis now id cs sent
or_let_go basis now id cs sent (done u new) = processed id new sent

abbrev pub after_rebroadcast :
    (ℕ → Bool)
    → ℕ
    → ChainCommandRecord
    → List ChainCommandRecord
    → Option Broadcast
    → Sent
    → Processed
after_rebroadcast basis now c cs sent accepted =
    or_let_go basis now c.command_id cs sent (mark_submitted basis now c.command_id cs)
after_rebroadcast basis now c cs sent (unknown hash) =
    conclude c.command_id cs sent
      (mark_unknown basis now c.command_id (coalesce hash c.transaction_hash) cs)
after_rebroadcast basis now c cs sent rejected = let_go basis now c.command_id cs sent

abbrev pub after_receipt_mark :
    (ℕ → Bool) → ℕ → ℕ → List ChainCommandRecord → Outcome Unit → Processed
after_receipt_mark basis now id cs (raised e) = let_go basis now id cs none
after_receipt_mark basis now id cs (done u new) =
    or_let_go basis now id new none (mark_submitted basis now id new)

abbrev pub act_on_receipt :
    (ℕ → Bool)
    → ℕ
    → ChainRelayer
    → ChainCommandRecord
    → PreparedChainTransaction
    → List ChainCommandRecord
    → Option (Option ChainReceipt)
    → Processed
act_on_receipt basis now relayer c t cs none = let_go basis now c.command_id cs none
act_on_receipt basis now relayer c t cs (some none) =
    after_rebroadcast basis now c cs (some (record { transaction = t; at = cs }))
      (relayer.broadcast t)
act_on_receipt basis now relayer c t cs (some (some receipt)) =
    if is_reverted (some receipt.status)
    then or_let_go basis now c.command_id cs none (mark_reverted basis now c.command_id receipt cs)
    else after_receipt_mark basis now c.command_id cs
        (mark_receipt basis now c.command_id receipt cs)

abbrev pub reconcile_prepared :
    (ℕ → Bool)
    → ℕ
    → ChainRelayer
    → ChainCommandRecord
    → List ChainCommandRecord
    → Option PreparedChainTransaction
    → Processed
reconcile_prepared basis now relayer c cs none = let_go basis now c.command_id cs none
reconcile_prepared basis now relayer c cs (some t) =
    act_on_receipt basis now relayer c t cs (relayer.receipt t.transaction_hash)

abbrev pub reconcile_claimed :
    (ℕ → Bool)
    → ℕ
    → ChainRelayer
    → List ChainCommandRecord
    → Outcome (Option ChainCommandRecord)
    → Processed
reconcile_claimed basis now relayer cs (raised e) = thrown cs none
reconcile_claimed basis now relayer cs (done none new) = nothing_due new
reconcile_claimed basis now relayer cs (done (some c) new) =
    reconcile_prepared basis now relayer c new (require_prepared c)

unfoldable pub reconcile_unknown :
    (ℕ → Bool) → ℕ → ℕ → ChainRelayer → List ChainCommandRecord → Processed
reconcile_unknown basis now worker relayer cs =
    reconcile_claimed basis now relayer cs
      (claim_status basis now worker submitted_unknown false cs)
