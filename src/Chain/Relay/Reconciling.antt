-- ===== src/Chain/Relay/Reconciling.antt =====
-- What `reconcileUnknown` sends again is what the table holds (chain-command.service.ts).
use emu_key.Prelude.{
  ℕ, ◌≡◌, refl, Bool, true, false, Option, none, some, List, Bool-cases, Option-cases, inl, inr,
}
use emu_key.Chain.Commands.{ChainCommandRecord, submitted_unknown, is_reverted}
use emu_key.Chain.Commands.Repository.{Outcome, raised, done, PreparedChainTransaction}
use emu_key.Chain.Commands.Tracking.{claim_status, least_recent, is_claimable, ChainReceipt}
use emu_key.Chain.Commands.Kept.{quiet_frame}
use emu_key.Chain.Commands.Frames.{Leaves}
use emu_key.Chain.Commands.History.{
  release-Leaves, mark_submitted-Leaves, mark_unknown-Leaves, mark_reverted-Leaves,
}
use emu_key.Chain.Relay.{
  ChainRelayer, Broadcast, Sent, accepted, unknown, rejected, require_prepared,
}
use emu_key.Chain.Relay.Reconcile.{
  let_go, or_let_go, after_rebroadcast, after_receipt_mark, act_on_receipt, reconcile_claimed,
  reconcile_unknown,
}
use emu_key.Chain.Relay.Broadcasts.{
  HoldsSent, SentIsStored, conclude-SentIsStored, Leaves-HoldsSent, ClaimsRow, optional-ClaimsRow,
  update_row-Returns, require_prepared-is_of, holds, is_of,
}

let_go-SentIsStored :
    (basis : ℕ → Bool) (now id : ℕ) (cs : List ChainCommandRecord) (sent : Option Broadcast)
    → HoldsSent id cs sent
    → SentIsStored (let_go basis now id cs sent)
let_go-SentIsStored basis now id cs sent held =
    conclude-SentIsStored id cs sent _ (release-Leaves basis now id cs) held

or_let_go-SentIsStored :
    (basis : ℕ → Bool) (now id : ℕ) (cs : List ChainCommandRecord) (sent : Option Broadcast)
    (o : Outcome Unit)
    → Leaves quiet_frame cs o
    → HoldsSent id cs sent
    → SentIsStored (or_let_go basis now id cs sent o)
or_let_go-SentIsStored basis now id cs sent (raised e) h held =
    let_go-SentIsStored basis now id cs sent held
or_let_go-SentIsStored basis now id cs sent (done u new) h held =
    Leaves-HoldsSent id cs sent (done u new) h held

after_rebroadcast-SentIsStored :
    (basis : ℕ → Bool) (now : ℕ) (c : ChainCommandRecord) (cs : List ChainCommandRecord)
    (sent : Option Broadcast) (answer : Sent)
    → HoldsSent c.command_id cs sent
    → SentIsStored (after_rebroadcast basis now c cs sent answer)
after_rebroadcast-SentIsStored basis now c cs sent accepted held =
    or_let_go-SentIsStored basis now c.command_id cs sent _
      (mark_submitted-Leaves basis now c.command_id cs) held
after_rebroadcast-SentIsStored basis now c cs sent (unknown hash) held =
    conclude-SentIsStored c.command_id cs sent _ (mark_unknown-Leaves basis now c.command_id _ cs)
      held
after_rebroadcast-SentIsStored basis now c cs sent rejected held =
    let_go-SentIsStored basis now c.command_id cs sent held

after_receipt_mark-SentIsStored :
    (basis : ℕ → Bool) (now id : ℕ) (cs : List ChainCommandRecord) (o : Outcome Unit)
    → SentIsStored (after_receipt_mark basis now id cs o)
after_receipt_mark-SentIsStored basis now id cs (raised e) =
    let_go-SentIsStored basis now id cs none tt
after_receipt_mark-SentIsStored basis now id cs (done u new) =
    or_let_go-SentIsStored basis now id new none _ (mark_submitted-Leaves basis now id new) tt

act_on_receipt-SentIsStored :
    (basis : ℕ → Bool) (now : ℕ) (relayer : ChainRelayer) (c : ChainCommandRecord)
    (t : PreparedChainTransaction) (cs : List ChainCommandRecord)
    (answer : Option (Option ChainReceipt))
    → holds t c.command_id cs ≡ true
    → SentIsStored (act_on_receipt basis now relayer c t cs answer)
act_on_receipt-SentIsStored basis now relayer c t cs none held =
    let_go-SentIsStored basis now c.command_id cs none tt
act_on_receipt-SentIsStored basis now relayer c t cs (some none) held =
    after_rebroadcast-SentIsStored basis now c cs _ (relayer.broadcast t) (held, held)
act_on_receipt-SentIsStored basis now relayer c t cs (some (some receipt)) held =
    elim (Bool-cases (is_reverted (some receipt.status))) [
      | inl e ↦ rw e (
          or_let_go-SentIsStored basis now c.command_id cs none _
            (mark_reverted-Leaves basis now c.command_id receipt cs) tt)
      | inr e ↦ rw e (after_receipt_mark-SentIsStored basis now c.command_id cs _)
    ]

claim_status-ClaimsRow :
    (basis : ℕ → Bool) (now worker : ℕ) (cs : List ChainCommandRecord)
    → ClaimsRow (claim_status basis now worker submitted_unknown false cs)
unfolding claim_status
claim_status-ClaimsRow basis now worker cs =
    elim (Option-cases (least_recent (is_claimable now submitted_unknown false) cs)) [
      | inl e ↦ rw (e, claim_status) tt
      | inr (c, e) ↦
          rw (e, claim_status)
            (optional-ClaimsRow cs _ (λ test. update_row-Returns test basis _ _ cs))
    ]

reconcile_claimed-SentIsStored :
    (basis : ℕ → Bool) (now : ℕ) (relayer : ChainRelayer) (cs : List ChainCommandRecord)
    (o : Outcome (Option ChainCommandRecord))
    → ClaimsRow o
    → SentIsStored (reconcile_claimed basis now relayer cs o)
reconcile_claimed-SentIsStored basis now relayer cs (raised e) h = tt
reconcile_claimed-SentIsStored basis now relayer cs (done none new) h = tt
reconcile_claimed-SentIsStored basis now relayer cs (done (some c) new) h =
    elim (Option-cases (require_prepared c)) [
      | inl e ↦ rw e (let_go-SentIsStored basis now c.command_id new none tt)
      | inr (t, e) ↦ rw e (
          act_on_receipt-SentIsStored basis now relayer c t new (relayer.receipt t.transaction_hash)
            (h (is_of t c.command_id) (require_prepared-is_of c t c.command_id refl e)))
    ]

-- When the outcome of a submission is unknown, `reconcileUnknown` sends nothing but the transaction
-- that the table holds for the command whose id it returns, and the table still holds it when it
-- ends, whatever the relayer answers and however its calls and the statements fail. When it throws,
-- this holds for some command.
pub reconcile_unknown-SentIsStored :
    (basis : ℕ → Bool) (now worker : ℕ) (relayer : ChainRelayer) (cs : List ChainCommandRecord)
    → SentIsStored (reconcile_unknown basis now worker relayer cs)
unfolding reconcile_unknown
reconcile_unknown-SentIsStored basis now worker relayer cs =
    reconcile_claimed-SentIsStored basis now relayer cs _
      (claim_status-ClaimsRow basis now worker cs)
