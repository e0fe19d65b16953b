-- ===== src/Chain/Commands/History.antt =====
-- What no statement of the command repository changes in a row, whatever the order in which the
-- statements run (chain-command.repository.ts).
use emu_key.Prelude.{
  ℕ, ◌≡◌, refl, Bool, true, not, ◌&&◌, Option, List, ltb, ◌==◌, is_id, is_some, Bool-cases,
  Option-cases, inl, inr, Rewritten-refl, select_first,
}
use emu_key.Chain.Commands.{ChainCommandRecord, ChainCommandStatus, permitted, is_dead}
use emu_key.Chain.Commands.Repository.{
  Outcome, raised, done, claim_next, mark_pending, reserve_nonce, mark_prepared, max_safe_integer,
  PreparedChainTransaction,
}
use emu_key.Chain.Commands.Tracking.{
  mark_submitted, mark_unknown, then_unknown, mark_receipt, mark_reverted, mark_failure, release,
  release_submitted, claim_status, ChainReceipt, least_recent, is_claimable,
}
use emu_key.Chain.Commands.Recovery.{
  RecoveryMode, requeue_no_submission, reconcile_same_raw, abandon_reverted, abandon_no_effect,
  Evidence, recover_dead_letter, resolve, recovery_error, admits_evidence,
}
use emu_key.Chain.Commands.Kept.{
  Kept, Kept-refl, Quiet, permitted-Kept, permitted-Quiet, kept_frame, quiet_frame,
}
use emu_key.Chain.Commands.Frames.{
  Leaves, Leaves-trans, optional_update, required_update, ignored_update, returned_update,
  prepared_update,
}

pub claim_next-Leaves :
    (basis : ℕ → Bool) (now worker : ℕ) (cs : List ChainCommandRecord)
    → Leaves quiet_frame cs (claim_next basis now worker cs)
unfolding claim_next
claim_next-Leaves basis now worker cs =
    optional_update quiet_frame _ _ basis cs
      (λ c. permitted-Quiet basis c _ (refl, refl, refl) refl refl)

pub mark_pending-Leaves :
    (basis : ℕ → Bool) (now id worker : ℕ) (cs : List ChainCommandRecord)
    → Leaves quiet_frame cs (mark_pending basis now id worker cs)
unfolding mark_pending
mark_pending-Leaves basis now id worker cs =
    required_update quiet_frame _ _ basis cs
      (λ c. permitted-Quiet basis c _ (refl, refl, refl) refl refl) _

pub mark_submitted-Leaves :
    (basis : ℕ → Bool) (now id : ℕ) (cs : List ChainCommandRecord)
    → Leaves quiet_frame cs (mark_submitted basis now id cs)
unfolding mark_submitted
mark_submitted-Leaves basis now id cs =
    ignored_update quiet_frame _ _ basis cs
      (λ c. permitted-Quiet basis c _ (refl, refl, refl) refl refl)

pub release-Leaves :
    (basis : ℕ → Bool) (now id : ℕ) (cs : List ChainCommandRecord)
    → Leaves quiet_frame cs (release basis now id cs)
unfolding release
release-Leaves basis now id cs =
    ignored_update quiet_frame _ _ basis cs
      (λ c. permitted-Quiet basis c _ (refl, refl, refl) refl refl)

pub release_submitted-Leaves :
    (basis : ℕ → Bool) (now id : ℕ) (cs : List ChainCommandRecord)
    → Leaves quiet_frame cs (release_submitted basis now id cs)
unfolding release_submitted
release_submitted-Leaves basis now id cs =
    ignored_update quiet_frame _ _ basis cs
      (λ c. permitted-Quiet basis c _ (refl, refl, refl) refl refl)

pub mark_failure-Leaves :
    (basis : ℕ → Bool) (now id attempts : ℕ) (cs : List ChainCommandRecord)
    → Leaves quiet_frame cs (mark_failure basis now id attempts cs)
unfolding mark_failure
mark_failure-Leaves basis now id attempts cs =
    ignored_update quiet_frame _ _ basis cs
      (λ c. permitted-Quiet basis c _ (refl, refl, refl) refl refl)

pub mark_receipt-Leaves :
    (basis : ℕ → Bool) (now id : ℕ) (receipt : ChainReceipt) (cs : List ChainCommandRecord)
    → Leaves quiet_frame cs (mark_receipt basis now id receipt cs)
unfolding mark_receipt
mark_receipt-Leaves basis now id receipt cs =
    ignored_update quiet_frame _ _ basis cs
      (λ c. permitted-Quiet basis c _ (refl, refl, refl) refl refl)

pub mark_reverted-Leaves :
    (basis : ℕ → Bool) (now id : ℕ) (receipt : ChainReceipt) (cs : List ChainCommandRecord)
    → Leaves quiet_frame cs (mark_reverted basis now id receipt cs)
unfolding mark_reverted
mark_reverted-Leaves basis now id receipt cs =
    ignored_update quiet_frame _ _ basis cs
      (λ c. permitted-Quiet basis c _ (refl, refl, refl) refl refl)

pub reserve_nonce-Leaves :
    (basis : ℕ → Bool) (now id relayer suggested : ℕ) (cs : List ChainCommandRecord)
    → Leaves kept_frame cs (reserve_nonce basis now id relayer suggested cs)
unfolding reserve_nonce Leaves
reserve_nonce-Leaves basis now id relayer suggested cs =
    elim (Bool-cases (ltb max_safe_integer suggested)) [
      | inl e ↦ rw (e, reserve_nonce) tt
      | inr e ↦ elim (Option-cases (select_first (λ c. c.command_id == id) cs)) [
        | inl absent ↦ rw (e, reserve_nonce, absent) tt
        | inr (c, found) ↦
            elim (Bool-cases (is_some c.relayer_address && not (is_id c.relayer_address relayer))) [
              | inl changed ↦ rw (e, reserve_nonce, found, changed) tt
              | inr kept ↦ elim (Option-cases c.nonce) [
                | inr (n, reserved) ↦
                    rw (e, reserve_nonce, found, kept, reserved) (Rewritten-refl Kept Kept-refl cs)
                | inl free ↦
                    rw (e, reserve_nonce, found, kept, free)
                      (returned_update kept_frame _ _ basis cs
                        (λ c. permitted-Kept basis c _ (refl, refl, refl)))
              ]
            ]
      ]
    ]

pub mark_prepared-Leaves :
    (basis : ℕ → Bool) (now id : ℕ) (t : PreparedChainTransaction) (cs : List ChainCommandRecord)
    → Leaves quiet_frame cs (mark_prepared basis now id t cs)
unfolding mark_prepared
mark_prepared-Leaves basis now id t cs =
    prepared_update quiet_frame _ _ basis cs
      (λ c. permitted-Quiet basis c _ (refl, refl, refl) refl refl) t _

Leaves-unknown :
    (basis : ℕ → Bool) (now id : ℕ) (hash : Option ℕ) (cs : List ChainCommandRecord)
    (first : Outcome Unit)
    → Leaves quiet_frame cs first
    → Leaves quiet_frame cs (then_unknown basis now id hash first)
unfolding Leaves
Leaves-unknown basis now id hash cs (raised e) h = tt
Leaves-unknown basis now id hash cs (done u mid) h = Leaves-trans quiet_frame cs mid _ h (
    ignored_update quiet_frame _ _ basis mid
      (λ c. permitted-Quiet basis c _ (refl, refl, refl) refl refl))

pub mark_unknown-Leaves :
    (basis : ℕ → Bool) (now id : ℕ) (hash : Option ℕ) (cs : List ChainCommandRecord)
    → Leaves quiet_frame cs (mark_unknown basis now id hash cs)
unfolding mark_unknown
mark_unknown-Leaves basis now id hash cs = Leaves-unknown basis now id hash cs _ (
    ignored_update quiet_frame _ _ basis cs
      (λ c. permitted-Quiet basis c _ (refl, refl, refl) refl refl))

pub claim_status-Leaves :
    (basis : ℕ → Bool) (now worker : ℕ) (status : ChainCommandStatus) (exclude : Bool)
    (cs : List ChainCommandRecord)
    → Leaves quiet_frame cs (claim_status basis now worker status exclude cs)
unfolding claim_status Leaves
claim_status-Leaves basis now worker status exclude cs =
    elim (Option-cases (least_recent (is_claimable now status exclude) cs)) [
      | inl e ↦ rw (e, claim_status) (Rewritten-refl Quiet quiet_frame.same cs)
      | inr (c, e) ↦
          rw (e, claim_status)
            (optional_update quiet_frame _ _ basis cs
              (λ c. permitted-Quiet basis c _ (refl, refl, refl) refl refl))
    ]

resolve-Quiet :
    (basis : ℕ → Bool) (now : ℕ) (mode : RecoveryMode) (c : ChainCommandRecord)
    → permitted basis c (resolve now mode c) ≡ true
    → Quiet c (resolve now mode c)
resolve-Quiet basis now requeue_no_submission c =
    permitted-Quiet basis c _ (refl, refl, refl) refl refl
resolve-Quiet basis now reconcile_same_raw c =
    permitted-Quiet basis c _ (refl, refl, refl) refl refl
resolve-Quiet basis now abandon_reverted c = permitted-Quiet basis c _ (refl, refl, refl) refl refl
resolve-Quiet basis now abandon_no_effect c = permitted-Quiet basis c _ (refl, refl, refl) refl refl

pub recover_dead_letter-Leaves :
    (basis : ℕ → Bool) (now id : ℕ) (mode : RecoveryMode) (e : Evidence)
    (cs : List ChainCommandRecord)
    → Leaves quiet_frame cs (recover_dead_letter basis now id mode e cs)
unfolding recover_dead_letter Leaves
recover_dead_letter-Leaves basis now id mode e cs =
    elim (Option-cases (select_first (λ c. c.command_id == id) cs)) [
      | inl absent ↦ rw (absent, recover_dead_letter) tt
      | inr (c, found) ↦ elim (Bool-cases (is_dead c.status)) [
        | inr alive ↦ rw (found, recover_dead_letter, alive) tt
        | inl dead ↦ elim (Option-cases (recovery_error mode e c)) [
          | inr (error, why) ↦ rw (found, recover_dead_letter, dead, why) tt
          | inl fine ↦ elim (Bool-cases (admits_evidence mode e c)) [
            | inr not_admitted ↦ rw (found, recover_dead_letter, dead, fine, not_admitted) tt
            | inl admitted ↦
                rw (found, recover_dead_letter, dead, fine, admitted)
                  (required_update quiet_frame _ _ basis cs (resolve-Quiet basis now mode) _)
          ]
        ]
      ]
    ]
