-- ===== src/Chain/Commands/Recovery/Reconciliation.antt =====
-- Dead letters that were signed but never marked as submitted (chain-command.repository.ts,
-- `recoverDeadLetter`).
use emu_key.Prelude.{
  ℕ, ◌≡◌, refl, subst, Bool, true, false, not, ◌&&◌, ◌||◌, none, some, List, [], ◌∷◌, arith, ◌==◌,
  is_some, Bool-cases, inl, inr, select_first,
}
use emu_key.Chain.Commands.{
  ChainCommandRecord, is_dead, is_reverted, refused, update_row, permitted, satisfies_checks,
  is_resolved, may_become, submitted_unknown, keeps, same_receipt, has_receipt_evidence, is_issue,
  is_reopening,
}
use emu_key.Chain.Commands.Repository.{
  raised, database_error, dead_letter_submission_evidence_exists,
}
use emu_key.Chain.Commands.Recovery.{
  Evidence, reconcile_same_raw, requeue_no_submission, recover_dead_letter, resolve,
}

update_row-refused :
    (basis : ℕ → Bool) (id : ℕ) (f : ChainCommandRecord → ChainCommandRecord)
    (c : ChainCommandRecord) (cs : List ChainCommandRecord)
    → select_first (λ q. q.command_id == id) cs ≡ some c
    → is_dead c.status ≡ true
    → permitted basis c (f c) ≡ false
    → update_row basis (λ q. q.command_id == id && is_dead q.status) f cs ≡ refused
unfolding select_first update_row
update_row-refused basis id f c [] found dead bad = cc
update_row-refused basis id f c (q ∷ cs) found dead bad = elim (Bool-cases (q.command_id == id)) [
  | inr e ↦
      let later : select_first (λ q. q.command_id == id) cs ≡ some c = ground (arith, e, found) in
      rw (e, update_row-refused basis id f c cs later dead bad) refl
  | inl e ↦
      let same : c ≡ q = ground (arith, e, found) in
      let dead' : is_dead q.status ≡ true = subst (λ x. is_dead x.status ≡ true) same dead in
      let bad' : permitted basis q (f q) ≡ false =
        subst (λ x. permitted basis x (f x) ≡ false) same bad in
      rw (e, dead', bad') refl
]

last_test :
    (a b c d e f g h i j : Bool)
    → j ≡ false
    → a && b && c && d && e && f && g && h && i && j ≡ false
last_test a b c d e f g h i j bad = ground (arith, bad)

middle_check : (a b c d e : Bool) → c ≡ false → a && b && c && d && e ≡ false
middle_check a b c d e bad = ground (arith, bad)

not_permitted :
    (basis : ℕ → Bool) (now : ℕ) (c : ChainCommandRecord)
    → c.submitted_at ≡ none
    → permitted basis c (resolve now reconcile_same_raw c) ≡ false
unfolding permitted
not_permitted basis now c unsent =
    let checks : satisfies_checks (resolve now reconcile_same_raw c) ≡ false =
      middle_check
        (is_some c.relayer_address && is_some c.nonce
          || not (is_some c.relayer_address) && not (is_some c.nonce))
        (is_some c.signed_transaction && is_some c.transaction_hash && is_some c.nonce
          || not (is_some c.signed_transaction) && not (is_some c.transaction_hash))
        (is_some c.signed_transaction && is_some c.submitted_at)
        (has_receipt_evidence c.receipt_status (is_some c.transaction_hash)
          (is_some c.receipt_checked_at) (is_some c.receipt_block))
        (not (is_reverted c.receipt_status) || false || false) (ground (arith, unsent)) in
    last_test (not (is_resolved c.status)) (may_become c.status submitted_unknown)
      (keeps c.relayer_address c.relayer_address) (keeps c.nonce c.nonce)
      (keeps c.signed_transaction c.signed_transaction)
      (keeps c.transaction_hash c.transaction_hash)
      (same_receipt c (resolve now reconcile_same_raw c))
      (is_issue c.command_type
        || not (is_reopening c.status submitted_unknown)
        || basis c.command_id)
      (not (is_dead c.status && false) || not (is_some c.signed_transaction))
      (satisfies_checks (resolve now reconcile_same_raw c)) checks

-- A dead letter that holds a signed transaction and its hash but was never marked as submitted, as
-- after five failures between its signing and its submission, cannot be recovered by REQUEUE_NO_SUBMISSION, which finds
-- submission evidence, nor, if its receipt is not REVERTED, by RECONCILE_SAME_RAW, which the database
-- refuses, because SUBMITTED_UNKNOWN requires the time of a submission.
pub recover_dead_letter_unsubmitted :
    (basis : ℕ → Bool) (now id : ℕ) (e : Evidence) (c : ChainCommandRecord)
    (cs : List ChainCommandRecord)
    → select_first (λ q. q.command_id == id) cs ≡ some c
    → is_dead c.status ≡ true
    → is_some c.signed_transaction ≡ true
    → is_some c.transaction_hash ≡ true
    → is_reverted c.receipt_status ≡ false
    → c.submitted_at ≡ none
    → (recover_dead_letter basis now id requeue_no_submission e cs
        ≡ raised dead_letter_submission_evidence_exists)
      × (recover_dead_letter basis now id reconcile_same_raw e cs ≡ raised database_error)
unfolding recover_dead_letter
recover_dead_letter_unsubmitted basis now id e c cs found dead signed hashed fine unsent = (
  rw (recover_dead_letter, found, dead, signed) refl,
  rw
      (
        recover_dead_letter,
        found,
        dead,
        signed,
        hashed,
        fine,
        update_row-refused basis id (resolve now reconcile_same_raw) c cs found dead
            (not_permitted basis now c unsent),
      )
      refl,
)
