-- ===== src/Chain/Commands/Kept.antt =====
-- What a row of chain_commands keeps through an update that the database's guard lets pass.
use emu_key.Prelude.{
  ℕ, ◌≡◌, refl, ap, subst, ◌∙◌, Bool, true, not, ◌&&◌, ◌||◌, Option, none, some, arith, is_some,
}
use emu_key.Chain.Commands.{
  ChainCommandRecord, ReceiptStatus, receipt_reverted, receipt_success, receipt_pending, permitted,
  keeps, same_receipt, same_receipt_status, is_definitive, same_value, is_resolved, may_become,
  is_issue, is_reopening, is_dead, is_pending, satisfies_checks,
}

-- A column that has a value keeps it.
abbrev pub Stays : Option ℕ → Option ℕ → Type 0
Stays none new = Unit
Stays (some x) new = new ≡ some x

-- A receipt that is definitive stays.
abbrev pub ReceiptStays : Option ReceiptStatus → Option ReceiptStatus → Type 0
ReceiptStays (some receipt_reverted) new = new ≡ some receipt_reverted
ReceiptStays (some receipt_success) new = new ≡ some receipt_success
ReceiptStays _ new = Unit

pub record Kept (old : ChainCommandRecord) (new : ChainCommandRecord) : Type 0 where
  pub identity :
      (new.command_id ≡ old.command_id)
      × (new.network ≡ old.network)
      × (new.chain_id ≡ old.chain_id)
  pub relayer : Stays old.relayer_address new.relayer_address
  pub nonce : Stays old.nonce new.nonce
  pub signed : Stays old.signed_transaction new.signed_transaction
  pub hash : Stays old.transaction_hash new.transaction_hash
  pub receipt : ReceiptStays old.receipt_status new.receipt_status
  -- with a definitive receipt, its block and the time of its check
  pub receipt_evidence :
      is_definitive old.receipt_status ≡ true
      → (new.receipt_block ≡ old.receipt_block) × (new.receipt_checked_at ≡ old.receipt_checked_at)

keeps-Stays : (old new : Option ℕ) → keeps old new ≡ true → Stays old new
keeps-Stays none new h = tt
keeps-Stays (some x) none h = cc
keeps-Stays (some x) (some y) h = let same : y ≡ x = ground arith in ap some same

same_receipt-ReceiptStays :
    (old new : Option ReceiptStatus) → same_receipt_status old new ≡ true → ReceiptStays old new
same_receipt-ReceiptStays (some receipt_reverted) (some receipt_reverted) h = refl
same_receipt-ReceiptStays (some receipt_reverted) (some receipt_success) h = cc
same_receipt-ReceiptStays (some receipt_reverted) (some receipt_pending) h = cc
same_receipt-ReceiptStays (some receipt_reverted) none h = cc
same_receipt-ReceiptStays (some receipt_success) (some receipt_success) h = refl
same_receipt-ReceiptStays (some receipt_success) (some receipt_reverted) h = cc
same_receipt-ReceiptStays (some receipt_success) (some receipt_pending) h = cc
same_receipt-ReceiptStays (some receipt_success) none h = cc
same_receipt-ReceiptStays (some receipt_pending) new h = tt
same_receipt-ReceiptStays none new h = tt

same_of_value : (old new : Option ℕ) → same_value old new ≡ true → new ≡ old
same_of_value none none h = refl
same_of_value none (some y) h = cc
same_of_value (some x) none h = cc
same_of_value (some x) (some y) h = let same : y ≡ x = ground arith in ap some same

receipt_tests :
    (a d v w : Bool)
    → a && (not d || v && w) ≡ true
    → (a ≡ true) × (d ≡ true → (v ≡ true) × (w ≡ true))
receipt_tests a d v w h = ground (arith, h)

is_definitive_later :
    (a b : Option ReceiptStatus)
    → ReceiptStays a b
    → is_definitive a ≡ true
    → is_definitive b ≡ true
is_definitive_later (some receipt_reverted) b h d = rw h refl
is_definitive_later (some receipt_success) b h d = rw h refl
is_definitive_later (some receipt_pending) b h d = cc
is_definitive_later none b h d = cc

Stays-refl : (o : Option ℕ) → Stays o o
Stays-refl none = tt
Stays-refl (some x) = refl

Stays-trans : (a b c : Option ℕ) → Stays a b → Stays b c → Stays a c
Stays-trans none b c h k = tt
Stays-trans (some x) none c h k = cc
Stays-trans (some x) (some y) c h k = k ∙ h

-- The statements write only these columns; the identity stays by the statement, the rest by the
-- database's guard.
abbrev pub SameIdentity : ChainCommandRecord → ChainCommandRecord → Type 0
SameIdentity old new =
    (new.command_id ≡ old.command_id) × (new.network ≡ old.network) × (new.chain_id ≡ old.chain_id)

-- The tests in the middle of the guard.
middle_tests :
    (a b c d e f g h i j : Bool)
    → a && b && c && d && e && f && g && h && i && j ≡ true
    → (c ≡ true) × (d ≡ true) × (e ≡ true) × (f ≡ true) × (g ≡ true)
middle_tests a b c d e f g h i j ok = ground (arith, ok)

pub permitted-Kept :
    (basis : ℕ → Bool) (old new : ChainCommandRecord)
    → SameIdentity old new
    → permitted basis old new ≡ true
    → Kept old new
unfolding permitted
permitted-Kept basis old new same ok =
    let (relayer, nonce, signed, hash, receipt) =
      middle_tests (not (is_resolved old.status)) (may_become old.status new.status)
        (keeps old.relayer_address new.relayer_address) (keeps old.nonce new.nonce)
        (keeps old.signed_transaction new.signed_transaction)
        (keeps old.transaction_hash new.transaction_hash) (same_receipt old new)
        (is_issue new.command_type
          || not (is_reopening old.status new.status)
          || basis new.command_id)
        (not (is_dead old.status && is_pending new.status) || not (is_some old.signed_transaction))
        (satisfies_checks new) ok in
    let (status, evidence) =
      receipt_tests (same_receipt_status old.receipt_status new.receipt_status)
        (is_definitive old.receipt_status) (same_value old.receipt_block new.receipt_block)
        (same_value old.receipt_checked_at new.receipt_checked_at) receipt in
    record {
      identity = same;
      relayer = keeps-Stays old.relayer_address new.relayer_address relayer;
      nonce = keeps-Stays old.nonce new.nonce nonce;
      signed = keeps-Stays old.signed_transaction new.signed_transaction signed;
      hash = keeps-Stays old.transaction_hash new.transaction_hash hash;
      receipt = same_receipt-ReceiptStays old.receipt_status new.receipt_status status;
      receipt_evidence = λ d.
          let (block, checked) = evidence d in
          (
            same_of_value old.receipt_block new.receipt_block block,
            same_of_value old.receipt_checked_at new.receipt_checked_at checked,
          );
    }

Receipt-refl : (o : Option ReceiptStatus) → ReceiptStays o o
Receipt-refl (some receipt_reverted) = refl
Receipt-refl (some receipt_success) = refl
Receipt-refl (some receipt_pending) = tt
Receipt-refl none = tt

Receipt-trans :
    (a b c : Option ReceiptStatus) → ReceiptStays a b → ReceiptStays b c → ReceiptStays a c
Receipt-trans none b c h k = tt
Receipt-trans (some receipt_pending) b c h k = tt
Receipt-trans (some receipt_reverted) b c h k = subst (λ x. ReceiptStays x c) h k
Receipt-trans (some receipt_success) b c h k = subst (λ x. ReceiptStays x c) h k

pub Kept-refl : (c : ChainCommandRecord) → Kept c c
Kept-refl c = record {
  identity = (refl, refl, refl);
  relayer = Stays-refl c.relayer_address;
  nonce = Stays-refl c.nonce;
  signed = Stays-refl c.signed_transaction;
  hash = Stays-refl c.transaction_hash;
  receipt = Receipt-refl c.receipt_status;
  receipt_evidence = λ d. (refl, refl);
}

pub Kept-trans : (a b c : ChainCommandRecord) → Kept a b → Kept b c → Kept a c
Kept-trans a b c h k = record {
  identity = ground (arith, h.identity, k.identity);
  relayer = Stays-trans a.relayer_address b.relayer_address c.relayer_address h.relayer k.relayer;
  nonce = Stays-trans a.nonce b.nonce c.nonce h.nonce k.nonce;
  signed =
      Stays-trans a.signed_transaction b.signed_transaction c.signed_transaction h.signed k.signed;
  hash = Stays-trans a.transaction_hash b.transaction_hash c.transaction_hash h.hash k.hash;
  receipt = Receipt-trans a.receipt_status b.receipt_status c.receipt_status h.receipt k.receipt;
  receipt_evidence = λ d.
      let (block, checked) = h.receipt_evidence d in
      let later = is_definitive_later a.receipt_status b.receipt_status h.receipt d in
      let (block', checked') = k.receipt_evidence later in (block' ∙ block, checked' ∙ checked);
}

-- The statements other than the reservation leave the nonce and its relayer as they are.
pub record Quiet (old : ChainCommandRecord) (new : ChainCommandRecord) : Type 0 where
  pub kept : Kept old new
  pub same_relayer : new.relayer_address ≡ old.relayer_address
  pub same_nonce : new.nonce ≡ old.nonce

pub permitted-Quiet :
    (basis : ℕ → Bool) (old new : ChainCommandRecord)
    → SameIdentity old new
    → new.relayer_address ≡ old.relayer_address
    → new.nonce ≡ old.nonce
    → permitted basis old new ≡ true
    → Quiet old new
permitted-Quiet basis old new same relayer nonce ok = record {
  kept = permitted-Kept basis old new same ok;
  same_relayer = relayer;
  same_nonce = nonce;
}

-- A relation between the states of a row that a sequence of updates can be followed along.
pub record Frame : Type 1 where
  pub rel : ChainCommandRecord → ChainCommandRecord → Type 0
  pub same : (c : ChainCommandRecord) → rel c c
  pub chain : (a b c : ChainCommandRecord) → rel a b → rel b c → rel a c

abbrev pub kept_frame : Frame
kept_frame = record { rel = Kept; same = Kept-refl; chain = Kept-trans }

abbrev pub quiet_frame : Frame
quiet_frame = record {
  rel = Quiet;
  same = λ c. record { kept = Kept-refl c; same_relayer = refl; same_nonce = refl };
  chain = λ a. λ b. λ c. λ h. λ k. record {
    kept = Kept-trans a b c h.kept k.kept;
    same_relayer = k.same_relayer ∙ h.same_relayer;
    same_nonce = k.same_nonce ∙ h.same_nonce;
  };
}
