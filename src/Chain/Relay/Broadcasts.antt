-- ===== src/Chain/Relay/Broadcasts.antt =====
-- What `processNext` sends is what the table holds (chain-command.service.ts).
use emu_key.Prelude.{
  ℕ, ◌≡◌, refl, subst, Bool, true, ◌&&◌, ◌||◌, Option, none, some, List, [], ◌∷◌, arith, ◌==◌,
  is_some, is_id, Bool-cases, Option-cases, inl, inr, select_first, exists_where, select_first-mem,
  exists_where_of_mem, Follows, Rewritten-Follows,
}
use emu_key.Chain.Commands.{
  ChainCommandRecord, Update, no_row, refused, updated, update_row, behind, permitted, is_retryable,
}
use emu_key.Chain.Commands.Repository.{
  Outcome, raised, done, PreparedChainTransaction, mark_prepared, prepared, already_prepared,
  is_same, optional, claim_next,
}
use emu_key.Chain.Commands.Kept.{Kept, Stays, Quiet, quiet_frame}
use emu_key.Chain.Commands.Frames.{Leaves}
use emu_key.Chain.Commands.Steps.{table_after}
use emu_key.Chain.Commands.History.{
  mark_failure-Leaves, mark_submitted-Leaves, mark_unknown-Leaves, mark_pending-Leaves,
}
use emu_key.Chain.Relay.{
  require_prepared, prepared_from, Work, failed, made, attempt, then_do, or_fail, prepare_with,
  prepare_transaction, reserved_nonce, ChainRelayer, Broadcast, Processed, nothing_due, processed,
  thrown, conclude, give_up, after_submitted, after_broadcast, broadcast_prepared, send_ready,
  send_pended, send_claimed, process_next, Activation, activation_precondition, Sent, accepted,
  unknown, rejected,
}

-- Whether a row holds a transaction: its bytes, its hash, its nonce and its relayer.
abbrev pub is_of : PreparedChainTransaction → ℕ → ChainCommandRecord → Bool
is_of t id c =
    c.command_id == id
    && is_id c.nonce t.nonce
    && is_id c.relayer_address t.relayer_address
    && is_id c.signed_transaction t.raw_transaction
    && is_id c.transaction_hash t.transaction_hash

abbrev pub holds : PreparedChainTransaction → ℕ → List ChainCommandRecord → Bool
holds t id cs = exists_where (is_of t id) cs

Stays-is_id : (o n : Option ℕ) (x : ℕ) → Stays o n → is_id o x ≡ true → is_id n x ≡ true
Stays-is_id none n x h k = cc
Stays-is_id (some y) n x h k = rw h k

Kept-is_of :
    (t : PreparedChainTransaction) (id : ℕ) (a b : ChainCommandRecord)
    → Kept a b
    → is_of t id a ≡ true
    → is_of t id b ≡ true
Kept-is_of t id a b h held =
    let (same, network, chain) = h.identity in
    let n = Stays-is_id a.nonce b.nonce t.nonce h.nonce (ground (arith, held)) in
    let r =
      Stays-is_id a.relayer_address b.relayer_address t.relayer_address h.relayer
        (ground (arith, held)) in
    let s =
      Stays-is_id a.signed_transaction b.signed_transaction t.raw_transaction h.signed
        (ground (arith, held)) in
    let k =
      Stays-is_id a.transaction_hash b.transaction_hash t.transaction_hash h.hash
        (ground (arith, held)) in
    ground (arith, same, n, r, s, k, held)

-- A held transaction stays held.
Follows-holds :
    (t : PreparedChainTransaction) (id : ℕ) (cs new : List ChainCommandRecord)
    → Follows Kept cs new
    → holds t id cs ≡ true
    → holds t id new ≡ true
unfolding exists_where
Follows-holds t id [] new h held = cc
Follows-holds t id (c ∷ cs) [] h held = absurd h
Follows-holds t id (c ∷ cs) (q ∷ new) (h, hs) held = elim (Bool-cases (is_of t id c)) [
  | inl e ↦ rw (Kept-is_of t id c q h e) refl
  | inr e ↦
      let later : holds t id cs ≡ true =
        subst (λ b. b || exists_where (is_of t id) cs ≡ true) e held in
      ground (arith, Follows-holds t id cs new hs later)
]

-- The row that an update returns is in the table.
abbrev pub Returns : (ChainCommandRecord → Bool) → Update → Type 0
Returns test (updated c new) = test c ≡ true → exists_where test new ≡ true
Returns test _ = Unit

Returns-behind :
    (test : ChainCommandRecord → Bool) (q : ChainCommandRecord) (u : Update)
    → Returns test u
    → Returns test (behind q u)
unfolding exists_where
Returns-behind test q no_row h = tt
Returns-behind test q refused h = tt
Returns-behind test q (updated c new) h = λ e. ground (arith, h e)

pub update_row-Returns :
    (test : ChainCommandRecord → Bool) (basis : ℕ → Bool) (p : ChainCommandRecord → Bool)
    (f : ChainCommandRecord → ChainCommandRecord) (cs : List ChainCommandRecord)
    → Returns test (update_row basis p f cs)
unfolding update_row exists_where
update_row-Returns test basis p f [] = tt
update_row-Returns test basis p f (c ∷ cs) = elim (Bool-cases (p c)) [
  | inr e ↦
      rw e (Returns-behind test c (update_row basis p f cs) (update_row-Returns test basis p f cs))
  | inl e ↦ elim (Bool-cases (permitted basis c (f c))) [
    | inr bad ↦ rw (e, bad) tt
    | inl ok ↦ rw (e, ok) (λ h. rw h refl)
  ]
]

-- What `requirePrepared` gives is the transaction of the row.
prepared_from_lem :
    (network : ℕ) (n r s h : Option ℕ) (t : PreparedChainTransaction)
    → prepared_from network n r s h ≡ some t
    → is_id n t.nonce
        && is_id r t.relayer_address
        && is_id s t.raw_transaction
        && is_id h t.transaction_hash
      ≡ true
prepared_from_lem network (some n) (some r) (some s) (some h) t e = ground (arith, e)
prepared_from_lem network none r s h t e = cc
prepared_from_lem network (some n) none s h t e = cc
prepared_from_lem network (some n) (some r) none h t e = cc
prepared_from_lem network (some n) (some r) (some s) none t e = cc

pub require_prepared-is_of :
    (c : ChainCommandRecord) (t : PreparedChainTransaction) (id : ℕ)
    → c.command_id ≡ id
    → require_prepared c ≡ some t
    → is_of t id c ≡ true
require_prepared-is_of c t id same h = ground (
  arith,
  same,
  prepared_from_lem c.network c.nonce c.relayer_address c.signed_transaction c.transaction_hash t h,
)

-- A row of the table, by all that can be tested of it.
abbrev pub Member : List ChainCommandRecord → ChainCommandRecord → Type 0
Member cs c = (test : ChainCommandRecord → Bool) → test c ≡ true → exists_where test cs ≡ true

-- What a transaction that returns a row leaves: the row has the command's id and is in the table.
abbrev GivesRow : ℕ → Outcome ChainCommandRecord → Type 0
GivesRow id (raised e) = Unit
GivesRow id (done c new) = (c.command_id ≡ id) × Member new c

abbrev HasId : ℕ → Update → Type 0
HasId id (updated c new) = c.command_id ≡ id
HasId id _ = Unit

HasId-behind : (id : ℕ) (q : ChainCommandRecord) (u : Update) → HasId id u → HasId id (behind q u)
HasId-behind id q no_row h = tt
HasId-behind id q refused h = tt
HasId-behind id q (updated c new) h = h

update_row-HasId :
    (id : ℕ) (basis : ℕ → Bool) (p : ChainCommandRecord → Bool)
    (f : ChainCommandRecord → ChainCommandRecord) (cs : List ChainCommandRecord)
    → ((c : ChainCommandRecord) → p c ≡ true → (f c).command_id ≡ id)
    → HasId id (update_row basis p f cs)
unfolding update_row
update_row-HasId id basis p f [] named = tt
update_row-HasId id basis p f (c ∷ cs) named = elim (Bool-cases (p c)) [
  | inr e ↦
      rw e (HasId-behind id c (update_row basis p f cs) (update_row-HasId id basis p f cs named))
  | inl e ↦ elim (Bool-cases (permitted basis c (f c))) [
    | inr bad ↦ rw (e, bad) tt
    | inl ok ↦ rw (e, ok) (named c e)
  ]
]

already_prepared-GivesRow :
    (id : ℕ) (t : PreparedChainTransaction) (cs : List ChainCommandRecord)
    → GivesRow id (already_prepared t cs (select_first (λ c. c.command_id == id) cs))
already_prepared-GivesRow id t cs =
    elim (Option-cases (select_first (λ c. c.command_id == id) cs)) [
      | inl e ↦ rw e tt
      | inr (c, e) ↦
          let (mem, same) = select_first-mem (λ q. q.command_id == id) cs c e in
          let found : GivesRow id (already_prepared t cs (some c)) =
            elim (Bool-cases (is_same t c)) [
              | inl agrees ↦
                  rw agrees (ground (arith, same), λ test. λ h. exists_where_of_mem test cs c mem h)
              | inr differs ↦ rw differs tt
            ] in
          rw e found
    ]

prepared-GivesRow :
    (id : ℕ) (t : PreparedChainTransaction) (cs : List ChainCommandRecord) (u : Update)
    → HasId id u
    → ((test : ChainCommandRecord → Bool) → Returns test u)
    → GivesRow id (prepared t cs u (select_first (λ c. c.command_id == id) cs))
prepared-GivesRow id t cs no_row named present = already_prepared-GivesRow id t cs
prepared-GivesRow id t cs refused named present = tt
prepared-GivesRow id t cs (updated c new) named present = (named, present)

mark_prepared-GivesRow :
    (basis : ℕ → Bool) (now id : ℕ) (t : PreparedChainTransaction) (cs : List ChainCommandRecord)
    → GivesRow id (mark_prepared basis now id t cs)
unfolding mark_prepared
mark_prepared-GivesRow basis now id t cs =
    prepared-GivesRow id t cs _ (update_row-HasId id basis _ _ cs (λ c. λ h. ground (arith, h)))
      (λ test. update_row-Returns test basis _ _ cs)

-- What a part of the work has prepared is in the table that it leaves.
abbrev WorkHolds : ℕ → Work PreparedChainTransaction → Type 0
WorkHolds id (failed cs) = Unit
WorkHolds id (made t cs) = holds t id cs ≡ true

then_do-WorkHolds :
    {A : Type 0} (id : ℕ) (w : Work A)
    (k : A → List ChainCommandRecord → Work PreparedChainTransaction)
    → ((a : A) (cs : List ChainCommandRecord) → WorkHolds id (k a cs))
    → WorkHolds id (then_do w k)
then_do-WorkHolds id (failed cs) k each = tt
then_do-WorkHolds id (made a cs) k each = each a cs

required-WorkHolds :
    (id : ℕ) (c : ChainCommandRecord) (cs : List ChainCommandRecord)
    → c.command_id ≡ id
    → Member cs c
    → WorkHolds id (or_fail cs (require_prepared c))
required-WorkHolds id c cs same mem = elim (Option-cases (require_prepared c)) [
  | inl e ↦ rw e tt
  | inr (t, e) ↦ rw e (mem (is_of t id) (require_prepared-is_of c t id same e))
]

stored-WorkHolds :
    (id : ℕ) (cs : List ChainCommandRecord) (o : Outcome ChainCommandRecord)
    → GivesRow id o
    → WorkHolds id (then_do (attempt cs o) (λ stored. λ new. or_fail new (require_prepared stored)))
stored-WorkHolds id cs (raised e) h = tt
stored-WorkHolds id cs (done c new) (same, mem) = required-WorkHolds id c new same mem

prepare_with-WorkHolds :
    (basis : ℕ → Bool) (now : ℕ) (relayer : ChainRelayer) (c : ChainCommandRecord) (n address : ℕ)
    (cs : List ChainCommandRecord)
    → WorkHolds c.command_id (prepare_with basis now relayer c n address cs)
prepare_with-WorkHolds basis now relayer c n address cs =
    then_do-WorkHolds c.command_id (or_fail cs (relayer.prepare n)) _ (λ t. λ same.
      elim (Bool-cases (t.relayer_address == address)) [
        | inl e ↦ rw e (
            stored-WorkHolds c.command_id same _
              (mark_prepared-GivesRow basis now c.command_id t same))
        | inr e ↦ rw e tt
      ])

-- The transaction that a claimed record has is in the table.
abbrev Present : List ChainCommandRecord → ChainCommandRecord → Type 0
Present cs c =
    (t : PreparedChainTransaction) → require_prepared c ≡ some t → holds t c.command_id cs ≡ true

require_prepared-WorkHolds :
    (c : ChainCommandRecord) (cs : List ChainCommandRecord)
    → Present cs c
    → WorkHolds c.command_id (or_fail cs (require_prepared c))
require_prepared-WorkHolds c cs present = elim (Option-cases (require_prepared c)) [
  | inl e ↦ rw e tt
  | inr (t, e) ↦ rw e (present t e)
]

prepare_transaction-WorkHolds :
    (basis : ℕ → Bool) (now : ℕ) (relayer : ChainRelayer) (c : ChainCommandRecord)
    (cs : List ChainCommandRecord)
    → Present cs c
    → WorkHolds c.command_id (prepare_transaction basis now relayer c cs)
prepare_transaction-WorkHolds basis now relayer c cs mem =
    elim (Bool-cases (is_some c.signed_transaction || is_some c.transaction_hash)) [
      | inl e ↦ rw e (require_prepared-WorkHolds c cs mem)
      | inr e ↦ rw e (
          then_do-WorkHolds c.command_id (reserved_nonce basis now relayer c cs) _
            (λ slot. λ new. prepare_with-WorkHolds basis now relayer c slot.0 slot.1 new))
    ]

-- What a transaction leaves held.
Leaves-holds :
    {A : Type 0} (t : PreparedChainTransaction) (id : ℕ) (cs : List ChainCommandRecord)
    (o : Outcome A)
    → Leaves quiet_frame cs o
    → holds t id cs ≡ true
    → holds t id (table_after cs o) ≡ true
unfolding Leaves
Leaves-holds t id cs (raised e) h held = held
Leaves-holds t id cs (done a new) h held =
    Follows-holds t id cs new (Rewritten-Follows Quiet Kept (λ a. λ b. λ k. k.kept) cs new h) held

-- A broadcast was of a transaction that the table held for the command, and it still holds it.
abbrev pub HoldsSent : ℕ → List ChainCommandRecord → Option Broadcast → Type 0
HoldsSent id cs none = Unit
HoldsSent id cs (some b) = (holds b.transaction id b.at ≡ true) × (holds b.transaction id cs ≡ true)

abbrev pub SentIsStored : Processed → Type 0
SentIsStored (nothing_due cs) = Unit
SentIsStored (processed id cs sent) = HoldsSent id cs sent
SentIsStored (thrown cs none) = Unit
SentIsStored (thrown cs (some b)) = (id : ℕ) × HoldsSent id cs (some b)

pub Leaves-HoldsSent :
    (id : ℕ) (cs : List ChainCommandRecord) (sent : Option Broadcast) (o : Outcome Unit)
    → Leaves quiet_frame cs o
    → HoldsSent id cs sent
    → HoldsSent id (table_after cs o) sent
Leaves-HoldsSent id cs none o h held = tt
Leaves-HoldsSent id cs (some b) o h (before, now) =
    (before, Leaves-holds b.transaction id cs o h now)

thrown-SentIsStored :
    (id : ℕ) (cs : List ChainCommandRecord) (sent : Option Broadcast)
    → HoldsSent id cs sent
    → SentIsStored (thrown cs sent)
thrown-SentIsStored id cs none held = tt
thrown-SentIsStored id cs (some b) held = (id, held)

pub conclude-SentIsStored :
    (id : ℕ) (cs : List ChainCommandRecord) (sent : Option Broadcast) (o : Outcome Unit)
    → Leaves quiet_frame cs o
    → HoldsSent id cs sent
    → SentIsStored (conclude id cs sent o)
conclude-SentIsStored id cs sent (raised e) h held = thrown-SentIsStored id cs sent held
conclude-SentIsStored id cs sent (done u new) h held =
    Leaves-HoldsSent id cs sent (done u new) h held

give_up-SentIsStored :
    (basis : ℕ → Bool) (now : ℕ) (c : ChainCommandRecord) (cs : List ChainCommandRecord)
    (sent : Option Broadcast)
    → HoldsSent c.command_id cs sent
    → SentIsStored (give_up basis now c cs sent)
give_up-SentIsStored basis now c cs sent held =
    conclude-SentIsStored c.command_id cs sent _
      (mark_failure-Leaves basis now c.command_id c.attempt_count cs) held

after_submitted-SentIsStored :
    (basis : ℕ → Bool) (now : ℕ) (c : ChainCommandRecord) (cs : List ChainCommandRecord)
    (sent : Option Broadcast) (o : Outcome Unit)
    → Leaves quiet_frame cs o
    → HoldsSent c.command_id cs sent
    → SentIsStored (after_submitted basis now c cs sent o)
after_submitted-SentIsStored basis now c cs sent (raised e) h held =
    give_up-SentIsStored basis now c cs sent held
after_submitted-SentIsStored basis now c cs sent (done u new) h held =
    Leaves-HoldsSent c.command_id cs sent (done u new) h held

after_broadcast-SentIsStored :
    (basis : ℕ → Bool) (now : ℕ) (c : ChainCommandRecord) (cs : List ChainCommandRecord)
    (sent : Option Broadcast) (answer : Sent)
    → HoldsSent c.command_id cs sent
    → SentIsStored (after_broadcast basis now c cs sent answer)
after_broadcast-SentIsStored basis now c cs sent accepted held =
    after_submitted-SentIsStored basis now c cs sent _
      (mark_submitted-Leaves basis now c.command_id cs) held
after_broadcast-SentIsStored basis now c cs sent (unknown hash) held =
    conclude-SentIsStored c.command_id cs sent _ (mark_unknown-Leaves basis now c.command_id _ cs)
      held
after_broadcast-SentIsStored basis now c cs sent rejected held =
    give_up-SentIsStored basis now c cs sent held

broadcast_prepared-SentIsStored :
    (basis : ℕ → Bool) (now : ℕ) (relayer : ChainRelayer) (c : ChainCommandRecord)
    (w : Work PreparedChainTransaction)
    → WorkHolds c.command_id w
    → SentIsStored (broadcast_prepared basis now relayer c w)
broadcast_prepared-SentIsStored basis now relayer c (failed cs) h =
    give_up-SentIsStored basis now c cs none tt
broadcast_prepared-SentIsStored basis now relayer c (made t cs) h =
    after_broadcast-SentIsStored basis now c cs _ (relayer.broadcast t) (h, h)

send_ready-SentIsStored :
    (basis : ℕ → Bool) (now : ℕ) (relayer : ChainRelayer) (a : Option Activation)
    (c : ChainCommandRecord) (cs : List ChainCommandRecord)
    → Present cs c
    → SentIsStored (send_ready basis now relayer a c cs)
send_ready-SentIsStored basis now relayer a c cs present =
    elim (Bool-cases (activation_precondition c.command_type c a)) [
      | inl e ↦ rw e (
          broadcast_prepared-SentIsStored basis now relayer c _
            (prepare_transaction-WorkHolds basis now relayer c cs present))
      | inr e ↦ rw e (give_up-SentIsStored basis now c cs none tt)
    ]

send_pended-SentIsStored :
    (basis : ℕ → Bool) (now : ℕ) (relayer : ChainRelayer) (a : Option Activation)
    (c : ChainCommandRecord) (cs : List ChainCommandRecord) (o : Outcome ChainCommandRecord)
    → Leaves quiet_frame cs o
    → Present cs c
    → SentIsStored (send_pended basis now relayer a c cs o)
send_pended-SentIsStored basis now relayer a c cs (raised e) h present =
    give_up-SentIsStored basis now c cs none tt
send_pended-SentIsStored basis now relayer a c cs (done row new) h present =
    send_ready-SentIsStored basis now relayer a c new
      (λ t. λ e. Leaves-holds t c.command_id cs (done row new) h (present t e))

-- What a claim returns is in the table.
abbrev pub ClaimsRow : Outcome (Option ChainCommandRecord) → Type 0
ClaimsRow (done (some c) new) = Member new c
ClaimsRow _ = Unit

pub optional-ClaimsRow :
    (cs : List ChainCommandRecord) (u : Update)
    → ((test : ChainCommandRecord → Bool) → Returns test u)
    → ClaimsRow (optional cs u)
optional-ClaimsRow cs no_row h = tt
optional-ClaimsRow cs refused h = tt
optional-ClaimsRow cs (updated c new) h = h

claim_next-ClaimsRow :
    (basis : ℕ → Bool) (now worker : ℕ) (cs : List ChainCommandRecord)
    → ClaimsRow (claim_next basis now worker cs)
unfolding claim_next
claim_next-ClaimsRow basis now worker cs =
    optional-ClaimsRow cs _ (λ test. update_row-Returns test basis _ _ cs)

send_claimed-SentIsStored :
    (basis : ℕ → Bool) (now worker : ℕ) (relayer : ChainRelayer)
    (activation : ℕ → Option Activation) (cs : List ChainCommandRecord)
    (o : Outcome (Option ChainCommandRecord))
    → ClaimsRow o
    → SentIsStored (send_claimed basis now worker relayer activation cs o)
send_claimed-SentIsStored basis now worker relayer activation cs (raised e) h = tt
send_claimed-SentIsStored basis now worker relayer activation cs (done none new) h = tt
send_claimed-SentIsStored basis now worker relayer activation cs (done (some c) new) h =
    let present : Present new c =
      λ t. λ e. h (is_of t c.command_id) (require_prepared-is_of c t c.command_id refl e) in
    elim (Bool-cases (is_retryable c.status)) [
      | inl e ↦ rw e (
          send_pended-SentIsStored basis now relayer (activation c.command_id) c new _
            (mark_pending-Leaves basis now c.command_id worker new) present)
      | inr e ↦
          rw e (send_ready-SentIsStored basis now relayer (activation c.command_id) c new present)
    ]

-- Whatever the relayer answers and however its calls and the statements fail, a transaction that
-- `processNext` hands to the network is, at that moment, the one that the table holds for the
-- command whose id it returns (its bytes, hash, nonce and relayer), and the table still holds it
-- when `processNext` ends. When `processNext` throws, this holds for some command.
pub process_next-SentIsStored :
    (basis : ℕ → Bool) (now worker : ℕ) (relayer : ChainRelayer)
    (activation : ℕ → Option Activation) (cs : List ChainCommandRecord)
    → SentIsStored (process_next basis now worker relayer activation cs)
unfolding process_next
process_next-SentIsStored basis now worker relayer activation cs =
    send_claimed-SentIsStored basis now worker relayer activation cs _
      (claim_next-ClaimsRow basis now worker cs)
