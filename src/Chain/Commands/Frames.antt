-- ===== src/Chain/Commands/Frames.antt =====
-- What the forms of a statement leave of the table (chain-command.repository.ts).
use emu_key.Prelude.{
  ℕ, ◌≡◌, Bool, true, ◌&&◌, Option, none, some, List, [], ◌∷◌, is_id, Bool-cases, Option-cases, inl,
  inr, Rewritten, Rewritten-refl, Rewritten-trans,
}
use emu_key.Chain.Commands.{
  ChainCommandRecord, Update, no_row, refused, updated, update_row, behind, permitted,
}
use emu_key.Chain.Commands.Repository.{
  CommandError, Outcome, raised, done, optional, required, returned_nonce, already_prepared,
  prepared, PreparedChainTransaction,
}
use emu_key.Chain.Commands.Tracking.{ignored}
use emu_key.Chain.Commands.Kept.{Frame}

-- What an update leaves of a table.
unfoldable Keeps : Frame → List ChainCommandRecord → Update → Type 0
Keeps F cs (updated c new) = Rewritten F.rel cs new
Keeps F cs _ = Unit

Keeps-behind :
    (F : Frame)
    → (c : ChainCommandRecord) (cs : List ChainCommandRecord) (u : Update) → Keeps F cs u
    → Keeps F (c ∷ cs) (behind c u)
unfolding Keeps
Keeps-behind F c cs no_row h = tt
Keeps-behind F c cs refused h = tt
Keeps-behind F c cs (updated new all) h = (F.same c, h)

update_row-Keeps :
    (F : Frame)
    → (basis : ℕ → Bool) (p : ChainCommandRecord → Bool)
      (f : ChainCommandRecord → ChainCommandRecord)
    → ((c : ChainCommandRecord) → permitted basis c (f c) ≡ true → F.rel c (f c))
    → (cs : List ChainCommandRecord) → Keeps F cs (update_row basis p f cs)
unfolding update_row Keeps
update_row-Keeps F basis p f same [] = tt
update_row-Keeps F basis p f same (c ∷ cs) = elim (Bool-cases (p c)) [
  | inr e ↦
      rw e (Keeps-behind F c cs (update_row basis p f cs) (update_row-Keeps F basis p f same cs))
  | inl e ↦ elim (Bool-cases (permitted basis c (f c))) [
    | inl ok ↦ rw (e, ok) (same c ok, Rewritten-refl F.rel F.same cs)
    | inr bad ↦ rw (e, bad) tt
  ]
]

-- What a transaction leaves of a table.
unfoldable pub Leaves : {A : Type 0} → Frame → List ChainCommandRecord → Outcome A → Type 0
Leaves F cs (raised e) = Unit
Leaves F cs (done a new) = Rewritten F.rel cs new

Leaves-optional :
    (F : Frame)
    → (cs : List ChainCommandRecord) (u : Update) → Keeps F cs u
    → Leaves F cs (optional cs u)
unfolding Keeps Leaves
Leaves-optional F cs no_row h = Rewritten-refl F.rel F.same cs
Leaves-optional F cs refused h = tt
Leaves-optional F cs (updated c new) h = h

Leaves-required :
    (F : Frame)
    → (error : CommandError) (cs : List ChainCommandRecord) (u : Update) → Keeps F cs u
    → Leaves F cs (required error u)
unfolding Keeps Leaves
Leaves-required F error cs no_row h = tt
Leaves-required F error cs refused h = tt
Leaves-required F error cs (updated c new) h = h

Leaves-ignored :
    (F : Frame)
    → (cs : List ChainCommandRecord) (u : Update) → Keeps F cs u
    → Leaves F cs (ignored cs u)
unfolding Keeps Leaves
Leaves-ignored F cs no_row h = Rewritten-refl F.rel F.same cs
Leaves-ignored F cs refused h = tt
Leaves-ignored F cs (updated c new) h = h

Leaves-returned :
    (F : Frame)
    → (cs : List ChainCommandRecord) (u : Update) → Keeps F cs u
    → Leaves F cs (returned_nonce u)
unfolding Keeps Leaves
Leaves-returned F cs no_row h = tt
Leaves-returned F cs refused h = tt
Leaves-returned F cs (updated c new) h = elim (Option-cases c.nonce) [
  | inl e ↦ rw e tt
  | inr (n, e) ↦ rw e h
]

Leaves-already :
    (F : Frame)
    → (t : PreparedChainTransaction) (cs : List ChainCommandRecord)
      (found : Option ChainCommandRecord)
    → Leaves F cs (already_prepared t cs found)
unfolding Leaves
Leaves-already F t cs none = tt
Leaves-already F t cs (some c) =
    elim (Bool-cases (
      is_id c.nonce t.nonce
      && is_id c.relayer_address t.relayer_address
      && is_id c.transaction_hash t.transaction_hash
      && is_id c.signed_transaction t.raw_transaction)) [
        | inl e ↦ rw e (Rewritten-refl F.rel F.same cs)
        | inr e ↦ rw e tt
      ]

Leaves-prepared :
    (F : Frame)
    → (t : PreparedChainTransaction) (cs : List ChainCommandRecord) (u : Update)
      (found : Option ChainCommandRecord)
    → Keeps F cs u
    → Leaves F cs (prepared t cs u found)
unfolding Keeps Leaves
Leaves-prepared F t cs no_row found h = Leaves-already F t cs found
Leaves-prepared F t cs refused found h = tt
Leaves-prepared F t cs (updated c new) found h = h

pub Leaves-trans :
    (F : Frame)
    → {A : Type 0} (cs mid : List ChainCommandRecord) (o : Outcome A) → Rewritten F.rel cs mid
    → Leaves F mid o
    → Leaves F cs o
unfolding Leaves
Leaves-trans F cs mid (raised e) h k = tt
Leaves-trans F cs mid (done a new) h k = Rewritten-trans F.rel F.chain cs mid new h k

-- Each form of a statement, for any condition and any change that keeps the identity.
module _ (F : Frame) (p : ChainCommandRecord → Bool) (f : ChainCommandRecord → ChainCommandRecord)
    (basis : ℕ → Bool) (cs : List ChainCommandRecord)
    (same : (c : ChainCommandRecord) → permitted basis c (f c) ≡ true → F.rel c (f c)) where
  pub optional_update : Leaves F cs (optional cs (update_row basis p f cs))
  optional_update =
      Leaves-optional F cs (update_row basis p f cs) (update_row-Keeps F basis p f same cs)

  pub required_update :
      (error : CommandError) → Leaves F cs (required error (update_row basis p f cs))
  required_update error =
      Leaves-required F error cs (update_row basis p f cs) (update_row-Keeps F basis p f same cs)

  pub ignored_update : Leaves F cs (ignored cs (update_row basis p f cs))
  ignored_update =
      Leaves-ignored F cs (update_row basis p f cs) (update_row-Keeps F basis p f same cs)

  pub returned_update : Leaves F cs (returned_nonce (update_row basis p f cs))
  returned_update =
      Leaves-returned F cs (update_row basis p f cs) (update_row-Keeps F basis p f same cs)

  pub prepared_update :
      (t : PreparedChainTransaction) (found : Option ChainCommandRecord)
      → Leaves F cs (prepared t cs (update_row basis p f cs) found)
  prepared_update t found =
      Leaves-prepared F t cs (update_row basis p f cs) found (update_row-Keeps F basis p f same cs)
