-- ===== src/Chain/Scan/Reorgs/Canonical.antt =====
-- Which stored events the indexer marks as reorged (rpc-chain-indexer.service.ts, `indexRange`).
use mathlib.Core.List.{Memᴰ}
use emu_key.Prelude.{
  ℕ, ◌≤◌, ◌≡◌, ◌↔◌, refl, sym, subst, Bool, true, false, ◌&&◌, Option, none, some, List, [], ◌∷◌,
  arith, ◌==◌, is_id, Bool-cases, inl, inr, select_all, exists_where, count_where,
}
use emu_key.Chain.Scan.{RpcContractEvent}
use emu_key.Chain.Scan.Reorgs.{
  IndexedEvent, same_identity, or_else, canonical_hash, is_reorged, reorged_events,
}

-- A log that is the stored event: its identity in the same block.
abbrev pub is_log_of : IndexedEvent → RpcContractEvent → Bool
is_log_of stored log = same_identity stored log && log.block_hash == stored.block_hash

no_identity :
    (stored : IndexedEvent) (logs : List RpcContractEvent)
    → count_where (same_identity stored) logs ≡ 0
    → (canonical_hash stored logs ≡ none) × (exists_where (is_log_of stored) logs ≡ false)
unfolding canonical_hash count_where exists_where
no_identity stored [] none_there = (refl, refl)
no_identity stored (log ∷ logs) none_there = elim (Bool-cases (same_identity stored log)) [
  | inl e ↦ absurd (ground (arith, e, none_there))
  | inr e ↦
      let fewer : count_where (same_identity stored) logs ≡ 0 = ground (arith, e, none_there) in
      let (absent, no_log) = no_identity stored logs fewer in
      (rw (absent, e) refl, rw (e, no_log) refl)
]

or_else-none : (o : Option ℕ) → or_else o none ≡ o
or_else-none none = refl
or_else-none (some x) = refl

canonical_hash_exists :
    (stored : IndexedEvent) (logs : List RpcContractEvent)
    → count_where (same_identity stored) logs ≤ 1
    → is_id (canonical_hash stored logs) stored.block_hash ≡ exists_where (is_log_of stored) logs
unfolding canonical_hash count_where exists_where
canonical_hash_exists stored [] once = refl
canonical_hash_exists stored (log ∷ logs) once = elim (Bool-cases (same_identity stored log)) [
  | inl e ↦
      let fewer : count_where (same_identity stored) logs ≡ 0 = ground (arith, e, once) in
      let (absent, no_log) = no_identity stored logs fewer in rw (absent, e, no_log) (ground arith)
  | inr e ↦
      let fewer : count_where (same_identity stored) logs ≤ 1 = ground (arith, e, once) in
      rw (e, or_else-none (canonical_hash stored logs)) (canonical_hash_exists stored logs fewer)
]

select_all-mem :
    (p : IndexedEvent → Bool) (e : IndexedEvent) (rows : List IndexedEvent)
    → Memᴰ e (select_all p rows)
    → Memᴰ e rows × (p e ≡ true)
unfolding select_all
select_all-mem p e [] m = elim m [ ]
select_all-mem p e (r ∷ rows) m = elim (Bool-cases (p r)) [
  | inr h ↦
      let same : select_all p (r ∷ rows) ≡ select_all p rows = rw h refl in
      let (mem, ok) = select_all-mem p e rows (subst (λ x. Memᴰ e x) same m) in (Memᴰ.tail mem, ok)
  | inl h ↦
      let same : select_all p (r ∷ rows) ≡ r ∷ select_all p rows = rw h refl in
      elim (subst (λ x. Memᴰ e x) same m) [
        | Memᴰ.head q ↦ (Memᴰ.head q, subst (λ x. p x ≡ true) (sym q) h)
        | Memᴰ.tail n ↦ let (mem, ok) = select_all-mem p e rows n in (Memᴰ.tail mem, ok)
      ]
]

mem-select_all :
    (p : IndexedEvent → Bool) (e : IndexedEvent) (rows : List IndexedEvent)
    → Memᴰ e rows
    → p e ≡ true
    → Memᴰ e (select_all p rows)
unfolding select_all
mem-select_all p e [] m ok = elim m [ ]
mem-select_all p e (r ∷ rows) (Memᴰ.head q) ok =
    let h : p r ≡ true = subst (λ x. p x ≡ true) q ok in rw h (Memᴰ.head q)
mem-select_all p e (r ∷ rows) (Memᴰ.tail m) ok = elim (Bool-cases (p r)) [
  | inl h ↦ rw h (Memᴰ.tail (mem-select_all p e rows m ok))
  | inr h ↦ rw h (mem-select_all p e rows m ok)
]

-- An event of the database is marked as reorged exactly when it is stored for the range and no log
-- that the chain now has there is that event in the same block, if the node lists at most one log
-- with the event's identity (its transaction and its index).
pub reorged_events_iff :
    (logs : List RpcContractEvent) (existing : List IndexedEvent) (e : IndexedEvent)
    → count_where (same_identity e) logs ≤ 1
    → Memᴰ e (reorged_events logs existing)
      ↔ (Memᴰ e existing × (exists_where (is_log_of e) logs ≡ false))
unfolding reorged_events
reorged_events_iff logs existing e once =
    let found = canonical_hash_exists e logs once in
    (
      (λ m.
          let (mem, gone) = select_all-mem (is_reorged logs) e existing m in
          (mem, ground (arith, gone, found))),
      λ both. mem-select_all (is_reorged logs) e existing both.0 (ground (arith, both.1, found)),
    )
