-- ===== src/Chain/Commands/Nonces.antt =====
-- The reservation of nonces: no two commands of a chain share a nonce of a relayer
-- (chain-command.repository.ts, `reserveNonce`).
use emu_key.Prelude.{
  ℕ, ◌+◌, ◌≤◌, ◌≡◌, refl, subst, Bool, true, not, ◌&&◌, none, some, List, [], ◌∷◌, arith, ltb, ◌==◌,
  if◌then◌else◌, is_id, is_some, Bool-cases, Option-cases, inl, inr, select_first, count_where,
  count_where-append, count_where-Rewritten,
}
use emu_key.Chain.Commands.{
  ChainCommandRecord, Update, no_row, refused, updated, update_row, behind, permitted,
}
use emu_key.Chain.Commands.Repository.{
  returned_nonce, set_nonce, next_nonce, reserve_nonce, max_safe_integer,
}
use emu_key.Chain.Commands.Kept.{Quiet}
use emu_key.Chain.Commands.Steps.{
  Run, nothing_yet, stated, reserved, inserted, execute-Quiet, table_after,
}

-- Whether a command holds a nonce of a relayer on a chain.
abbrev pub in_slot : ℕ → ℕ → ℕ → ℕ → ChainCommandRecord → Bool
in_slot network chain_id relayer n c =
    c.network == network
    && c.chain_id == chain_id
    && is_id c.relayer_address relayer
    && is_id c.nonce n

-- Every nonce of a relayer on a chain has at most one command.
abbrev pub UniqueNonces : List ChainCommandRecord → Type 0
UniqueNonces cs =
    (network chain_id relayer n : ℕ) → count_where (in_slot network chain_id relayer n) cs ≤ 1

-- No command has a nonce from the next one on.
next_nonce_unused :
    (network chain_id relayer floor n : ℕ) (cs : List ChainCommandRecord)
    → next_nonce network chain_id relayer floor cs ≤ n
    → count_where (in_slot network chain_id relayer n) cs ≡ 0
unfolding next_nonce count_where
next_nonce_unused network chain_id relayer floor n [] h = refl
next_nonce_unused network chain_id relayer floor n (c ∷ cs) h = elim (Option-cases c.nonce) [
  | inl e ↦ rw e (ground (arith, e, h, next_nonce_unused network chain_id relayer floor n cs))
  | inr (m, e) ↦ ground (arith, e, h, next_nonce_unused network chain_id relayer floor n cs)
]

-- An update of the first row of a condition, with how many rows pass a test afterwards.
abbrev Counts :
    (ChainCommandRecord → Bool) → ChainCommandRecord → List ChainCommandRecord → Update → Type 0
Counts test c cs (updated new all) =
    count_where test all ≤ count_where test cs + (if test c then 1 else 0)
Counts test c cs _ = Unit

Counts-behind :
    (test : ChainCommandRecord → Bool) (c q : ChainCommandRecord) (cs : List ChainCommandRecord)
    (u : Update)
    → Counts test c cs u
    → Counts test c (q ∷ cs) (behind q u)
unfolding count_where
Counts-behind test c q cs no_row h = tt
Counts-behind test c q cs refused h = tt
Counts-behind test c q cs (updated new all) h = ground (arith, h)

update_row-Counts :
    (test : ChainCommandRecord → Bool) (basis : ℕ → Bool) (p : ChainCommandRecord → Bool)
    (f : ChainCommandRecord → ChainCommandRecord) (c : ChainCommandRecord)
    (cs : List ChainCommandRecord)
    → select_first p cs ≡ some c
    → Counts test (f c) cs (update_row basis p f cs)
unfolding update_row count_where select_first
update_row-Counts test basis p f c [] found = tt
update_row-Counts test basis p f c (q ∷ cs) found = elim (Bool-cases (p q)) [
  | inr e ↦
      let later : select_first p cs ≡ some c = ground (arith, e, found) in
      rw e (
        Counts-behind test (f c) q cs (update_row basis p f cs)
          (update_row-Counts test basis p f c cs later))
  | inl e ↦
      let same : q ≡ c = ground (arith, e, found) in
      elim (Bool-cases (permitted basis q (f q))) [
        | inr bad ↦ rw (e, bad) tt
        | inl ok ↦
            rw (e, ok)
              (subst
                (λ x.
                  count_where test (f q ∷ cs)
                  ≤ count_where test (q ∷ cs) + (if test (f x) then 1 else 0))
                same (ground arith))
      ]
]

-- The table after a reservation, from what the update counts.
Counts-table_after :
    (test : ChainCommandRecord → Bool) (c : ChainCommandRecord) (cs : List ChainCommandRecord)
    (u : Update)
    → Counts test c cs u
    → count_where test (table_after cs (returned_nonce u))
      ≤ count_where test cs + (if test c then 1 else 0)
Counts-table_after test c cs no_row h = omega arith
Counts-table_after test c cs refused h = omega arith
Counts-table_after test c cs (updated new all) h = elim (Option-cases new.nonce) [
  | inl e ↦ rw e (omega arith)
  | inr (n, e) ↦ rw e h
]

-- The reserved row takes a slot that no row has.
set_nonce-in_slot :
    (network chain_id relayer n now r floor : ℕ) (c : ChainCommandRecord)
    (cs : List ChainCommandRecord)
    → in_slot network chain_id relayer n
        (set_nonce now r (next_nonce c.network c.chain_id r floor cs) c)
      ≡ true
    → count_where (in_slot network chain_id relayer n) cs ≡ 0
set_nonce-in_slot network chain_id relayer n now r floor c cs taken =
    let same_network : c.network ≡ network = ground (arith, taken) in
    let same_chain : c.chain_id ≡ chain_id = ground (arith, taken) in
    let same_relayer : r ≡ relayer = ground (arith, taken) in
    let same_nonce : next_nonce c.network c.chain_id r floor cs ≡ n = ground (arith, taken) in
    next_nonce_unused network chain_id relayer floor n cs (
      subst (λ x. next_nonce x chain_id relayer floor cs ≤ n) same_network
        (subst (λ x. next_nonce c.network x relayer floor cs ≤ n) same_chain
          (subst (λ x. next_nonce c.network c.chain_id x floor cs ≤ n) same_relayer
            (omega (arith, same_nonce)))))

reserve_nonce-UniqueNonces :
    (basis : ℕ → Bool) (now id relayer suggested : ℕ) (cs : List ChainCommandRecord)
    → UniqueNonces cs
    → UniqueNonces (table_after cs (reserve_nonce basis now id relayer suggested cs))
unfolding reserve_nonce
reserve_nonce-UniqueNonces basis now id r suggested cs unique network chain_id relayer n =
    elim (Bool-cases (ltb max_safe_integer suggested)) [
      | inl e ↦ rw (e, reserve_nonce) (unique network chain_id relayer n)
      | inr e ↦ elim (Option-cases (select_first (λ c. c.command_id == id) cs)) [
        | inl absent ↦ rw (e, reserve_nonce, absent) (unique network chain_id relayer n)
        | inr (c, found) ↦
            elim (Bool-cases (is_some c.relayer_address && not (is_id c.relayer_address r))) [
              | inl changed ↦
                  rw (e, reserve_nonce, found, changed) (unique network chain_id relayer n)
              | inr kept ↦ elim (Option-cases c.nonce) [
                | inr (m, held) ↦
                    rw (e, reserve_nonce, found, kept, held) (unique network chain_id relayer n)
                | inl free ↦
                    let f : ChainCommandRecord → ChainCommandRecord =
                      set_nonce now r (next_nonce c.network c.chain_id r suggested cs) in
                    let test : ChainCommandRecord → Bool = in_slot network chain_id relayer n in
                    let counted : count_where test (
                          table_after cs
                            (returned_nonce (update_row basis (λ q. q.command_id == id) f cs)))
                        ≤ count_where test cs + (if test (f c) then 1 else 0) =
                      Counts-table_after test (f c) cs _
                        (update_row-Counts test basis (λ q. q.command_id == id) f c cs found) in
                    rw (e, reserve_nonce, found, kept, free)
                      (elim (Bool-cases (test (f c))) [
                        | inl taken ↦
                            let none_yet : count_where test cs ≡ 0 =
                              set_nonce-in_slot network chain_id relayer n now r suggested c cs
                                taken in
                            ground (arith, counted, none_yet, taken)
                        | inr other ↦
                            ground (arith, counted, other, unique network chain_id relayer n)
                      ])
              ]
            ]
      ]
    ]

Quiet-in_slot :
    (network chain_id relayer n : ℕ) (a b : ChainCommandRecord)
    → Quiet a b
    → in_slot network chain_id relayer n b ≡ in_slot network chain_id relayer n a
Quiet-in_slot network chain_id relayer n a b h =
    let (id, network, chain) = h.kept.identity in
    rw (network, chain, h.same_relayer, h.same_nonce) refl

fresh_slot :
    (network chain_id relayer n : ℕ) (c : ChainCommandRecord)
    → c.nonce ≡ none
    → count_where (in_slot network chain_id relayer n) (c ∷ []) ≡ 0
unfolding count_where
fresh_slot network chain_id relayer n c fresh = ground (arith, fresh)

-- From a table in which no two commands of a chain share a nonce of a relayer, whatever statements
-- run in whatever order, and whatever nonces the node suggests, no two ever do.
pub Run-UniqueNonces :
    (start cs : List ChainCommandRecord) → UniqueNonces start → Run start cs → UniqueNonces cs
Run-UniqueNonces start cs unique nothing_yet network chain_id relayer n =
    unique network chain_id relayer n
Run-UniqueNonces start cs unique (stated {cs = before} earlier basis now s) network chain_id relayer
      n =
    let kept : count_where (in_slot network chain_id relayer n) cs
        ≡ count_where (in_slot network chain_id relayer n) before =
      count_where-Rewritten Quiet (in_slot network chain_id relayer n)
        (λ a. λ b. λ h. Quiet-in_slot network chain_id relayer n a b h) before cs
        (execute-Quiet basis now s before) in
    omega (arith, kept, Run-UniqueNonces start before unique earlier network chain_id relayer n)
Run-UniqueNonces start cs unique (reserved {cs = before} earlier basis now id r suggested) network
      chain_id relayer n =
    reserve_nonce-UniqueNonces basis now id r suggested before
      (Run-UniqueNonces start before unique earlier) network chain_id relayer n
Run-UniqueNonces start cs unique (inserted {cs = before} earlier c fresh) network chain_id relayer
      n =
    let more = count_where-append (in_slot network chain_id relayer n) before (c ∷ []) in
    let nothing : count_where (in_slot network chain_id relayer n) (c ∷ []) ≡ 0 =
      fresh_slot network chain_id relayer n c fresh in
    omega (
      arith,
      more,
      nothing,
      Run-UniqueNonces start before unique earlier network chain_id relayer n,
    )
