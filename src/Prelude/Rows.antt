-- ===== src/Prelude/Rows.antt =====
-- Tables as lists of rows in the order of their creation, and the SQL statements over them:
-- SELECT with a condition and LIMIT 1, UPDATE with a condition, EXISTS.
use Prim.Native.Nat.{ℕ, suc, ◌+◌, ◌≤◌}
use mathlib.Core.Path.{◌≡◌, refl, sym, subst}
use mathlib.Core.Bool.{Bool, true, false, ◌||◌}
use mathlib.Core.Option.{Option, none, some}
use mathlib.Core.List.{List, [], ◌∷◌, ◌++◌, Memᴰ}
use mathlib.Core.Logic.{inl, inr}
use native.Mathlib.Omega.{arith}
use emu_key.Prelude.Tests.{if◌then◌else◌, Bool-cases}

module _ {ℓ} {R : Type ℓ} where
  -- The first row that satisfies the condition.
  unfoldable pub select_first : (R → Bool) → List R → Option R
  select_first p [] = none
  select_first p (r ∷ rs) = if p r then some r else select_first p rs

  unfoldable pub update_where : (R → Bool) → (R → R) → List R → List R
  update_where p f [] = []
  update_where p f (r ∷ rs) = (if p r then f r else r) ∷ update_where p f rs

  -- UPDATE of the one row that a SELECT … LIMIT 1 with the same condition has found, by its key.
  unfoldable pub update_first : (R → Bool) → (R → R) → List R → List R
  update_first p f [] = []
  update_first p f (r ∷ rs) = if p r then f r ∷ rs else r ∷ update_first p f rs

  unfoldable pub exists_where : (R → Bool) → List R → Bool
  exists_where p [] = false
  exists_where p (r ∷ rs) = p r || exists_where p rs

  unfoldable pub select_all : (R → Bool) → List R → List R
  select_all p [] = []
  select_all p (r ∷ rs) = if p r then r ∷ select_all p rs else select_all p rs

  -- The number of rows that satisfy a condition.
  unfoldable pub count_where : (R → Bool) → List R → ℕ
  count_where p [] = 0
  count_where p (r ∷ rs) = if p r then suc (count_where p rs) else count_where p rs

-- The table after some statements: its rows in their places, each related to what it was, and
-- perhaps new rows behind them.
abbrev pub Follows {ℓ} : {R : Type ℓ} → (R → R → Type 0) → List R → List R → Type 0
Follows E [] new = Unit
Follows E (r ∷ rs) [] = ⊥
Follows E (r ∷ rs) (r' ∷ new) = E r r' × Follows E rs new

abbrev pub All {ℓ κ} : {R : Type ℓ} → (R → Type κ) → List R → Type κ
All P [] = Unit
All P (r ∷ rs) = P r × All P rs

module _ {ℓ κ} {R : Type ℓ} (P : R → Type κ) where
  -- What every updated row keeps, the table keeps.
  pub All-update_where :
      (p : R → Bool) (f : R → R) (rs : List R)
      → ((r : R) → p r ≡ true → P r → P (f r))
      → All P rs
      → All P (update_where p f rs)
  unfolding update_where
  All-update_where p f [] keep h = tt
  All-update_where p f (r ∷ rs) keep (h, hs) = elim (Bool-cases (p r)) [
    | inl e ↦ rw e (keep r e h, All-update_where p f rs keep hs)
    | inr e ↦ rw e (h, All-update_where p f rs keep hs)
  ]

  pub All-update_first :
      (p : R → Bool) (f : R → R) (rs : List R)
      → ((r : R) → p r ≡ true → P r → P (f r))
      → All P rs
      → All P (update_first p f rs)
  unfolding update_first
  All-update_first p f [] keep h = tt
  All-update_first p f (r ∷ rs) keep (h, hs) = elim (Bool-cases (p r)) [
    | inl e ↦ rw e (keep r e h, hs)
    | inr e ↦ rw e (h, All-update_first p f rs keep hs)
  ]

  pub All-append : (rs qs : List R) → All P rs → All P qs → All P (rs ++ qs)
  All-append [] qs h k = k
  All-append (r ∷ rs) qs (h, hs) k = (h, All-append rs qs hs k)

  -- A selected row satisfies the condition, and what all rows satisfy.
  pub select_first-All :
      (p : R → Bool) (rs : List R) {r : R}
      → select_first p rs ≡ some r
      → All P rs
      → P r × (p r ≡ true)
  unfolding select_first
  select_first-All p [] e h = cc
  select_first-All p (q ∷ rs) {r} e (h, hs) = elim (Bool-cases (p q)) [
    | inl b ↦ let same : q ≡ r = ground (arith, b, e) in subst (λ x. P x × (p x ≡ true)) same (h, b)
    | inr b ↦ select_first-All p rs (ground (arith, b, e)) hs
  ]

module _ {ℓ} {R : Type ℓ} where
  -- A selected row is a row of the table, and satisfies the condition.
  pub select_first-mem :
      (p : R → Bool) (rs : List R) (r : R) → select_first p rs ≡ some r → Memᴰ r rs × (p r ≡ true)
  unfolding select_first
  select_first-mem p [] r e = cc
  select_first-mem p (q ∷ rs) r e = elim (Bool-cases (p q)) [
    | inl b ↦
        let same : q ≡ r = ground (arith, b, e) in
        (Memᴰ.head (sym same), subst (λ x. p x ≡ true) same b)
    | inr b ↦ let (m, h) = select_first-mem p rs r (ground (arith, b, e)) in (Memᴰ.tail m, h)
  ]

  pub exists_where_of_mem :
      (p : R → Bool) (rs : List R) (r : R) → Memᴰ r rs → p r ≡ true → exists_where p rs ≡ true
  unfolding exists_where
  exists_where_of_mem p [] r m h = elim m [ ]
  exists_where_of_mem p (q ∷ rs) r (Memᴰ.head same) h =
      let e : p q ≡ true = subst (λ x. p x ≡ true) same h in ground (arith, e)
  exists_where_of_mem p (q ∷ rs) r (Memᴰ.tail m) h = ground (arith, exists_where_of_mem p rs r m h)

module _ {ℓ} {R : Type ℓ} (E : R → R → Type 0) where
  pub Follows-refl : ((r : R) → E r r) → (rs : List R) → Follows E rs rs
  Follows-refl same [] = tt
  Follows-refl same (r ∷ rs) = (same r, Follows-refl same rs)

  pub Follows-update_where :
      (p : R → Bool) (f : R → R) (rs : List R)
      → ((r : R) → E r r)
      → ((r : R) → p r ≡ true → E r (f r))
      → Follows E rs (update_where p f rs)
  unfolding update_where
  Follows-update_where p f [] same step = tt
  Follows-update_where p f (r ∷ rs) same step = elim (Bool-cases (p r)) [
    | inl e ↦ rw e (step r e, Follows-update_where p f rs same step)
    | inr e ↦ rw e (same r, Follows-update_where p f rs same step)
  ]

  pub Follows-update_first :
      (p : R → Bool) (f : R → R) (rs : List R)
      → ((r : R) → E r r)
      → ((r : R) → p r ≡ true → E r (f r))
      → Follows E rs (update_first p f rs)
  unfolding update_first
  Follows-update_first p f [] same step = tt
  Follows-update_first p f (r ∷ rs) same step = elim (Bool-cases (p r)) [
    | inl e ↦ rw e (step r e, Follows-refl same rs)
    | inr e ↦ rw e (same r, Follows-update_first p f rs same step)
  ]

  pub Follows-append : (rs qs new : List R) → Follows E rs qs → Follows E rs (qs ++ new)
  Follows-append [] qs new h = tt
  Follows-append (r ∷ rs) [] new h = absurd h
  Follows-append (r ∷ rs) (q ∷ qs) new (h, hs) = (h, Follows-append rs qs new hs)

  pub Follows-trans :
      ((a b c : R) → E a b → E b c → E a c)
      → (rs qs ts : List R) → Follows E rs qs
      → Follows E qs ts
      → Follows E rs ts
  Follows-trans chain [] qs ts h k = tt
  Follows-trans chain (r ∷ rs) [] ts h k = absurd h
  Follows-trans chain (r ∷ rs) (q ∷ qs) [] h k = absurd k
  Follows-trans chain (r ∷ rs) (q ∷ qs) (t ∷ ts) (h, hs) (k, ks) =
      (chain r q t h k, Follows-trans chain rs qs ts hs ks)

module _ {ℓ} {R : Type ℓ} where
  -- An update that turns no row into one that is counted does not raise the count.
  pub count_where-update_where_le :
      (q p : R → Bool) (f : R → R) (rs : List R)
      → ((r : R) → p r ≡ true → q (f r) ≡ true → q r ≡ true)
      → count_where q (update_where p f rs) ≤ count_where q rs
  unfolding count_where update_where
  count_where-update_where_le q p f [] keep = omega arith
  count_where-update_where_le q p f (r ∷ rs) keep =
      ground (arith, keep r, count_where-update_where_le q p f rs keep)

  pub count_where-update_first_le :
      (q p : R → Bool) (f : R → R) (rs : List R)
      → ((r : R) → p r ≡ true → q (f r) ≡ true → q r ≡ true)
      → count_where q (update_first p f rs) ≤ count_where q rs
  unfolding count_where update_first
  count_where-update_first_le q p f [] keep = omega arith
  count_where-update_first_le q p f (r ∷ rs) keep =
      ground (arith, keep r, count_where-update_first_le q p f rs keep)

  pub count_where-update_where_zero :
      (q p : R → Bool) (f : R → R) (rs : List R)
      → ((r : R) → q r ≡ true → p r ≡ true)
      → ((r : R) → p r ≡ true → q (f r) ≡ false)
      → count_where q (update_where p f rs) ≡ 0
  unfolding count_where update_where
  count_where-update_where_zero q p f [] covered cleared = refl
  count_where-update_where_zero q p f (r ∷ rs) covered cleared =
      ground (arith, covered r, cleared r, count_where-update_where_zero q p f rs covered cleared)

  pub count_where-append :
      (q : R → Bool) (rs qs : List R)
      → count_where q (rs ++ qs) ≡ count_where q rs + count_where q qs
  unfolding count_where
  count_where-append q [] qs = omega arith
  count_where-append q (r ∷ rs) qs = ground (arith, count_where-append q rs qs)

-- The same rows in their places, each related to what it was.
abbrev pub Rewritten {ℓ} : {R : Type ℓ} → (R → R → Type 0) → List R → List R → Type 0
Rewritten E [] [] = Unit
Rewritten E [] (q ∷ qs) = ⊥
Rewritten E (r ∷ rs) [] = ⊥
Rewritten E (r ∷ rs) (q ∷ qs) = E r q × Rewritten E rs qs

module _ {ℓ} {R : Type ℓ} (E : R → R → Type 0) where
  pub Rewritten-refl : ((r : R) → E r r) → (rs : List R) → Rewritten E rs rs
  Rewritten-refl same [] = tt
  Rewritten-refl same (r ∷ rs) = (same r, Rewritten-refl same rs)

  pub Rewritten-trans :
      ((a b c : R) → E a b → E b c → E a c)
      → (rs qs ts : List R) → Rewritten E rs qs
      → Rewritten E qs ts
      → Rewritten E rs ts
  Rewritten-trans chain [] [] [] h k = tt
  Rewritten-trans chain [] [] (t ∷ ts) h k = absurd k
  Rewritten-trans chain [] (q ∷ qs) ts h k = absurd h
  Rewritten-trans chain (r ∷ rs) [] ts h k = absurd h
  Rewritten-trans chain (r ∷ rs) (q ∷ qs) [] h k = absurd k
  Rewritten-trans chain (r ∷ rs) (q ∷ qs) (t ∷ ts) (h, hs) (k, ks) =
      (chain r q t h k, Rewritten-trans chain rs qs ts hs ks)

  -- Rewritten rows with a weaker relation.
  pub Rewritten-Follows :
      (D : R → R → Type 0)
      → ((a b : R) → E a b → D a b)
      → (rs qs : List R) → Rewritten E rs qs
      → Follows D rs qs
  Rewritten-Follows D weaken [] qs h = tt
  Rewritten-Follows D weaken (r ∷ rs) [] h = absurd h
  Rewritten-Follows D weaken (r ∷ rs) (q ∷ qs) (h, hs) =
      (weaken r q h, Rewritten-Follows D weaken rs qs hs)

  -- A test that the relation respects counts the same rows.
  pub count_where-Rewritten :
      (test : R → Bool)
      → ((a b : R) → E a b → test b ≡ test a)
      → (rs qs : List R) → Rewritten E rs qs
      → count_where test qs ≡ count_where test rs
  unfolding count_where
  count_where-Rewritten test respects [] [] h = refl
  count_where-Rewritten test respects [] (q ∷ qs) h = absurd h
  count_where-Rewritten test respects (r ∷ rs) [] h = absurd h
  count_where-Rewritten test respects (r ∷ rs) (q ∷ qs) (h, hs) =
      rw (respects r q h, count_where-Rewritten test respects rs qs hs) refl

-- An update of the one row that is found.
pub Follows-update_found {ℓ} :
    {R : Type ℓ} (E : R → R → Type 0) (p : R → Bool) (f : R → R) (rs : List R) (r : R)
    → ((q : R) → E q q)
    → select_first p rs ≡ some r
    → E r (f r)
    → Follows E rs (update_first p f rs)
unfolding update_first select_first
Follows-update_found E p f [] r same e step = tt
Follows-update_found E p f (q ∷ rs) r same e step = elim (Bool-cases (p q)) [
  | inl b ↦
      let found : q ≡ r = ground (arith, b, e) in
      rw b (subst (λ x. E x (f x)) (sym found) step, Follows-refl E same rs)
  | inr b ↦ rw b (same q, Follows-update_found E p f rs r same (ground (arith, b, e)) step)
]
