-- ===== src/Commerce/Store/Counting.antt =====
-- Counting the rows of a table before and after a statement, and rows found by a unique key.
use emu_key.Prelude.{
  ℕ, ◌+◌, ◌≤◌, ◌≡◌, refl, Bool, true, false, none, some, List, [], ◌∷◌, ◌++◌, arith, Bool-cases,
  inl, inr, select_first, update_first, update_where, count_where,
}

abbrev pub one_if : Bool → ℕ
one_if true = 1
one_if false = 0

module _ {ℓ} {R : Type ℓ} where
  -- An update of one row moves the count by that row.
  pub count_where-update_first :
      (q p : R → Bool) (f : R → R) (rs : List R) (r : R)
      → select_first p rs ≡ some r
      → count_where q (update_first p f rs) + one_if (q r) ≡ count_where q rs + one_if (q (f r))
  unfolding count_where update_first select_first
  count_where-update_first q p f [] r e = cc
  count_where-update_first q p f (x ∷ rs) r e = elim (Bool-cases (p x)) [
    | inl b ↦ let same : x ≡ r = ground (arith, b, e) in rw (b, same) (ground arith)
    | inr b ↦
        let ih = count_where-update_first q p f rs r (ground (arith, b, e)) in
        rw b (ground (arith, ih))
  ]

  pub count_where-none :
      (p : R → Bool) (rs : List R) → select_first p rs ≡ none → count_where p rs ≡ 0
  unfolding count_where select_first
  count_where-none p [] e = refl
  count_where-none p (x ∷ rs) e = ground (arith, count_where-none p rs)

  pub count_where-some :
      (q p : R → Bool) (rs : List R) (r : R)
      → select_first q rs ≡ some r
      → p r ≡ true
      → 1 ≤ count_where p rs
  unfolding count_where select_first
  count_where-some q p [] r e h = cc
  count_where-some q p (x ∷ rs) r e h = elim (Bool-cases (q x)) [
    | inl b ↦ let same : x ≡ r = ground (arith, b, e) in rw same (ground (arith, h))
    | inr b ↦ ground (arith, count_where-some q p rs r (ground (arith, b, e)) h)
  ]

  -- A row that is found by one condition is found by a unique key that it has.
  pub select_first-by_key :
      (q p : R → Bool) (rs : List R) (r : R)
      → count_where p rs ≤ 1
      → select_first q rs ≡ some r
      → p r ≡ true
      → select_first p rs ≡ some r
  unfolding count_where select_first
  select_first-by_key q p [] r u e h = cc
  select_first-by_key q p (x ∷ rs) r u e h = elim (Bool-cases (q x)) [
    | inl b ↦ let same : x ≡ r = ground (arith, b, e) in rw (same, h) refl
    | inr b ↦
        let rest : select_first q rs ≡ some r = ground (arith, b, e) in
        elim (Bool-cases (p x)) [
          | inl k ↦ ground (arith, k, u, count_where-some q p rs r rest h)
          | inr k ↦ rw k (select_first-by_key q p rs r (ground (arith, k, u)) rest h)
        ]
  ]

  pub count_where-update_where :
      (q p : R → Bool) (f : R → R) (rs : List R)
      → ((r : R) → q (f r) ≡ q r)
      → count_where q (update_where p f rs) ≡ count_where q rs
  unfolding count_where update_where
  count_where-update_where q p f [] same = refl
  count_where-update_where q p f (x ∷ rs) same =
      ground (arith, same x, count_where-update_where q p f rs same)

  pub count_where-update_first_eq :
      (q p : R → Bool) (f : R → R) (rs : List R)
      → ((r : R) → q (f r) ≡ q r)
      → count_where q (update_first p f rs) ≡ count_where q rs
  unfolding count_where update_first
  count_where-update_first_eq q p f [] same = refl
  count_where-update_first_eq q p f (x ∷ rs) same =
      ground (arith, same x, count_where-update_first_eq q p f rs same)

  pub count_where-le :
      (p q : R → Bool) (rs : List R)
      → ((r : R) → p r ≡ true → q r ≡ true)
      → count_where p rs ≤ count_where q rs
  unfolding count_where
  count_where-le p q [] weaker = omega arith
  count_where-le p q (x ∷ rs) weaker = ground (arith, weaker x, count_where-le p q rs weaker)

  pub count_where-append_one :
      (q : R → Bool) (rs : List R) (r : R)
      → count_where q (rs ++ r ∷ []) ≡ count_where q rs + one_if (q r)
  unfolding count_where
  count_where-append_one q [] r = ground arith
  count_where-append_one q (x ∷ rs) r = ground (arith, count_where-append_one q rs r)

  -- A key that no row has stays unique when a row with it is added.
  pub count_where-append_unique :
      (q : R → Bool) (rs : List R) (r : R)
      → count_where q rs ≤ 1
      → (q r ≡ true → count_where q rs ≡ 0)
      → count_where q (rs ++ r ∷ []) ≤ 1
  count_where-append_unique q rs r u fresh =
      let total = count_where-append_one q rs r in
      elim (Bool-cases (q r)) [
        | inl e ↦ let none_yet = fresh e in ground (arith, total, e, none_yet)
        | inr e ↦ ground (arith, total, e, u)
      ]
