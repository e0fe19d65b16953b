-- ===== src/Chain/Identifiers/Roundtrip.antt =====
-- An identifier of the contracts survives the way to a UUID and back (uuidToBytes16, bytes16ToUuid).
use emu_key.Prelude.{
  ℕ, zero, suc, ◌+◌, ◌≡◌, refl, sym, subst, ap, ◌∙◌, Bool, true, false, not, some, List, [], ◌∷◌,
  ◌++◌, map, arith, ◌==◌, select_all, All, length, Bool-cases, inl, inr,
}
use emu_key.Chain.Identifiers.{
  is_lower_hex, is_hex, to_lower, dash, hex_run, is_end, is_uuid, is_bytes16, take, drop, slice,
  uuid_of, bytes16_to_uuid, uuid_to_bytes16,
}

-- Hexadecimal digits in lower case.
abbrev pub IsLowerHex : List ℕ → Type 0
IsLowerHex = All (λ c. is_lower_hex c ≡ true)

to_lower-is_hex : (c : ℕ) → is_hex c ≡ true → is_lower_hex (to_lower c) ≡ true
to_lower-is_hex c h = ground (arith, h)

to_lower_lem : (c : ℕ) → is_lower_hex c ≡ true → to_lower c ≡ c
to_lower_lem c h = ground (arith, h)

-- A run of digits is a list of that length.
abbrev Digits : ℕ → (List ℕ → Bool) → List ℕ → Type 0
Digits n rest s =
    (d : List ℕ) × (r : List ℕ) × (s ≡ d ++ r)
    × (length d ≡ n)
    × (rest r ≡ true)
    × All (λ c. is_hex c ≡ true) d

run-Digits : (n : ℕ) (rest : List ℕ → Bool) (s : List ℕ) → hex_run n rest s ≡ true → Digits n rest s
unfolding hex_run
run-Digits zero rest s h = ([], s, refl, refl, h, tt)
run-Digits (suc n) rest [] h = cc
run-Digits (suc n) rest (c ∷ s) h =
    let (d, r, e, l, k, a) = run-Digits n rest s (ground (arith, h)) in
    (c ∷ d, r, ap (λ x. c ∷ x) e, ap suc l, k, (ground (arith, h), a))

split_run :
    (n m : ℕ) (rest : List ℕ → Bool) (s : List ℕ)
    → hex_run (n + m) rest s ≡ true
    → hex_run n (hex_run m rest) s ≡ true
unfolding hex_run
split_run zero m rest s h =
    subst (λ k. hex_run k rest s ≡ true) (let e : 0 + m ≡ m = omega arith in e) h
split_run (suc n) m rest [] h =
    let start : hex_run (suc (n + m)) rest [] ≡ true =
      subst (λ k. hex_run k rest [] ≡ true) (let e : suc n + m ≡ suc (n + m) = omega arith in e)
        h in
    ground (arith, start)
split_run (suc n) m rest (c ∷ s) h =
    let start : hex_run (suc (n + m)) rest (c ∷ s) ≡ true =
      subst (λ k. hex_run k rest (c ∷ s) ≡ true)
        (let e : suc n + m ≡ suc (n + m) = omega arith in e) h in
    let tail = split_run n m rest s (ground (arith, start)) in ground (arith, start, tail)

take_here : (n : ℕ) (d r : List ℕ) → length d ≡ n → take n (d ++ r) ≡ d
unfolding take
take_here zero [] r h = refl
take_here zero (c ∷ d) r h = absurd (omega (arith, h))
take_here (suc n) [] r h = absurd (omega (arith, h))
take_here (suc n) (c ∷ d) r h = ap (λ x. c ∷ x) (take_here n d r (omega (arith, h)))

drop_here : (n : ℕ) (d r : List ℕ) → length d ≡ n → drop n (d ++ r) ≡ r
unfolding drop
drop_here zero [] r h = refl
drop_here zero (c ∷ d) r h = absurd (omega (arith, h))
drop_here (suc n) [] r h = absurd (omega (arith, h))
drop_here (suc n) (c ∷ d) r h = drop_here n d r (omega (arith, h))

drop_past : (n m : ℕ) (d r : List ℕ) → length d ≡ n → drop (n + m) (d ++ r) ≡ drop m r
unfolding drop
drop_past zero m [] r h = ap (λ k. drop k r) (let e : 0 + m ≡ m = omega arith in e)
drop_past zero m (c ∷ d) r h = absurd (omega (arith, h))
drop_past (suc n) m [] r h = absurd (omega (arith, h))
drop_past (suc n) m (c ∷ d) r h =
    ap (λ k. drop k (c ∷ d ++ r)) (let e : suc n + m ≡ suc (n + m) = omega arith in e)
    ∙ drop_past n m d r (omega (arith, h))

hex_run_here :
    (n : ℕ) (rest : List ℕ → Bool) (d r : List ℕ)
    → length d ≡ n
    → IsLowerHex d
    → hex_run n rest (d ++ r) ≡ rest r
unfolding hex_run
hex_run_here zero rest [] r l h = refl
hex_run_here zero rest (c ∷ d) r l h = absurd (omega (arith, l))
hex_run_here (suc n) rest [] r l h = absurd (omega (arith, l))
hex_run_here (suc n) rest (c ∷ d) r l (h, hs) =
    rw (hex_run_here n rest d r (omega (arith, l)) hs) (ground (arith, h))

keep_digits :
    (d r : List ℕ)
    → IsLowerHex d
    → select_all (λ c. not (c == dash)) (d ++ r) ≡ d ++ select_all (λ c. not (c == dash)) r
unfolding select_all
keep_digits [] r h = refl
keep_digits (c ∷ d) r (h, hs) =
    let other : (c == dash) ≡ false = ground (arith, h) in rw (other, keep_digits d r hs) refl

keep_all : (d : List ℕ) → IsLowerHex d → select_all (λ c. not (c == dash)) d ≡ d
unfolding select_all
keep_all [] h = refl
keep_all (c ∷ d) (h, hs) =
    let other : (c == dash) ≡ false = ground (arith, h) in rw (other, keep_all d hs) refl

-- The five groups of digits of an identifier, in lower case.
record Groups (s : List ℕ) : Type 0 where
  pub a : List ℕ
  pub b : List ℕ
  pub c : List ℕ
  pub d : List ℕ
  pub e : List ℕ
  pub whole : map to_lower s ≡ a ++ (b ++ (c ++ (d ++ e)))
  pub sizes : (length a ≡ 8) × (length b ≡ 4) × (length c ≡ 4) × (length d ≡ 4) × (length e ≡ 12)
  pub digits : IsLowerHex a × IsLowerHex b × IsLowerHex c × IsLowerHex d × IsLowerHex e

abbrev dashed_groups : {s : List ℕ} → Groups s → List ℕ
dashed_groups g = g.a ++ (dash ∷ (g.b ++ (dash ∷ (g.c ++ (dash ∷ (g.d ++ (dash ∷ g.e)))))))

joined :
    {a b c d e a' b' c' d' e' : List ℕ}
    → a ≡ a'
    → b ≡ b'
    → c ≡ c'
    → d ≡ d'
    → e ≡ e'
    → a ++ (dash ∷ (b ++ (dash ∷ (c ++ (dash ∷ (d ++ (dash ∷ e)))))))
      ≡ a' ++ (dash ∷ (b' ++ (dash ∷ (c' ++ (dash ∷ (d' ++ (dash ∷ e')))))))
joined p q r t u = rw (p, q, r, t, u) refl

append_nil : (e : List ℕ) → e ++ [] ≡ e
append_nil [] = refl
append_nil (c ∷ e) = ap (λ x. c ∷ x) (append_nil e)

last_run : (e : List ℕ) → length e ≡ 12 → IsLowerHex e → hex_run 12 is_end e ≡ true
last_run e l h =
    subst (λ x. hex_run 12 is_end x ≡ true) (append_nil e) (hex_run_here 12 is_end e [] l h)

uuid_of-Groups : {s : List ℕ} (g : Groups s) → uuid_of (map to_lower s) ≡ dashed_groups g
unfolding uuid_of drop
uuid_of-Groups {s = s} g =
    let (la, lb, lc, ld, le) = g.sizes in
    let whole = g.a ++ (g.b ++ (g.c ++ (g.d ++ g.e))) in
    let at12 : drop 12 whole ≡ g.c ++ (g.d ++ g.e) =
      drop_past 8 4 g.a (g.b ++ (g.c ++ (g.d ++ g.e))) la
      ∙ drop_here 4 g.b (g.c ++ (g.d ++ g.e)) lb in
    let at16 : drop 16 whole ≡ g.d ++ g.e =
      drop_past 8 8 g.a (g.b ++ (g.c ++ (g.d ++ g.e))) la
      ∙ drop_past 4 4 g.b (g.c ++ (g.d ++ g.e)) lb
      ∙ drop_here 4 g.c (g.d ++ g.e) lc in
    let at20 : drop 20 whole ≡ g.e =
      drop_past 8 12 g.a (g.b ++ (g.c ++ (g.d ++ g.e))) la
      ∙ drop_past 4 8 g.b (g.c ++ (g.d ++ g.e)) lb
      ∙ drop_past 4 4 g.c (g.d ++ g.e) lc
      ∙ drop_here 4 g.d g.e ld in
    let at8 : drop 8 whole ≡ g.b ++ (g.c ++ (g.d ++ g.e)) =
      drop_here 8 g.a (g.b ++ (g.c ++ (g.d ++ g.e))) la in
    let first : slice 0 8 whole ≡ g.a = take_here 8 g.a (g.b ++ (g.c ++ (g.d ++ g.e))) la in
    let second : slice 8 12 whole ≡ g.b =
      ap (take 4) at8 ∙ take_here 4 g.b (g.c ++ (g.d ++ g.e)) lb in
    let third : slice 12 16 whole ≡ g.c = ap (take 4) at12 ∙ take_here 4 g.c (g.d ++ g.e) lc in
    let fourth : slice 16 20 whole ≡ g.d = ap (take 4) at16 ∙ take_here 4 g.d g.e ld in
    rw g.whole (joined first second third fourth at20)

Groups-uuid : {s : List ℕ} (g : Groups s) → is_uuid (dashed_groups g) ≡ true
unfolding is_uuid
Groups-uuid g =
    let (la, lb, lc, ld, le) = g.sizes in
    let (ha, hb, hc, hd, he) = g.digits in
    hex_run_here 8 _ g.a _ la ha
    ∙ hex_run_here 4 _ g.b _ lb hb
    ∙ hex_run_here 4 _ g.c _ lc hc
    ∙ hex_run_here 4 _ g.d _ ld hd
    ∙ last_run g.e le he

Groups-undashed :
    {s : List ℕ} (g : Groups s)
    → select_all (λ c. not (c == dash)) (dashed_groups g) ≡ map to_lower s
unfolding select_all
Groups-undashed g =
    let (ha, hb, hc, hd, he) = g.digits in
    keep_digits g.a _ ha
    ∙ ap (λ x. g.a ++ x)
        (keep_digits g.b _ hb
          ∙ ap (λ x. g.b ++ x)
              (keep_digits g.c _ hc
                ∙ ap (λ x. g.c ++ x) (keep_digits g.d _ hd ∙ ap (λ x. g.d ++ x) (keep_all g.e he))))
    ∙ sym g.whole

end_nil : (r : List ℕ) → is_end r ≡ true → r ≡ []
end_nil [] h = refl
end_nil (c ∷ r) h = cc

map_append : (d r : List ℕ) → map to_lower (d ++ r) ≡ map to_lower d ++ map to_lower r
map_append [] r = refl
map_append (c ∷ d) r = ap (λ x. to_lower c ∷ x) (map_append d r)

length-map : (d : List ℕ) → length (map to_lower d) ≡ length d
length-map [] = refl
length-map (c ∷ d) = ap suc (length-map d)

lowered : (d : List ℕ) → All (λ c. is_hex c ≡ true) d → IsLowerHex (map to_lower d)
lowered [] h = tt
lowered (c ∷ d) (h, hs) = (to_lower-is_hex c h, lowered d hs)

step :
    {s y : List ℕ} (d r : List ℕ)
    → s ≡ d ++ r
    → map to_lower r ≡ y
    → map to_lower s ≡ map to_lower d ++ y
step d r e h = ap (map to_lower) e ∙ map_append d r ∙ ap (λ x. map to_lower d ++ x) h

Groups-of : (s : List ℕ) → hex_run 32 is_end s ≡ true → Groups s
Groups-of s h =
    let (d1, r1, e1, l1, k1, h1) = run-Digits 8 (hex_run 24 is_end) s (split_run 8 24 is_end s h) in
    let (d2, r2, e2, l2, k2, h2) =
      run-Digits 4 (hex_run 20 is_end) r1 (split_run 4 20 is_end r1 k1) in
    let (d3, r3, e3, l3, k3, h3) =
      run-Digits 4 (hex_run 16 is_end) r2 (split_run 4 16 is_end r2 k2) in
    let (d4, r4, e4, l4, k4, h4) =
      run-Digits 4 (hex_run 12 is_end) r3 (split_run 4 12 is_end r3 k3) in
    let (d5, r5, e5, l5, k5, h5) = run-Digits 12 is_end r4 k4 in
    let last : r4 ≡ d5 = e5 ∙ ap (λ x. d5 ++ x) (end_nil r5 k5) ∙ append_nil d5 in
    record {
      a = map to_lower d1;
      b = map to_lower d2;
      c = map to_lower d3;
      d = map to_lower d4;
      e = map to_lower d5;
      whole =
          step d1 r1 e1 (step d2 r2 e2 (step d3 r3 e3 (step d4 r4 e4 (ap (map to_lower) last))));
      sizes = (
        length-map d1 ∙ l1,
        length-map d2 ∙ l2,
        length-map d3 ∙ l3,
        length-map d4 ∙ l4,
        length-map d5 ∙ l5,
      );
      digits = (lowered d1 h1, lowered d2 h2, lowered d3 h3, lowered d4 h4, lowered d5 h5);
    }

map_lower : (d : List ℕ) → IsLowerHex d → map to_lower d ≡ d
map_lower [] h = refl
map_lower (c ∷ d) (h, hs) = rw (to_lower_lem c h, map_lower d hs) refl

lowered_twice :
    (s : List ℕ) → hex_run 32 is_end s ≡ true → map to_lower (map to_lower s) ≡ map to_lower s
lowered_twice s h =
    let (d, r, e, l, k, hs) = run-Digits 32 is_end s h in
    let same : s ≡ d = e ∙ ap (λ x. d ++ x) (end_nil r k) ∙ append_nil d in
    rw same (map_lower (map to_lower d) (lowered d hs))

uuid_back :
    (s : List ℕ)
    → hex_run 32 is_end s ≡ true
    → uuid_to_bytes16 (uuid_of (map to_lower s)) ≡ some (48 ∷ 120 ∷ map to_lower s)
unfolding uuid_to_bytes16
uuid_back s h =
    let g = Groups-of s h in
    rw (uuid_of-Groups g, Groups-uuid g, Groups-undashed g, lowered_twice s h) refl

-- What bytes16ToUuid makes of sixteen bytes of the contracts, uuidToBytes16 accepts and turns back
-- into the same bytes, written in lower case: no identifier is refused or altered on the way.
pub uuid_to_bytes16-bytes16_to_uuid :
    (value uuid : List ℕ)
    → bytes16_to_uuid value ≡ some uuid
    → uuid_to_bytes16 uuid ≡ some (map to_lower value)
unfolding bytes16_to_uuid is_bytes16 drop
uuid_to_bytes16-bytes16_to_uuid [] uuid h = cc
uuid_to_bytes16-bytes16_to_uuid (a ∷ []) uuid h = cc
uuid_to_bytes16-bytes16_to_uuid (a ∷ b ∷ s) uuid h = elim (Bool-cases (is_bytes16 (a ∷ b ∷ s))) [
  | inr n ↦ ground (arith, n, h)
  | inl v ↦
      let marks : (a ≡ 48) × (b ≡ 120) × (hex_run 32 is_end s ≡ true) = ground (arith, v) in
      let same : uuid_of (map to_lower s) ≡ uuid = ground (arith, v, h) in
      subst (λ u. uuid_to_bytes16 u ≡ some (map to_lower (a ∷ b ∷ s))) same
        (rw (marks.0, marks.1) (uuid_back s marks.2))
]
