-- ===== src/Commerce/Store/Outcomes.antt =====
-- What the operations of commerce.repository.ts give when they succeed.
use emu_key.Prelude.{◌≡◌, Bool, true, false, Bool-cases, inl, inr, if◌then◌else◌, subst}
use emu_key.Commerce.Store.{Store, Outcome, raised, done}

-- What an operation gives when it succeeds.
abbrev pub Ensures : {A : Type 0} → (A → Store → Type 0) → Outcome A → Type 0
Ensures P (raised error) = Unit
Ensures P (done a s) = P a s

pub Ensures-if :
    {A : Type 0} (P : A → Store → Type 0) (b : Bool) (x y : Outcome A)
    → (b ≡ true → Ensures P x)
    → (b ≡ false → Ensures P y)
    → Ensures P (if b then x else y)
Ensures-if P b x y h k = elim (Bool-cases b) [ inl e ↦ rw e (h e) | inr e ↦ rw e (k e) ]

pub result-Ensures :
    {A : Type 0} (P : A → Store → Type 0) (o : Outcome A) (a : A) (s : Store)
    → o ≡ done a s
    → Ensures P o
    → P a s
result-Ensures P o a s e h = subst (Ensures P) e h
