-- ===== src/Identity/Users/Locks.antt =====
-- Locking an account after failed logins, and unlocking it (identity.repository.ts).
use emu_key.Prelude.{
  ℕ, zero, suc, ◌+◌, ◌≤◌, ◌<◌, ◌≡◌, refl, subst, Bool, true, false, none, some, List, [], ◌∷◌,
  arith, leb, ◌==◌, if◌then◌else◌, Bool-cases, inl, inr, select_first,
}
use native.Mathlib.Decide.{dec_lt}
use emu_key.Identity.Users.{
  UserRow, is_active, is_locked, Change, unchanged, changed, behind, update_one, has_id,
  count_failure, record_failed_login, unlock_expired, touch_login,
}

abbrev pub table_after : List UserRow → Change → List UserRow
table_after us unchanged = us
table_after us (changed u new) = new

after_behind :
    (u : UserRow) (us : List UserRow) (c : Change)
    → table_after (u ∷ us) (behind u c) ≡ u ∷ table_after us c
after_behind u us unchanged = refl
after_behind u us (changed v new) = refl

-- The row of the key after a statement that keeps the key.
update_one_select :
    (key p : UserRow → Bool) (f : UserRow → UserRow) (u : UserRow) (us : List UserRow)
    → ((q : UserRow) → key (f q) ≡ key q)
    → select_first key us ≡ some u
    → select_first key (table_after us (update_one key p f us)) ≡ some (if p u then f u else u)
unfolding update_one select_first
update_one_select key p f u [] keeps found = cc
update_one_select key p f u (q ∷ us) keeps found = elim (Bool-cases (key q)) [
  | inr e ↦
      let later : select_first key us ≡ some u = ground (arith, e, found) in
      rw (e, after_behind q us (update_one key p f us), e)
        (update_one_select key p f u us keeps later)
  | inl e ↦
      let same : q ≡ u = ground (arith, e, found) in
      elim (Bool-cases (p q)) [
        | inl h ↦
            rw (e, h, keeps q, e)
              (subst (λ x. some (f q) ≡ some (if p x then f x else x)) same (rw h refl))
        | inr h ↦
            rw (e, h, e) (subst (λ x. some q ≡ some (if p x then f x else x)) same (rw h refl))
      ]
]

update_one_idle :
    (key p : UserRow → Bool) (f : UserRow → UserRow) (u : UserRow) (us : List UserRow)
    → select_first key us ≡ some u
    → p u ≡ false
    → update_one key p f us ≡ unchanged
unfolding update_one select_first
update_one_idle key p f u [] found idle = refl
update_one_idle key p f u (q ∷ us) found idle = elim (Bool-cases (key q)) [
  | inr e ↦
      let later : select_first key us ≡ some u = ground (arith, e, found) in
      rw (e, update_one_idle key p f u us later idle) refl
  | inl e ↦
      let same : u ≡ q = ground (arith, e, found) in
      let idle' : p q ≡ false = subst (λ x. p x ≡ false) same idle in rw (e, idle') refl
]

-- A login that is recorded for an account that has been locked meanwhile strands the lock: the account
-- stays locked, but without the time of the lock's end, so that it is not unlocked at any later time.
pub touch_login_strands_lock :
    (us : List UserRow) (u : UserRow) (now later id : ℕ)
    → select_first (has_id id) us ≡ some u
    → is_locked u.status ≡ true
    → let after = table_after us (touch_login now id us) in
      ((v : UserRow) × (select_first (has_id id) after ≡ some v)
        × (is_locked v.status ≡ true)
        × (v.locked_until ≡ none))
      × (unlock_expired later id after ≡ unchanged)
unfolding touch_login unlock_expired
touch_login_strands_lock us u now later id found lock =
    let v : UserRow = record u {
      last_login_at = some now;
      failed_login_count = 0;
      locked_until = none;
    } in
    let there = update_one_select (has_id id) (λ q. true) _ u us (λ q. refl) found in
    ((v, there, lock, refl), update_one_idle (has_id id) _ _ v _ there (ground (arith, lock)))

-- The table after a number of failed logins of one address.
abbrev pub fail_times : ℕ → ℕ → ℕ → ℕ → List UserRow → List UserRow
fail_times zero email threshold until us = us
fail_times (suc n) email threshold until us =
    let before = fail_times n email threshold until us in
    table_after before (record_failed_login email threshold until before)

-- The account of an address after `n` failures from a fresh count.
pub record After (threshold : ℕ) (until : ℕ) (n : ℕ) (u : UserRow) : Type 0 where
  pub still_active : n < threshold → (is_active u.status ≡ true) × (u.failed_login_count ≡ n)
  pub shut : threshold ≤ n → (is_locked u.status ≡ true) × (u.locked_until ≡ some until)

After-step :
    (threshold until n : ℕ) (u : UserRow)
    → After threshold until n u
    → After threshold until
        (suc n)
        (if is_active u.status then count_failure threshold until u else u)
After-step threshold until n u h = record {
  still_active = λ lt.
      let (on, count) = h.still_active (omega (arith, lt)) in
      let below : leb threshold (u.failed_login_count + 1) ≡ false = ground (arith, count, lt) in
      rw (on, below) (on, omega (arith, count));
  shut = λ le. elim (dec_lt n threshold) [
    | yes lt ↦
        let (on, count) = h.still_active lt in
        let reached : leb threshold (u.failed_login_count + 1) ≡ true = ground (arith, count, le) in
        rw (on, reached) (refl, refl)
    | no more ↦
        let (lock, time) = h.shut (omega (arith, more)) in
        let off : is_active u.status ≡ false = ground (arith, lock) in rw off (lock, time)
  ];
}

-- Failed logins for an active account with no failures on its count: fewer than the threshold leave
-- it active and are counted, and from the threshold on, which is not 0, it is locked until the given
-- time, however many more there are.
pub fail_times_locks :
    (us : List UserRow) (u : UserRow) (email threshold until n : ℕ)
    → 1 ≤ threshold
    → select_first (λ q. q.email == email) us ≡ some u
    → is_active u.status ≡ true
    → u.failed_login_count ≡ 0
    → (v : UserRow) × (select_first (λ q. q.email == email) (fail_times n email threshold until us)
        ≡ some v)
      × After threshold until n v
unfolding record_failed_login
fail_times_locks us u email threshold until zero some_threshold found on fresh = (
  u,
  found,
  record {
    still_active = λ lt. (on, fresh);
    shut = λ le. absurd (omega (arith, le, some_threshold));
  },
)
fail_times_locks us u email threshold until (suc n) some_threshold found on fresh =
    let (v, there, h) =
      fail_times_locks us u email threshold until n some_threshold found on fresh in
    (
      if is_active v.status then count_failure threshold until v else v,
      update_one_select (λ q. q.email == email) (λ q. is_active q.status)
          (count_failure threshold until) v (fail_times n email threshold until us) (λ q. refl)
          there,
      After-step threshold until n v h,
    )
