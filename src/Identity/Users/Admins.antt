-- ===== src/Identity/Users/Admins.antt =====
-- An administrator cannot leave the system without one (identity.repository.ts,
-- `changeStateByAdmin`).
use emu_key.Prelude.{
  ℕ, ◌+◌, ◌≤◌, ◌≡◌, subst, Bool, true, false, not, ◌&&◌, some, List, [], ◌∷◌, arith, ltb,
  if◌then◌else◌, Bool-cases, Option-cases, inl, inr, select_first, count_where,
}
use emu_key.Identity.Users.{
  UserRow, UserState, Change, unchanged, changed, behind, update_one, has_id, StateChange, refused,
  done, state_changed, set_state, is_active_admin, is_active, is_system_admin, transition_allowed,
  change_state_by_admin,
}

-- What a change leaves of the administrators, if the changed row was `u` and became `v`.
abbrev Counts : UserRow → UserRow → List UserRow → Change → Type 0
Counts u v us unchanged = Unit
Counts u v us (changed new all) =
    count_where is_active_admin all + (if is_active_admin u then 1 else 0)
    ≡ count_where is_active_admin us + (if is_active_admin v then 1 else 0)

Counts-behind :
    (u v q : UserRow) (us : List UserRow) (c : Change)
    → Counts u v us c
    → Counts u v (q ∷ us) (behind q c)
unfolding count_where
Counts-behind u v q us unchanged h = tt
Counts-behind u v q us (changed new all) h = ground (arith, h)

update_one-Counts :
    (key : UserRow → Bool) (f : UserRow → UserRow) (u : UserRow) (us : List UserRow)
    → select_first key us ≡ some u
    → Counts u (f u) us (update_one key (λ q. true) f us)
unfolding update_one count_where select_first
update_one-Counts key f u [] found = tt
update_one-Counts key f u (q ∷ us) found = elim (Bool-cases (key q)) [
  | inr e ↦
      let later : select_first key us ≡ some u = ground (arith, e, found) in
      rw e (
        Counts-behind u (f u) q us (update_one key (λ r. true) f us)
          (update_one-Counts key f u us later))
  | inl e ↦
      let same : q ≡ u = ground (arith, e, found) in
      rw e (
        subst
          (λ x.
            count_where is_active_admin (f q ∷ us) + (if is_active_admin x then 1 else 0)
            ≡ count_where is_active_admin (q ∷ us) + (if is_active_admin (f x) then 1 else 0))
          same (ground arith))
]

-- What a change of state leaves.
abbrev pub HasAdmin : StateChange → Type 0
HasAdmin (refused e) = Unit
HasAdmin (done u us) = 1 ≤ count_where is_active_admin us

state_changed-HasAdmin :
    (u v : UserRow) (us : List UserRow) (c : Change)
    → Counts u v us c
    → 1 ≤ count_where is_active_admin us
    → (is_active_admin u ≡ true → is_active_admin v ≡ false → 2 ≤ count_where is_active_admin us)
    → HasAdmin (state_changed c)
state_changed-HasAdmin u v us unchanged h some_admin enough = tt
state_changed-HasAdmin u v us (changed new all) h some_admin enough =
    ground (arith, h, some_admin, enough)

enough_admins :
    (us : List UserRow) (u : UserRow) (status : UserState)
    → is_active_admin u && not (is_active status) && ltb (count_where is_active_admin us) 2 ≡ false
    → is_active_admin u ≡ true
    → is_active_admin (set_state status u) ≡ false
    → 2 ≤ count_where is_active_admin us
enough_admins us u status fine was ended =
    let admin : is_system_admin u.role ≡ true = ground (arith, was) in
    let asked : is_active status ≡ false = ground (arith, admin, ended) in
    ground (arith, fine, was, asked)

-- While there is an active system administrator, no change of an account's state by an
-- administrator, whoever it is for and whatever it asks for, leaves none.
pub change_state_by_admin-HasAdmin :
    (id : ℕ) (status : UserState) (us : List UserRow)
    → 1 ≤ count_where is_active_admin us
    → HasAdmin (change_state_by_admin id status us)
unfolding change_state_by_admin
change_state_by_admin-HasAdmin id status us some_admin =
    elim (Option-cases (select_first (has_id id) us)) [
      | inl absent ↦ rw (absent, change_state_by_admin) tt
      | inr (u, found) ↦ elim (Bool-cases (transition_allowed u.status status)) [
        | inr no_transition ↦ rw (change_state_by_admin, found, no_transition) tt
        | inl allowed ↦
            elim (Bool-cases (
              is_active_admin u
              && not (is_active status)
              && ltb (count_where is_active_admin us) 2)) [
                | inl last ↦ rw (change_state_by_admin, found, allowed, last) tt
                | inr fine ↦
                    rw (change_state_by_admin, found, allowed, fine)
                      (state_changed-HasAdmin u (set_state status u) us _
                        (update_one-Counts (has_id id) (set_state status) u us found) some_admin
                        (λ was. λ ended. enough_admins us u status fine was ended))
              ]
      ]
    ]
