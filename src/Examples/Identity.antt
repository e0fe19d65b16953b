-- ===== src/Examples/Identity.antt =====
-- backend/src/modules/identity-access: concrete accounts.
use emu_key.Prelude.{
  ◌≤◌, ◌≡◌, refl, true, none, some, [], ◌∷◌, arith, ◌==◌, select_first, count_where,
}
use emu_key.Identity.Users.{
  UserRow, system_admin, active, locked, disabled, has_id, unchanged, touch_login, unlock_expired,
  change_state_by_admin, is_active_admin, is_locked, done, set_state, update_one,
}
use emu_key.Identity.Users.Locks.{
  table_after, touch_login_strands_lock, fail_times, fail_times_locks, After,
}
use emu_key.Identity.Users.Admins.{HasAdmin, change_state_by_admin-HasAdmin}

abbrev admin : UserRow
admin = record {
  id = 1;
  email = 11;
  role = system_admin;
  status = active;
  password_hash = 5;
  session_version = 0;
  failed_login_count = 0;
  locked_until = none;
  email_verified_at = none;
  last_login_at = none;
}

abbrev locked_admin : UserRow
locked_admin = record admin { status = locked; failed_login_count = 5; locked_until = some 900 }

abbrev second_admin : UserRow
second_admin = record admin { id = 2; email = 12 }

two_admins : 1 ≤ count_where is_active_admin (admin ∷ second_admin ∷ [])
unfolding count_where
two_admins = omega arith

-- The first of two administrators is disabled.
first_disabled :
    change_state_by_admin 1 disabled (admin ∷ second_admin ∷ [])
    ≡ done (set_state disabled admin) (set_state disabled admin ∷ second_admin ∷ [])
unfolding change_state_by_admin select_first count_where update_one
first_disabled = refl

change_state_by_admin-HasAdmin_example :
    HasAdmin (change_state_by_admin 1 disabled (admin ∷ second_admin ∷ []))
change_state_by_admin-HasAdmin_example =
    change_state_by_admin-HasAdmin 1 disabled (admin ∷ second_admin ∷ []) two_admins

admin_found : select_first (λ q. q.email == 11) (admin ∷ []) ≡ some admin
unfolding select_first
admin_found = refl

fail_times_locks_example :
    (v : UserRow) × (select_first (λ q. q.email == 11) (fail_times 5 11 5 900 (admin ∷ []))
      ≡ some v)
    × After 5 900 5 v
fail_times_locks_example =
    fail_times_locks (admin ∷ []) admin 11 5 900 5 (omega arith) admin_found refl refl

locked_found : select_first (has_id 1) (locked_admin ∷ []) ≡ some locked_admin
unfolding select_first
locked_found = refl

touch_login_strands_lock_example :
    let after = table_after (locked_admin ∷ []) (touch_login 100 1 (locked_admin ∷ [])) in
    ((v : UserRow) × (select_first (has_id 1) after ≡ some v)
      × (is_locked v.status ≡ true)
      × (v.locked_until ≡ none))
    × (unlock_expired 5000 1 after ≡ unchanged)
touch_login_strands_lock_example =
    touch_login_strands_lock (locked_admin ∷ []) locked_admin 100 5000 1 locked_found refl
