-- ===== src/Identity/Users.antt =====
-- backend/src/modules/identity-access/identity.repository.ts: the statements that change the state of
-- an account. Ids and e-mail addresses are unique in the table, so a statement changes one row at
-- most: the first with the key. Times are milliseconds.
pub mod Locks
pub mod Admins
use emu_key.Prelude.{
  ℕ, ◌+◌, Bool, true, false, not, ◌&&◌, ◌||◌, Option, none, some, List, [], ◌∷◌, ltb, leb, ◌==◌,
  if◌then◌else◌, is_past, select_first, count_where,
}

pub data UserState : Type 0 where
  pending_email_verification active locked disabled : UserState

pub data Role : Type 0 where
  customer provider_admin support_staff system_admin : Role

pub record UserRow : Type 0 where
  pub id : ℕ
  pub email : ℕ
  pub role : Role
  pub status : UserState
  pub password_hash : ℕ
  pub session_version : ℕ
  pub failed_login_count : ℕ
  pub locked_until : Option ℕ
  pub email_verified_at : Option ℕ
  pub last_login_at : Option ℕ

abbrev pub is_active : UserState → Bool
is_active active = true
is_active _ = false

abbrev pub is_locked : UserState → Bool
is_locked locked = true
is_locked _ = false

abbrev pub is_customer : Role → Bool
is_customer customer = true
is_customer _ = false

abbrev pub is_unverified : UserState → Bool
is_unverified pending_email_verification = true
is_unverified _ = false

abbrev pub is_system_admin : Role → Bool
is_system_admin system_admin = true
is_system_admin _ = false

-- An UPDATE of the row with a unique key, if the row satisfies the rest of the condition.
pub data Change : Type 0 where
  unchanged : Change
  changed : UserRow → List UserRow → Change

abbrev pub behind : UserRow → Change → Change
behind u unchanged = unchanged
behind u (changed new us) = changed new (u ∷ us)

unfoldable pub update_one :
    (UserRow → Bool) → (UserRow → Bool) → (UserRow → UserRow) → List UserRow → Change
update_one key p f [] = unchanged
update_one key p f (u ∷ us) =
    if key u
    then if p u then changed (f u) (f u ∷ us) else unchanged
    else behind u (update_one key p f us)

abbrev pub has_id : ℕ → UserRow → Bool
has_id id u = u.id == id

-- The row after a failed login: at the threshold it is locked.
abbrev pub count_failure : ℕ → ℕ → UserRow → UserRow
count_failure threshold until u = record u {
  failed_login_count = u.failed_login_count + 1;
  status = if leb threshold (u.failed_login_count + 1) then locked else u.status;
  locked_until = if leb threshold (u.failed_login_count + 1) then some until else u.locked_until;
}

unfoldable pub record_failed_login : ℕ → ℕ → ℕ → List UserRow → Change
record_failed_login email threshold until us =
    update_one (λ u. u.email == email) (λ u. is_active u.status) (count_failure threshold until) us

unfoldable pub unlock_expired : ℕ → ℕ → List UserRow → Change
unlock_expired now id us =
    update_one (has_id id) (λ u. is_locked u.status && is_past u.locked_until now)
      (λ u. record u { status = active; failed_login_count = 0; locked_until = none }) us

unfoldable pub touch_login : ℕ → ℕ → List UserRow → Change
touch_login now id us =
    update_one (has_id id) (λ u. true)
      (λ u. record u { last_login_at = some now; failed_login_count = 0; locked_until = none }) us

unfoldable pub bump_session_version : ℕ → List UserRow → Change
bump_session_version id us =
    update_one (has_id id) (λ u. true) (λ u. record u { session_version = u.session_version + 1 })
      us

-- `unchanged` is the error USER_NOT_FOUND
unfoldable pub update_password : ℕ → ℕ → List UserRow → Change
update_password id hash us =
    update_one (has_id id) (λ u. true)
      (λ u. record u { password_hash = hash; session_version = u.session_version + 1 }) us

unfoldable pub activate_customer : ℕ → ℕ → List UserRow → Change
activate_customer now id us =
    update_one (has_id id) (λ u. is_customer u.role && is_unverified u.status)
      (λ u. record u { status = active; email_verified_at = some now }) us

pub data StateError : Type 0 where
  user_not_found invalid_user_state_transition last_active_system_admin : StateError

pub data StateChange : Type 0 where
  refused : StateError → StateChange
  done : UserRow → List UserRow → StateChange

-- `transitionAllowed`, from the present status to the requested one.
abbrev pub transition_allowed : UserState → UserState → Bool
transition_allowed active locked = true
transition_allowed locked active = true
transition_allowed active disabled = true
transition_allowed locked disabled = true
transition_allowed _ _ = false

abbrev pub is_active_admin : UserRow → Bool
is_active_admin u = is_system_admin u.role && is_active u.status

abbrev pub set_state : UserState → UserRow → UserRow
set_state status u = record u {
  status = status;
  session_version = u.session_version + 1;
  locked_until = if is_locked status then u.locked_until else none;
}

abbrev pub state_changed : Change → StateChange
state_changed unchanged = refused user_not_found
state_changed (changed u us) = done u us

unfoldable pub change_state_by_admin : ℕ → UserState → List UserRow → StateChange
change_state_by_admin id status us = elim (select_first (has_id id) us) [
  | none ↦ refused user_not_found
  | some u ↦
      if transition_allowed u.status status
      then if is_active_admin u && not (is_active status) && ltb (count_where is_active_admin us) 2
        then refused last_active_system_admin
        else state_changed (update_one (has_id id) (λ q. true) (set_state status) us)
      else refused invalid_user_state_transition
]
