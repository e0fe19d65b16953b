-- ===== src/Handoff/Integrations.antt =====
-- backend/src/modules/licensing/infrastructure/provider-integration.repository.ts
-- The providers' integrations, one for each provider; the credentials and the endpoint, which the
-- repository only stores, are left out.
use emu_key.Prelude.{
  ℕ, zero, suc, ◌+◌, Bool, true, false, not, ◌&&◌, ◌||◌, Option, none, some, List, [], ◌∷◌, ◌++◌,
  ◌==◌, if◌then◌else◌, is_id, select_first, update_where, exists_where,
}
use emu_key.Handoff.{
  DeliveryStatus, pending, sending, retry_wait, failed, DeliveryRow, disabled, enabled,
  IntegrationRow, Store,
}

-- `INSERT … ON CONFLICT (provider_user_id) DO NOTHING RETURNING *`, whose row takes the table's
-- defaults
abbrev pub insert_integration :
    ℕ → ℕ → List IntegrationRow → Option IntegrationRow × List IntegrationRow
insert_integration new_id provider_id rows =
    if exists_where (λ i. i.provider_user_id == provider_id) rows
    then (none, rows)
    else let row : IntegrationRow = record {
      id = new_id;
      provider_user_id = provider_id;
      status = disabled;
      config_version = 1;
      verified_config_version = none;
    } in
      (some row, rows ++ row ∷ [])

-- `WHERE provider_user_id=$1 AND config_version=$7`
abbrev pub has_version : ℕ → ℕ → IntegrationRow → Bool
has_version provider_id version i = i.provider_user_id == provider_id && i.config_version == version

abbrev pub reconfigure : IntegrationRow → IntegrationRow
reconfigure i = record i {
  config_version = i.config_version + 1;
  status = disabled;
  verified_config_version = none;
}

-- `UPDATE … RETURNING *`; a provider has at most one row
abbrev pub update_integration :
    ℕ → ℕ → List IntegrationRow → Option IntegrationRow × List IntegrationRow
update_integration provider_id version rows =
    elim (select_first (has_version provider_id version) rows) [
      | none ↦ (none, rows)
      | some i ↦
          (some (reconfigure i), update_where (has_version provider_id version) reconfigure rows)
    ]

-- The row that `save` writes, and the table.
unfoldable pub written :
    ℕ → ℕ → ℕ → List IntegrationRow → Option IntegrationRow × List IntegrationRow
written new_id provider_id zero rows = insert_integration new_id provider_id rows
written new_id provider_id (suc n) rows = update_integration provider_id (suc n) rows

-- `status IN ('PENDING','RETRY_WAIT','SENDING')`
abbrev pub is_unsettled : DeliveryStatus → Bool
is_unsettled pending = true
is_unsettled retry_wait = true
is_unsettled sending = true
is_unsettled _ = false

abbrev pub is_outdated : ℕ → ℕ → DeliveryRow → Bool
is_outdated provider_id version d =
    d.provider_user_id == provider_id && not (d.config_version == version) && is_unsettled d.status

abbrev pub fail_outdated : DeliveryRow → DeliveryRow
fail_outdated d = record d {
  status = failed;
  last_error_code = some "PROVIDER_CONFIG_CHANGED";
  lease_token = none;
  lease_expires_at = none;
}

-- `save`: a changed configuration fails the provider's deliveries that were made for another one.
unfoldable pub save : ℕ → ℕ → ℕ → Store → Option IntegrationRow × Store
save new_id provider_id expected_version s =
    let (result, rows) = written new_id provider_id expected_version s.integrations in
    elim result [
      | none ↦ (none, record s { integrations = rows })
      | some row ↦ (
        some row,
        record s {
          integrations = rows;
          deliveries =
              update_where (is_outdated provider_id row.config_version) fail_outdated s.deliveries;
        },
      )
    ]

-- `verify`; the Boolean tells whether a row was changed
unfoldable pub verify : ℕ → ℕ → Store → Bool × Store
verify provider_id version s = (
  exists_where (has_version provider_id version) s.integrations,
  record s {
    integrations =
        update_where (has_version provider_id version)
          (λ i. record i { verified_config_version = some i.config_version }) s.integrations;
  },
)

abbrev can_set : ℕ → ℕ → Bool → IntegrationRow → Bool
can_set provider_id version enable i =
    has_version provider_id version i
    && (not enable || is_id i.verified_config_version i.config_version)

-- `setEnabled`
unfoldable pub set_enabled : ℕ → ℕ → Bool → Store → Bool × Store
set_enabled provider_id version enable s = (
  exists_where (can_set provider_id version enable) s.integrations,
  record s {
    integrations =
        update_where (can_set provider_id version enable)
          (λ i. record i { status = if enable then enabled else disabled }) s.integrations;
  },
)
