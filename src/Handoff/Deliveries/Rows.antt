-- ===== src/Handoff/Deliveries/Rows.antt =====
-- What each statement on the deliveries does to a row (provider-delivery.repository.ts,
-- provider-integration.repository.ts).
use Prim.Native.String.{String}
use emu_key.Prelude.{
  ℕ, ◌≤◌, ◌≡◌, refl, ap, ◌∙◌, Bool, true, false, ◌&&◌, Option, List, arith, ◌==◌, is_some,
  update_where, update_first, exists_where, select_first, ◌⊎◌, Bool-cases, inl, inr, Option-cases,
}
use emu_key.Handoff.{delivered, Snapshot, DeliveryRow, IntegrationRow, Store, is_sending}
use emu_key.Handoff.Deliveries.{
  is_live, supersede, new_delivery, Lease, complete, holds_lease, accept, is_leased_by, refuse,
  retry, is_retryable, requeue, is_exhausted, exhaust, take_next, take_lease, is_candidate,
}
use emu_key.Handoff.Integrations.{save, written, is_outdated, fail_outdated}

-- What a row keeps from one statement to the next: its identity, and all of it once the delivery
-- is delivered or superseded.
pub record Evolves (r r' : DeliveryRow) : Type 0 where
  pub same_id : r'.id ≡ r.id
  pub same_license : r'.license_id ≡ r.license_id
  pub same_revision : r'.revision ≡ r.revision
  pub final : is_live r.status ≡ false → r' ≡ r

pub Evolves-refl : (r : DeliveryRow) → Evolves r r
Evolves-refl r = record {
  same_id = refl;
  same_license = refl;
  same_revision = refl;
  final = λ _. refl;
}

pub Evolves-trans : (a b c : DeliveryRow) → Evolves a b → Evolves b c → Evolves a c
Evolves-trans a b c h k = record {
  same_id = k.same_id ∙ h.same_id;
  same_license = k.same_license ∙ h.same_license;
  same_revision = k.same_revision ∙ h.same_revision;
  final = λ e.
      let same = h.final e in k.final (ap (λ (r : DeliveryRow). is_live r.status) same ∙ e) ∙ same;
}

-- What holds of a delivery row between two statements.
pub record LeaseInv (d : DeliveryRow) : Type 0 where
  pub leased : is_some d.lease_token ≡ is_sending d.status
  pub timed : is_some d.lease_expires_at ≡ is_sending d.status
  pub bounded : d.attempt_count ≤ 8
  pub acknowledged :
      d.status ≡ delivered → (is_some d.receipt_id ≡ true) × (is_some d.accepted_at ≡ true)

abbrev pub is_live_of : ℕ → DeliveryRow → Bool
is_live_of license d = d.license_id == license && is_live d.status

pub accept-Evolves :
    (now id token : ℕ) (receipt : String) (r : DeliveryRow)
    → holds_lease now id token r ≡ true
    → Evolves r (accept now receipt r)
accept-Evolves now id token receipt r h = ground arith

pub accept_keeps :
    (now id token : ℕ) (receipt : String) (r : DeliveryRow)
    → holds_lease now id token r ≡ true
    → LeaseInv r
    → LeaseInv (accept now receipt r)
accept_keeps now id token receipt r h v = ground arith

pub refuse-Evolves :
    (now id token : ℕ) (code : String) (delay : Option ℕ) (r : DeliveryRow)
    → is_leased_by id token r ≡ true
    → Evolves r (refuse now code delay r)
refuse-Evolves now id token code delay r h = ground arith

pub refuse_keeps :
    (now id token : ℕ) (code : String) (delay : Option ℕ) (r : DeliveryRow)
    → is_leased_by id token r ≡ true
    → LeaseInv r
    → LeaseInv (refuse now code delay r)
refuse_keeps now id token code delay r h v = ground arith

pub requeue-Evolves :
    (now id : ℕ) (provider : Option ℕ) (s : Store) (r : DeliveryRow)
    → is_retryable id provider s r ≡ true
    → Evolves r (requeue now s r)
requeue-Evolves now id provider s r h = ground arith

pub requeue_keeps :
    (now id : ℕ) (provider : Option ℕ) (s : Store) (r : DeliveryRow)
    → is_retryable id provider s r ≡ true
    → LeaseInv r
    → LeaseInv (requeue now s r)
requeue_keeps now id provider s r h v = ground arith

pub exhaust-Evolves :
    (now : ℕ) (r : DeliveryRow) → is_exhausted now r ≡ true → Evolves r (exhaust r)
exhaust-Evolves now r h = ground arith

pub exhaust_keeps :
    (now : ℕ) (r : DeliveryRow) → is_exhausted now r ≡ true → LeaseInv r → LeaseInv (exhaust r)
exhaust_keeps now r h v = ground arith

pub take_lease-Evolves :
    (now token : ℕ) (is : List IntegrationRow) (r : DeliveryRow)
    → is_candidate now is r ≡ true
    → Evolves r (take_lease now token r)
take_lease-Evolves now token is r h = ground arith

pub take_lease_keeps :
    (now token : ℕ) (is : List IntegrationRow) (r : DeliveryRow)
    → is_candidate now is r ≡ true
    → LeaseInv r
    → LeaseInv (take_lease now token r)
take_lease_keeps now token is r h v = ground arith

pub take_lease_live :
    (now token : ℕ) (is : List IntegrationRow) (license : ℕ) (r : DeliveryRow)
    → is_candidate now is r ≡ true
    → is_live_of license (take_lease now token r) ≡ true
    → is_live_of license r ≡ true
take_lease_live now token is license r h k = ground arith

pub supersede-Evolves :
    (license : ℕ) (r : DeliveryRow) → is_live_of license r ≡ true → Evolves r (supersede r)
supersede-Evolves license r h = ground arith

pub supersede_keeps :
    (license : ℕ) (r : DeliveryRow)
    → is_live_of license r ≡ true
    → LeaseInv r
    → LeaseInv (supersede r)
supersede_keeps license r h v = ground arith

-- The rows after a statement that may find nothing to do.
pub complete_rows :
    (s : Store) (now : ℕ) (lease : Lease) (receipt : String) (notify : Store → Store)
    → ((t : Store) → (notify t).deliveries ≡ t.deliveries)
    → let rows = (complete now lease receipt notify s).1.deliveries in
      (rows ≡ s.deliveries)
      ⊎ (rows
          ≡ update_where (holds_lease now lease.id lease.token) (accept now receipt) s.deliveries)
unfolding complete
complete_rows s now lease receipt notify quiet =
    elim (Bool-cases (exists_where (holds_lease now lease.id lease.token) s.deliveries)) [
      | inl e ↦ inr (rw e (quiet _))
      | inr e ↦ inl (rw e)
    ]

pub retry_rows :
    (s : Store) (now id : ℕ) (provider : Option ℕ) (long_enough : Bool)
    → let rows = (retry now id provider long_enough s).1.deliveries in
      (rows ≡ s.deliveries)
      ⊎ (rows ≡ update_where (is_retryable id provider s) (requeue now s) s.deliveries)
unfolding retry
retry_rows s now id provider long_enough =
    elim (Bool-cases (long_enough && exists_where (is_retryable id provider s) s.deliveries)) [
      | inl e ↦ inr (rw e)
      | inr e ↦ inl (rw e)
    ]

pub fail_outdated-Evolves :
    (provider version : ℕ) (r : DeliveryRow)
    → is_outdated provider version r ≡ true
    → Evolves r (fail_outdated r)
fail_outdated-Evolves provider version r h = ground arith

pub fail_outdated_keeps :
    (provider version : ℕ) (r : DeliveryRow)
    → is_outdated provider version r ≡ true
    → LeaseInv r
    → LeaseInv (fail_outdated r)
fail_outdated_keeps provider version r h v = ground arith

pub fail_outdated_live :
    (provider version license : ℕ) (r : DeliveryRow)
    → is_outdated provider version r ≡ true
    → is_live_of license (fail_outdated r) ≡ true
    → is_live_of license r ≡ true
fail_outdated_live provider version license r h k = ground arith

pub save_rows :
    (s : Store) (new_id provider expected : ℕ)
    → let rows = (save new_id provider expected s).1.deliveries in
      (rows ≡ s.deliveries)
      ⊎ ((version : ℕ) × (rows
            ≡ update_where (is_outdated provider version) fail_outdated s.deliveries))
unfolding save
save_rows s new_id provider expected =
    elim (Option-cases (written new_id provider expected s.integrations).0) [
      | inl e ↦ inl (rw (e, save))
      | inr (row, e) ↦ inr (row.config_version, rw (e, save))
    ]

pub take_next_rows :
    (s : Store) (now token : ℕ)
    → let rows = (take_next now token s).1.deliveries in
      (rows ≡ s.deliveries)
      ⊎ (rows ≡ update_first (is_candidate now s.integrations) (take_lease now token) s.deliveries)
unfolding take_next
take_next_rows s now token =
    elim (Option-cases (select_first (is_candidate now s.integrations) s.deliveries)) [
      | inl e ↦ inl (rw (e, take_next))
      | inr (d, e) ↦ inr (rw (e, take_next))
    ]

pub new_delivery-LeaseInv :
    (now license provider integration version : ℕ) (m : Snapshot)
    → LeaseInv (new_delivery now license provider integration version m)
new_delivery-LeaseInv now license provider integration version m = ground arith

pub superseded_not_live :
    (l : ℕ) (r : DeliveryRow) → is_live_of l (supersede r) ≡ true → is_live_of l r ≡ true
superseded_not_live l r h = ground arith
