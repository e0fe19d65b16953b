-- ===== src/Handoff/Deliveries/Lifecycle.antt =====
-- The life of the delivery rows under every statement of the delivery repository, and the
-- integration repository's change of a configuration, in any order
-- (provider-delivery.repository.ts, provider-integration.repository.ts).
use Prim.Native.String.{String}
use emu_key.Prelude.{
  ℕ, ◌≤◌, ◌≡◌, Bool, true, Option, List, [], ◌∷◌, ◌++◌, arith, update_where, update_first,
  count_where, All, Follows, All-update_first, count_where-update_first_le, Follows-update_first,
  All-update_where, All-append, Follows-refl, Follows-update_where, Follows-append, Follows-trans,
  inl, inr, count_where-update_where_le, count_where-update_where_zero, count_where-append,
}
use emu_key.Handoff.{Snapshot, DeliveryRow, IntegrationRow, LicenseRow, KeyMaterialRow, Store}
use emu_key.Handoff.Deliveries.{
  supersede, new_delivery, record_snapshot, Lease, complete, fail, retry, exhaust, fail_exhausted,
  take_next,
}
use emu_key.Handoff.Integrations.{save, fail_outdated}
use emu_key.Handoff.Deliveries.Rows.{
  Evolves, Evolves-refl, Evolves-trans, LeaseInv, is_live_of, accept-Evolves, accept_keeps,
  refuse-Evolves, refuse_keeps, requeue-Evolves, requeue_keeps, exhaust-Evolves, exhaust_keeps,
  take_lease-Evolves, take_lease_keeps, take_lease_live, supersede-Evolves, supersede_keeps,
  complete_rows, retry_rows, fail_outdated-Evolves, fail_outdated_keeps, fail_outdated_live,
  save_rows, take_next_rows, new_delivery-LeaseInv, superseded_not_live,
}

-- Any statement of the two repositories on the deliveries, with any arguments and at any time;
-- `others` is what the rest of the program writes to the other tables, and `notify` what `complete`
-- runs in its transaction.
pub data Step : Store → Store → Type 0 where
  snapshot :
      (s : Store) (now license_id provider_id integration_id version : ℕ) (m : Snapshot)
      → Step s (record_snapshot now license_id provider_id integration_id version m s)
  completed :
      (s : Store) (now : ℕ) (lease : Lease) (receipt : String) (notify : Store → Store)
      → ((t : Store) → (notify t).deliveries ≡ t.deliveries)
      → Step s (complete now lease receipt notify s).1
  failed :
      (s : Store) (now : ℕ) (lease : Lease) (code : String) (delay : Option ℕ)
      → Step s (fail now lease code delay s)
  retried :
      (s : Store) (now id : ℕ) (provider : Option ℕ) (long_enough : Bool)
      → Step s (retry now id provider long_enough s).1
  exhausted : (s : Store) (now : ℕ) → Step s (fail_exhausted now s)
  taken : (s : Store) (now token : ℕ) → Step s (take_next now token s).1
  configured :
      (s : Store) (new_id provider_id expected_version : ℕ)
      → Step s (save new_id provider_id expected_version s).1
  others :
      (s : Store) (integrations : List IntegrationRow) (licenses : List LicenseRow)
      (keys : List KeyMaterialRow) (notices : List (ℕ × ℕ))
      → Step s (record s {
        integrations = integrations;
        licenses = licenses;
        keys = keys;
        notices = notices;
      })

pub data Reach (s : Store) : Store → Type 0 where
  here : Reach s s
  next : {t u : Store} → Reach s t → Step t u → Reach s u

-- The invariant of the table: each row's, and at most one live delivery for each licence.
pub record Inv (rows : List DeliveryRow) : Type 0 where
  pub leases : All LeaseInv rows
  pub single : (license : ℕ) → count_where (is_live_of license) rows ≤ 1

abbrev pub History : Store → Store → Type 0
History s t = Follows Evolves s.deliveries t.deliveries

-- An update in place that is sound for the rows to which it applies keeps the invariant.
module _ (p : DeliveryRow → Bool) (f : DeliveryRow → DeliveryRow)
    (keeps : (r : DeliveryRow) → p r ≡ true → LeaseInv r → LeaseInv (f r))
    (live : (license : ℕ) (r : DeliveryRow)
      → p r ≡ true
      → is_live_of license (f r) ≡ true
      → is_live_of license r ≡ true) where
  update_where-Inv : (rows : List DeliveryRow) → Inv rows → Inv (update_where p f rows)
  update_where-Inv rows h = record {
    leases = All-update_where LeaseInv p f rows keeps h.leases;
    single = λ license. omega (
      arith,
      h.single license,
      count_where-update_where_le (is_live_of license) p f rows (live license),
    );
  }

  update_first-Inv : (rows : List DeliveryRow) → Inv rows → Inv (update_first p f rows)
  update_first-Inv rows h = record {
    leases = All-update_first LeaseInv p f rows keeps h.leases;
    single = λ license. omega (
      arith,
      h.single license,
      count_where-update_first_le (is_live_of license) p f rows (live license),
    );
  }

-- Every statement leaves each delivery in its place with its identity, and changes nothing of a
-- delivery that is delivered or superseded.
pub Step-History : {s t : Store} → Step s t → History s t
unfolding record_snapshot fail fail_exhausted
Step-History (snapshot s now license provider integration version m) =
    Follows-append Evolves s.deliveries _ _ (
      Follows-update_where Evolves _ supersede s.deliveries Evolves-refl
        (supersede-Evolves license))
Step-History (completed s now lease receipt notify quiet) =
    elim (complete_rows s now lease receipt notify quiet) [
      | inl e ↦ rw e (Follows-refl Evolves Evolves-refl s.deliveries)
      | inr e ↦ rw e (
          Follows-update_where Evolves _ _ s.deliveries Evolves-refl
            (accept-Evolves now lease.id lease.token receipt))
    ]
Step-History (failed s now lease code delay) =
    Follows-update_where Evolves _ _ s.deliveries Evolves-refl
      (refuse-Evolves now lease.id lease.token code delay)
Step-History (retried s now id provider long_enough) =
    elim (retry_rows s now id provider long_enough) [
      | inl e ↦ rw e (Follows-refl Evolves Evolves-refl s.deliveries)
      | inr e ↦ rw e (
          Follows-update_where Evolves _ _ s.deliveries Evolves-refl
            (requeue-Evolves now id provider s))
    ]
Step-History (exhausted s now) =
    Follows-update_where Evolves _ exhaust s.deliveries Evolves-refl (exhaust-Evolves now)
Step-History (taken s now token) = elim (take_next_rows s now token) [
  | inl e ↦ rw e (Follows-refl Evolves Evolves-refl s.deliveries)
  | inr e ↦ rw e (
      Follows-update_first Evolves _ _ s.deliveries Evolves-refl
        (take_lease-Evolves now token s.integrations))
]
Step-History (configured s new_id provider expected) = elim (save_rows s new_id provider expected) [
  | inl e ↦ rw e (Follows-refl Evolves Evolves-refl s.deliveries)
  | inr (version, e) ↦ rw e (
      Follows-update_where Evolves _ fail_outdated s.deliveries Evolves-refl
        (fail_outdated-Evolves provider version))
]
Step-History (others s integrations licenses keys notices) =
    Follows-refl Evolves Evolves-refl s.deliveries

cleared :
    (rows : List DeliveryRow) (license l : ℕ)
    → license ≡ l
    → count_where (is_live_of l) (update_where (is_live_of license) supersede rows) ≡ 0
cleared rows license l e =
    count_where-update_where_zero (is_live_of l) (is_live_of license) supersede rows
      (λ r h. ground arith) (λ r h. ground arith)

snapshot_single :
    (rows : List DeliveryRow) (now license provider integration version l : ℕ) (m : Snapshot)
    → count_where (is_live_of l) rows ≤ 1
    → count_where (is_live_of l) (
        update_where (is_live_of license) supersede rows
        ++ new_delivery now license provider integration version m ∷ [])
      ≤ 1
unfolding count_where
snapshot_single rows now license provider integration version l m h = ground (
  arith,
  count_where-append (is_live_of l) (update_where (is_live_of license) supersede rows)
      (new_delivery now license provider integration version m ∷ []),
  count_where-update_where_le (is_live_of l) (is_live_of license) supersede rows
      (λ r p q. superseded_not_live l r q),
  cleared rows license l,
)

-- Every statement keeps the invariant: leases, attempts and acknowledgements as LeaseInv states,
-- and at most one live delivery for each licence.
pub Step-Inv : {s t : Store} → Step s t → Inv s.deliveries → Inv t.deliveries
unfolding record_snapshot fail fail_exhausted
Step-Inv (snapshot s now license provider integration version m) h = record {
  leases =
      All-append LeaseInv _ _
        (All-update_where LeaseInv _ supersede s.deliveries (supersede_keeps license) h.leases)
        (new_delivery-LeaseInv now license provider integration version m, tt);
  single =
      λ l. snapshot_single s.deliveries now license provider integration version l m (h.single l);
}
Step-Inv (completed s now lease receipt notify quiet) h =
    elim (complete_rows s now lease receipt notify quiet) [
      | inl e ↦ rw e h
      | inr e ↦ rw e (
          update_where-Inv _ _ (accept_keeps now lease.id lease.token receipt)
            (λ l r k live. ground arith) s.deliveries h)
    ]
Step-Inv (failed s now lease code delay) h =
    update_where-Inv _ _ (refuse_keeps now lease.id lease.token code delay)
      (λ l r k live. ground arith) s.deliveries h
Step-Inv (retried s now id provider long_enough) h =
    elim (retry_rows s now id provider long_enough) [
      | inl e ↦ rw e h
      | inr e ↦ rw e (
          update_where-Inv _ _ (requeue_keeps now id provider s) (λ l r k live. ground arith)
            s.deliveries h)
    ]
Step-Inv (exhausted s now) h =
    update_where-Inv _ exhaust (exhaust_keeps now) (λ l r k live. ground arith) s.deliveries h
Step-Inv (taken s now token) h = elim (take_next_rows s now token) [
  | inl e ↦ rw e h
  | inr e ↦ rw e (
      update_first-Inv _ _ (take_lease_keeps now token s.integrations)
        (take_lease_live now token s.integrations) s.deliveries h)
]
Step-Inv (configured s new_id provider expected) h = elim (save_rows s new_id provider expected) [
  | inl e ↦ rw e h
  | inr (version, e) ↦ rw e (
      update_where-Inv _ fail_outdated (fail_outdated_keeps provider version)
        (fail_outdated_live provider version) s.deliveries h)
]
Step-Inv (others s integrations licenses keys notices) h = h

-- From tables that satisfy the invariant, such as empty ones, every state that the statements of
-- the two repositories reach in any order satisfies it: a delivery has a lease exactly while it is being
-- sent, its counter of attempts, which a manual retry sets back to 0, is at most 8, it is delivered
-- only with a receipt and the time of the acceptance, and each licence has at most one live delivery.
pub Reach-Inv : {s t : Store} → Reach s t → Inv s.deliveries → Inv t.deliveries
Reach-Inv here h = h
Reach-Inv (next r st) h = Step-Inv st (Reach-Inv r h)

-- In every state that the statements of the two repositories reach in any order, each delivery of
-- the first state stands in its place with its identity, its licence and its revision, and a delivery that
-- was delivered or superseded stands unchanged.
pub Reach-History : {s t : Store} → Reach s t → History s t
Reach-History {s} here = Follows-refl Evolves Evolves-refl s.deliveries
Reach-History (next r st) =
    Follows-trans Evolves Evolves-trans _ _ _ (Reach-History r) (Step-History st)
