-- ===== src/Examples/Handoff.antt =====
-- backend/src/modules/licensing: a concrete licence and its deliveries.
use Prim.Native.String.{String}
use mathlib.Core.List.{Memᴰ}
use emu_key.Prelude.{
  ℕ, ◌+◌, ◌≤◌, ◌<◌, ◌≡◌, ◌↔◌, ◌⊎◌, refl, true, false, none, some, [], ◌∷◌, ◌&&◌, arith, ◌==◌,
  select_first, update_where, exists_where, count_where,
}
use emu_key.Handoff.{
  pending, sending, retry_wait, delivered, enabled, Snapshot, DeliveryRow, IntegrationRow,
  LicenseRow, Store,
}
use emu_key.Handoff.Policy.{active, trusted, num, str, Answer, object}
use emu_key.Handoff.Deliveries.{
  Lease, complete, fail, take_next, take_lease, is_candidate, record_snapshot,
}
use emu_key.Handoff.Deliveries.Lifecycle.{
  Inv, Reach, here, next, taken, Reach-Inv, History, Reach-History,
}
use emu_key.Handoff.Deliveries.Leases.{complete_once, take_next_fences, take_next_sound}
use emu_key.Handoff.Service.{
  publish, reparse, message_of, customer_info, CustomerInfo, info_of, current_delivery, Provider,
  answered, run_one,
}
use emu_key.Handoff.Service.Publishing.{key_available_iff, publish_withholds_key}
use emu_key.Handoff.Service.Settling.{run_one_gives_up, NoToken}

abbrev sent_message : Snapshot
sent_message = record {
  delivery_id = 1;
  event_type = "ISSUED";
  revision = 1;
  license_id = 7;
  key_version = 1;
  expires_at = 90000000;
  status = active;
  usable = true;
}

abbrev waiting_row : DeliveryRow
waiting_row = record {
  id = 1;
  license_id = 7;
  provider_user_id = 3;
  integration_id = 4;
  config_version = 1;
  revision = 1;
  key_version = 1;
  snapshot = sent_message;
  status = pending;
  attempt_count = 0;
  next_attempt_at = 0;
  lease_token = none;
  lease_expires_at = none;
  receipt_id = none;
  accepted_at = none;
  last_error_code = none;
}

-- The same delivery under the lease 50, which has 45 seconds.
abbrev leased_row : DeliveryRow
leased_row = record waiting_row {
  status = sending;
  attempt_count = 1;
  lease_token = some 50;
  lease_expires_at = some 45000;
}

abbrev delivered_row : DeliveryRow
delivered_row = record waiting_row {
  status = delivered;
  attempt_count = 1;
  receipt_id = some "r-1";
  accepted_at = some 100;
}

abbrev license : LicenseRow
license = record {
  id = 7;
  provider_user_id = 3;
  customer_user_id = 8;
  provider_managed = true;
  status = active;
  trust = trusted;
  expires_at = 90000000;
  provider_revision = 1;
  activation_key_version = 1;
}

abbrev integration : IntegrationRow
integration = record {
  id = 4;
  provider_user_id = 3;
  status = enabled;
  config_version = 1;
  verified_config_version = some 1;
}

abbrev store_of : DeliveryRow → Store
store_of row = record {
  deliveries = row ∷ [];
  integrations = integration ∷ [];
  licenses = license ∷ [];
  keys = [];
  notices = [];
}

abbrev lease : Lease
lease = record { id = 1; token = 50; license_id = 7; key_version = 1; revision = 1 }

abbrev receipt_answer : Answer
receipt_answer = object (record {
  delivery_id = str "d-1";
  license_id = str "l-7";
  revision = num 1;
  receipt_id = str "r-1";
  result = str "ACCEPTED";
})

abbrev three : String → ℕ
three text = 3

waiting-Inv : Inv (store_of waiting_row).deliveries
unfolding count_where
waiting-Inv = record {
  leases =
      (record { leased = refl; timed = refl; bounded = omega arith; acknowledged = λ e. cc }, tt);
  single = λ license. ground arith;
}

one_claim : Reach (store_of waiting_row) (take_next 0 50 (store_of waiting_row)).1
one_claim = next here (taken (store_of waiting_row) 0 50)

Reach-Inv_example : Inv (take_next 0 50 (store_of waiting_row)).1.deliveries
Reach-Inv_example = Reach-Inv one_claim waiting-Inv

Reach-History_example : History (store_of waiting_row) (take_next 0 50 (store_of waiting_row)).1
Reach-History_example = Reach-History one_claim

abbrev no_notice : Store → Store
no_notice s = s

first_completion : (complete 10 lease "r-1" no_notice (store_of leased_row)).0 ≡ true
unfolding complete exists_where
first_completion = refl

complete_once_example :
    complete 20 lease "r-2" no_notice (complete 10 lease "r-1" no_notice (store_of leased_row)).1
    ≡ (false, (complete 10 lease "r-1" no_notice (store_of leased_row)).1)
complete_once_example =
    complete_once (store_of leased_row) 10 20 lease "r-1" "r-2" no_notice no_notice (λ t. refl)
      (omega arith) first_completion

-- The lease 50 has run out when the lease 60 is given.
one_row : count_where (λ r. r.id == lease.id) (store_of leased_row).deliveries ≤ 1
unfolding count_where
one_row = omega arith

taken_over :
    select_first (is_candidate 50000 (integration ∷ [])) (leased_row ∷ []) ≡ some leased_row
unfolding select_first exists_where
taken_over = refl

take_next_fences_example :
    (complete 50001 lease "r-1" no_notice (take_next 50000 60 (store_of leased_row)).1
      ≡ (false, (take_next 50000 60 (store_of leased_row)).1))
    × (fail 50001 lease "TIMEOUT" none (take_next 50000 60 (store_of leased_row)).1
        ≡ (take_next 50000 60 (store_of leased_row)).1)
take_next_fences_example =
    take_next_fences (store_of leased_row) 50000 50001 60 lease "r-1" "TIMEOUT" none no_notice
      leased_row one_row taken_over refl (omega arith)

taken_row : (take_next 50000 60 (store_of leased_row)).0 ≡ some (take_lease 50000 60 leased_row)
unfolding take_next select_first exists_where
taken_row = refl

take_next_sound_example :
    (r : DeliveryRow) × Memᴰ r (leased_row ∷ [])
    × (take_lease 50000 60 leased_row ≡ record r {
      status = sending;
      lease_token = some 60;
      lease_expires_at = some (50000 + 45000);
      attempt_count = r.attempt_count + 1;
    })
    × (r.attempt_count < 8)
    × ((((r.status ≡ pending) ⊎ (r.status ≡ retry_wait)) × (r.next_attempt_at ≤ 50000))
        ⊎ ((r.status ≡ sending) × ((t : ℕ) × (r.lease_expires_at ≡ some t) × (t ≤ 50000))))
take_next_sound_example =
    take_next_sound (store_of leased_row) 50000 60 (take_lease 50000 60 leased_row) taken_row

abbrev provider : Provider
provider = record {
  uuid = λ id. "d-1";
  size = three;
  decrypt = λ k. some "secret";
  send = λ i. λ m. λ secret. answered receipt_answer;
}

fresh_token : NoToken 60 (store_of waiting_row).deliveries
unfolding exists_where
fresh_token = refl

run_one_gives_up_example :
    NoToken 60
      (run_one provider 100 900 60 (λ delay. delay) (λ t. t) (store_of waiting_row)).1.deliveries
run_one_gives_up_example =
    run_one_gives_up provider 100 900 60 (λ delay. delay) (store_of waiting_row) fresh_token
      (omega arith)

only_licence :
    select_first (λ m. m.id == 7 && m.customer_user_id == 8) (license ∷ []) ≡ some license
unfolding select_first
only_licence = refl

abbrev delivered_info : CustomerInfo
delivered_info = info_of 200 license (some delivered_row)

shown_to_customer : customer_info 200 8 7 (store_of delivered_row) ≡ some delivered_info
unfolding customer_info select_first
shown_to_customer = refl

key_available_iff_example : (delivered_info.key_available ≡ true) ↔ (
    ((d : DeliveryRow) × (current_delivery license (store_of delivered_row) ≡ some d)
      × (d.status ≡ delivered))
    × (0 < license.provider_revision)
    × (license.status ≡ active)
    × (license.trust ≡ trusted)
    × (200 < reparse license.expires_at))
key_available_iff_example =
    key_available_iff 200 8 7 (store_of delivered_row) license delivered_info only_licence
      shown_to_customer

-- The suspension of the licence whose key was delivered.
abbrev published : Store
published =
    record_snapshot 300 7 3 4 1 (message_of 300 2 "LICENSE_SUSPENDED" license)
      (store_of delivered_row)

abbrev withheld_info : CustomerInfo
withheld_info = record {
  provider_delivery_status = pending;
  provider_revision = 2;
  provider_accepted_revision = none;
  key_available = false;
  key_version = 1;
}

managed : select_first (λ m. m.id == 7 && m.provider_managed) (license ∷ []) ≡ some license
unfolding select_first
managed = refl

its_integration : select_first (λ j. j.provider_user_id == 3) (integration ∷ []) ≡ some integration
unfolding select_first
its_integration = refl

is_published : publish 300 2 7 "LICENSE_SUSPENDED" (store_of delivered_row) ≡ some published
unfolding publish select_first
is_published = refl

shown_after : customer_info 400 8 7 published ≡ some withheld_info
unfolding customer_info record_snapshot select_first update_where
shown_after = refl

publish_withholds_key_example :
    (withheld_info.provider_revision ≡ license.provider_revision + 1)
    × (withheld_info.key_available ≡ false)
    × (withheld_info.provider_delivery_status ≡ pending)
publish_withholds_key_example =
    publish_withholds_key (store_of delivered_row) published 300 400 2 7 8 "LICENSE_SUSPENDED"
      license integration withheld_info managed its_integration ((λ e. refl), tt)
      ((λ e. omega arith), tt) is_published shown_after
