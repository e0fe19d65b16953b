-- ===== src/Handoff/Deliveries/Leases.antt =====
-- Leases fence their holders: a delivery is completed once, and only by the worker that holds its
-- present lease (provider-delivery.repository.ts).
use Prim.Native.String.{String}
use mathlib.Core.List.{Memᴰ}
use mathlib.Core.Bool.{false≢true}
use emu_key.Prelude.{
  ℕ, ◌+◌, ◌≤◌, ◌<◌, ◌≡◌, ◌≢◌, refl, ◌⊎◌, Bool, true, false, Option, none, some, List, [], ◌∷◌,
  arith, ◌==◌, select_first, update_where, update_first, exists_where, count_where, Bool-cases, inl,
  inr, Option-cases, select_first-mem,
}
use emu_key.Handoff.{DeliveryRow, IntegrationRow, Store, pending, retry_wait, sending}
use emu_key.Handoff.Deliveries.{
  Lease, complete, holds_lease, accept, fail, is_leased_by, refuse, take_next, take_lease,
  is_candidate,
}

-- No row is leased to this worker.
abbrev IsUnleased : Lease → List DeliveryRow → Type 0
IsUnleased lease rows = exists_where (is_leased_by lease.id lease.token) rows ≡ false

holds_of_unleased :
    (now id token : ℕ) (rows : List DeliveryRow)
    → exists_where (is_leased_by id token) rows ≡ false
    → exists_where (holds_lease now id token) rows ≡ false
unfolding exists_where
holds_of_unleased now id token [] h = refl
holds_of_unleased now id token (r ∷ rows) h = ground (arith, holds_of_unleased now id token rows)

update_nothing :
    (p : DeliveryRow → Bool) (f : DeliveryRow → DeliveryRow) (rows : List DeliveryRow)
    → exists_where p rows ≡ false
    → update_where p f rows ≡ rows
unfolding exists_where update_where
update_nothing p f [] h = refl
update_nothing p f (r ∷ rows) h = ground (arith, update_nothing p f rows)

unleased_idle :
    (s : Store) (now : ℕ) (lease : Lease) (receipt code : String) (delay : Option ℕ)
    (notify : Store → Store)
    → IsUnleased lease s.deliveries
    → (complete now lease receipt notify s ≡ (false, s)) × (fail now lease code delay s ≡ s)
unfolding complete fail
unleased_idle s now lease receipt code delay notify h = (
  rw (holds_of_unleased now lease.id lease.token s.deliveries h),
  rw (update_nothing _ (refuse now code delay) s.deliveries h),
)

accepted_once :
    (now now' id token : ℕ) (receipt : String) (rows : List DeliveryRow)
    → now ≤ now'
    → exists_where
        (holds_lease now' id token)
        (update_where (holds_lease now id token) (accept now receipt) rows)
      ≡ false
unfolding exists_where update_where
accepted_once now now' id token receipt [] h = refl
accepted_once now now' id token receipt (r ∷ rows) h =
    ground (arith, accepted_once now now' id token receipt rows h)

complete_of_unheld :
    (t : Store) (now : ℕ) (lease : Lease) (receipt : String) (notify : Store → Store)
    → exists_where (holds_lease now lease.id lease.token) t.deliveries ≡ false
    → complete now lease receipt notify t ≡ (false, t)
unfolding complete
complete_of_unheld t now lease receipt notify h = rw h

pub complete_recorded :
    (s : Store) (now : ℕ) (lease : Lease) (receipt : String) (notify : Store → Store)
    → ((t : Store) → (notify t).deliveries ≡ t.deliveries)
    → (complete now lease receipt notify s).0 ≡ true
    → (complete now lease receipt notify s).1.deliveries
      ≡ update_where (holds_lease now lease.id lease.token) (accept now receipt) s.deliveries
unfolding complete
complete_recorded s now lease receipt notify quiet h =
    elim (Bool-cases (exists_where (holds_lease now lease.id lease.token) s.deliveries)) [
      | inl e ↦ rw e (quiet _)
      | inr e ↦ absurd (false≢true (rw e at h))
    ]

-- A lease is completed at most once: after a completion that was recorded, the same worker's next
-- completion, at that time or later, is not recorded and changes nothing. What runs in the first
-- one's transaction leaves the deliveries alone.
pub complete_once :
    (s : Store) (now now' : ℕ) (lease : Lease) (receipt receipt' : String)
    (notify notify' : Store → Store)
    → ((t : Store) → (notify t).deliveries ≡ t.deliveries)
    → now ≤ now'
    → (complete now lease receipt notify s).0 ≡ true
    → let t = (complete now lease receipt notify s).1 in
      complete now' lease receipt' notify' t ≡ (false, t)
complete_once s now now' lease receipt receipt' notify notify' quiet later first =
    complete_of_unheld _ now' lease receipt' notify' (
      rw (complete_recorded s now lease receipt notify quiet first)
        (accepted_once now now' lease.id lease.token receipt s.deliveries later))

count_of_selected :
    (id : ℕ) (p : DeliveryRow → Bool) (rows : List DeliveryRow) (d : DeliveryRow)
    → select_first p rows ≡ some d
    → d.id ≡ id
    → 1 ≤ count_where (λ r. r.id == id) rows
unfolding select_first count_where
count_of_selected id p [] d e same = cc
count_of_selected id p (r ∷ rows) d e same = ground (arith, count_of_selected id p rows d)

unleased_of_count :
    (id old : ℕ) (rows : List DeliveryRow)
    → count_where (λ r. r.id == id) rows ≡ 0
    → exists_where (is_leased_by id old) rows ≡ false
unfolding count_where exists_where
unleased_of_count id old [] h = refl
unleased_of_count id old (r ∷ rows) h = ground (arith, unleased_of_count id old rows)

others_unleased :
    (now token id old : ℕ) (p : DeliveryRow → Bool) (rows : List DeliveryRow) (d : DeliveryRow)
    → count_where (λ r. r.id == id) rows ≤ 1
    → select_first p rows ≡ some d
    → d.id ≡ id
    → token ≢ old
    → exists_where (is_leased_by id old) (update_first p (take_lease now token) rows) ≡ false
unfolding exists_where update_first select_first count_where
others_unleased now token id old p [] d single e same other = cc
others_unleased now token id old p (r ∷ rows) d single e same other = elim (Bool-cases (p r)) [
  | inl b ↦ rw b (ground (arith, e, b, unleased_of_count id old rows))
  | inr b ↦ rw b (
      ground
        (arith, e, b, count_of_selected id p rows d, others_unleased now token id old p rows d))
]

pub take_next_row :
    (s : Store) (now token : ℕ) (d : DeliveryRow)
    → select_first (is_candidate now s.integrations) s.deliveries ≡ some d
    → (take_next now token s).1.deliveries
      ≡ update_first (is_candidate now s.integrations) (take_lease now token) s.deliveries
unfolding take_next
take_next_row s now token d e = rw (e, take_next)

pub take_next_idle :
    (s : Store) (now token : ℕ)
    → select_first (is_candidate now s.integrations) s.deliveries ≡ none
    → take_next now token s ≡ (none, s)
unfolding take_next
take_next_idle s now token e = rw (e, take_next)

pub take_next_busy :
    (s : Store) (now token : ℕ) (d : DeliveryRow)
    → select_first (is_candidate now s.integrations) s.deliveries ≡ some d
    → take_next now token s ≡ (some (take_lease now token d), (take_next now token s).1)
unfolding take_next
take_next_busy s now token d e = rw (e, take_next)

-- When a worker takes over a delivery, with a lease token of its own, whoever held an earlier lease
-- on that delivery, whose id is unique, can no longer record a receipt or a failure for it.
pub take_next_fences :
    (s : Store) (now now' token : ℕ) (lease : Lease) (receipt code : String) (delay : Option ℕ)
    (notify : Store → Store) (d : DeliveryRow)
    → count_where (λ r. r.id == lease.id) s.deliveries ≤ 1
    → select_first (is_candidate now s.integrations) s.deliveries ≡ some d
    → d.id ≡ lease.id
    → token ≢ lease.token
    → let t = (take_next now token s).1 in
      (complete now' lease receipt notify t ≡ (false, t)) × (fail now' lease code delay t ≡ t)
take_next_fences s now now' token lease receipt code delay notify d single e same other =
    unleased_idle _ now' lease receipt code delay notify (
      rw (take_next_row s now token d e)
        (others_unleased now token lease.id lease.token _ s.deliveries d single e same other))

candidate_due :
    (now : ℕ) (is : List IntegrationRow) (r : DeliveryRow)
    → is_candidate now is r ≡ true
    → (r.attempt_count < 8)
      × ((((r.status ≡ pending) ⊎ (r.status ≡ retry_wait)) × (r.next_attempt_at ≤ now))
          ⊎ ((r.status ≡ sending) × ((t : ℕ) × (r.lease_expires_at ≡ some t) × (t ≤ now))))
candidate_due now is r h = ground arith

-- What a worker is given: a delivery of the table that had fewer than 8 attempts and either waited
-- and was due, or was being sent under a lease that had run out. What the worker is given is that
-- row, being sent, with one attempt more and under the worker's token for 45 seconds.
pub take_next_sound :
    (s : Store) (now token : ℕ) (d : DeliveryRow)
    → (take_next now token s).0 ≡ some d
    → (r : DeliveryRow) × Memᴰ r s.deliveries
      × (d ≡ record r {
        status = sending;
        lease_token = some token;
        lease_expires_at = some (now + 45000);
        attempt_count = r.attempt_count + 1;
      })
      × (r.attempt_count < 8)
      × ((((r.status ≡ pending) ⊎ (r.status ≡ retry_wait)) × (r.next_attempt_at ≤ now))
          ⊎ ((r.status ≡ sending) × ((t : ℕ) × (r.lease_expires_at ≡ some t) × (t ≤ now))))
unfolding take_next
take_next_sound s now token d h =
    elim (Option-cases (select_first (is_candidate now s.integrations) s.deliveries)) [
      | inl e ↦ cc (rw (e, take_next) at h)
      | inr (r, e) ↦
          let (m, due) = select_first-mem (is_candidate now s.integrations) s.deliveries r e in
          let same : some (take_lease now token r) ≡ some d = rw (e, take_next) at h in
          let (few, when) = candidate_due now s.integrations r due in
          (r, m, ground (arith, same), few, when)
    ]
