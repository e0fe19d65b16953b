-- ===== src/Handoff/Service/Settling.antt =====
-- How a worker's run ends (provider-handoff.service.ts, `runOne`): what becomes of the lease that
-- it took.
use Prim.Native.String.{String}
use emu_key.Prelude.{
  ℕ, ◌+◌, ◌<◌, ◌≡◌, refl, Bool, true, false, Option, none, some, List, [], ◌∷◌, arith, select_first,
  update_where, update_first, exists_where, is_id, All, Bool-cases, Option-cases, inl, inr,
}
use emu_key.Handoff.{DeliveryRow, Store}
use emu_key.Handoff.Deliveries.{
  Lease, complete, holds_lease, accept, customer_for_current_revision, fail, is_leased_by, refuse,
  is_exhausted, exhaust, fail_exhausted, take_next, take_lease, is_candidate, claim,
}
use emu_key.Handoff.Deliveries.Leases.{
  complete_recorded, take_next_row, take_next_idle, take_next_busy,
}
use emu_key.Handoff.Service.{
  Provider, Attempt, receipted, refused, internal, notify_owner, settle, lease_of, run_claimed,
  run_one,
}

-- No row carries the token.
abbrev pub NoToken : ℕ → List DeliveryRow → Type 0
NoToken token rows = exists_where (λ d. is_id d.lease_token token) rows ≡ false

-- A row that carries the token is held by its worker at that time.
abbrev IsHeld : ℕ → ℕ → ℕ → DeliveryRow → Type 0
IsHeld later id token d = is_id d.lease_token token ≡ true → holds_lease later id token d ≡ true

NoToken-exhaust :
    (token now : ℕ) (rows : List DeliveryRow)
    → NoToken token rows
    → NoToken token (update_where (is_exhausted now) exhaust rows)
unfolding exists_where update_where
NoToken-exhaust token now [] h = refl
NoToken-exhaust token now (d ∷ rows) h = ground (arith, NoToken-exhaust token now rows)

NoToken-IsHeld :
    (token later id : ℕ) (rows : List DeliveryRow)
    → NoToken token rows
    → All (IsHeld later id token) rows
unfolding exists_where
NoToken-IsHeld token later id [] h = tt
NoToken-IsHeld token later id (d ∷ rows) h = ground (arith, NoToken-IsHeld token later id rows)

take_lease-IsHeld :
    (token now later : ℕ) (p : DeliveryRow → Bool) (rows : List DeliveryRow) (d : DeliveryRow)
    → later < now + 45000
    → select_first p rows ≡ some d
    → NoToken token rows
    → All (IsHeld later d.id token) (update_first p (take_lease now token) rows)
unfolding exists_where update_first select_first
take_lease-IsHeld token now later p [] d soon e h = tt
take_lease-IsHeld token now later p (r ∷ rows) d soon e h = elim (Bool-cases (p r)) [
  | inl b ↦ rw b (ground (arith, e, b, NoToken-IsHeld token later d.id rows))
  | inr b ↦ rw b (ground (arith, e, b, take_lease-IsHeld token now later p rows d soon))
]

NoToken-accept :
    (token now id : ℕ) (receipt : String) (rows : List DeliveryRow)
    → All (IsHeld now id token) rows
    → NoToken token (update_where (holds_lease now id token) (accept now receipt) rows)
unfolding exists_where update_where
NoToken-accept token now id receipt [] h = refl
NoToken-accept token now id receipt (d ∷ rows) (h, hs) =
    ground (arith, h, NoToken-accept token now id receipt rows hs)

IsHeld-NoToken :
    (token now id : ℕ) (rows : List DeliveryRow)
    → All (IsHeld now id token) rows
    → exists_where (holds_lease now id token) rows ≡ false
    → NoToken token rows
unfolding exists_where
IsHeld-NoToken token now id [] h e = refl
IsHeld-NoToken token now id (d ∷ rows) (h, hs) e =
    ground (arith, h, IsHeld-NoToken token now id rows hs)

NoToken-refuse :
    (token now id : ℕ) (code : String) (delay : Option ℕ) (rows : List DeliveryRow)
    → All (IsHeld now id token) rows
    → NoToken token (update_where (is_leased_by id token) (refuse now code delay) rows)
unfolding exists_where update_where
NoToken-refuse token now id code delay [] h = refl
NoToken-refuse token now id code delay (d ∷ rows) (h, hs) =
    ground (arith, h, NoToken-refuse token now id code delay rows hs)

notify_owner_quiet : (lease : Lease) (s : Store) → (notify_owner lease s).deliveries ≡ s.deliveries
notify_owner_quiet lease s =
    elim (Option-cases (customer_for_current_revision lease.license_id lease.revision s)) [
      | inl e ↦ rw (e, notify_owner)
      | inr (owner, e) ↦ rw (e, notify_owner) (ground arith)
    ]

complete_gives_up :
    (s : Store) (later : ℕ) (lease : Lease) (receipt : String)
    → All (IsHeld later lease.id lease.token) s.deliveries
    → NoToken lease.token (complete later lease receipt (notify_owner lease) s).1.deliveries
unfolding complete
complete_gives_up s later lease receipt h =
    elim (Bool-cases (exists_where (holds_lease later lease.id lease.token) s.deliveries)) [
      | inl e ↦
          rw
            (complete_recorded s later lease receipt (notify_owner lease) (notify_owner_quiet lease)
              (rw e))
            (NoToken-accept lease.token later lease.id receipt s.deliveries h)
      | inr e ↦ rw e (IsHeld-NoToken lease.token later lease.id s.deliveries h e)
    ]

settle_gives_up :
    (s : Store) (later attempt_count : ℕ) (jittered : ℕ → ℕ) (lease : Lease) (a : Attempt)
    → All (IsHeld later lease.id lease.token) s.deliveries
    → NoToken lease.token (settle later jittered attempt_count lease a s).deliveries
unfolding settle fail
settle_gives_up s later attempt_count jittered lease (receipted receipt) h =
    complete_gives_up s later lease receipt h
settle_gives_up s later attempt_count jittered lease (refused code retryable retry_after) h =
    NoToken-refuse lease.token later lease.id code _ s.deliveries h
settle_gives_up s later attempt_count jittered lease internal h =
    NoToken-refuse lease.token later lease.id _ none s.deliveries h

claimed_gives_up :
    (p : Provider) (now later token : ℕ) (jittered : ℕ → ℕ) (s : Store)
    → NoToken token s.deliveries
    → later < now + 45000
    → NoToken token
        (run_claimed p later token jittered (λ t. t) (take_next now token s)).1.deliveries
unfolding run_claimed
claimed_gives_up p now later token jittered s fresh soon =
    elim (Option-cases (select_first (is_candidate now s.integrations) s.deliveries)) [
      | inl e ↦ rw (take_next_idle s now token e) fresh
      | inr (d, e) ↦ rw (take_next_busy s now token d e) (
          settle_gives_up _ later _ jittered (lease_of token (take_lease now token d)) _ (
            rw (take_next_row s now token d e)
              (take_lease-IsHeld token now later _ s.deliveries d soon e fresh)))
    ]

-- A worker that nobody disturbs and that settles within 45 seconds of its claim has given its
-- lease up: whatever the provider answers, no delivery carries its token, which was fresh, any
-- more. So a delivery is never left as being sent by a worker that has settled in time.
pub run_one_gives_up :
    (p : Provider) (now later token : ℕ) (jittered : ℕ → ℕ) (s : Store)
    → NoToken token s.deliveries
    → later < now + 45000
    → NoToken token (run_one p now later token jittered (λ t. t) s).1.deliveries
unfolding run_one claim fail_exhausted
run_one_gives_up p now later token jittered s fresh soon =
    claimed_gives_up p now later token jittered (fail_exhausted now s)
      (NoToken-exhaust token now s.deliveries fresh) soon
