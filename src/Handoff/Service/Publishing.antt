-- ===== src/Handoff/Service/Publishing.antt =====
-- What a customer is told of the key after a published change, and when a customer
-- may read a key (provider-handoff.service.ts).
use Prim.Native.String.{String}
use mathlib.Core.Bool.{false≢true}
use mathlib.Core.Option.{some-injective}
use emu_key.Prelude.{
  ℕ, ◌+◌, ◌≤◌, ◌<◌, ◌≡◌, refl, ap, subst, ◌∙◌, ◌↔◌, Bool, true, false, ◌&&◌, none, some, List, [],
  ◌∷◌, ◌++◌, arith, ◌==◌, select_first, update_where, exists_where, All, select_first-All,
  Option-cases, inl, inr, select_first-mem,
}
use emu_key.Handoff.{pending, delivered, Snapshot, DeliveryRow, IntegrationRow, LicenseRow, Store}
use emu_key.Handoff.Policy.{active, trusted, can_receive_provider_key}
use emu_key.Handoff.Deliveries.{is_live, supersede, new_delivery, record_snapshot}
use emu_key.Handoff.Service.{
  reparse, message_of, publish, CustomerInfo, info_of, current_delivery, customer_info,
}

info_of_found :
    (now customer license_id : ℕ) (s : Store) (l : LicenseRow) (info : CustomerInfo)
    → select_first (λ m. m.id == license_id && m.customer_user_id == customer) s.licenses ≡ some l
    → customer_info now customer license_id s ≡ some info
    → info_of now l (current_delivery l s) ≡ info
unfolding customer_info
info_of_found now customer license_id s l info found e =
    let e' = rw (found, customer_info) at e in ground (arith, e')

available_without : (now : ℕ) (l : LicenseRow) → (info_of now l none).key_available ≡ false
available_without now l = refl

available_with :
    (now : ℕ) (l : LicenseRow) (d : DeliveryRow)
    → d.revision ≡ l.provider_revision
    → ((info_of now l (some d)).key_available ≡ true) ↔ (
        (d.status ≡ delivered)
        × (0 < l.provider_revision)
        × (l.status ≡ active)
        × (l.trust ≡ trusted)
        × (now < reparse l.expires_at))
unfolding can_receive_provider_key
available_with now l d h = ground arith

current_revision :
    (l : LicenseRow) (s : Store) (d : DeliveryRow)
    → current_delivery l s ≡ some d
    → d.revision ≡ l.provider_revision
current_revision l s d e = let (m, h) = select_first-mem _ s.deliveries d e in ground (arith, h)

delivered_of_same :
    (d d' : DeliveryRow) → some d ≡ some d' → d'.status ≡ delivered → d.status ≡ delivered
delivered_of_same d d' e h = ap (λ (x : DeliveryRow). x.status) (some-injective d d' e) ∙ h

-- The key of a customer's licence is available exactly when the delivery of its present revision
-- is delivered, the revision is not the initial one, the licence is active and trusted, and the
-- whole second in which it expires has not begun.
pub key_available_iff :
    (now customer license_id : ℕ) (s : Store) (l : LicenseRow) (info : CustomerInfo)
    → select_first (λ m. m.id == license_id && m.customer_user_id == customer) s.licenses ≡ some l
    → customer_info now customer license_id s ≡ some info
    → (info.key_available ≡ true) ↔ (
        ((d : DeliveryRow) × (current_delivery l s ≡ some d) × (d.status ≡ delivered))
        × (0 < l.provider_revision)
        × (l.status ≡ active)
        × (l.trust ≡ trusted)
        × (now < reparse l.expires_at))
key_available_iff now customer license_id s l info found e =
    rw (← info_of_found now customer license_id s l info found e)
      (elim (Option-cases (current_delivery l s)) [
        | inl missing ↦ rw missing (λ h. absurd (false≢true h), λ h. cc (h.0.1))
        | inr (d, present) ↦
            let iff = available_with now l d (current_revision l s d present) in
            rw present (
              λ h.
                  let (done, positive, live, trust, unexpired) = iff.0 h in
                  ((d, refl, done), positive, live, trust, unexpired),
              λ h. iff.1 (delivered_of_same d h.0.0 h.0.1 h.0.2, h.1, h.2, h.3, h.4),
            )
      ])

selected_new :
    (p : DeliveryRow → Bool) (rows : List DeliveryRow) (d : DeliveryRow)
    → exists_where p rows ≡ false
    → p d ≡ true
    → select_first p (rows ++ d ∷ []) ≡ some d
unfolding select_first exists_where
selected_new p [] d h k = rw k
selected_new p (r ∷ rows) d h k = ground (arith, selected_new p rows d)

-- No delivery of the licence is of a later revision than the licence itself.
abbrev pub IsUpToDate : ℕ → ℕ → DeliveryRow → Type 0
IsUpToDate license_id revision d = d.license_id ≡ license_id → d.revision ≤ revision

none_newer :
    (lid rev lid' rev' : ℕ) (rows : List DeliveryRow)
    → lid' ≡ lid
    → rev' ≡ rev + 1
    → All (IsUpToDate lid rev) rows
    → exists_where
        (λ d. d.license_id == lid' && d.revision == rev')
        (update_where (λ d. d.license_id == lid && is_live d.status) supersede rows)
      ≡ false
unfolding exists_where update_where
none_newer lid rev lid' rev' [] a b h = refl
none_newer lid rev lid' rev' (d ∷ rows) a b (h, hs) =
    ground (arith, h, none_newer lid rev lid' rev' rows a b hs)

current_after_publish :
    (s : Store) (now lid rev provider integration version : ℕ) (l' : LicenseRow) (m : Snapshot)
    → All (IsUpToDate lid rev) s.deliveries
    → l'.id ≡ lid
    → l'.provider_revision ≡ rev + 1
    → m.revision ≡ rev + 1
    → current_delivery l' (record_snapshot now lid provider integration version m s)
      ≡ some (new_delivery now lid provider integration version m)
unfolding record_snapshot
current_after_publish s now lid rev provider integration version l' m h a b c =
    selected_new (λ d. d.license_id == l'.id && d.revision == l'.provider_revision) _ _
      (none_newer lid rev l'.id l'.provider_revision s.deliveries a b h) (ground arith)

-- What the licence's row is after publishing, if its id is unique.
abbrev pub IsOnly : ℕ → LicenseRow → LicenseRow → Type 0
IsOnly lid l m = m.id ≡ lid → m ≡ l

updated_only :
    (lid rev' : ℕ) (l : LicenseRow) (rows : List LicenseRow)
    → All (IsOnly lid l) rows
    → All
        (λ m. m.id ≡ lid → m.provider_revision ≡ rev')
        (update_where (λ m. m.id == lid) (λ m. record m { provider_revision = rev' }) rows)
unfolding update_where
updated_only lid rev' l [] h = tt
updated_only lid rev' l (m ∷ rows) (h, hs) = (ground arith, updated_only lid rev' l rows hs)

published :
    (s t : Store) (now delivery lid : ℕ) (event : String) (l : LicenseRow) (i : IntegrationRow)
    → select_first (λ m. m.id == lid && m.provider_managed) s.licenses ≡ some l
    → select_first (λ j. j.provider_user_id == l.provider_user_id) s.integrations ≡ some i
    → publish now delivery lid event s ≡ some t
    → record_snapshot now lid l.provider_user_id i.id i.config_version
        (message_of now delivery event l)
        s
      ≡ t
unfolding publish
published s t now delivery lid event l i e f p =
    let p' = rw (e, publish) at p in let p'' = rw f at p' in ground (arith, p'')

info_present :
    (now customer lid : ℕ) (t : Store) (info : CustomerInfo)
    → customer_info now customer lid t ≡ some info
    → (l : LicenseRow) × (select_first
          (λ m. m.id == lid && m.customer_user_id == customer)
          t.licenses
        ≡ some l)
      × (info_of now l (current_delivery l t) ≡ info)
unfolding customer_info
info_present now customer lid t info c =
    elim (Option-cases
      (select_first (λ m. m.id == lid && m.customer_user_id == customer) t.licenses)) [
        | inl e ↦ cc (rw (e, customer_info) at c)
        | inr (l, e) ↦ (l, e, info_of_found now customer lid t l info e c)
      ]

renewed_revision :
    (s t : Store) (now lid customer : ℕ) (i : IntegrationRow) (l l' : LicenseRow) (m : Snapshot)
    → All (IsOnly lid l) s.licenses
    → record_snapshot now lid l.provider_user_id i.id i.config_version m s ≡ t
    → select_first (λ m. m.id == lid && m.customer_user_id == customer) t.licenses ≡ some l'
    → l'.id ≡ lid
    → l'.provider_revision ≡ m.revision
unfolding record_snapshot
renewed_revision s t now lid customer i l l' m only same found id =
    let rows : All (λ n. n.id ≡ lid → n.provider_revision ≡ m.revision) t.licenses =
      subst (λ (u : Store). All (λ n. n.id ≡ lid → n.provider_revision ≡ m.revision) u.licenses)
        same (updated_only lid m.revision l s.licenses only) in
    (select_first-All _ _ t.licenses found rows).0 id

-- Publishing a change of a provider-managed licence raises its revision by one and withholds its
-- key: on the state that the publication leaves, at whatever time and whatever the licence's state,
-- the customer is told that the key is not available and that the delivery is pending. The licence
-- has an integration and is the only one of its id, and no delivery of it is of a later revision.
pub publish_withholds_key :
    (s t : Store) (now now' delivery lid customer : ℕ) (event : String) (l : LicenseRow)
    (i : IntegrationRow) (info : CustomerInfo)
    → select_first (λ m. m.id == lid && m.provider_managed) s.licenses ≡ some l
    → select_first (λ j. j.provider_user_id == l.provider_user_id) s.integrations ≡ some i
    → All (IsOnly lid l) s.licenses
    → All (IsUpToDate lid l.provider_revision) s.deliveries
    → publish now delivery lid event s ≡ some t
    → customer_info now' customer lid t ≡ some info
    → (info.provider_revision ≡ l.provider_revision + 1)
      × (info.key_available ≡ false)
      × (info.provider_delivery_status ≡ pending)
publish_withholds_key s t now now' delivery lid customer event l i info e f only fresh p c =
    let m = message_of now delivery event l in
    let same = published s t now delivery lid event l i e f p in
    let (l', found, shown) = info_present now' customer lid t info c in
    let (listed, selected) = select_first-mem _ t.licenses l' found in
    let id : l'.id ≡ lid = ground (arith, selected) in
    let raised : l'.provider_revision ≡ l.provider_revision + 1 =
      renewed_revision s t now lid customer i l l' m only same found id in
    let now_current : current_delivery l' t
        ≡ some (new_delivery now lid l.provider_user_id i.id i.config_version m) =
      subst
        (λ (u : Store).
          current_delivery l' u
          ≡ some (new_delivery now lid l.provider_user_id i.id i.config_version m))
        same
        (current_after_publish s now lid l.provider_revision l.provider_user_id i.id
          i.config_version l' m fresh id raised refl) in
    rw (← shown) (rw now_current (raised, refl, refl))
