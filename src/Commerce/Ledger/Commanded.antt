-- ===== src/Commerce/Ledger/Commanded.antt =====
-- An accepted payment adds one command, of its order (the second half of `ingestPayment`).
use emu_key.Prelude.{
  ℕ, ◌≡◌, refl, Bool, not, Option, none, some, [], ◌∷◌, ◌++◌, Bool-cases, inl, inr, if◌then◌else◌,
}
use emu_key.Commerce.Renewal.{Renewed, invalid_period, returned}
use emu_key.Commerce.Store.{
  OrderRow, OrderType, new_purchase, renewal, LicenseRow, CommandRow, Effects,
}
use emu_key.Commerce.Fulfilment.{
  Issuance, Fulfilment, not_issued, issued, issue_on, Predecessor, renew_after, renew_until,
  renew_on, fulfill_type, fulfill, issue_command,
}

-- One command of the order more.
abbrev pub Commands : OrderRow → Effects → Effects → Type 0
Commands o x new =
    (c : CommandRow) × (new.commands ≡ x.commands ++ c ∷ []) × (c.command_order_id ≡ o.order_id)

abbrev pub IsCommanded : OrderRow → Effects → Fulfilment → Type 0
IsCommanded o x (not_issued error) = Unit
IsCommanded o x (issued new) = Commands o x new

IsCommanded-if :
    (o : OrderRow) (x : Effects) (b : Bool) (f g : Fulfilment)
    → IsCommanded o x f
    → IsCommanded o x g
    → IsCommanded o x (if b then f else g)
IsCommanded-if o x b f g h k = elim (Bool-cases b) [ inl e ↦ rw e h | inr e ↦ rw e k ]

issue_on-IsCommanded :
    (i : Issuance) (o : OrderRow) (at : ℕ) (x : Effects) (registry : Option ℕ)
    → IsCommanded o x (issue_on i o at x registry)
issue_on-IsCommanded i o at x none = tt
issue_on-IsCommanded i o at x (some r) =
    IsCommanded-if o x (not o.is_handoff) _ _ (issue_command i o at r, refl, refl)
      (IsCommanded-if o x i.has_key_storage _ _ (issue_command i o at r, refl, refl) tt)

renew_after-IsCommanded :
    (i : Issuance) (o : OrderRow) (license until : ℕ) (x : Effects) (p : Option Predecessor)
    → IsCommanded o x (renew_after i o license until x p)
renew_after-IsCommanded i o license until x none = tt
renew_after-IsCommanded i o license until x (some p) = (_, refl, refl)

renew_until-IsCommanded :
    (i : Issuance) (o : OrderRow) (license : ℕ) (x : Effects) (until : Renewed)
    → IsCommanded o x (renew_until i o license x until)
renew_until-IsCommanded i o license x invalid_period = tt
renew_until-IsCommanded i o license x (returned none) = tt
renew_until-IsCommanded i o license x (returned (some u)) =
    renew_after-IsCommanded i o license _ x _

renew_on-IsCommanded :
    (i : Issuance) (o : OrderRow) (at license : ℕ) (x : Effects) (l : Option LicenseRow)
    → IsCommanded o x (renew_on i o at license x l)
renew_on-IsCommanded i o at license x none = tt
renew_on-IsCommanded i o at license x (some l) = renew_until-IsCommanded i o license x _

fulfill_type-IsCommanded :
    (i : Issuance) (o : OrderRow) (at : ℕ) (x : Effects) (t : OrderType)
    → IsCommanded o x (fulfill_type i o at x t)
fulfill_type-IsCommanded i o at x new_purchase = issue_on-IsCommanded i o at x _
fulfill_type-IsCommanded i o at x (renewal license) = renew_on-IsCommanded i o at license x _

pub fulfill-IsCommanded :
    (i : Issuance) (o : OrderRow) (at : ℕ) (x : Effects) → IsCommanded o x (fulfill i o at x)
unfolding fulfill
fulfill-IsCommanded i o at x = fulfill_type-IsCommanded i o at x _
