-- ===== src/Commerce/Renewal/Expiry.antt =====
-- The renewed period (renewal-policy.ts): it starts at the later of the two dates, runs whole
-- months and ends on a day that exists.
use emu_key.Prelude.{
  ℕ, ◌+◌, ◌*◌, ◌/◌, ◌%◌, ◌≤◌, ◌<◌, ◌≡◌, refl, ◌⊎◌, false, some, arith, min, max, Bool-cases, inl,
  inr,
}
use emu_key.Commerce.Renewal.{
  UtcDate, is_leap_year, utc_year, days_in_month, last_day, is_at_or_before, later_of, shift_months,
  add_months, returned, extend, renewal_expiry,
}

-- The fields name a day of the calendar, from the year 1 on.
pub record IsValid (d : UtcDate) : Type 0 where
  pub year_pos : 1 ≤ d.year
  pub month_bound : d.month < 12
  pub day_pos : 1 ≤ d.day
  pub day_bound : d.day ≤ days_in_month d.year d.month

-- Months since the year 0.
abbrev pub month_index : UtcDate → ℕ
month_index d = d.year * 12 + d.month

-- `a.getTime() < b.getTime()`
abbrev pub IsBefore : UtcDate → UtcDate → Type 0
IsBefore a b = is_at_or_before b a ≡ false

days_in_month_pos : (y m : ℕ) → 28 ≤ days_in_month y m
unfolding days_in_month
days_in_month_pos y m = ground arith

is_leap_year-utc_year : (y : ℕ) → 1 ≤ y → is_leap_year (utc_year y) ≡ is_leap_year y
is_leap_year-utc_year y pos = ground arith

-- From the year 1 on, `Date.UTC` finds the calendar's last day.
last_day_lem : (y m : ℕ) → 1 ≤ y → last_day y m ≡ days_in_month y m
unfolding last_day days_in_month
last_day_lem y m pos = rw (is_leap_year-utc_year y pos) refl

later_of_cases : (a b : UtcDate) → (later_of a b ≡ a) ⊎ (later_of a b ≡ b)
unfolding later_of
later_of_cases a b = ground arith

later_of-IsValid : (a b : UtcDate) → IsValid a → IsValid b → IsValid (later_of a b)
unfolding later_of
later_of-IsValid a b v w = elim (Bool-cases (is_at_or_before a b)) [
  | inl e ↦ rw e w
  | inr e ↦ rw e v
]

month_index-later_of :
    (a b : UtcDate)
    → a.month < 12
    → b.month < 12
    → month_index (later_of a b) ≡ max (month_index a) (month_index b)
unfolding later_of
month_index-later_of a b v w = ground arith

month_index-IsBefore :
    (a b : UtcDate) → a.month < 12 → b.month < 12 → month_index a < month_index b → IsBefore a b
unfolding is_at_or_before
month_index-IsBefore a b v w h = ground arith

shift_months_day :
    (d : UtcDate) (n : ℕ)
    → 1 ≤ d.year
    → let r = shift_months d n in
      (r.day ≡ min d.day (days_in_month r.year r.month)) × (r.ms_of_day ≡ d.ms_of_day)
unfolding shift_months
shift_months_day d n pos = (
  rw (last_day_lem (d.year + (d.month + n) / 12) ((d.month + n) % 12) (omega (arith, pos))) refl,
  refl,
)

shift_months-IsValid : (d : UtcDate) (n : ℕ) → IsValid d → IsValid (shift_months d n)
unfolding shift_months
shift_months-IsValid d n v =
    let r = shift_months d n in
    let bound = days_in_month_pos r.year r.month in
    let day = (shift_months_day d n v.year_pos).0 in
    let start = v.day_pos in
    record {
      year_pos = let from = v.year_pos in omega (arith, from);
      month_bound = omega arith;
      day_pos = omega (arith, day, bound, start);
      day_bound = omega (arith, day);
    }

month_index-shift_months :
    (d : UtcDate) (n : ℕ) → month_index (shift_months d n) ≡ month_index d + n
unfolding shift_months
month_index-shift_months d n = omega arith

extend-eq-shift_months :
    (base : UtcDate) (months : ℕ) {r : UtcDate}
    → extend base months ≡ returned (some r)
    → (shift_months base months ≡ r) × (1 ≤ months)
unfolding add_months
extend-eq-shift_months base months h = ground arith

renewal_expiry-eq-shift_months :
    (current paid : UtcDate) (months : ℕ) {r : UtcDate}
    → renewal_expiry (some current) (some paid) months ≡ returned (some r)
    → (shift_months (later_of current paid) months ≡ r) × (1 ≤ months)
unfolding renewal_expiry
renewal_expiry-eq-shift_months current paid months h =
    extend-eq-shift_months (later_of current paid) months h

-- A valid date that a renewal of valid dates returns is a valid date, lies strictly after both the
-- current expiry and the payment, and is `months` calendar months after the later of the two, at the
-- same time of the day and on the same day of the month, or on the month's last day where that is
-- earlier. The dates are from the year 1 on.
pub renewal_expiry_extends :
    (current paid : UtcDate) (months : ℕ) (r : UtcDate)
    → IsValid current
    → IsValid paid
    → renewal_expiry (some current) (some paid) months ≡ returned (some r)
    → let base = later_of current paid in
      IsValid r
      × IsBefore current r
      × IsBefore paid r
      × (month_index r ≡ max (month_index current) (month_index paid) + months)
      × (r.day ≡ min base.day (days_in_month r.year r.month))
      × (r.ms_of_day ≡ base.ms_of_day)
renewal_expiry_extends current paid months r v w h =
    let (same, positive) = renewal_expiry-eq-shift_months current paid months h in
    let base = later_of current paid in
    let from = later_of-IsValid current paid v w in
    let valid = shift_months-IsValid base months from in
    let index = month_index-shift_months base months in
    let latest = month_index-later_of current paid v.month_bound w.month_bound in
    let (day, time) = shift_months_day base months from.year_pos in
    rw (← same) (
      valid,
      month_index-IsBefore current (shift_months base months) v.month_bound valid.month_bound
          (omega arith),
      month_index-IsBefore paid (shift_months base months) w.month_bound valid.month_bound
          (omega arith),
      omega arith,
      day,
      time,
    )
