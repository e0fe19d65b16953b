-- ===== src/Commerce/Renewal.antt =====
-- backend/src/modules/commerce-payment/domain/renewal-policy.ts
-- A Date is its UTC fields: the year, the month from 0, the day of the month and the milliseconds
-- of the day; the order of `getTime()` is the order of the fields. `none` is an Invalid Date. The
-- dates have a year from 0.
pub mod Expiry
use emu_key.Prelude.{
  ℕ, ◌+◌, ◌-◌, ◌*◌, ◌/◌, ◌%◌, ◌^◌, Bool, true, false, not, ◌&&◌, ◌||◌, Option, none, some, ltb, leb,
  ◌==◌, if◌then◌else◌, min,
}

pub record UtcDate : Type 0 where
  pub year : ℕ
  pub month : ℕ
  pub day : ℕ
  pub ms_of_day : ℕ

abbrev pub is_leap_year : ℕ → Bool
is_leap_year y = y % 4 == 0 && (not (y % 100 == 0) || y % 400 == 0)

-- The days of a month of the calendar.
unfoldable pub days_in_month : ℕ → ℕ → ℕ
days_in_month y m =
    if m == 1
    then (if is_leap_year y then 29 else 28)
    else if m == 3 || m == 5 || m == 8 || m == 10
    then 30
    else 31

-- `Date.UTC` takes the years 0 to 99 for 1900 to 1999.
abbrev pub utc_year : ℕ → ℕ
utc_year y = if leb y 99 then 1900 + y else y

-- `new Date(Date.UTC(year, month + 1, 0)).getUTCDate()`
unfoldable pub last_day : ℕ → ℕ → ℕ
unfolding days_in_month
last_day y m = days_in_month (utc_year y) m

-- A Date ends on 13 September 275760, so the last month whose last day is a Date is August 275760.
abbrev pub last_month : ℕ
last_month = 275760 * 12 + 7

-- `a.getTime() <= b.getTime()`
unfoldable pub is_at_or_before : UtcDate → UtcDate → Bool
is_at_or_before a b =
    if ltb a.year b.year
    then true
    else if ltb b.year a.year
    then false
    else if ltb a.month b.month
    then true
    else if ltb b.month a.month
    then false
    else if ltb a.day b.day
    then true
    else if ltb b.day a.day
    then false
    else leb a.ms_of_day b.ms_of_day

-- `new Date(Math.max(a.getTime(), b.getTime()))`
unfoldable pub later_of : UtcDate → UtcDate → UtcDate
unfolding is_at_or_before
later_of a b = if is_at_or_before a b then b else a

-- `setUTCDate(1)`, then `setUTCMonth(getUTCMonth() + months)`, then the day of `day`, at most the
-- month's last, in the range of a Date
unfoldable pub shift_months : UtcDate → ℕ → UtcDate
shift_months base months =
    let year = base.year + (base.month + months) / 12 in
    let month = (base.month + months) % 12 in
    record {
      year = year;
      month = month;
      day = min base.day (last_day year month);
      ms_of_day = base.ms_of_day;
    }

abbrev pub max_safe_integer : ℕ
max_safe_integer = 2 ^ 53 - 1

-- The result is an Invalid Date if the month's first or last day is none, which `lastDay` or the
-- month that is set then makes it.
unfoldable pub add_months : UtcDate → ℕ → Option UtcDate
unfolding shift_months
add_months base months =
    if leb (base.year * 12 + base.month + months) last_month
    then some (shift_months base months)
    else none

-- What `renewalExpiry` does: it throws INVALID_RENEWAL_PERIOD, or returns a Date.
pub data Renewed : Type 0 where
  invalid_period : Renewed
  returned : Option UtcDate → Renewed

-- From a finite date on.
abbrev pub extend : UtcDate → ℕ → Renewed
extend base months =
    if not (leb months max_safe_integer) || months == 0
    then invalid_period
    else returned (add_months base months)

unfoldable pub renewal_expiry : Option UtcDate → Option UtcDate → ℕ → Renewed
renewal_expiry none verified_paid_at months = invalid_period
renewal_expiry (some current_expiry) none months = invalid_period
renewal_expiry (some current_expiry) (some verified_paid_at) months =
    extend (later_of current_expiry verified_paid_at) months
