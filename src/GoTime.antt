-- ===== src/GoTime.antt =====
-- What the SDK uses of Go's package time: a UTC time of whole seconds by its calendar fields, and
-- `time.Date`, which carries fields that are out of range over into the next.
use gb32960_go_sdk.Base.{
  ℕ, zero, suc, ◌+◌, ◌-◌, ◌*◌, ◌/◌, ◌%◌, ◌≤◌, ◌<◌, ◌≡◌, Bool, not, ◌&&◌, ◌||◌, inl, inr, ◌==◌, leb,
  if◌then◌else◌, arith, Bool-cases, le→leb, ==_ne,
}

pub record Time : Type 0 where
  pub year : ℕ
  pub month : ℕ
  pub day : ℕ
  pub hour : ℕ
  pub minute : ℕ
  pub second : ℕ

unfoldable pub is_leap : ℕ → Bool
is_leap y = y % 4 == 0 && not (y % 100 == 0) || y % 400 == 0

unfoldable pub days_in : ℕ → ℕ → ℕ
unfolding is_leap
days_in y m =
    if m == 2
    then (if is_leap y then 29 else 28)
    else if m == 4 || m == 6 || m == 9 || m == 11
    then 30
    else 31

-- Months are counted from January of the year 0.
abbrev year_of : ℕ → ℕ
year_of months = months / 12

abbrev month_of : ℕ → ℕ
month_of months = months % 12 + 1

abbrev days_of : ℕ → ℕ
days_of months = days_in (year_of months) (month_of months)

-- A day behind the end of its month is a day of a later one.
unfoldable pub roll : ℕ → ℕ → ℕ → ℕ × ℕ
roll zero months day = (months, day)
roll (suc fuel) months day =
    let later = roll fuel (months + 1) (day - days_of months) in
    if leb day (days_of months) then (months, day) else later

-- Day 0 is the last day of the month before.
unfoldable pub settle : ℕ → ℕ → ℕ × ℕ
unfolding roll
settle months day = if day == 0 then (months - 1, days_of (months - 1)) else roll day months day

-- `time.Date` of numbers that are not negative, in UTC.
unfoldable pub date : ℕ → ℕ → ℕ → ℕ → ℕ → ℕ → Time
date year month day hour minute second =
    let minutes = minute + second / 60 in
    let hours = hour + minutes / 60 in
    let (months, d) = settle (year * 12 + month - 1) (day + hours / 24) in
    record {
      year = year_of months;
      month = month_of months;
      day = d;
      hour = hours % 24;
      minute = minutes % 60;
      second = second % 60;
    }

pub record IsCalendar (t : Time) : Type 0 where
  pub month_low : 1 ≤ t.month
  pub month_high : t.month ≤ 12
  pub day_low : 1 ≤ t.day
  pub day_high : t.day ≤ days_in t.year t.month
  pub hour_high : t.hour < 24
  pub minute_high : t.minute < 60
  pub second_high : t.second < 60

pub days_in_bounds : (y m : ℕ) → (28 ≤ days_in y m) × (days_in y m ≤ 31)
unfolding days_in
days_in_bounds y m = ground arith

roll-bounds :
    (fuel months day : ℕ)
    → 1 ≤ day
    → day ≤ 28 * fuel
    → (1 ≤ (roll fuel months day).1) × ((roll fuel months day).1 ≤ days_of (roll fuel months day).0)
unfolding roll
roll-bounds zero months day lo hi = absurd (omega arith)
roll-bounds (suc fuel) months day lo hi = elim (Bool-cases (leb day (days_of months))) [
  | inl within ↦ rw within (ground arith)
  | inr past ↦ rw past (
      roll-bounds fuel (months + 1) (day - days_of months) (ground arith)
        (ground (arith, days_in_bounds (year_of months) (month_of months))))
]

settle-bounds :
    (months day : ℕ)
    → (1 ≤ (settle months day).1) × ((settle months day).1 ≤ days_of (settle months day).0)
unfolding settle
settle-bounds months zero =
    omega (arith, days_in_bounds (year_of (months - 1)) (month_of (months - 1)))
settle-bounds months (suc day) =
    rw (==_ne (suc day) 0 (omega arith))
      (roll-bounds (suc day) months (suc day) (omega arith) (omega arith))

-- Whatever the arguments are, `date` gives a time whose fields are in their ranges.
pub date-IsCalendar :
    (year month day hour minute second : ℕ) → IsCalendar (date year month day hour minute second)
unfolding date
date-IsCalendar year month day hour minute second =
    let minutes = minute + second / 60 in
    let hours = hour + minutes / 60 in
    let b = settle-bounds (year * 12 + month - 1) (day + hours / 24) in
    record {
      month_low = omega arith;
      month_high = omega arith;
      day_low = b.0;
      day_high = b.1;
      hour_high = omega arith;
      minute_high = omega arith;
      second_high = omega arith;
    }

settle_within :
    (months day : ℕ) → 1 ≤ day → day ≤ days_of months → settle months day ≡ (months, day)
unfolding settle
settle_within months zero lo hi = absurd (omega arith)
settle_within months (suc day) lo hi =
    rw (==_ne (suc day) 0 (omega arith), le→leb (suc day) (days_of months) hi)

-- `date` of fields in their ranges is the time with those fields.
pub date-fields : (t : Time) → IsCalendar t → date t.year t.month t.day t.hour t.minute t.second ≡ t
unfolding date
date-fields t v =
    let e1 : t.day + (t.hour + (t.minute + t.second / 60) / 60) / 24 ≡ t.day = omega arith in
    let months = t.year * 12 + t.month - 1 in
    let ey : year_of months ≡ t.year = omega arith in
    let em : month_of months ≡ t.month = omega arith in
    rw (e1, settle_within months t.day v.day_low (rw (ey, em) v.day_high)) (ground (arith, ey, em))
