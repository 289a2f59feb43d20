-- ===== src/Domain/Calendar.antt =====
-- What src/domain uses of the chrono crate, as a parameter: the date of an instant in UTC, the
-- midnight that opens a date, and the checked steps by months and days. The laws are chrono's
-- documented behaviour; the bucket bounds of the program are derived from them, not assumed.
use pulpitum.Base.{ℕ, ◌+◌, ◌≤◌, ◌<◌, ◌≡◌, Option, some}
use pulpitum.Base.Int.{ℤ, pos, ◌+ℤ◌, ◌<ℤ◌}
use pulpitum.Domain.Model.{DateTime}

pub record Date : Type 0 where
  pub year : ℤ
  pub month : ℕ
  pub day : ℕ

-- The earlier-than of dates: by year, then month, then day.
pub data Earlier (d e : Date) : Type 0 where
  in_earlier_year : d.year <ℤ e.year → Earlier d e
  in_earlier_month : d.year ≡ e.year → d.month < e.month → Earlier d e
  on_earlier_day : d.year ≡ e.year → d.month ≡ e.month → d.day < e.day → Earlier d e

pub record Chrono : Type 0 where
  -- `Datelike::{year, month, day}`.
  pub date : DateTime → Date
  -- `Utc.with_ymd_and_hms(year, month, day, 0, 0, 0).single()`.
  pub midnight : Date → Option DateTime
  pub checked_add_months : DateTime → ℕ → Option DateTime
  pub checked_add_days : DateTime → ℕ → Option DateTime

abbrev pub first_of_year : ℤ → Date
first_of_year y = record { year = y; month = 1; day = 1 }

abbrev pub first_of_month : ℤ → ℕ → Date
first_of_month y m = record { year = y; month = m; day = 1 }

-- An instant is a midnight that has a date, and no earlier instant has that date or a later one.
pub record IsCalendar (c : Chrono) : Type 0 where
  pub month_in : (t : DateTime) → (1 ≤ (c.date t).month) × ((c.date t).month ≤ 12)
  pub day_in : (t : DateTime) → 1 ≤ (c.date t).day
  -- The midnight of a date has that date, and splits the instants by their dates.
  pub midnight_date : (d : Date) (s : DateTime) → c.midnight d ≡ some s → c.date s ≡ d
  pub midnight_le :
      (d : Date) (s t : DateTime) → c.midnight d ≡ some s → s ≤ t → ¬ Earlier (c.date t) d
  pub midnight_lt :
      (d : Date) (s t : DateTime) → c.midnight d ≡ some s → t < s → Earlier (c.date t) d
  -- Months are added to the month and year; the first day of a month stays the first.
  pub add_year :
      (y : ℤ) (s e : DateTime)
      → c.midnight (first_of_year y) ≡ some s
      → c.checked_add_months s 12 ≡ some e
      → c.midnight (first_of_year (y +ℤ pos 1)) ≡ some e
  pub add_month :
      (y : ℤ) (m : ℕ) (s e : DateTime)
      → m < 12
      → c.midnight (first_of_month y m) ≡ some s
      → c.checked_add_months s 1 ≡ some e
      → c.midnight (first_of_month y (m + 1)) ≡ some e
  pub add_december :
      (y : ℤ) (s e : DateTime)
      → c.midnight (first_of_month y 12) ≡ some s
      → c.checked_add_months s 1 ≡ some e
      → c.midnight (first_of_month (y +ℤ pos 1) 1) ≡ some e
  -- One day later is the midnight of a later date, with no date in between.
  pub add_day :
      (d : Date) (s e : DateTime)
      → c.midnight d ≡ some s
      → c.checked_add_days s 1 ≡ some e
      → (d' : Date) × (c.midnight d' ≡ some e)
        × Earlier d d'
        × ((t : DateTime) → Earlier d (c.date t) → ¬ Earlier (c.date t) d')
