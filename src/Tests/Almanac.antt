-- ===== src/Tests/Almanac.antt =====
-- A calendar to test with, in place of the chrono crate: months of 31 days and days of 24 ticks,
-- from the first day of the year 0.
use pulpitum.Base.{
  ℕ, ◌+◌, ◌-◌, ◌*◌, ◌/◌, ◌%◌, ◌≤◌, ◌<◌, ◌≡◌, refl, sym, ap, subst, ◌∙◌, ◌⊎◌, inl, inr, Bool, ◌&&◌,
  Option, none, some, arith, leb, if◌then◌else◌, Bool-cases,
}
use pulpitum.Base.Int.{ℤ, pos, negsuc, ◌+ℤ◌}
use pulpitum.Domain.Model.{DateTime}
use pulpitum.Domain.Calendar.{
  Date, Earlier, in_earlier_year, in_earlier_month, on_earlier_day, Chrono, IsCalendar,
  first_of_year, first_of_month,
}

abbrev date_at : DateTime → Date
date_at t = record { year = pos (t / 8928); month = t % 8928 / 744 + 1; day = t % 744 / 24 + 1 }

abbrev in_month : ℕ → ℕ → Bool
in_month m d = (leb 1 m && leb m 12) && (leb 1 d && leb d 31)

abbrev opens : ℤ → ℕ → ℕ → Option DateTime
opens (negsuc n) m d = none
opens (pos y) m d = if in_month m d then some (8928 * y + 744 * (m - 1) + 24 * (d - 1)) else none

abbrev pub almanac : Chrono
almanac = record {
  date = date_at;
  midnight = λ d. opens d.year d.month d.day;
  checked_add_months = λ t n. some (t + 744 * n);
  checked_add_days = λ t n. some (t + 24 * n);
}

-- The instant is the midnight of the date.
record Opens (n m d : ℕ) (s : DateTime) : Type 0 where
  instant : s ≡ 8928 * n + 744 * (m - 1) + 24 * (d - 1)
  month_low : 1 ≤ m
  month_high : m ≤ 12
  day_low : 1 ≤ d
  day_high : d ≤ 31

opened :
    (y : ℤ) (m d : ℕ) (s : DateTime) → opens y m d ≡ some s → (n : ℕ) × (y ≡ pos n) × Opens n m d s
opened (negsuc n) m d s h = cc
opened (pos n) m d s h = elim (Bool-cases (in_month m d)) [
  | inl t ↦ (
    n,
    refl,
    record {
      instant = ground arith;
      month_low = ground arith;
      month_high = ground arith;
      day_low = ground arith;
      day_high = ground arith;
    },
  )
  | inr f ↦ absurd (ground arith)
]

abbrev dated : ℕ → ℕ → ℕ → Date
dated n m d = record { year = pos n; month = m; day = d }

with_date :
    (P : Date → Type 0) (d : Date) (s : DateTime)
    → opens d.year d.month d.day ≡ some s
    → ((n : ℕ) → Opens n d.month d.day s → P (dated n d.month d.day))
    → P d
with_date P d s h f =
    let (n, e, o) = opened d.year d.month d.day s h in
    subst (λ y. P (record { year = y; month = d.month; day = d.day })) (sym e) (f n o)

at_midnight : (n m d : ℕ) (s : DateTime) → Opens n m d s → date_at s ≡ dated n m d
at_midnight n m d s o =
    let y : s / 8928 ≡ n = omega arith in
    let a : s % 8928 / 744 + 1 ≡ m = omega arith in
    let b : s % 744 / 24 + 1 ≡ d = omega arith in rw (y, a, b) refl

pos_same : (a b : ℕ) → pos a ≡ pos b → a ≡ b
pos_same a b h = ground arith

not-Earlier :
    (n m d : ℕ) (s t : DateTime) → Opens n m d s → s ≤ t → Earlier (date_at t) (dated n m d) → ⊥
not-Earlier n m d s t o le (in_earlier_year h) = omega arith
not-Earlier n m d s t o le (in_earlier_month e h) = omega (arith, pos_same _ _ e)
not-Earlier n m d s t o le (on_earlier_day e e' h) = omega (arith, pos_same _ _ e)

less_or_same : (a b : ℕ) → a ≤ b → (a < b) ⊎ (a ≡ b)
less_or_same a b h = omega arith

Opens-Earlier :
    (n m d : ℕ) (s t : DateTime) → Opens n m d s → t < s → Earlier (date_at t) (dated n m d)
Opens-Earlier n m d s t o lt = elim (less_or_same (t / 8928) n (omega arith)) [
  | inl y ↦ in_earlier_year (omega arith)
  | inr y ↦ elim (less_or_same (t % 8928 / 744 + 1) m (omega arith)) [
    | inl k ↦ in_earlier_month (ap pos y) k
    | inr k ↦ on_earlier_day (ap pos y) k (omega arith)
  ]
]

opens_pos :
    (n m d : ℕ)
    → 1 ≤ m
    → m ≤ 12
    → 1 ≤ d
    → d ≤ 31
    → opens (pos n) m d ≡ some (8928 * n + 744 * (m - 1) + 24 * (d - 1))
opens_pos n m d a b c e = ground arith

opens_at : (n m d : ℕ) (s : DateTime) → Opens n m d s → opens (pos n) m d ≡ some s
opens_at n m d s o =
    opens_pos n m d o.month_low o.month_high o.day_low o.day_high ∙ ap some (sym o.instant)

month_later :
    (n m : ℕ) (s : DateTime) → Opens n m 1 s → m < 12 → opens (pos n) (m + 1) 1 ≡ some (s + 744)
month_later n m s o h = opens_at n (m + 1) 1 (s + 744) (record {
  instant = omega arith;
  month_low = omega arith;
  month_high = omega arith;
  day_low = omega arith;
  day_high = omega arith;
})

next_year : (n : ℕ) → pos n +ℤ pos 1 ≡ pos (n + 1)
unfolding ◌+ℤ◌
next_year n = ground arith

year_later :
    (n k : ℕ) (s : DateTime) → s + k ≡ 8928 * (n + 1) → opens (pos n +ℤ pos 1) 1 1 ≡ some (s + k)
year_later n k s h = rw (next_year n) (
    opens_at (n + 1) 1 1 (s + k) (record {
      instant = omega arith;
      month_low = omega arith;
      month_high = omega arith;
      day_low = omega arith;
      day_high = omega arith;
    }))

midnight_of :
    (t : DateTime) → t % 24 ≡ 0 → Opens (t / 8928) (t % 8928 / 744 + 1) (t % 744 / 24 + 1) t
midnight_of t h = record {
  instant = omega arith;
  month_low = omega arith;
  month_high = omega arith;
  day_low = omega arith;
  day_high = omega arith;
}

day_apart :
    (n m d : ℕ) (s t : DateTime) → Opens n m d s → Earlier (dated n m d) (date_at t) → s + 24 ≤ t
day_apart n m d s t o (in_earlier_year h) = omega arith
day_apart n m d s t o (in_earlier_month e h) = omega (arith, pos_same _ _ e)
day_apart n m d s t o (on_earlier_day e e' h) = omega (arith, pos_same _ _ e)

at_or_after : (a b : ℕ) → (a < b) ⊎ (b ≤ a)
at_or_after a b = omega arith

next_day :
    (n m d : ℕ) (s : DateTime)
    → Opens n m d s
    → (x : Date) × (almanac.midnight x ≡ some (s + 24))
      × Earlier (dated n m d) x
      × ((t : DateTime) → Earlier (dated n m d) (date_at t) → ¬ Earlier (date_at t) x)
next_day n m d s o =
    let next = midnight_of (s + 24) (omega arith) in
    (
      date_at (s + 24),
      opens_at _ _ _ (s + 24) next,
      subst (λ x. Earlier x (date_at (s + 24))) (at_midnight n m d s o)
          (Opens-Earlier _ _ _ (s + 24) s next (omega arith)),
      λ t lo hi. not-Earlier _ _ _ (s + 24) t next (day_apart n m d s t o lo) hi,
    )

pub almanac-IsCalendar : IsCalendar almanac
almanac-IsCalendar = record {
  month_in = λ t. (omega arith, omega arith);
  day_in = λ t. omega arith;
  midnight_date =
      λ d s h. with_date (λ x. date_at s ≡ x) d s h (λ n o. at_midnight n d.month d.day s o);
  midnight_le = λ d s t h le.
      with_date (λ x. ¬ Earlier (date_at t) x) d s h (λ n o. not-Earlier n d.month d.day s t o le);
  midnight_lt = λ d s t h lt.
      with_date (λ x. Earlier (date_at t) x) d s h (λ n o. Opens-Earlier n d.month d.day s t o lt);
  add_year = λ y s e h k.
      with_date (λ x. opens (x.year +ℤ pos 1) 1 1 ≡ some e) (first_of_year y) s h
        (λ n o. year_later n 8928 s (omega arith) ∙ k);
  add_month = λ y m s e lt h k.
      with_date (λ x. opens x.year (m + 1) 1 ≡ some e) (first_of_month y m) s h
        (λ n o. month_later n m s o lt ∙ k);
  add_december = λ y s e h k.
      with_date (λ x. opens (x.year +ℤ pos 1) 1 1 ≡ some e) (first_of_month y 12) s h
        (λ n o. year_later n 744 s (omega arith) ∙ k);
  add_day = λ d s e h k.
      with_date
        (λ x.
          (d' : Date) × (almanac.midnight d' ≡ some e)
          × Earlier x d'
          × ((t : DateTime) → Earlier x (date_at t) → ¬ Earlier (date_at t) d'))
        d s h
        (λ n o. let (x, at, later, gap) = next_day n d.month d.day s o in (x, at ∙ k, later, gap));
}
