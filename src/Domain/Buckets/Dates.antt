-- ===== src/Domain/Buckets/Dates.antt =====
-- The order of dates around the first day of a month, and the periods of the bucket strategies.
use pulpitum.Base.{ℕ, ◌+◌, ◌≤◌, ◌<◌, ◌≡◌, refl, sym, ap, subst, ◌↔◌, ◌⊎◌, inl, inr, arith}
use pulpitum.Base.Int.{ℤ, pos, negsuc, pos_part, neg_part, ◌+ℤ◌, ◌<ℤ◌, int_laws}
use pulpitum.Domain.Model.{BucketStrategy, calendar_year_utc, calendar_month_utc, calendar_day_utc}
use pulpitum.Domain.Calendar.{
  Date, Earlier, in_earlier_year, in_earlier_month, on_earlier_day, first_of_year, first_of_month,
}

-- Two dates in one calendar year, month or day.
abbrev pub SamePeriod : BucketStrategy → Date → Date → Type 0
SamePeriod calendar_year_utc d e = d.year ≡ e.year
SamePeriod calendar_month_utc d e = (d.year ≡ e.year) × (d.month ≡ e.month)
SamePeriod calendar_day_utc d e = d ≡ e

pub SamePeriod-refl : (s : BucketStrategy) (d : Date) → SamePeriod s d d
SamePeriod-refl calendar_year_utc d = refl
SamePeriod-refl calendar_month_utc d = (refl, refl)
SamePeriod-refl calendar_day_utc d = refl

pub le_or_lt : (a b : ℕ) → (a ≤ b) ⊎ (b < a)
le_or_lt a b = omega arith

-- An order of dates, against the first day of a month.
pub Before-first :
    (d : Date) (y : ℤ) (m : ℕ)
    → 1 ≤ d.day
    → Earlier d (first_of_month y m)
    → (d.year <ℤ y) ⊎ ((d.year ≡ y) × (d.month < m))
Before-first d y m h (in_earlier_year l) = inl l
Before-first d y m h (in_earlier_month e l) = inr (e, l)
Before-first d y m h (on_earlier_day e f l) = absurd (omega arith)

pub trichotomy : (y z : ℤ) → (y <ℤ z) ⊎ (y ≡ z) ⊎ (z <ℤ y)
trichotomy (pos a) (pos b) = omega int_laws
trichotomy (pos a) (negsuc b) = omega int_laws
trichotomy (negsuc a) (pos b) = omega int_laws
trichotomy (negsuc a) (negsuc b) = omega int_laws

pub nat_trichotomy : (a b : ℕ) → (a < b) ⊎ (a ≡ b) ⊎ (b < a)
nat_trichotomy a b = omega arith

pub lt_next : (y : ℤ) → y <ℤ y +ℤ pos 1
lt_next y = omega int_laws

-- No year lies between one and the next.
pub eq_of_between : (y z : ℤ) → z <ℤ y +ℤ pos 1 → ¬ (z <ℤ y) → y ≡ z
eq_of_between y z h k = elim (trichotomy z y) [
  | inl lt ↦ absurd (k lt)
  | inr r ↦ elim r [ inl e ↦ sym e | inr gt ↦ absurd (omega int_laws) ]
]

pub not-lt_self : (y z : ℤ) → y ≡ z → ¬ (z <ℤ y)
not-lt_self y z e h = absurd (omega (arith, ap pos_part e, ap neg_part e))

pub not-Before-first :
    (d : Date) (m : ℕ) → 1 ≤ d.day → m ≤ d.month → ¬ Earlier d (first_of_month d.year m)
not-Before-first d m hd hm b = elim (Before-first d d.year m hd b) [
  | inl l ↦ not-lt_self d.year d.year refl l
  | inr r ↦ absurd (omega arith)
]

pub year_window :
    (d : Date) (y : ℤ)
    → 1 ≤ d.month
    → 1 ≤ d.day
    → ((¬ Earlier d (first_of_year y)) × Earlier d (first_of_year (y +ℤ pos 1))) ↔ (y ≡ d.year)
year_window d y hm hd = (
  λ h. elim (Before-first d (y +ℤ pos 1) 1 hd h.1) [
    | inl l ↦ eq_of_between y d.year l (λ k. h.0 (in_earlier_year k))
    | inr r ↦ absurd (omega arith)
  ],
  λ e. rw e (not-Before-first d 1 hd hm, in_earlier_year (lt_next d.year)),
)

pub month_window :
    (d : Date) (y : ℤ) (m : ℕ)
    → 1 ≤ d.day
    → ((¬ Earlier d (first_of_month y m)) × Earlier d (first_of_month y (m + 1)))
      ↔ ((y ≡ d.year) × (m ≡ d.month))
month_window d y m hd = (
  λ h. elim (Before-first d y (m + 1) hd h.1) [
    | inl l ↦ absurd (h.0 (in_earlier_year l))
    | inr r ↦ (
      sym r.0,
      elim (le_or_lt m d.month) [
        | inl le ↦ omega arith
        | inr lt ↦ absurd (h.0 (in_earlier_month r.0 lt))
      ],
    )
  ],
  λ e.
      rw (e.0, e.1)
        (not-Before-first d d.month hd (omega arith), in_earlier_month refl (omega arith)),
)

pub december_window :
    (d : Date) (y : ℤ)
    → (1 ≤ d.month) × (d.month ≤ 12)
    → 1 ≤ d.day
    → ((¬ Earlier d (first_of_month y 12)) × Earlier d (first_of_month (y +ℤ pos 1) 1))
      ↔ ((y ≡ d.year) × (12 ≡ d.month))
december_window d y hm hd = (
  λ h. elim (Before-first d (y +ℤ pos 1) 1 hd h.1) [
    | inl l ↦
        let e : y ≡ d.year = eq_of_between y d.year l (λ k. h.0 (in_earlier_year k)) in
        (
          e,
          elim (le_or_lt 12 d.month) [
            | inl le ↦ omega arith
            | inr lt ↦ absurd (h.0 (in_earlier_month (sym e) lt))
          ],
        )
    | inr r ↦ absurd (omega arith)
  ],
  λ e. rw e.0 (not-Before-first d 12 hd (omega arith), in_earlier_year (lt_next d.year)),
)

pub date_trichotomy : (d e : Date) → Earlier d e ⊎ (d ≡ e) ⊎ Earlier e d
date_trichotomy d e = elim (trichotomy d.year e.year) [
  | inl lt ↦ inl (in_earlier_year lt)
  | inr (inr gt) ↦ inr (inr (in_earlier_year gt))
  | inr (inl y) ↦ elim (nat_trichotomy d.month e.month) [
    | inl lt ↦ inl (in_earlier_month y lt)
    | inr (inr gt) ↦ inr (inr (in_earlier_month (sym y) gt))
    | inr (inl m) ↦ elim (nat_trichotomy d.day e.day) [
      | inl lt ↦ inl (on_earlier_day y m lt)
      | inr (inr gt) ↦ inr (inr (on_earlier_day (sym y) (sym m) gt))
      | inr (inl k) ↦ inr (inl (λ i. record { year = y i; month = m i; day = k i }))
    ]
  ]
]

pub Before-irrefl : (d : Date) → ¬ Earlier d d
Before-irrefl d (in_earlier_year l) = not-lt_self d.year d.year refl l
Before-irrefl d (in_earlier_month e l) = absurd (omega arith)
Before-irrefl d (on_earlier_day e f l) = absurd (omega arith)

-- A date is at or after `d` and before the next date exactly if it is `d`.
pub day_window :
    (d d' x : Date)
    → Earlier d d'
    → (Earlier d x → ¬ Earlier x d')
    → ((¬ Earlier x d) × Earlier x d') ↔ (d ≡ x)
day_window d d' x lt gap = (
  λ h. elim (date_trichotomy d x) [
    | inl before ↦ absurd (gap before h.1)
    | inr (inl e) ↦ e
    | inr (inr after) ↦ absurd (h.0 after)
  ],
  λ e. (λ b. Before-irrefl x (subst (λ z. Earlier x z) e b), subst (λ z. Earlier z d') e lt),
)
