-- ===== src/Domain/Buckets/Bounds.antt =====
-- The bounds of a bucket hold exactly the instants of its calendar period.
use mathlib.Core.Logic.Iff
use pulpitum.Base.{true, ℕ, ◌≤◌, ◌<◌, ◌≡◌, subst, ◌↔◌, inl, inr, some, arith, >>=-eq-some}
use pulpitum.Base.Int.{ℤ}
use pulpitum.Domain.Model.{
  BucketStrategy, calendar_year_utc, calendar_month_utc, calendar_day_utc, BucketId, DateTime,
  TableId, PartitionKey, contains,
}
use pulpitum.Domain.Calendar.{Chrono, IsCalendar, Date, Earlier, first_of_month}
use pulpitum.Domain.Buckets.{
  bucket_key, date_bounds, utc_date, bucket_start, bucket_end, bucket_bounds, for_event_time,
  key_text,
}
use pulpitum.Domain.Buckets.Dates.{
  SamePeriod, SamePeriod-refl, le_or_lt, year_window, month_window, december_window, day_window,
}

module _ (c : Chrono) (cal : IsCalendar c) where
  open cal use {
    month_in, day_in, midnight_date, midnight_le, midnight_lt, add_year, add_month, add_december,
    add_day,
  }

  -- The instants between the midnights of two dates.
  within :
      (d e : Date) (a b u : DateTime)
      → c.midnight d ≡ some a
      → c.midnight e ≡ some b
      → ((a ≤ u) × (u < b)) ↔ ((¬ Earlier (c.date u) d) × Earlier (c.date u) e)
  within d e a b u p q = (
    λ h. (midnight_le d a u p h.0, midnight_lt e b u q h.1),
    λ h. (
      elim (le_or_lt a u) [ inl l ↦ l | inr g ↦ absurd (h.0 (midnight_lt d a u p g)) ],
      elim (le_or_lt b u) [ inl l ↦ absurd (midnight_le e b u q l h.1) | inr g ↦ g ],
    ),
  )

  month_iff :
      (y : ℤ) (m : ℕ) (a b u : DateTime)
      → (1 ≤ m) × (m ≤ 12)
      → c.midnight (first_of_month y m) ≡ some a
      → c.checked_add_months a 1 ≡ some b
      → ((a ≤ u) × (u < b)) ↔ ((y ≡ (c.date u).year) × (m ≡ (c.date u).month))
  month_iff y m a b u range p q = elim (le_or_lt 12 m) [
    | inl last ↦
        let e : m ≡ 12 = omega arith in
        let p' : c.midnight (first_of_month y 12) ≡ some a =
          subst (λ k. c.midnight (first_of_month y k) ≡ some a) e p in
        rw e (
          Iff.trans (within _ _ a b u p' (add_december y a b p' q))
            (december_window (c.date u) y (month_in u) (day_in u)))
    | inr inner ↦
        Iff.trans (within _ _ a b u p (add_month y m a b inner p q))
          (month_window (c.date u) y m (day_in u))
  ]

  bounds_parts :
      (s : BucketStrategy) (d : Date) (a b : DateTime)
      → date_bounds c s d ≡ some (a, b)
      → (bucket_start c s d ≡ some a) × (bucket_end c s a ≡ some b)
  unfolding date_bounds
  bounds_parts s d a b h =
      let (a', p, rest) = >>=-eq-some (bucket_start c s d) _ h in
      let (b', q, e) = >>=-eq-some (bucket_end c s a') _ rest in ground arith

  window_iff :
      (s : BucketStrategy) (t a b u : DateTime)
      → bucket_start c s (c.date t) ≡ some a
      → bucket_end c s a ≡ some b
      → ((a ≤ u) × (u < b)) ↔ SamePeriod s (c.date t) (c.date u)
  unfolding bucket_start bucket_end utc_date
  window_iff calendar_year_utc t a b u p q =
      Iff.trans (within _ _ a b u p (add_year (c.date t).year a b p q))
        (year_window (c.date u) (c.date t).year (month_in u).0 (day_in u))
  window_iff calendar_month_utc t a b u p q =
      month_iff (c.date t).year (c.date t).month a b u (month_in t) p q
  window_iff calendar_day_utc t a b u p q =
      let (d', next, lt, gap) = add_day (c.date t) a b p q in
      Iff.trans (within (c.date t) d' a b u p next) (day_window (c.date t) d' (c.date u) lt (gap u))

  -- The bounds are those of the calendar period of the event time: an instant lies in the bucket
  -- exactly if its date has the same year (and month, and day).
  pub bounds_iff :
      (s : BucketStrategy) (t a b u : DateTime)
      → bucket_bounds c s t ≡ some (a, b)
      → ((a ≤ u) × (u < b)) ↔ SamePeriod s (c.date t) (c.date u)
  unfolding bucket_bounds
  bounds_iff s t a b u h = let (p, q) = bounds_parts s (c.date t) a b h in window_iff s t a b u p q

  bounds_period :
      (s : BucketStrategy) (d e : Date) → SamePeriod s d e → date_bounds c s e ≡ date_bounds c s d
  unfolding date_bounds utc_date
  bounds_period calendar_year_utc d e h = rw h
  bounds_period calendar_month_utc d e h = rw (h.0, h.1)
  bounds_period calendar_day_utc d e h = rw h

  -- All instants of a bucket have its bounds.
  pub bounds_stable :
      (s : BucketStrategy) (t a b u : DateTime)
      → bucket_bounds c s t ≡ some (a, b)
      → a ≤ u
      → u < b
      → bucket_bounds c s u ≡ bucket_bounds c s t
  unfolding bucket_bounds
  bounds_stable s t a b u h lo hi =
      bounds_period s (c.date t) (c.date u) ((bounds_iff s t a b u h).0 (lo, hi))

  key_period : (s : BucketStrategy) (d e : Date) → SamePeriod s d e → key_text s e ≡ key_text s d
  unfolding key_text
  key_period calendar_year_utc d e h = rw h
  key_period calendar_month_utc d e h = rw (h.0, h.1)
  key_period calendar_day_utc d e h = rw h

  module _ (table_id : TableId) (partition_key : PartitionKey) (s : BucketStrategy) where
    for_event_time-bounds :
        (t : DateTime) (b : BucketId)
        → for_event_time c table_id partition_key s t ≡ some b
        → bucket_bounds c s t ≡ some (b.start, b.end)
    unfolding for_event_time
    for_event_time-bounds t b h = ground arith

    pub for_event_time-partition :
        (t : DateTime) (b : BucketId)
        → for_event_time c table_id partition_key s t ≡ some b
        → b.partition_key ≡ partition_key
    unfolding for_event_time
    for_event_time-partition t b h = ground arith

    -- The bucket derived for an event time contains it.
    pub for_event_time-contains :
        (t : DateTime) (b : BucketId)
        → for_event_time c table_id partition_key s t ≡ some b
        → contains b t ≡ true
    unfolding contains
    for_event_time-contains t b h =
        let (lo, hi) =
          (bounds_iff s t b.start b.end t (for_event_time-bounds t b h)).1
            (SamePeriod-refl s (c.date t)) in
        ground arith

    -- Every instant that a bucket contains derives the very same bucket, key and bounds included:
    -- the buckets of a partition never overlap.
    pub for_event_time_canonical :
        (t u : DateTime) (b : BucketId)
        → for_event_time c table_id partition_key s t ≡ some b
        → contains b u ≡ true
        → for_event_time c table_id partition_key s u ≡ some b
    unfolding for_event_time contains bucket_key
    for_event_time_canonical t u b h k =
        let bounds = for_event_time-bounds t b h in
        ground (
          arith,
          bounds_stable s t b.start b.end u bounds,
          key_period s (c.date t) (c.date u)
              ((bounds_iff s t b.start b.end u bounds).0 (ground arith, ground arith)),
        )
