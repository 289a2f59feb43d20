-- ===== src/Domain/Schema/Ranges.antt =====
-- The buckets of a time range and of the write window (src/domain/schema.rs) are whole calendar
-- periods without gap or overlap, and the loop over a range ends.
use pulpitum.Base.{
  ℕ, zero, suc, ◌+◌, ◌-◌, ◌≤◌, ◌<◌, ◌≡◌, refl, ap, subst, ◌⊎◌, inl, inr, some, List, [], ◌∷◌, arith,
  ltb, leb, ◌>>=◌, >>=-eq-some, Bool-cases, ltb→lt, lt→ltb,
}
use pulpitum.Domain.Model.{BucketId, PartitionKey, TimeRange, DateTime, contains}
use pulpitum.Domain.Calendar.{Chrono, IsCalendar}
use pulpitum.Domain.Buckets.Bounds.{for_event_time-contains, for_event_time_canonical}
use pulpitum.Domain.Schema.{TableDefinition, bucket_for_event_time, walk_range, buckets_for_range}

module _ (c : Chrono) (cal : IsCalendar c) (d : TableDefinition) (p : PartitionKey) where
  -- The bucket that the table derives for an instant.
  abbrev pub Derives : DateTime → BucketId → Type 0
  Derives t b = bucket_for_event_time c d p t ≡ some b

  -- An instant lies in the bucket that it derives.
  pub Derives-within : (t : DateTime) (b : BucketId) → Derives t b → (b.start ≤ t) × (t < b.end)
  unfolding bucket_for_event_time contains
  Derives-within t b h =
      let k = for_event_time-contains c cal d.table_id p d.bucket_strategy t b h in
      (ground arith, ground arith)

  -- Every instant of a derived bucket derives it.
  pub Derives-canonical :
      (t u : DateTime) (b : BucketId) → Derives t b → b.start ≤ u → u < b.end → Derives u b
  unfolding bucket_for_event_time contains
  Derives-canonical t u b h lo hi =
      for_event_time_canonical c cal d.table_id p d.bucket_strategy t u b h (ground arith)

  -- The bucket that the end of one derives starts there.
  next_start : (t : DateTime) (b b' : BucketId) → Derives t b → Derives b.end b' → b'.start ≡ b.end
  next_start t b b' h h' =
      let w = Derives-within t b h in
      let w' = Derives-within b.end b' h' in
      elim (le_or_lt b.end b'.start) [
        | inl ge ↦ omega arith
        | inr lt ↦ absurd (overlap (omega arith))
      ]
    where
      le_or_lt : (m n : ℕ) → (m ≤ n) ⊎ (n < m)
      le_or_lt m n = omega arith

      -- The instant before the end would lie in both buckets.
      overlap : b'.start ≤ b.end - 1 → ⊥
      overlap lo =
          let w = Derives-within t b h in
          let w' = Derives-within b.end b' h' in
          let one = Derives-canonical t (b.end - 1) b h (omega arith) (omega arith) in
          let two = Derives-canonical b.end (b.end - 1) b' h' lo (omega arith) in
          let e : b ≡ b' = ground (arith, one, two) in omega (arith, ap (λ x. x.end) e)

  -- The buckets follow one another from `a` on without gap or overlap and reach `end`; the last
  -- starts before `end`, and each is what every instant in it derives.
  abbrev pub Tiles : DateTime → DateTime → List BucketId → Type 0
  Tiles a end [] = end ≤ a
  Tiles a end (b ∷ bs) =
      (b.start ≡ a)
      × (a < end)
      × (a < b.end)
      × ((u : DateTime) → b.start ≤ u → u < b.end → Derives u b)
      × Tiles b.end end bs

  -- One round of the loop: it ends, or it lists the bucket and goes on at its end.
  walk_round :
      (fuel : ℕ) (end : DateTime) (b : BucketId) (bs : List BucketId)
      → walk_range c d (suc fuel) p end b ≡ some bs
      → ((end ≤ b.start) × (bs ≡ []))
        ⊎ ((b.start < end)
            × ((b' : BucketId) × (later : List BucketId) × Derives b.end b'
                × (walk_range c d fuel p end b' ≡ some later)
                × (bs ≡ b ∷ later)))
  unfolding walk_range
  walk_round fuel end b bs k = elim (Bool-cases (ltb b.start end)) [
    | inr done ↦ inl (ground arith, ground arith)
    | inl more ↦
        let run : (bucket_for_event_time c d p b.end >>= walk_range c d fuel p end >>= λ later.
        some (b ∷ later))
            ≡ some bs =
          rw more at k in
        let (later, rest, last) =
          >>=-eq-some (bucket_for_event_time c d p b.end >>= walk_range c d fuel p end)
            (λ l. some (b ∷ l)) run in
        let (b', next, walked) =
          >>=-eq-some (bucket_for_event_time c d p b.end) (walk_range c d fuel p end) rest in
        inr (ltb→lt _ _ more, (b', later, next, walked, ground arith))
  ]

  walk_range-Tiles :
      (fuel : ℕ) (end t : DateTime) (b : BucketId) (bs : List BucketId)
      → Derives t b
      → walk_range c d fuel p end b ≡ some bs
      → Tiles b.start end bs
  walk_range-Tiles zero end t b bs h k = absurd (never k)
    where
      never : walk_range c d zero p end b ≡ some bs → ⊥
      never e = unfold walk_range in cc
  walk_range-Tiles (suc fuel) end t b bs h k = elim (walk_round fuel end b bs k) [
    | inl (done, e) ↦ rw e done
    | inr (more, (b', later, next, walked, e)) ↦
        let w = Derives-within t b h in
        let tail = walk_range-Tiles fuel end b.end b' later next walked in
        rw e (
          refl,
          more,
          omega arith,
          λ u lo hi. Derives-canonical t u b h lo hi,
          subst (λ a. Tiles a end later) (next_start t b b' h next) tail,
        )
  ]

  -- The buckets of a range are consecutive whole periods: the first holds the start of the range,
  -- and the last is the first that reaches its end.
  pub buckets_for_range-Tiles :
      (range : TimeRange) (bs : List BucketId)
      → range.start < range.end
      → buckets_for_range c d p range ≡ some bs
      → (first : BucketId) × Derives range.start first × Tiles first.start range.end bs
  unfolding buckets_for_range
  buckets_for_range-Tiles range bs h k =
      let (first, derived, walked) =
        >>=-eq-some (bucket_for_event_time c d p range.start)
          (walk_range c d (range.end - range.start + 2) p range.end) (ground arith) in
      (first, derived, walk_range-Tiles _ range.end range.start first bs derived walked)

  -- Every instant before `end` has a bucket, and so has the end of that bucket.
  abbrev pub Representable : DateTime → Type 0
  Representable end =
      (t : DateTime) → t < end → (b : BucketId) × (b' : BucketId) × Derives t b × Derives b.end b'

  walk_more :
      (fuel : ℕ) (end : DateTime) (b b' : BucketId) (later : List BucketId)
      → b.start < end
      → Derives b.end b'
      → walk_range c d fuel p end b' ≡ some later
      → walk_range c d (suc fuel) p end b ≡ some (b ∷ later)
  unfolding walk_range
  walk_more fuel end b b' later h next walked = rw (lt→ltb _ _ h, next, walked)

  -- What follows a bucket that starts before the end.
  successor :
      (end t : DateTime) (b : BucketId)
      → Representable end
      → Derives t b
      → b.start < end
      → (b' : BucketId) × Derives b.end b'
  successor end t b r h more =
      let w = Derives-within t b h in
      let (b₁, b', one, next) = r b.start more in
      let self = Derives-canonical t b.start b h (omega arith) (omega arith) in
      let e : b₁ ≡ b = ground (arith, one, self) in (b', subst (λ x. Derives x.end b') e next)

  walk_range_total :
      (fuel : ℕ) (end t : DateTime) (b : BucketId)
      → Representable end
      → Derives t b
      → end - b.start < fuel
      → (bs : List BucketId) × (walk_range c d fuel p end b ≡ some bs)
  walk_range_total zero end t b r h enough = elim enough [ ]
  walk_range_total (suc fuel) end t b r h enough = elim (Bool-cases (ltb b.start end)) [
    | inr done ↦ ([], unfold walk_range in rw done)
    | inl more ↦
        let lt : b.start < end = ltb→lt _ _ more in
        let w = Derives-within t b h in
        let (b', next) = successor end t b r h lt in
        let (later, walked) =
          walk_range_total fuel end b.end b' r next (omega (arith, next_start t b b' h next)) in
        (b ∷ later, walk_more fuel end b b' later lt next walked)
  ]

  -- The loop over a range ends, with the fuel of the model, if the buckets up to its end can be
  -- represented.
  pub buckets_for_range_total :
      (range : TimeRange)
      → Representable range.end
      → (bs : List BucketId) × (buckets_for_range c d p range ≡ some bs)
  unfolding buckets_for_range
  buckets_for_range_total range r = elim (Bool-cases (leb range.end range.start)) [
    | inl empty ↦ ([], rw empty)
    | inr some_time ↦
        let (b, _, first, _) = r range.start (ground arith) in
        let w = Derives-within range.start b first in
        let lt : b.start < range.end = ground arith in
        let (b', next) = successor range.end range.start b r first lt in
        let fuel = range.end - range.start + 1 in
        let (later, walked) =
          walk_range_total fuel range.end b.end b' r next
            (omega (arith, next_start range.start b b' first next)) in
        let e : range.end - range.start + 2 ≡ suc fuel = omega arith in
        (b ∷ later, rw (some_time, first, e) (walk_more fuel range.end b b' later lt next walked))
  ]
