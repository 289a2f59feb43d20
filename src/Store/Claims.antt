-- ===== src/Store/Claims.antt =====
-- What `discover_archive_work` of src/ports/storage.rs returns can be claimed.
use mathlib.Core.List.{Mem, mem-cons_self, mem-cons_of_mem}
use pulpitum.Base.{
  ◌≤◌, ◌≡◌, inl, inr, true, [], ◌∷◌, arith, Bool-cases, All, ap, ◌+◌, All-map, All-take, All-append,
  sort_by-All, length, Option, some, none, ◌⊎◌, refl, subst, ◌∙◌, eqb, eqb_iff, eqb_refl, get, ltb,
}
use pulpitum.Domain.Model.{BucketId, DateTime, bucket_order}
use pulpitum.Store.State.{ArchiveWork, cutover, cleanup, ArchiveScan, Instant, Env}
use pulpitum.Store.State.{
  Duration, Result, ok, err, operation_failed, ArchiveSession, u64_max, lease_deadline,
  next_generation,
}
use pulpitum.Store.Memory.{
  Entry, Store, find, entry_of, claimable, cleanup_claimable, claim_archive, claim_cleanup,
  claim_archive_entry, claim_cleanup_entry, on_entry, session_at,
}
use pulpitum.Store.Discovery.{
  work_bucket, listed_cleanup, listed_cutover, cleanups, cutovers, sort_work, discover_archive_work,
  listed_cutover_iff, listed_cleanup_iff, length-discover,
}

-- The claim of an item, as the recovery runner makes it.
abbrev pub claim_work :
    Env → Duration → ArchiveWork → Store → Store × Result (Option ArchiveSession)
claim_work env lease_for (cutover b) s = claim_archive env b lease_for s
claim_work env lease_for (cleanup b) s = claim_cleanup env b lease_for s

-- A cutover is only for buckets whose exclusive end is at or before the cutoff.
abbrev pub IsEligible : DateTime → ArchiveWork → Type 0
IsEligible before (cutover b) = b.end ≤ before
IsEligible before (cleanup b) = Unit

-- The claim gives a session of the bucket, or its generations are used up.
abbrev pub IsTaken : Env → Duration → Store → ArchiveWork → Type 0
IsTaken env lease_for s w =
    ((session : ArchiveSession) × ((claim_work env lease_for w s).1 ≡ ok (some session))
      × (session.bucket ≡ work_bucket w))
    ⊎ (((claim_work env lease_for w s).1 ≡ err operation_failed)
        × (u64_max ≤ (entry_of (work_bucket w) s).generation))

-- No bucket has two entries.
abbrev pub IsMap : Store → Type 0
IsMap [] = Unit
IsMap ((b, e) ∷ s) = (find b s ≡ none) × IsMap s

abbrev Found : Store → BucketId × Entry → Type 0
Found s x = find x.0 s ≡ some x.1

Found-cons :
    (b : BucketId) (e : Entry) (s : Store)
    → find b s ≡ none
    → (x : BucketId × Entry) → Found s x
    → Found ((b, e) ∷ s) x
unfolding get
Found-cons b e s fresh x h = elim (Bool-cases (eqb bucket_order b x.0)) [
  | inr n ↦ rw n h
  | inl y ↦
      let same : b ≡ x.0 = (eqb_iff bucket_order b x.0).0 y in
      absurd (taken (rw (← same, fresh) at h))
]
  where
    taken : none ≡ some x.1 → ⊥
    taken q = cc

IsMap-Found : (s : Store) → IsMap s → All (Found s) s
unfolding get
IsMap-Found [] m = tt
IsMap-Found ((b, e) ∷ s) m = (
  rw (eqb_refl bucket_order b) refl,
  All-map (Found s) (Found ((b, e) ∷ s)) (Found-cons b e s m.0) s (IsMap-Found s m.1),
)

module _ (env : Env) (lease_for : Duration) (s : Store) where
  claimable-IsTaken :
      (b : BucketId) (e : Entry) (at : Instant)
      → lease_deadline env env.second lease_for ≡ ok at
      → find b s ≡ some e
      → claimable e env.first ≡ true
      → IsTaken env lease_for s (cutover b)
  unfolding claim_archive on_entry claim_archive_entry next_generation
  claimable-IsTaken b e at deadline found due = elim (Bool-cases (ltb e.generation u64_max)) [
    | inl y ↦
        inl (session_at b env.token (e.generation + 1), rw (deadline, found, due, y) refl, refl)
    | inr n ↦ inr (rw (deadline, found, due, n) refl, rw found (ground (arith, n)))
  ]

  cleanup_claimable-IsTaken :
      (b : BucketId) (e : Entry) (at : Instant)
      → lease_deadline env env.second lease_for ≡ ok at
      → find b s ≡ some e
      → cleanup_claimable e env.first ≡ true
      → IsTaken env lease_for s (cleanup b)
  unfolding claim_cleanup claim_cleanup_entry next_generation
  cleanup_claimable-IsTaken b e at deadline found due =
      elim (Bool-cases (ltb e.generation u64_max)) [
        | inl y ↦
            inl (session_at b env.token (e.generation + 1), rw (deadline, found, due, y) refl, refl)
        | inr n ↦ inr (rw (deadline, found, due, n) refl, rw found (ground (arith, n)))
      ]

  pub taken-claimable :
      (b : BucketId) (e : Entry) (d : Result Instant) (session : ArchiveSession)
      → find b s ≡ some e
      → lease_deadline env env.second lease_for ≡ d
      → (claim_archive env b lease_for s).1 ≡ ok (some session)
      → claimable e env.first ≡ true
  unfolding claim_archive on_entry claim_archive_entry
  taken-claimable b e (err x) session found deadline h = absurd (ground (arith, rw deadline at h))
  taken-claimable b e (ok at) session found deadline h = ground (arith, rw (deadline, found) at h)

  pub taken-cleanup_claimable :
      (b : BucketId) (e : Entry) (d : Result Instant) (session : ArchiveSession)
      → find b s ≡ some e
      → lease_deadline env env.second lease_for ≡ d
      → (claim_cleanup env b lease_for s).1 ≡ ok (some session)
      → cleanup_claimable e env.first ≡ true
  unfolding claim_cleanup claim_cleanup_entry
  taken-cleanup_claimable b e (err x) session found deadline h =
      absurd (ground (arith, rw deadline at h))
  taken-cleanup_claimable b e (ok at) session found deadline h =
      ground (arith, rw (deadline, found) at h)

  abbrev Fits : DateTime → ArchiveWork → Type 0
  Fits before w = IsEligible before w × IsTaken env lease_for s w

  cleanups-Fits :
      (before : DateTime) (at : Instant) (m : Store)
      → lease_deadline env env.second lease_for ≡ ok at
      → All (Found s) m
      → All (Fits before) (cleanups env.first m)
  unfolding cleanups
  cleanups-Fits before at [] deadline found = tt
  cleanups-Fits before at ((b, e) ∷ m) deadline found =
      let rest = cleanups-Fits before at m deadline found.1 in
      elim (Bool-cases (listed_cleanup e env.first)) [
        | inl t ↦ rw t (
          (
            tt,
            cleanup_claimable-IsTaken b e at deadline found.0
                (rw (listed_cleanup_iff e env.first) at t),
          ),
          rest,
        )
        | inr f ↦ rw f rest
      ]

  cutovers-Fits :
      (before : DateTime) (at : Instant) (m : Store)
      → lease_deadline env env.second lease_for ≡ ok at
      → All (Found s) m
      → All (Fits before) (cutovers before env.first m)
  unfolding cutovers
  cutovers-Fits before at [] deadline found = tt
  cutovers-Fits before at ((b, e) ∷ m) deadline found =
      let rest = cutovers-Fits before at m deadline found.1 in
      elim (Bool-cases (listed_cutover before b e env.first)) [
        | inl t ↦ rw t (
          (
            ground (arith, listed_cutover_iff before b e env.first),
            claimable-IsTaken b e at deadline found.0
                (ground (arith, listed_cutover_iff before b e env.first)),
          ),
          rest,
        )
        | inr f ↦ rw f rest
      ]

pub find-Mem : (b : BucketId) (e : Entry) (s : Store) → find b s ≡ some e → Mem (b, e) s
unfolding get
find-Mem b e [] h = cc
find-Mem b e ((j, x) ∷ s) h = elim (Bool-cases (eqb bucket_order j b)) [
  | inr n ↦ mem-cons_of_mem (j, x) (find-Mem b e s (rw n at h))
  | inl y ↦
      let key : j ≡ b = (eqb_iff bucket_order j b).0 y in
      let entry : x ≡ e = some_eq (rw y at h) in
      subst (λ p. Mem p ((j, x) ∷ s)) (ap (λ k. (k, x)) key ∙ ap (λ v. (b, v)) entry) mem-cons_self
]
  where
    some_eq : some x ≡ some e → x ≡ e
    some_eq q = cc

-- In a store without two entries for one bucket, at most `limit` items are returned, a cutover
-- only of a bucket that ends at or before the cutoff, and every one can be claimed: a claim at
-- that instant, with a lease that can be represented, gives a session of the bucket, unless the
-- bucket's generation is the largest `u64`, where the claim is refused.
pub discover-IsTaken :
    (env : Env) (scan : ArchiveScan) (lease_for : Duration) (at : Instant) (s : Store)
    → IsMap s
    → lease_deadline env env.second lease_for ≡ ok at
    → (length (discover_archive_work env scan s) ≤ scan.limit)
      × All
          (λ w. IsEligible scan.eligible_before w × IsTaken env lease_for s w)
          (discover_archive_work env scan s)
unfolding discover_archive_work
discover-IsTaken env scan lease_for at s map deadline =
    let P = Fits env lease_for s scan.eligible_before in
    let done = cleanups env.first s in
    let todo = cutovers scan.eligible_before env.first s in
    let found = IsMap-Found s map in
    (
      length-discover env scan s,
      All-take P scan.limit _ (
          All-append P (sort_work done) (sort_work todo)
            (sort_by-All bucket_order work_bucket P done
              (cleanups-Fits env lease_for s scan.eligible_before at s deadline found))
            (sort_by-All bucket_order work_bucket P todo
              (cutovers-Fits env lease_for s scan.eligible_before at s deadline found))),
    )
