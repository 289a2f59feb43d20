-- ===== src/Store/Due.antt =====
-- What can be claimed, `discover_archive_work` of src/ports/storage.rs returns.
use mathlib.Core.List.{
  Mem, mem-cons_self, mem-cons_of_mem, mem-append_left, mem-append_right, Mem-prop,
  eq-or-mem_of_mem-cons, not-mem-nil,
}
use mathlib.Core.Logic.Or
use mathlib.Core.List.Perm
use pulpitum.Base.{
  ◌≤◌, ◌≡◌, inl, inr, true, false, List, [], ◌∷◌, ◌++◌, arith, if◌then◌else◌, Bool-cases, ap,
  le→leb, ◌+◌, length, take_of_length-le, length-append, length-sort_by, sort_by-perm, some, refl,
}
use pulpitum.Domain.Model.{BucketId, DateTime, bucket_order}
use pulpitum.Store.State.{ArchiveWork, cutover, cleanup, ArchiveScan, Instant, Env}
use pulpitum.Store.State.{Duration, ok, ArchiveSession, lease_deadline}
use pulpitum.Store.Memory.{Entry, Store, find, claimable, cleanup_claimable}
use pulpitum.Store.Discovery.{
  work_bucket, listed_cleanup, listed_cutover, cleanups, cutovers, sort_work, discover_archive_work,
  listed_cutover_iff, listed_cleanup_iff,
}
use pulpitum.Store.Claims.{
  claim_work, IsEligible, taken-claimable, taken-cleanup_claimable, find-Mem,
}

module _ (now : Instant) (before : DateTime) where
  cleanup-listed :
      (b : BucketId) (e : Entry) (s : Store)
      → cleanup_claimable e now ≡ true
      → Mem (b, e) s
      → Mem (cleanup b) (cleanups now s)
  unfolding cleanups
  cleanup-listed b e [] h m = absurd (not-mem-nil m)
  cleanup-listed b e ((b', e') ∷ s) h m = Or.elim Mem-prop (eq-or-mem_of_mem-cons m) here (λ rest.
      elim (Bool-cases (listed_cleanup e' now)) [
        | inl t ↦ rw t (mem-cons_of_mem (cleanup b') (cleanup-listed b e s h rest))
        | inr f ↦ rw f (cleanup-listed b e s h rest)
      ])
    where
      here :
          ◌≡◌ {A = BucketId × Entry} (b, e) (b', e')
          → Mem
              (cleanup b)
              (if listed_cleanup e' now then cleanup b' ∷ cleanups now s else cleanups now s)
      here eq =
          rw (← ap (λ x. x.0) eq, ← ap (λ x. x.1) eq, listed_cleanup_iff e now, h) mem-cons_self

  cutover-listed :
      (b : BucketId) (e : Entry) (s : Store)
      → b.end ≤ before
      → claimable e now ≡ true
      → Mem (b, e) s
      → Mem (cutover b) (cutovers before now s)
  unfolding cutovers
  cutover-listed b e [] l h m = absurd (not-mem-nil m)
  cutover-listed b e ((b', e') ∷ s) l h m = Or.elim Mem-prop (eq-or-mem_of_mem-cons m) here (λ rest.
      elim (Bool-cases (listed_cutover before b' e' now)) [
        | inl t ↦ rw t (mem-cons_of_mem (cutover b') (cutover-listed b e s l h rest))
        | inr f ↦ rw f (cutover-listed b e s l h rest)
      ])
    where
      here :
          ◌≡◌ {A = BucketId × Entry} (b, e) (b', e')
          → Mem (cutover b) (
              if listed_cutover before b' e' now
              then cutover b' ∷ cutovers before now s
              else cutovers before now s)
      here eq =
          rw
            (
              ← ap (λ x. x.0) eq,
              ← ap (λ x. x.1) eq,
              listed_cutover_iff before b e now,
              le→leb b.end before l,
              h,
            )
            mem-cons_self

  not-both :
      (b : BucketId) (e : Entry)
      → listed_cleanup e now ≡ true
      → listed_cutover before b e now ≡ false
  unfolding listed_cleanup listed_cutover
  not-both b e h = ground arith

  length-work : (s : Store) → length (cleanups now s) + length (cutovers before now s) ≤ length s
  unfolding cleanups cutovers
  length-work [] = omega arith
  length-work ((b, e) ∷ s) = ground (arith, length-work s, not-both b e)

-- Under a limit that is no smaller than the number of entries, no bucket that has an entry and, for
-- a cutover, ends at or before the cutoff is missed if a claim at that instant gives a session.
pub discover_complete :
    (env : Env) (scan : ArchiveScan) (lease_for : Duration) (s : Store) (w : ArchiveWork)
    (e : Entry) (session : ArchiveSession)
    → length s ≤ scan.limit
    → find (work_bucket w) s ≡ some e
    → IsEligible scan.eligible_before w
    → (claim_work env lease_for w s).1 ≡ ok (some session)
    → Mem w (discover_archive_work env scan s)
unfolding discover_archive_work
discover_complete env scan lease_for s w e session room found eligible taken =
    rw (take_of_length-le scan.limit _ (short room)) (listed w found eligible taken)
  where
    done : List ArchiveWork
    done = cleanups env.first s

    todo : List ArchiveWork
    todo = cutovers scan.eligible_before env.first s

    short : length s ≤ scan.limit → length (sort_work done ++ sort_work todo) ≤ scan.limit
    short h = omega (
      arith,
      length-append (sort_work done) (sort_work todo),
      length-sort_by bucket_order work_bucket done,
      length-sort_by bucket_order work_bucket todo,
      length-work env.first scan.eligible_before s,
    )

    listed :
        (w : ArchiveWork)
        → find (work_bucket w) s ≡ some e
        → IsEligible scan.eligible_before w
        → (claim_work env lease_for w s).1 ≡ ok (some session)
        → Mem w (sort_work done ++ sort_work todo)
    listed (cleanup b) found eligible taken = mem-append_left (sort_work todo) (
        (Perm.mem_iff (sort_by-perm bucket_order work_bucket done)).1 (
          cleanup-listed env.first scan.eligible_before b e s
            (taken-cleanup_claimable env lease_for s b e (lease_deadline env env.second lease_for)
              session found refl taken)
            (find-Mem b e s found)))
    listed (cutover b) found eligible taken = mem-append_right (sort_work done) (
        (Perm.mem_iff (sort_by-perm bucket_order work_bucket todo)).1 (
          cutover-listed env.first scan.eligible_before b e s eligible
            (taken-claimable env lease_for s b e (lease_deadline env env.second lease_for) session
              found refl taken)
            (find-Mem b e s found)))
