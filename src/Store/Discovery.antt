-- ===== src/Store/Discovery.antt =====
-- `discover_archive_work` of src/ports/storage.rs, and how what it lists agrees with the claims.
use pulpitum.Base.{
  ◌≤◌, ◌≡◌, Bool, true, false, ◌&&◌, List, [], ◌∷◌, ◌++◌, arith, leb, take, sort_by, if◌then◌else◌,
  length, length-take-le,
}
use pulpitum.Domain.Model.{BucketId, DateTime, bucket_order}
use pulpitum.Store.State.{
  BucketState, hot, archiving, archived, ArchiveWork, cutover, cleanup, ArchiveScan, Instant,
  attempt_due, lease_expired, is_pending_cleanup, Env,
}
use pulpitum.Store.Memory.{Entry, Store, claimable, cleanup_claimable}

abbrev pub work_bucket : ArchiveWork → BucketId
work_bucket (cutover b) = b
work_bucket (cleanup b) = b

-- The `match` of the loop over the entries: whether one is listed for clean-up, or for cutover.
unfoldable pub listed_cleanup : Entry → Instant → Bool
listed_cleanup e now = attempt_due e now && (is_pending_cleanup e.state && lease_expired e now)

abbrev cutover_state : BucketState → Bool → Bool
cutover_state hot expired = true
cutover_state archiving expired = expired
cutover_state (archived k d) expired = false

unfoldable pub listed_cutover : DateTime → BucketId → Entry → Instant → Bool
listed_cutover eligible_before b e now =
    attempt_due e now && (leb b.end eligible_before && cutover_state e.state (lease_expired e now))

unfoldable pub cleanups : Instant → Store → List ArchiveWork
cleanups now [] = []
cleanups now ((b, e) ∷ s) =
    if listed_cleanup e now then cleanup b ∷ cleanups now s else cleanups now s

unfoldable pub cutovers : DateTime → Instant → Store → List ArchiveWork
cutovers before now [] = []
cutovers before now ((b, e) ∷ s) =
    if listed_cutover before b e now
    then cutover b ∷ cutovers before now s
    else cutovers before now s

abbrev pub sort_work : List ArchiveWork → List ArchiveWork
sort_work = sort_by bucket_order work_bucket

-- Clean-ups come first; the list is cut at the limit of the scan.
unfoldable pub discover_archive_work : Env → ArchiveScan → Store → List ArchiveWork
unfolding cleanups cutovers
discover_archive_work env scan s =
    take scan.limit
      (sort_work (cleanups env.first s) ++ sort_work (cutovers scan.eligible_before env.first s))

pub listed_cutover_iff :
    (before : DateTime) (b : BucketId) (e : Entry) (now : Instant)
    → listed_cutover before b e now ≡ (leb b.end before && claimable e now)
unfolding listed_cutover claimable
listed_cutover_iff before b e now = ground arith

pub listed_cleanup_iff :
    (e : Entry) (now : Instant) → listed_cleanup e now ≡ cleanup_claimable e now
unfolding listed_cleanup cleanup_claimable
listed_cleanup_iff e now = ground arith

pub length-discover :
    (env : Env) (scan : ArchiveScan) (s : Store)
    → length (discover_archive_work env scan s) ≤ scan.limit
unfolding discover_archive_work
length-discover env scan s = length-take-le scan.limit _
