-- ===== src/Cockroach/History.antt =====
-- Histories of the database of src/adapters/cockroach_durable.rs: the bodies of committed
-- transactions, in their serial order, of any clients.
use pulpitum.Base.{◌≤◌, ◌≡◌, refl, List, [], ◌∷◌, arith, All}
use pulpitum.Base.Text.{Text}
use pulpitum.Domain.Model.{BucketId, Record, DateTime}
use pulpitum.Store.State.{ArchiveSession}
use pulpitum.Store.Memory.{Entry}
use pulpitum.Store.Lifecycle.{stays, Step}
use pulpitum.Store.Fencing.{Step-generation, Step-RoutesTo, RoutesTo}
use pulpitum.Cockroach.Tables.{RowKey, Tables}
use pulpitum.Cockroach.Statements.{Outcome, done, failed}
use pulpitum.Cockroach.Bodies.{
  append_body, claim_archive_body, claim_cleanup_body, renew_body, defer_archive_body,
  defer_cleanup_body, begin_body, snapshot_body, publish_body, delete_body, abort_body,
}
use pulpitum.Cockroach.Entries.{entry_at, Steps}
use pulpitum.Cockroach.Refinement
use pulpitum.Cockroach.AppendSteps
use pulpitum.Cockroach.CleanupSteps

-- A transaction of some client, with the values that it computed before it began.
pub data Commit : Type 0 where
  appends : BucketId → Record → Commit
  claims cleanup_claims : BucketId → Text → DateTime → DateTime → Commit
  begins : BucketId → Text → DateTime → Commit
  renews defers cleanup_defers : ArchiveSession → DateTime → DateTime → Commit
  publishes : ArchiveSession → Text → DateTime → Commit
  snapshots deletes aborts : ArchiveSession → DateTime → Commit

-- A body that fails is rolled back.
abbrev pub after : {A : Type 0} → Tables → Outcome A → Tables
after t (done t' v) = t'
after t (failed e) = t

unfoldable pub apply : Commit → Tables → Tables
unfolding append_body claim_archive_body claim_cleanup_body begin_body renew_body defer_archive_body
    defer_cleanup_body publish_body snapshot_body delete_body abort_body
apply (appends b r) t = after t (append_body b r t)
apply (claims b token expires_at now) t = after t (claim_archive_body b token expires_at now t)
apply (cleanup_claims b token expires_at now) t =
    after t (claim_cleanup_body b token expires_at now t)
apply (begins b token now) t = after t (begin_body b token now t)
apply (renews session expires_at now) t = after t (renew_body session expires_at now t)
apply (defers session retry_at now) t = after t (defer_archive_body session retry_at now t)
apply (cleanup_defers session retry_at now) t = after t (defer_cleanup_body session retry_at now t)
apply (publishes session key now) t = after t (publish_body session key now t)
apply (snapshots session now) t = after t (snapshot_body session now t)
apply (deletes session now) t = after t (delete_body session now t)
apply (aborts session now) t = after t (abort_body session now t)

unfoldable pub run : List Commit → Tables → Tables
unfolding apply
run [] t = t
run (c ∷ cs) t = run cs (apply c t)

-- An appended record is of the partition of its bucket, as the bucket that `DurableTable` derives
-- from it is.
abbrev pub IsOwn : Commit → Type 0
IsOwn (appends b r) = r.partition_key ≡ b.partition_key
IsOwn _ = Unit

after-Steps :
    {A : Type 0} (t : Tables) (o : Outcome A)
    → ((t' : Tables) (v : A) → o ≡ done t' v → Steps t t')
    → Steps t (after t o)
after-Steps t (done t' v) h = h t' v refl
after-Steps t (failed e) h = λ j. stays (entry_at j t)

-- Every committed transaction is, at each bucket, one step of the lifecycle of a bucket, that of
-- the in-memory store, or leaves its state, generation and records as they are; an appended
-- record must be of its bucket's partition.
pub apply-Steps : (c : Commit) (t : Tables) → IsOwn c → Steps t (apply c t)
unfolding apply
apply-Steps (appends b r) t own =
    after-Steps t (append_body b r t) (λ t' v. AppendSteps.append_body-Steps b r t t' own)
apply-Steps (claims b token e now) t own =
    after-Steps t (claim_archive_body b token e now t)
      (λ t' v. Refinement.claim_archive_body-Steps b token e now t t' v)
apply-Steps (cleanup_claims b token e now) t own =
    after-Steps t (claim_cleanup_body b token e now t)
      (λ t' v. Refinement.claim_cleanup_body-Steps b token e now t t' v)
apply-Steps (begins b token now) t own =
    after-Steps t (begin_body b token now t)
      (λ t' v. Refinement.begin_body-Steps b token now t t' v)
apply-Steps (renews n e now) t own =
    after-Steps t (renew_body n e now t) (λ t' v. Refinement.renew_body-Steps n e now t t')
apply-Steps (defers n e now) t own =
    after-Steps t (defer_archive_body n e now t)
      (λ t' v. Refinement.defer_archive_body-Steps n e now t t')
apply-Steps (cleanup_defers n e now) t own =
    after-Steps t (defer_cleanup_body n e now t)
      (λ t' v. Refinement.defer_cleanup_body-Steps n e now t t')
apply-Steps (publishes n key now) t own =
    after-Steps t (publish_body n key now t) (λ t' v. Refinement.publish_body-Steps n key now t t')
apply-Steps (snapshots n now) t own =
    after-Steps t (snapshot_body n now t) (λ t' v. Refinement.snapshot_body-Steps n now t t' v)
apply-Steps (deletes n now) t own =
    after-Steps t (delete_body n now t) (λ t' v. CleanupSteps.delete_body-Steps n now t t')
apply-Steps (aborts n now) t own =
    after-Steps t (abort_body n now t) (λ t' v. Refinement.abort_body-Steps n now t t')

-- What every step keeps, every history keeps.
pub run_keeps :
    (P : Entry → Type 0)
    → ((e e' : Entry) → Step e e' → P e → P e')
    → (j : RowKey) (cs : List Commit) (t : Tables) → All IsOwn cs
    → P (entry_at j t)
    → P (entry_at j (run cs t))
unfolding run
run_keeps P keep j [] t own h = h
run_keeps P keep j (c ∷ cs) t own h =
    run_keeps P keep j cs (apply c t) own.1 (keep _ _ (apply-Steps c t own.0 j) h)

-- Over any history of committed transactions, whose appended records are of their buckets'
-- partitions, the generation of a bucket never falls, and a bucket that routes to an archive
-- object keeps routing to that object.
pub run-RoutesTo :
    (j : RowKey) (key : Text) (cs : List Commit) (t : Tables)
    → All IsOwn cs
    → ((entry_at j t).generation ≤ (entry_at j (run cs t)).generation)
      × (RoutesTo key (entry_at j t) → RoutesTo key (entry_at j (run cs t)))
run-RoutesTo j key cs t own = (
  run_keeps (λ e. (entry_at j t).generation ≤ e.generation)
      (Step-generation (entry_at j t).generation) j cs t own (omega arith),
  run_keeps (RoutesTo key) (Step-RoutesTo key) j cs t own,
)
