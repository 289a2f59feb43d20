-- ===== src/Recovery/Runner.antt =====
-- `DurableArchiveRecoveryRunner` of src/application/durable_archive_recovery.rs over the in-memory
-- store and any archive. Earlier each call any operations of other clients may run, renewals of
-- the lease among them; telemetry is left out. The counters of the outcome are threaded through.
use pulpitum.Base.{ℕ, true, false, ◌+◌, suc, Option, none, some, List, [], ◌∷◌, length}
use pulpitum.Base.Text.{Text}
use pulpitum.Domain.Model.{BucketId, Record}
use pulpitum.Store.State.{
  BucketState, hot, archiving, archived, DurableBucketStoreError, operation_failed, Result,
  ArchiveSession, ArchiveWork, cutover, cleanup,
}
use pulpitum.Store.Memory
use pulpitum.Store.Memory.{
  Store, snapshot, publish_archive, delete_hot_bucket, defer_archive, defer_cleanup, claim_archive,
  claim_cleanup,
}
use pulpitum.Store.Discovery.{discover_archive_work}
use pulpitum.Archive.Port.{StoreResult, ArchiveStore}
use pulpitum.Archive.Coordinator.{Call, World, supervise, found, with_buckets}
use pulpitum.Recovery.Config.{
  ArchiveRecoveryConfig, ArchiveRecoveryError, durable_store, RecoveryResult, ok, err,
  ArchiveRecoveryOutcome,
}

-- The circumstances of the calls for one item.
pub record Steps : Type 0 where
  pub claim : Call
  pub read : Call
  pub upload : Call
  pub publish : Call
  pub check : Call
  pub delete : Call
  pub defer : Call

abbrev pub Out : Type 0 → Type 0
Out W = World W × (ArchiveRecoveryOutcome × RecoveryResult (Unit {0}))

abbrev pub fail : {W : Type 0} → World W → ArchiveRecoveryOutcome → ArchiveRecoveryError → Out W
fail w o e = (w, (o, err e))

abbrev pub count_claimed : ArchiveRecoveryOutcome → ArchiveRecoveryOutcome
count_claimed o = record o { claimed = o.claimed + 1 }

abbrev pub count_completed : ArchiveRecoveryOutcome → ArchiveRecoveryOutcome
count_completed o = record o { completed = o.completed + 1 }

abbrev pub count_deferred : ArchiveRecoveryOutcome → ArchiveRecoveryOutcome
count_deferred o = record o { deferred = o.deferred + 1 }

module _ {W : Type 0} (objects : ArchiveStore W) (config : ArchiveRecoveryConfig)
    (steps : Steps) where
  -- `renewer.supervise(defer).await??`, the counter, and the error that led here.
  abbrev pub after_defer :
      ArchiveRecoveryError → World W → ArchiveRecoveryOutcome → Result (Result (Unit {0})) → Out W
  after_defer error w o (Result.err e) = fail w o (durable_store e)
  after_defer error w o (Result.ok (Result.err e)) = fail w o (durable_store e)
  after_defer error w o (Result.ok (Result.ok u)) = fail w (count_deferred o) error

  unfoldable pub defer_cutover :
      ArchiveSession → ArchiveRecoveryError → World W → ArchiveRecoveryOutcome → Out W
  defer_cutover session error w o =
      let (s, r) =
        defer_archive steps.defer.env session config.retry_backoff (found steps.defer w) in
      after_defer error (with_buckets s w) o (supervise steps.defer.lost r)

  abbrev pub after_cleanup :
      ArchiveSession → World W → ArchiveRecoveryOutcome → Result (Result (Unit {0})) → Out W
  after_cleanup session w o (Result.err e) = fail w o (durable_store e)
  after_cleanup session w o (Result.ok (Result.ok u)) = (w, (count_completed o, ok tt))
  after_cleanup session w o (Result.ok (Result.err e)) =
      let (s, r) =
        defer_cleanup steps.defer.env session config.retry_backoff (found steps.defer w) in
      after_defer (durable_store e) (with_buckets s w) o (supervise steps.defer.lost r)

  unfoldable pub finish_cleanup : ArchiveSession → World W → ArchiveRecoveryOutcome → Out W
  finish_cleanup session w o =
      let (s, r) = delete_hot_bucket steps.delete.env session (found steps.delete w) in
      after_cleanup session (with_buckets s w) o (supervise steps.delete.lost r)

  -- The routing state decides what a failed publication means.
  abbrev pub after_check :
      ArchiveSession
      → DurableBucketStoreError
      → World W
      → ArchiveRecoveryOutcome
      → Result (Result BucketState)
      → Out W
  after_check session error w o (Result.err e) = fail w o (durable_store e)
  after_check session error w o (Result.ok (Result.err e)) = fail w o (durable_store e)
  after_check session error w o (Result.ok (Result.ok hot)) = fail w o (durable_store error)
  after_check session error w o (Result.ok (Result.ok archiving)) =
      defer_cutover session (durable_store error) w o
  after_check session error w o (Result.ok (Result.ok (archived key false))) =
      finish_cleanup session w o
  after_check session error w o (Result.ok (Result.ok (archived key true))) =
      fail w o (durable_store error)

  abbrev pub after_publish :
      BucketId
      → ArchiveSession
      → World W
      → ArchiveRecoveryOutcome
      → Result (Result (Unit {0}))
      → Out W
  after_publish b session w o (Result.err e) = fail w o (durable_store e)
  after_publish b session w o (Result.ok (Result.ok u)) = finish_cleanup session w o
  after_publish b session w o (Result.ok (Result.err e)) =
      let s = found steps.check w in
      after_check session e (with_buckets s w) o (supervise steps.check.lost (Memory.state b s))

  unfoldable pub publish_recovered :
      BucketId → ArchiveSession → Text → World W → ArchiveRecoveryOutcome → Out W
  publish_recovered b session key w o =
      let (s, r) = publish_archive steps.publish.env session key (found steps.publish w) in
      after_publish b session (with_buckets s w) o (supervise steps.publish.lost r)

  -- `self.defer_cutover(…).await?` always fails, so the store's own error is what is returned.
  abbrev pub after_upload :
      BucketId
      → ArchiveSession
      → World W
      → ArchiveRecoveryOutcome
      → Result (StoreResult Text)
      → Out W
  after_upload b session w o (Result.err e) = fail w o (durable_store e)
  after_upload b session w o (Result.ok (StoreResult.ok key)) = publish_recovered b session key w o
  after_upload b session w o (Result.ok (StoreResult.err e)) =
      defer_cutover session (durable_store operation_failed) w o

  unfoldable pub upload_recovered :
      BucketId → ArchiveSession → List Record → World W → ArchiveRecoveryOutcome → Out W
  upload_recovered b session records w o =
      let (objs, r) = objects.put_bucket_generation b session.generation records w.objects in
      after_upload b session (record { buckets = found steps.upload w; objects = objs }) o
        (supervise steps.upload.lost r)

  abbrev pub after_snapshot :
      BucketId
      → ArchiveSession
      → World W
      → ArchiveRecoveryOutcome
      → Result (Result (List Record))
      → Out W
  after_snapshot b session w o (Result.err e) = fail w o (durable_store e)
  after_snapshot b session w o (Result.ok (Result.err e)) =
      defer_cutover session (durable_store e) w o
  after_snapshot b session w o (Result.ok (Result.ok records)) =
      upload_recovered b session records w o

  unfoldable pub recover_claimed_cutover :
      BucketId → ArchiveSession → World W → ArchiveRecoveryOutcome → Out W
  recover_claimed_cutover b session w o =
      let s = found steps.read w in
      after_snapshot b session (with_buckets s w) o
        (supervise steps.read.lost (snapshot steps.read.env session s))

  abbrev pub after_claim :
      BucketId → World W → ArchiveRecoveryOutcome → Result (Option ArchiveSession) → Out W
  after_claim b w o (Result.err e) = fail w o (durable_store e)
  after_claim b w o (Result.ok none) = (w, (o, ok tt))
  after_claim b w o (Result.ok (some session)) =
      recover_claimed_cutover b session w (count_claimed o)

  unfoldable pub recover_cutover : BucketId → World W → ArchiveRecoveryOutcome → Out W
  recover_cutover b w o =
      let (s, r) = claim_archive steps.claim.env b config.lease_for (found steps.claim w) in
      after_claim b (with_buckets s w) o r

  abbrev pub after_claim_cleanup :
      World W → ArchiveRecoveryOutcome → Result (Option ArchiveSession) → Out W
  after_claim_cleanup w o (Result.err e) = fail w o (durable_store e)
  after_claim_cleanup w o (Result.ok none) = (w, (o, ok tt))
  after_claim_cleanup w o (Result.ok (some session)) = finish_cleanup session w (count_claimed o)

  unfoldable pub recover_cleanup : BucketId → World W → ArchiveRecoveryOutcome → Out W
  recover_cleanup b w o =
      let (s, r) = claim_cleanup steps.claim.env b config.lease_for (found steps.claim w) in
      after_claim_cleanup (with_buckets s w) o r

  unfoldable pub recover : ArchiveWork → World W → ArchiveRecoveryOutcome → Out W
  recover (cleanup b) w o = recover_cleanup b w o
  recover (cutover b) w o = recover_cutover b w o

-- The loop of `run_once` over the discovered work; the first error ends it.
module _ {W : Type 0} (objects : ArchiveStore W) (config : ArchiveRecoveryConfig)
    (schedule : ℕ → Steps) where
  abbrev pub go_on : Out W → (World W → ArchiveRecoveryOutcome → Out W) → Out W
  go_on (w, (o, err e)) next = (w, (o, err e))
  go_on (w, (o, ok u)) next = next w o

  unfoldable pub run_items : ℕ → List ArchiveWork → World W → ArchiveRecoveryOutcome → Out W
  run_items n [] w o = (w, (o, ok tt))
  run_items n (item ∷ work) w o =
      go_on (recover objects config (schedule n) item w o) λ w' o'. run_items (suc n) work w' o'

  -- `scan` is the circumstances of the discovery.
  unfoldable pub run_once : Call → World W → Out W
  unfolding run_items
  run_once scan w =
      let s = found scan w in
      let work =
        discover_archive_work scan.env
          (record { eligible_before = config.eligible_before; limit = config.scan_limit }) s in
      run_items 0 work (with_buckets s w)
        (record { discovered = length work; claimed = 0; completed = 0; deferred = 0 })
