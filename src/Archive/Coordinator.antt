-- ===== src/Archive/Coordinator.antt =====
-- `DurableArchiveCoordinator` of src/application/durable_archive.rs, over the in-memory store and
-- any archive, and `ArchiveLeaseRenewer::supervise` of
-- src/application/durable_archive_recovery.rs. The model leaves telemetry out. Earlier each call
-- of the coordinator any operations of other clients may run, renewals of the lease among them.
use pulpitum.Base.{ℕ, Option, none, some, List, length}
use pulpitum.Base.Text.{Text}
use pulpitum.Domain.Model.{BucketId, Record}
use pulpitum.Store.State.{DurableBucketStoreError, Result, ArchiveSession, Duration, Env}
use pulpitum.Store.Memory.{
  Store, begin_archive, snapshot, publish_archive, delete_hot_bucket, abort_archive,
}
use pulpitum.Store.History.{Operation, run}
use pulpitum.Archive.Port.{StoreError, StoreResult, ArchiveStore}

pub data DurableArchiveError : Type 0 where
  durable_store : DurableBucketStoreError → DurableArchiveError
  store : StoreError → DurableArchiveError

pub data ArchiveResult {ℓ} (A : Type ℓ) : Type ℓ where
  ok : A → ArchiveResult A
  err : DurableArchiveError → ArchiveResult A

pub record ArchiveOutcome : Type 0 where
  pub bucket : BucketId
  pub object_key : Text
  pub records_archived : ℕ

-- The circumstances of one call: what other clients did before it, its clock and token, and the
-- failure of a lease renewal if that is seen before the call's own result.
pub record Call : Type 0 where
  pub others : List Operation
  pub env : Env
  pub lost : Option DurableBucketStoreError

pub record World (W : Type 0) : Type 0 where
  pub buckets : Store
  pub objects : W

-- `supervise`: the operation runs to its end, and its result is dropped if the renewal has failed.
abbrev pub supervise : {A : Type 0} → Option DurableBucketStoreError → A → Result A
supervise none result = Result.ok result
supervise (some e) result = Result.err e

-- `renewer.supervise(self.store.abort_archive(session)).await??; return Err(error)`.
abbrev pub aborted :
    {A : Type 0} → DurableArchiveError → Result (Result (Unit {0})) → ArchiveResult A
aborted error (Result.err e) = err (durable_store e)
aborted error (Result.ok (Result.err e)) = err (durable_store e)
aborted error (Result.ok (Result.ok u)) = err error

module _ {W : Type 0} where
  -- The store as a call finds it.
  abbrev pub found : Call → World W → Store
  found call w = run call.others w.buckets

  abbrev pub with_buckets : Store → World W → World W
  with_buckets s w = record w { buckets = s }

  unfoldable pub abort_with :
      {A : Type 0}
      → Call
      → ArchiveSession
      → DurableArchiveError
      → World W
      → World W × ArchiveResult A
  abort_with call session error w =
      let (s, r) = abort_archive call.env session (found call w) in
      (with_buckets s w, aborted error (supervise call.lost r))

pub record Calls : Type 0 where
  pub begin : Call
  pub read : Call
  pub upload : Call
  pub publish : Call
  pub delete : Call
  pub abort : Call

module _ {W : Type 0} (archive : ArchiveStore W) (calls : Calls) (b : BucketId) where
  module _ (session : ArchiveSession) where
    -- `delete_hot_bucket` and the outcome.
    abbrev pub after_delete :
        Text
        → List Record
        → World W
        → Result (Result (Unit {0}))
        → World W × ArchiveResult ArchiveOutcome
    after_delete key records w (Result.err e) = (w, err (durable_store e))
    after_delete key records w (Result.ok (Result.err e)) = (w, err (durable_store e))
    after_delete key records w (Result.ok (Result.ok u)) =
        (w, ok (record { bucket = b; object_key = key; records_archived = length records }))

    unfoldable pub delete_published :
        Text → List Record → World W → World W × ArchiveResult ArchiveOutcome
    delete_published key records w =
        let (s, r) = delete_hot_bucket calls.delete.env session (found calls.delete w) in
        after_delete key records (with_buckets s w) (supervise calls.delete.lost r)

    abbrev pub after_publish :
        Text
        → List Record
        → World W
        → Result (Result (Unit {0}))
        → World W × ArchiveResult ArchiveOutcome
    after_publish key records w (Result.err e) = (w, err (durable_store e))
    after_publish key records w (Result.ok (Result.err e)) = (w, err (durable_store e))
    after_publish key records w (Result.ok (Result.ok u)) = delete_published key records w

    unfoldable pub publish_uploaded :
        Text → List Record → World W → World W × ArchiveResult ArchiveOutcome
    publish_uploaded key records w =
        let (s, r) = publish_archive calls.publish.env session key (found calls.publish w) in
        after_publish key records (with_buckets s w) (supervise calls.publish.lost r)

    abbrev pub after_upload :
        List Record → World W → Result (StoreResult Text) → World W × ArchiveResult ArchiveOutcome
    after_upload records w (Result.err e) = (w, err (durable_store e))
    after_upload records w (Result.ok (StoreResult.err e)) =
        abort_with calls.abort session (store e) w
    after_upload records w (Result.ok (StoreResult.ok key)) = publish_uploaded key records w

    unfoldable pub upload_snapshot : List Record → World W → World W × ArchiveResult ArchiveOutcome
    upload_snapshot records w =
        let (o, r) = archive.put_bucket_generation b session.generation records w.objects in
        after_upload records (record { buckets = found calls.upload w; objects = o })
          (supervise calls.upload.lost r)

    abbrev pub after_snapshot :
        World W → Result (Result (List Record)) → World W × ArchiveResult ArchiveOutcome
    after_snapshot w (Result.err e) = (w, err (durable_store e))
    after_snapshot w (Result.ok (Result.err e)) = abort_with calls.abort session (durable_store e) w
    after_snapshot w (Result.ok (Result.ok records)) = upload_snapshot records w

    unfoldable pub archive_claimed_bucket : World W → World W × ArchiveResult ArchiveOutcome
    archive_claimed_bucket w =
        let s = found calls.read w in
        after_snapshot (with_buckets s w)
          (supervise calls.read.lost (snapshot calls.read.env session s))

  abbrev pub after_begin : World W → Result ArchiveSession → World W × ArchiveResult ArchiveOutcome
  after_begin w (Result.err e) = (w, err (durable_store e))
  after_begin w (Result.ok session) = archive_claimed_bucket session w

  -- `lease` is the lease that `begin_archive` gives.
  unfoldable pub archive_bucket : Duration → World W → World W × ArchiveResult ArchiveOutcome
  archive_bucket lease w =
      let (s, r) = begin_archive lease calls.begin.env b (found calls.begin w) in
      after_begin (with_buckets s w) r
