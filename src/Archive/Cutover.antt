-- ===== src/Archive/Cutover.antt =====
-- What a successful cutover of src/application/durable_archive.rs guarantees, whatever other
-- clients of the store do between its calls.
use pulpitum.Base.{
  ◌≡◌, refl, sym, ap, ◌∙◌, subst, inl, inr, true, false, Option, none, some, List, [], arith,
  length, All,
}
use pulpitum.Base.Text.{Text}
use pulpitum.Domain.Model.{BucketId, Record}
use pulpitum.Store.State.{archived, DurableBucketStoreError, Result, ArchiveSession, Duration}
use pulpitum.Store.Memory.{Entry, Store, entry_of, begin_archive}
use pulpitum.Store.History.{run_keeps}
use pulpitum.Store.Outcomes.{begin_ok, snapshot_ok, publish_ok, delete_ok}
use pulpitum.Store.Fencing.{RoutesTo, run_route, Frozen, Step-Frozen}
use pulpitum.Archive.Port.{StoreResult, ArchiveStore, IsFaithful, Belongs}
use pulpitum.Archive.Coordinator.{
  DurableArchiveError, ok, ArchiveOutcome, Call, Calls, World, supervise, found, with_buckets,
  after_delete, delete_published, after_publish, publish_uploaded, after_upload, upload_snapshot,
  after_snapshot, archive_claimed_bucket, after_begin, archive_bucket, abort_with,
}

supervised :
    {A : Type 0} (lost : Option DurableBucketStoreError) (r a : A)
    → supervise lost r ≡ Result.ok a
    → (lost ≡ none) × (r ≡ a)
supervised none r a h = (refl, ground arith)
supervised (some e) r a h = cc

module _ {W : Type 0} (archive : ArchiveStore W) (calls : Calls) (b : BucketId)
    (session : ArchiveSession) (outcome : ArchiveOutcome) where
  abbrev outcome_of : Text → List Record → ArchiveOutcome
  outcome_of key records = record {
    bucket = b;
    object_key = key;
    records_archived = length records;
  }

  delete_stage :
      (key : Text) (records : List Record) (w : World W) (lost : Option DurableBucketStoreError)
      (r : Result (Unit {0}))
      → (after_delete archive calls b session key records w (supervise lost r)).1 ≡ ok outcome
      → (r ≡ Result.ok tt)
        × (outcome ≡ outcome_of key records)
        × ((after_delete archive calls b session key records w (supervise lost r)).0 ≡ w)
  delete_stage key records w none (Result.ok u) h = (refl, ground arith, refl)
  delete_stage key records w none (Result.err e) h = cc
  delete_stage key records w (some e) r h = cc

  publish_stage :
      (key : Text) (records : List Record) (w : World W) (lost : Option DurableBucketStoreError)
      (r : Result (Unit {0}))
      → (after_publish archive calls b session key records w (supervise lost r)).1 ≡ ok outcome
      → (r ≡ Result.ok tt)
        × (after_publish archive calls b session key records w (supervise lost r)
            ≡ delete_published archive calls b session key records w)
  publish_stage key records w none (Result.ok u) h = (refl, refl)
  publish_stage key records w none (Result.err e) h = cc
  publish_stage key records w (some e) r h = cc

  abort-ne-ok :
      (call : Call) (error : DurableArchiveError) (w : World W)
      → (abort_with {A = ArchiveOutcome} call session error w).1 ≡ ok outcome
      → ⊥
  unfolding abort_with
  abort-ne-ok call error w h = ground arith

  upload_stage :
      (records : List Record) (w : World W) (lost : Option DurableBucketStoreError)
      (r : StoreResult Text)
      → (after_upload archive calls b session records w (supervise lost r)).1 ≡ ok outcome
      → (key : Text) × (r ≡ StoreResult.ok key)
        × (after_upload archive calls b session records w (supervise lost r)
            ≡ publish_uploaded archive calls b session key records w)
  upload_stage records w none (StoreResult.ok key) h = (key, refl, refl)
  upload_stage records w none (StoreResult.err e) h = absurd (abort-ne-ok _ _ w h)
  upload_stage records w (some e) r h = cc

  snapshot_stage :
      (w : World W) (lost : Option DurableBucketStoreError) (r : Result (List Record))
      → (after_snapshot archive calls b session w (supervise lost r)).1 ≡ ok outcome
      → (records : List Record) × (r ≡ Result.ok records)
        × (after_snapshot archive calls b session w (supervise lost r)
            ≡ upload_snapshot archive calls b session records w)
  snapshot_stage w none (Result.ok records) h = (records, refl, refl)
  snapshot_stage w none (Result.err e) h = absurd (abort-ne-ok _ _ w h)
  snapshot_stage w (some e) r h = cc

-- What a finished cutover leaves behind: the bucket routes to the outcome's object and its hot
-- records are gone, and the object is read back as the records `rs`.
pub record IsArchived {W : Type 0} (archive : ArchiveStore W) (b : BucketId) (rs : List Record)
    (outcome : ArchiveOutcome) (w : World W) : Type 0 where
  pub same_bucket : outcome.bucket ≡ b
  pub route : (entry_of b w.buckets).state ≡ archived outcome.object_key true
  pub emptied : (entry_of b w.buckets).records ≡ []
  pub count : outcome.records_archived ≡ length rs
  pub readable : (archive.get_bucket b outcome.object_key w.objects).1 ≡ StoreResult.ok rs

same_key :
    (key key' : Text) (e : Entry) → RoutesTo key e → e.state ≡ archived key' false → key' ≡ key
same_key key key' e (inl h) k = ground arith
same_key key key' e (inr h) k = ground arith

module _ {W : Type 0} (archive : ArchiveStore W) (calls : Calls) (session : ArchiveSession)
    (outcome : ArchiveOutcome) where
  open session use {bucket as b}

  delete_published_ok :
      (key : Text) (records : List Record) (w : World W)
      → RoutesTo key (entry_of b w.buckets)
      → (archive.get_bucket b key w.objects).1 ≡ StoreResult.ok records
      → (delete_published archive calls b session key records w).1 ≡ ok outcome
      → IsArchived archive b records outcome
          (delete_published archive calls b session key records w).0
  unfolding delete_published
  delete_published_ok key records w route readable h =
      let s = found calls.delete w in
      let (deleted, same, final) =
        delete_stage archive calls b session outcome key records _ calls.delete.lost _ h in
      let (key', before, _, after) = delete_ok calls.delete.env session s deleted in
      let e : key' ≡ key =
        same_key key key' (entry_of b s) (run_route b key calls.delete.others w.buckets route)
          before in
      subst (IsArchived archive b records outcome) (sym final) (record {
        same_bucket = ap (λ o. o.bucket) same;
        route =
            ap (λ x. x.state) after
            ∙ ap (λ k. archived k true) (e ∙ sym (ap (λ o. o.object_key) same));
        emptied = ap (λ x. x.records) after;
        count = ap (λ o. o.records_archived) same;
        readable =
            subst (λ k. (archive.get_bucket b k w.objects).1 ≡ StoreResult.ok records)
              (sym (ap (λ o. o.object_key) same)) readable;
      })

  publish_uploaded_ok :
      (key : Text) (records : List Record) (w : World W)
      → (archive.get_bucket b key w.objects).1 ≡ StoreResult.ok records
      → (publish_uploaded archive calls b session key records w).1 ≡ ok outcome
      → IsArchived archive b records outcome
          (publish_uploaded archive calls b session key records w).0
  unfolding publish_uploaded
  publish_uploaded_ok key records w readable h =
      let s = found calls.publish w in
      let (done, whole) =
        publish_stage archive calls b session outcome key records _ calls.publish.lost _ h in
      let (_, after) = publish_ok calls.publish.env session key s done in
      rw whole
        (delete_published_ok key records _ (inl (ap (λ x. x.state) after)) readable (rw whole at h))

  module _ (faithful : IsFaithful archive) where
    upload_snapshot_ok :
        (records : List Record) (w : World W)
        → All (Belongs b) records
        → (upload_snapshot archive calls b session records w).1 ≡ ok outcome
        → IsArchived archive b records outcome (upload_snapshot archive calls b session records w).0
    unfolding upload_snapshot
    upload_snapshot_ok records w belong h =
        let (key, stored, whole) =
          upload_stage archive calls b session outcome records _ calls.upload.lost _ h in
        rw whole (
          publish_uploaded_ok key records _
            (faithful.read_back b session.generation records w.objects key stored belong)
            (rw whole at h))

    claimed_ok :
        (records : List Record) (w : World W)
        → Frozen session.generation records (entry_of b w.buckets)
        → All (Belongs b) records
        → (archive_claimed_bucket archive calls b session w).1 ≡ ok outcome
        → IsArchived archive b records outcome (archive_claimed_bucket archive calls b session w).0
    unfolding archive_claimed_bucket
    claimed_ok records w frozen belong h =
        let s = found calls.read w in
        let (seen, read, whole) =
          snapshot_stage archive calls b session outcome _ calls.read.lost _ h in
        let (owned, same) = snapshot_ok calls.read.env session s seen read in
        let kept =
          run_keeps (Frozen session.generation records) (Step-Frozen session.generation records) b
            calls.read.others w.buckets frozen in
        let e : records ≡ seen = sym (kept.1 owned.1 owned.0) ∙ same in
        rw (whole, e) (upload_snapshot_ok seen _ (subst (All (Belongs b)) e belong) (rw whole at h))

-- A successful cutover archived exactly the records that the bucket held when its write fence
-- closed, if these belong to the bucket: they are read back from the published object, the bucket
-- routes to that object, and its hot records are gone. This holds whatever
-- other clients do to the store between the calls.
pub archive_bucket_ok :
    {W : Type 0} (archive : ArchiveStore W) (calls : Calls) (b : BucketId) (lease : Duration)
    (w : World W) (outcome : ArchiveOutcome)
    → IsFaithful archive
    → All (Belongs b) (entry_of b (found calls.begin w)).records
    → (archive_bucket archive calls b lease w).1 ≡ ok outcome
    → IsArchived archive b
        (entry_of b (found calls.begin w)).records
        outcome
        (archive_bucket archive calls b lease w).0
unfolding archive_bucket
archive_bucket_ok {W} archive calls b lease w outcome faithful belong h =
    begun (begin_archive lease calls.begin.env b s).1 refl h
  where
    s : Store
    s = found calls.begin w

    fenced : World W
    fenced = with_buckets (begin_archive lease calls.begin.env b s).0 w

    begun :
        (r : Result ArchiveSession)
        → (begin_archive lease calls.begin.env b s).1 ≡ r
        → (after_begin archive calls b fenced r).1 ≡ ok outcome
        → IsArchived archive b
            (entry_of b s).records
            outcome
            (after_begin archive calls b fenced r).0
    begun (Result.err e) _ k = cc
    begun (Result.ok session) e k =
        let (_, i) = begin_ok lease calls.begin.env b s session e in
        let frozen : Frozen session.generation (entry_of b s).records (entry_of b fenced.buckets) =
          (omega (arith, i.owned.1), λ p q. i.kept) in
        subst
          (λ c.
            All (Belongs c) (entry_of b s).records
            → Frozen session.generation (entry_of b s).records (entry_of c fenced.buckets)
            → (archive_claimed_bucket archive calls c session fenced).1 ≡ ok outcome
            → IsArchived archive c (entry_of b s).records outcome
                (archive_claimed_bucket archive calls c session fenced).0)
          i.for_bucket
          (λ own f.
            claimed_ok archive calls session outcome faithful (entry_of b s).records fenced f own)
          belong frozen k
