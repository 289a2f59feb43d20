-- ===== src/Table/Read.antt =====
-- `read_bucket` of src/application/durable_table.rs over the in-memory store and any archive: the
-- tier that the durable store selects is read. Telemetry is left out.
use pulpitum.Base.{
  ℕ, zero, suc, ◌≡◌, ◌⊎◌, refl, List, Bool, true, Option, none, some, take, sort_by,
  sort_by_of_IsSorted, keep-IsSorted, IsSorted, All, inl, inr,
}
use pulpitum.Base.Text.{Text}
use pulpitum.Domain.Model.{
  BucketId, BucketKey, Record, Cursor, TimeRange, key_order, record_key, is_after, range_contains,
}
use pulpitum.Store.State.{
  BucketState, hot, archiving, archived, DurableBucketStoreError, Result, DurableBucketRead,
  hot_records, archive_key, Duration,
}
use pulpitum.Store.Memory.{Entry, find, entry_of, or_default, read_range, read_in, select}
use pulpitum.Store.Invariant.{IsOrdered, Step-IsOrdered}
use pulpitum.Store.History.{run_keeps}
use pulpitum.Archive.Port.{StoreError, StoreResult, ArchiveStore, IsFaithful, Belongs}
use pulpitum.Archive.Coordinator.{
  ArchiveResult, ArchiveOutcome, Calls, World, found, archive_bucket,
}
use pulpitum.Archive.Cutover.{archive_bucket_ok}

pub data DurableTableError : Type 0 where
  bucket_read_only : BucketId → BucketState → DurableTableError
  -- The bucket, and the keys of the oldest and the newest writable bucket.
  outside_write_window : BucketId → BucketKey → BucketKey → DurableTableError
  invalid_time_range : DurableTableError
  durable_store : DurableBucketStoreError → DurableTableError
  store : StoreError → DurableTableError

pub data TableResult {ℓ} (A : Type ℓ) : Type ℓ where
  ok : A → TableResult A
  err : DurableTableError → TableResult A

-- What an archive read becomes: filtered, sorted and cut as the hot tier does it.
abbrev pub archived_page :
    TimeRange → Option Cursor → ℕ → StoreResult (List Record) → TableResult (List Record)
archived_page range after limit (StoreResult.err e) = err (store e)
archived_page range after limit (StoreResult.ok records) =
    ok (take limit (sort_by key_order record_key (select range after records)))

-- What a read selects of sorted records is sorted.
pub selected-IsSorted :
    (range : TimeRange) (after : Option Cursor) (rs : List Record)
    → IsSorted key_order record_key rs
    → sort_by key_order record_key (select range after rs) ≡ select range after rs
unfolding select
selected-IsSorted range after rs h =
    let o = key_order in
    sort_by_of_IsSorted o record_key _ (
      keep-IsSorted o record_key (is_after after) _
        (keep-IsSorted o record_key (λ r. range_contains range r.event_time) rs h))

module _ {W : Type 0} (archive : ArchiveStore W) where
  abbrev pub routed :
      BucketId
      → TimeRange
      → Option Cursor
      → ℕ
      → W
      → Result DurableBucketRead
      → W × TableResult (List Record)
  routed b range after limit w (Result.err e) = (w, err (durable_store e))
  routed b range after limit w (Result.ok (hot_records records)) = (w, ok records)
  routed b range after limit w (Result.ok (archive_key key)) =
      let (w', r) = archive.get_bucket b key w in (w', archived_page range after limit r)

  unfoldable pub read_bucket :
      BucketId → TimeRange → Option Cursor → ℕ → World W → World W × TableResult (List Record)
  read_bucket b range after limit world =
      let (w, r) =
        routed b range after limit world.objects (read_range b range after limit world.buckets) in
      (record world { objects = w }, r)

  -- The read of a bucket whose records are still in the store.
  hot_in :
      (range : TimeRange) (after : Option Cursor) (limit : ℕ) (found : Option Entry)
      → ((or_default found).state ≡ hot) ⊎ ((or_default found).state ≡ archiving)
      → read_in range after limit found
        ≡ Result.ok (hot_records (take limit (select range after (or_default found).records)))
  unfolding select
  hot_in range after zero none h = refl
  hot_in range after (suc n) none h = refl
  hot_in range after limit (some e) (inl h) = rw h refl
  hot_in range after limit (some e) (inr h) = rw h refl

  pub read_hot :
      (b : BucketId) (range : TimeRange) (after : Option Cursor) (limit : ℕ) (w : World W)
      → ((entry_of b w.buckets).state ≡ hot) ⊎ ((entry_of b w.buckets).state ≡ archiving)
      → (read_bucket b range after limit w).1
        ≡ ok (take limit (select range after (entry_of b w.buckets).records))
  unfolding read_bucket read_range
  read_hot b range after limit w h = rw (hot_in range after limit (find b w.buckets) h) refl

  -- The read of a bucket that routes to the archive.
  archived_in :
      (range : TimeRange) (after : Option Cursor) (limit : ℕ) (found : Option Entry) (key : Text)
      (deleted : Bool)
      → (or_default found).state ≡ archived key deleted
      → read_in range after limit found ≡ Result.ok (archive_key key)
  archived_in range after limit none key deleted h = cc
  archived_in range after limit (some e) key deleted h = rw h refl

  pub read_archived :
      (b : BucketId) (range : TimeRange) (after : Option Cursor) (limit : ℕ) (w : World W)
      (key : Text) (deleted : Bool)
      → (entry_of b w.buckets).state ≡ archived key deleted
      → (read_bucket b range after limit w).1
        ≡ archived_page range after limit (archive.get_bucket b key w.objects).1
  unfolding read_bucket read_range
  read_archived b range after limit w key deleted h =
      rw (archived_in range after limit (find b w.buckets) key deleted h) refl

  -- A cutover is invisible to readers: after a successful cutover, a read of the bucket returns the
  -- page that a read of the hot tier returns at the close of its write fence, if
  -- the bucket's entry is well-formed and the hot records belong to the bucket.
  pub cutover_transparent :
      (calls : Calls) (b : BucketId) (lease : Duration) (w : World W) (outcome : ArchiveOutcome)
      (range : TimeRange) (after : Option Cursor) (limit : ℕ)
      → IsFaithful archive
      → All (Belongs b) (entry_of b (found calls.begin w)).records
      → IsOrdered (entry_of b w.buckets)
      → (archive_bucket archive calls b lease w).1 ≡ ArchiveResult.ok outcome
      → (read_bucket b range after limit (archive_bucket archive calls b lease w).0).1
        ≡ ok (take limit (select range after (entry_of b (found calls.begin w)).records))
  cutover_transparent calls b lease w outcome range after limit faithful belong ordered h =
      let i = archive_bucket_ok archive calls b lease w outcome faithful belong h in
      let sorted = run_keeps IsOrdered Step-IsOrdered b calls.begin.others w.buckets ordered in
      rw
        (
          read_archived b range after limit (archive_bucket archive calls b lease w).0
              outcome.object_key true i.route,
          i.readable,
          selected-IsSorted range after (entry_of b (found calls.begin w)).records sorted.sorted,
        )
        refl
