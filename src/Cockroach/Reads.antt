-- ===== src/Cockroach/Reads.antt =====
-- The reads of `CockroachDurableBucketStore` of src/adapters/cockroach_durable.rs: `state`,
-- `discover_archive_work` and `read_range`.
use pulpitum.Base.{
  ℕ, ◌-◌, min, Bool, ◌&&◌, not, Option, none, some, List, [], ◌∷◌, ◌++◌, leb, ◌==◌, if◌then◌else◌,
  length, take, keep, map, sort_by, get, Order, pair_order, nat_order,
}
use pulpitum.Base.Text.{Text}
use pulpitum.Domain.Model.{
  BucketId, Record, Cursor, TimeRange, DateTime, range_contains, is_after, key_order, record_key,
}
use pulpitum.Store.State.{
  BucketState, hot, operation_failed, unavailable, Result, ok, err, DurableBucketRead, hot_records,
  archive_key, ArchiveWork, cutover, cleanup, ArchiveScan,
}
use pulpitum.Cockroach.Tables.{
  sent_range, sent_cursor, StateText, hot_text, archiving_text, archived_text, other_text,
  MetadataRow, RowKey, row_key_order, row_key, Tables, metadata_state, bucket_from_row, is_due,
  is_archived_text, i64_max,
}
use pulpitum.Cockroach.Statements.{in_bucket, to_record}
use pulpitum.Cockroach.Bodies.{is_claimable}
use pulpitum.Cockroach.Operations.{Client, archived_route, cache_archive_at}

-- Whether `pool.acquire()` gives a connection, and whether the database answers a statement; the
-- timestamp of the statement, the monotonic clock, and what the driver sends of an instant.
pub record ReadCall : Type 0 where
  pub connects : Bool
  pub answers : Bool
  pub second_answers : Bool
  pub now : DateTime
  pub second_now : DateTime
  pub instant : ℕ
  pub timestamptz : DateTime → DateTime

abbrev pub chained : {A B : Type 0} → Result A → (A → Result B) → Result B
chained (ok a) f = f a
chained (err e) f = err e

abbrev state_or_hot : Option MetadataRow → Result BucketState
state_or_hot none = ok hot
state_or_hot (some r) = metadata_state r

unfoldable pub state : ReadCall → BucketId → Client → Result BucketState
state call b c =
    if not call.connects
    then err unavailable
    else if not call.answers
    then err operation_failed
    else state_or_hot (get row_key_order (row_key b) c.tables.metadata)

abbrev pub Row : Type 0
Row = RowKey × MetadataRow

-- `ORDER BY bucket_end, table_id, partition_key, bucket_key`.
abbrev pub discovery_order : Order (ℕ × RowKey)
discovery_order = pair_order nat_order row_key_order

abbrev pub discovery_key : Row → ℕ × RowKey
discovery_key (key, r) = (r.bucket_end, key)

abbrev pub needs_cleanup : DateTime → Row → Bool
needs_cleanup now (key, r) =
    is_archived_text r.state
    && not r.hot_deleted
    && is_due r.archive_next_attempt_at now
    && is_due r.archive_owner_expires_at now

abbrev pub needs_cutover : DateTime → DateTime → Row → Bool
needs_cutover eligible_before now (key, r) =
    leb r.bucket_end eligible_before && is_due r.archive_next_attempt_at now && is_claimable now r

unfoldable pub select_work : (Row → Bool) → ℕ → Tables → List Row
select_work guard limit t =
    take limit (sort_by discovery_order discovery_key (keep guard t.metadata))

abbrev with_work :
    Result BucketId
    → (BucketId → ArchiveWork)
    → Result (List ArchiveWork)
    → Result (List ArchiveWork)
with_work (err e) item rest = err e
with_work (ok b) item (err e) = err e
with_work (ok b) item (ok work) = ok (item b ∷ work)

-- `map(|row| bucket_from_row(row).map(item)).collect()`.
unfoldable pub collect_work : (BucketId → ArchiveWork) → List Row → Result (List ArchiveWork)
collect_work item [] = ok []
collect_work item (row ∷ rows) = with_work (bucket_from_row row) item (collect_work item rows)

abbrev cutovers_of : List ArchiveWork → Bool → List Row → Result (List ArchiveWork)
cutovers_of work answers rows =
    if answers
    then chained (collect_work cutover rows) (λ more. ok (work ++ more))
    else err operation_failed

-- Between the two statements other clients may commit: `later` is what the second one sees.
unfoldable pub discover_archive_work :
    ReadCall → ArchiveScan → Tables → Tables → Result (List ArchiveWork)
unfolding select_work collect_work
discover_archive_work call scan t later =
    if not call.connects
    then err unavailable
    else if not call.answers
    then err operation_failed
    else chained (collect_work cleanup (select_work (needs_cleanup call.now) scan.limit t)) (λ work.
      let remaining = scan.limit - length work in
      if remaining == 0
      then ok work
      else cutovers_of work call.second_answers (
          select_work (needs_cutover (call.timestamptz scan.eligible_before) call.second_now)
            remaining later))

-- A row of the routed SELECT; the columns of the record are NULL together.
pub record RoutedRow : Type 0 where
  pub route_state : StateText
  pub route_object_key : Option Text
  pub hot : Option Record

abbrev pub route_of : Option MetadataRow → StateText × Option Text
route_of none = (hot_text, none)
route_of (some r) = (r.state, r.archive_object_key)

-- The lateral join: one row for each record, or one row without.
abbrev pub joined : StateText → Option Text → List Record → List RoutedRow
joined state key [] = record { route_state = state; route_object_key = key; hot = none } ∷ []
joined state key (r ∷ rs) =
    map (λ x. record { route_state = state; route_object_key = key; hot = some x }) (r ∷ rs)

-- The bounds of the range and the cursor are those that the driver sent.
unfoldable pub hot_range : RowKey → StateText → TimeRange → Option Cursor → ℕ → Tables → List Record
hot_range key state range after limit t =
    if is_archived_text state
    then []
    else take limit (
        sort_by key_order record_key (
          keep (λ r. range_contains range r.event_time && is_after after r)
            (map to_record (keep (in_bucket key) t.records))))

unfoldable pub routed_select : RowKey → TimeRange → Option Cursor → ℕ → Tables → List RoutedRow
unfolding hot_range
routed_select key range after limit t =
    let route = route_of (get row_key_order key t.metadata) in
    joined route.0 route.1 (hot_range key route.0 range after limit t)

-- The loop over the rows: those without a record are passed over.
unfoldable pub rows_records : List RoutedRow → List Record
rows_records [] = []
rows_records (row ∷ rows) = elim row.hot [
  | none ↦ rows_records rows
  | some r ↦ r ∷ rows_records rows
]

abbrev pub key_or_failed : Option Text → Result DurableBucketRead
key_or_failed none = err operation_failed
key_or_failed (some key) = ok (archive_key key)

abbrev pub hot_unless_keyed : Option Text → List Record → Result DurableBucketRead
hot_unless_keyed none records = ok (hot_records records)
hot_unless_keyed (some key) records = err operation_failed

unfoldable pub routed_read_from_snapshot :
    StateText → Option Text → List Record → Result DurableBucketRead
routed_read_from_snapshot hot_text key records = hot_unless_keyed key records
routed_read_from_snapshot archiving_text key records = hot_unless_keyed key records
routed_read_from_snapshot archived_text key [] = key_or_failed key
routed_read_from_snapshot archived_text key (r ∷ rs) = err operation_failed
routed_read_from_snapshot (other_text t) key records = err operation_failed

abbrev pub read_rows : List RoutedRow → Result DurableBucketRead
read_rows [] = err operation_failed
read_rows (first ∷ rest) =
    routed_read_from_snapshot first.route_state first.route_object_key (rows_records (first ∷ rest))

-- A route to the archive is cached.
abbrev pub caching :
    BucketId → ℕ → Client → Result DurableBucketRead → Client × Result DurableBucketRead
caching b instant c (ok (archive_key key)) =
    (record c { route_cache = cache_archive_at b key instant c.route_cache }, ok (archive_key key))
caching b instant c (ok (hot_records rs)) = (c, ok (hot_records rs))
caching b instant c (err e) = (c, err e)

abbrev pub query_route :
    ReadCall → BucketId → TimeRange → Option Cursor → ℕ → Client → Client × Result DurableBucketRead
query_route call b range after limit c =
    if not call.connects
    then (c, err unavailable)
    else if not call.answers
    then (c, err operation_failed)
    else caching b call.instant c (
        read_rows (
          routed_select (row_key b) (sent_range call.timestamptz range)
            (sent_cursor call.timestamptz after) (min limit i64_max) c.tables))

abbrev pub cached_or :
    Option Text → Client → Client × Result DurableBucketRead → Client × Result DurableBucketRead
cached_or none c queried = queried
cached_or (some key) c queried = (c, ok (archive_key key))

unfoldable pub read_range :
    ReadCall → BucketId → TimeRange → Option Cursor → ℕ → Client → Client × Result DurableBucketRead
unfolding routed_select routed_read_from_snapshot rows_records cache_archive_at archived_route
read_range call b range after limit c =
    cached_or (archived_route b c.route_cache) c (query_route call b range after limit c)
