-- ===== src/Cockroach/Statements.antt =====
-- The statements of src/adapters/cockroach_durable.rs that several transactions share, and how they
-- are chained: `?` stops at the first that fails. An UPDATE does not enforce the CHECK constraints
-- here: that it need not is shown of the rows.
use pulpitum.Base.{
  Bool, ◌&&◌, ◌||◌, not, Option, none, some, [], ◌∷◌, ◌++◌, ltb, leb, ◌==◌, if◌then◌else◌, any, get,
  put,
}
use pulpitum.Base.Text.{text_eq}
use pulpitum.Domain.Model.{BucketId, Record, as_str}
use pulpitum.Store.State.{BucketState, DurableBucketStoreError, operation_failed, ok, err}
use pulpitum.Cockroach.Tables.{
  MetadataRow, RowKey, row_key_order, row_key, RecordRow, Tables, metadata_state, new_row, is_null,
  i64_max,
}

-- What a statement may fail with: code 40001, or anything else.
pub data DatabaseError : Type 0 where
  serialization_failure statement_error : DatabaseError

pub data TransactionFailure : Type 0 where
  database : DatabaseError → TransactionFailure
  store : DurableBucketStoreError → TransactionFailure

-- The tables as the open transaction sees them, and its value so far.
pub data Outcome (A : Type 0) : Type 0 where
  done : Tables → A → Outcome A
  failed : TransactionFailure → Outcome A

abbrev pub Body : Type 0 → Type 0
Body A = Tables → Outcome A

abbrev pub next_statement : {A B : Type 0} → Outcome A → (A → Body B) → Outcome B
next_statement (done t a) f = f a t
next_statement (failed e) f = failed e

infixl 5 ◌>>=◌ ◌>>◌
abbrev pub ◌>>=◌ : {A B : Type 0} → Body A → (A → Body B) → Body B
m >>= f = λ t. next_statement (m t) f

abbrev pub ◌>>◌ : {B : Type 0} → Body (Unit {0}) → Body B → Body B
m >> k = m >>= λ _. k

abbrev pub give : {A : Type 0} → A → Body A
give a t = done t a

abbrev pub refuse : {A : Type 0} → DurableBucketStoreError → Body A
refuse e t = failed (store e)

-- `SELECT 1 ... WHERE table_id = $1 AND bucket_strategy != $2 LIMIT 1`.
unfoldable pub strategy_conflict : BucketId → Tables → Bool
strategy_conflict b t =
    any
      (λ row. text_eq row.0.0 b.table_id && not (text_eq row.1.bucket_strategy (as_str b.strategy)))
      t.metadata

-- `INSERT ... ON CONFLICT DO NOTHING`; the CHECK on the bounds may refuse a new row.
abbrev pub inserted : BucketId → Tables → Option MetadataRow → Outcome (Unit {0})
inserted b t (some r) = done t tt
inserted b t none =
    if ltb b.start b.end
    then done (record t { metadata = put row_key_order (row_key b) (new_row b) t.metadata }) tt
    else failed (database statement_error)

unfoldable pub insert_metadata : BucketId → Body (Unit {0})
insert_metadata b t = inserted b t (get row_key_order (row_key b) t.metadata)

-- `UPDATE pulpitum_v4_bucket_metadata SET ... WHERE` the key `AND ...`: the row that it updates,
-- which RETURNING or the count of rows reports. An `INT8` that overflows is an error.
abbrev pub updated :
    RowKey
    → (MetadataRow → Bool)
    → (MetadataRow → MetadataRow)
    → Tables
    → Option MetadataRow
    → Outcome (Option MetadataRow)
updated key guard set t none = done t none
updated key guard set t (some r) =
    if guard r
    then if leb (set r).generation i64_max && leb (set r).archive_attempts i64_max
      then done (record t { metadata = put row_key_order key (set r) t.metadata }) (some (set r))
      else failed (database statement_error)
    else done t none

unfoldable pub update :
    BucketId → (MetadataRow → Bool) → (MetadataRow → MetadataRow) → Body (Option MetadataRow)
update b guard set t = updated (row_key b) guard set t (get row_key_order (row_key b) t.metadata)

-- `state_from_metadata`, and the `ok_or` of its callers.
abbrev pub known_state : Option MetadataRow → Tables → Outcome BucketState
known_state none t = failed (store operation_failed)
known_state (some r) t = elim (metadata_state r) [ ok s ↦ done t s | err e ↦ failed (store e) ]

unfoldable pub state_from_metadata : BucketId → Body BucketState
state_from_metadata b t = known_state (get row_key_order (row_key b) t.metadata) t

abbrev pub in_bucket : RowKey → RecordRow → Bool
in_bucket key row =
    text_eq row.table_id key.0
    && text_eq row.partition_key key.1.0
    && text_eq row.bucket_key key.1.1

abbrev pub to_record : RecordRow → Record
to_record row = record {
  partition_key = row.partition_key;
  event_time = row.event_time;
  sort_key = row.sort_key;
  value = row.value;
}

-- The row of a record: its partition is that of the record, not that of the bucket.
abbrev pub to_row : BucketId → Record → RecordRow
to_row b r = record {
  table_id = b.table_id;
  partition_key = r.partition_key;
  bucket_key = b.key;
  event_time = r.event_time;
  sort_key = r.sort_key;
  value = r.value;
}

abbrev same_primary_key : RecordRow → RecordRow → Bool
same_primary_key a b =
    in_bucket (a.table_id, (a.partition_key, a.bucket_key)) b
    && a.event_time == b.event_time
    && text_eq a.sort_key b.sort_key

-- `INSERT INTO pulpitum_v4_records`, under its primary key and its foreign key.
-- The values are those that the driver sent.
unfoldable pub insert_record : BucketId → Record → Body (Unit {0})
insert_record b r t =
    if is_null (get row_key_order (b.table_id, (r.partition_key, b.key)) t.metadata)
      || any (same_primary_key (to_row b r)) t.records
    then failed (database statement_error)
    else done (record t { records = t.records ++ to_row b r ∷ [] }) tt
