-- ===== src/Cockroach/Tables.antt =====
-- The tables of `V4_BASELINE_SQL` of src/adapters/cockroach_schema.rs and what
-- src/adapters/cockroach_durable.rs reads from a row of them. The metadata table is keyed by its
-- primary key; a column that may be NULL is an `Option`, and a comparison with NULL does not hold.
use pulpitum.Base.{
  ℕ, Bool, true, false, ◌&&◌, ◌||◌, not, Option, none, some, List, ltb, leb, if◌then◌else◌, Order,
  pair_order, Map,
}
use pulpitum.Base.Text.{Text, Bytes, text_order, text_eq, is_blank}
use pulpitum.Domain.Model.{
  BucketId, DateTime, Record, Cursor, TimeRange, as_str, from_str, StrategyResult, strategy,
  unsupported,
}
use pulpitum.Store.State.{BucketState, hot, archiving, archived, operation_failed, Result, ok, err}

-- The texts of the column `state`: the three of its CHECK, and any other.
pub data StateText : Type 0 where
  hot_text archiving_text archived_text : StateText
  other_text : Text → StateText

pub record MetadataRow : Type 0 where
  pub bucket_strategy : Text
  pub bucket_start : DateTime
  pub bucket_end : DateTime
  pub state : StateText
  pub generation : ℕ
  pub archive_owner_token : Option Text
  pub archive_owner_expires_at : Option DateTime
  pub archive_object_key : Option Text
  pub hot_deleted : Bool
  pub archive_attempts : ℕ
  pub archive_next_attempt_at : Option DateTime

-- (table_id, partition_key, bucket_key).
abbrev pub RowKey : Type 0
RowKey = Text × (Bytes × Text)

abbrev pub row_key_order : Order RowKey
row_key_order = pair_order text_order (pair_order text_order text_order)

abbrev pub row_key : BucketId → RowKey
row_key b = (b.table_id, (b.partition_key, b.key))

pub record RecordRow : Type 0 where
  pub table_id : Text
  pub partition_key : Bytes
  pub bucket_key : Text
  pub event_time : DateTime
  pub sort_key : Bytes
  pub value : Bytes

pub record Tables : Type 0 where
  pub metadata : Map RowKey MetadataRow
  pub records : List RecordRow

-- The CHECK constraints of the metadata table; the generation is a natural number.
abbrev pub is_null {ℓ} : {A : Type ℓ} → Option A → Bool
is_null none = true
is_null (some a) = false

abbrev pub invariants_of : StateText → MetadataRow → Bool
invariants_of hot_text r =
    is_null r.archive_owner_token
    && is_null r.archive_owner_expires_at
    && is_null r.archive_object_key
    && not r.hot_deleted
invariants_of archiving_text r =
    not (is_null r.archive_owner_token)
    && not (is_null r.archive_owner_expires_at)
    && is_null r.archive_object_key
    && not r.hot_deleted
invariants_of archived_text r =
    not (is_null r.archive_owner_token) && not (is_null r.archive_object_key)
invariants_of (other_text t) r = false

unfoldable pub passes_checks : MetadataRow → Bool
passes_checks r = ltb r.bucket_start r.bucket_end && invariants_of r.state r

-- `metadata_state`, on a row with the columns of the schema.
abbrev pub state_of_text : StateText → MetadataRow → Result BucketState
state_of_text hot_text r =
    if is_null r.archive_owner_token
      && is_null r.archive_owner_expires_at
      && is_null r.archive_object_key
      && not r.hot_deleted
    then ok hot
    else err operation_failed
state_of_text archiving_text r =
    if not (is_null r.archive_owner_token)
      && not (is_null r.archive_owner_expires_at)
      && is_null r.archive_object_key
      && not r.hot_deleted
    then ok archiving
    else err operation_failed
state_of_text archived_text r =
    if is_null r.archive_owner_token then err operation_failed else elim r.archive_object_key [
      | none ↦ err operation_failed
      | some key ↦ ok (archived key r.hot_deleted)
    ]
state_of_text (other_text t) r = err operation_failed

unfoldable pub metadata_state : MetadataRow → Result BucketState
metadata_state r = state_of_text r.state r

-- `bucket_from_row`: `TableId::new` and `BucketKey::new` refuse blank texts.
abbrev pub with_strategy : RowKey → MetadataRow → StrategyResult → Result BucketId
with_strategy key r (unsupported t) = err operation_failed
with_strategy key r (strategy s) =
    if is_blank key.1.1
    then err operation_failed
    else ok (record {
      table_id = key.0;
      partition_key = key.1.0;
      strategy = s;
      key = key.1.1;
      start = r.bucket_start;
      end = r.bucket_end;
    })

unfoldable pub bucket_from_row : RowKey × MetadataRow → Result BucketId
bucket_from_row (key, r) =
    if is_blank key.0
    then err operation_failed
    else with_strategy key r (from_str r.bucket_strategy)

-- `INSERT INTO pulpitum_v4_bucket_metadata`, with the defaults of the other columns.
unfoldable pub new_row : BucketId → MetadataRow
new_row b = record {
  bucket_strategy = as_str b.strategy;
  bucket_start = b.start;
  bucket_end = b.end;
  state = hot_text;
  generation = 0;
  archive_owner_token = none;
  archive_owner_expires_at = none;
  archive_object_key = none;
  hot_deleted = false;
  archive_attempts = 0;
  archive_next_attempt_at = none;
}

-- `at <= now()` and `at > now()`, which NULL does not satisfy.
abbrev pub is_past : Option DateTime → DateTime → Bool
is_past none now = false
is_past (some at) now = leb at now

abbrev pub is_future : Option DateTime → DateTime → Bool
is_future none now = false
is_future (some at) now = ltb now at

-- `at IS NULL OR at <= now()`.
abbrev pub is_due : Option DateTime → DateTime → Bool
is_due at now = is_null at || is_past at now

abbrev pub text_is : Option Text → Text → Bool
text_is none t = false
text_is (some o) t = text_eq o t

abbrev pub is_hot_text : StateText → Bool
is_hot_text hot_text = true
is_hot_text _ = false

abbrev pub is_archiving_text : StateText → Bool
is_archiving_text archiving_text = true
is_archiving_text _ = false

abbrev pub is_archived_text : StateText → Bool
is_archived_text archived_text = true
is_archived_text _ = false

-- `INT8`.
abbrev pub i64_max : ℕ
i64_max = 9223372036854775807

-- What the driver sends of an instant as a TIMESTAMPTZ, which has microseconds where the client has
-- nanoseconds; `sent` is that conversion.
module _ (sent : DateTime → DateTime) where
  abbrev pub sent_record : Record → Record
  sent_record r = record r { event_time = sent r.event_time }

  abbrev pub sent_range : TimeRange → TimeRange
  sent_range range = record { start = sent range.start; end = sent range.end }

  abbrev pub sent_cursor : Option Cursor → Option Cursor
  sent_cursor none = none
  sent_cursor (some c) = some (record c { event_time = sent c.event_time })
