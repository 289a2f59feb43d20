-- ===== src/Object/Columns.antt =====
-- The Parquet payloads of src/adapters/opendal_store.rs: records as columns and back. A batch of
-- the arrow crate is its schema, its number of rows and its columns by index; a cell that is null
-- is `none`. What the arrow and parquet crates do is a parameter.
use pulpitum.Base.{
  ℕ, zero, suc, ◌+◌, ◌-◌, Bool, true, false, ◌&&◌, ◌||◌, not, Option, none, some, List, [], ◌∷◌,
  ◌++◌, ltb, leb, if◌then◌else◌, length, map,
}
use pulpitum.Base.Int.{ℤ, pos, negsuc}
use pulpitum.Base.Text.{Text, Bytes, text_eq, codes}
use pulpitum.Domain.Model.{DateTime, Record}
use pulpitum.Archive.Port.{other, StoreResult, ok, err}
use pulpitum.Object.Port.{Answer}
use pulpitum.Object.Results.{◌>>=◌, ◌>>◌, refuse_if, map_err}

pub data DataType : Type 0 where
  binary other_type : DataType
  timestamp_nanosecond : Option Text → DataType

pub record Field : Type 0 where
  pub name : Text
  pub data_type : DataType
  pub nullable : Bool

pub data Column : Type 0 where
  binary_array : (ℕ → Option Bytes) → Column
  timestamp_array : (ℕ → Option ℤ) → Column
  other_array : Column

pub record Batch : Type 0 where
  pub fields : List Field
  pub num_rows : ℕ
  pub column : ℕ → Column

-- `RecordBatch::try_new`, `ZstdLevel::try_new`, an `ArrowWriter` from its creation to `close`, by
-- level and rows in a group, and a reader by rows in a batch, which may fail at each batch.
pub record Parquet : Type 0 where
  pub try_new : List Field → ℕ → (ℕ → Column) → Answer Batch
  pub zstd_level : ℕ → Answer ℕ
  pub write : ℕ → ℕ → Batch → Answer Bytes
  pub read : ℕ → Bytes → Answer (List (Answer Batch))

abbrev pub parquet_row_group_size : ℕ
parquet_row_group_size = 16384

abbrev pub parquet_read_batch_size : ℕ
parquet_read_batch_size = 1024

unfoldable pub archive_schema : List Field
archive_schema =
    record { name = codes "partition_key"; data_type = binary; nullable = false }
    ∷ record {
      name = codes "event_time";
      data_type = timestamp_nanosecond (some (codes "UTC"));
      nullable = false;
    }
    ∷ record { name = codes "sort_key"; data_type = binary; nullable = false }
    ∷ record { name = codes "value"; data_type = binary; nullable = false }
    ∷ []

-- The Unix epoch on the scale of `DateTime`, whose earliest instant is in the year -262143.
abbrev pub epoch : ℕ
epoch = 8334601228800000000000

abbrev pub i64_half : ℕ
i64_half = 9223372036854775808

-- `timestamp_nanos_opt`: the nanoseconds since the epoch, if an `i64` holds them.
unfoldable pub timestamp_nanos_opt : DateTime → Option ℤ
timestamp_nanos_opt t =
    if ltb t (epoch - i64_half) || leb (epoch + i64_half) t
    then none
    else if ltb t epoch
    then some (negsuc (epoch - t - 1))
    else some (pos (t - epoch))

-- `DateTime::from_timestamp_nanos`.
unfoldable pub from_timestamp_nanos : ℤ → DateTime
from_timestamp_nanos (pos n) = epoch + n
from_timestamp_nanos (negsuc n) = epoch - (n + 1)

abbrev with_time : Option ℤ → StoreResult (List ℤ) → StoreResult (List ℤ)
with_time none rest = err (other (codes "archive event time cannot be represented as nanoseconds"))
with_time (some t) (err e) = err e
with_time (some t) (ok times) = ok (t ∷ times)

unfoldable pub collect_event_times : List Record → StoreResult (List ℤ)
unfolding timestamp_nanos_opt
collect_event_times [] = ok []
collect_event_times (r ∷ rs) = with_time (timestamp_nanos_opt r.event_time) (collect_event_times rs)

unfoldable pub cell {ℓ} : {A : Type ℓ} → List A → ℕ → Option A
cell [] i = none
cell (a ∷ xs) zero = some a
cell (a ∷ xs) (suc i) = cell xs i

abbrev pub column_at : List Column → ℕ → Column
column_at [] i = other_array
column_at (c ∷ cs) zero = c
column_at (c ∷ cs) (suc i) = column_at cs i

unfoldable pub record_columns : List Record → List ℤ → ℕ → Column
unfolding cell
record_columns rs times = column_at (
    binary_array (cell (map (λ r. r.partition_key) rs))
    ∷ timestamp_array (cell times)
    ∷ binary_array (cell (map (λ r. r.sort_key) rs))
    ∷ binary_array (cell (map (λ r. r.value) rs))
    ∷ [])

abbrev option_text_eq : Option Text → Option Text → Bool
option_text_eq none none = true
option_text_eq (some a) (some b) = text_eq a b
option_text_eq _ _ = false

abbrev bool_eq : Bool → Bool → Bool
bool_eq true b = b
bool_eq false b = not b

-- Equality with a type of `archive_schema`, none of which is `other_type`.
abbrev data_type_eq : DataType → DataType → Bool
data_type_eq binary binary = true
data_type_eq (timestamp_nanosecond a) (timestamp_nanosecond b) = option_text_eq a b
data_type_eq _ _ = false

abbrev field_eq : Field → Field → Bool
field_eq a b =
    text_eq a.name b.name && data_type_eq a.data_type b.data_type && bool_eq a.nullable b.nullable

unfoldable pub fields_eq : List Field → List Field → Bool
fields_eq [] [] = true
fields_eq [] (b ∷ ys) = false
fields_eq (a ∷ xs) [] = false
fields_eq (a ∷ xs) (b ∷ ys) = field_eq a b && fields_eq xs ys

-- `as_any().downcast_ref()`.
abbrev as_binary : Text → Column → StoreResult (ℕ → Option Bytes)
as_binary message (binary_array f) = ok f
as_binary message (timestamp_array f) = err (other message)
as_binary message other_array = err (other message)

abbrev as_timestamp : Text → Column → StoreResult (ℕ → Option ℤ)
as_timestamp message (timestamp_array f) = ok f
as_timestamp message (binary_array f) = err (other message)
as_timestamp message other_array = err (other message)

-- One turn of the loop over the rows: no cell may be null.
abbrev row_record : Option Bytes → Option ℤ → Option Bytes → Option Bytes → StoreResult Record
row_record (some p) (some t) (some s) (some v) =
    ok (record { partition_key = p; event_time = from_timestamp_nanos t; sort_key = s; value = v })
row_record _ _ _ _ = err (other (codes "archive parquet contains null record fields"))

unfoldable pub read_rows :
    (ℕ → Option Bytes)
    → (ℕ → Option ℤ)
    → (ℕ → Option Bytes)
    → (ℕ → Option Bytes)
    → ℕ
    → ℕ
    → StoreResult (List Record)
unfolding from_timestamp_nanos
read_rows p t s v row zero = ok []
read_rows p t s v row (suc left) = do
  r ← row_record (p row) (t row) (s row) (v row)
  rest ← read_rows p t s v (row + 1) left
  ok (r ∷ rest)

unfoldable pub records_from_batch : Batch → StoreResult (List Record)
unfolding fields_eq read_rows archive_schema
records_from_batch batch = do
  refuse_if (not (fields_eq batch.fields archive_schema)) (
      codes
        "archive parquet schema is unsupported; expected partition_key Binary, event_time Timestamp(ns UTC), sort_key Binary, value Binary")
  p ← as_binary (codes "archive parquet partition key column is invalid") (batch.column 0)
  t ← as_timestamp (codes "archive parquet event time column is invalid") (batch.column 1)
  s ← as_binary (codes "archive parquet sort key column is invalid") (batch.column 2)
  v ← as_binary (codes "archive parquet value column is invalid") (batch.column 3)
  read_rows p t s v 0 batch.num_rows

-- The loop over the batches of a reader.
unfoldable pub collect_batches : List (Answer Batch) → StoreResult (List Record)
unfolding records_from_batch
collect_batches [] = ok []
collect_batches (next ∷ reader) = do
  batch ← map_err (codes "archive parquet deserialization: ") next
  records ← records_from_batch batch
  rest ← collect_batches reader
  ok (records ++ rest)

module _ (library : Parquet) where
  unfoldable pub serialize_parquet : List Record → StoreResult Bytes
  unfolding collect_event_times record_columns archive_schema
  serialize_parquet records = do
    event_times ← collect_event_times records
    batch ←
        map_err (codes "archive parquet serialization: ")
          (library.try_new archive_schema (length records) (record_columns records event_times))
    level ← map_err (codes "archive parquet compression: ") (library.zstd_level 3)
    map_err (codes "archive parquet serialization: ")
        (library.write level parquet_row_group_size batch)

  unfoldable pub deserialize_parquet : Bytes → StoreResult (List Record)
  unfolding collect_batches
  deserialize_parquet body = do
    reader ←
        map_err (codes "archive parquet deserialization: ")
          (library.read parquet_read_batch_size body)
    collect_batches reader
