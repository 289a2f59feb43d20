-- ===== src/Domain/Schema.antt =====
-- src/domain/schema.rs: table definitions, their validation, and the buckets of a time range and
-- of the write window. `none` is a panic of an `expect`.
pub mod Ranges
use pulpitum.Base.{
  ℕ, zero, suc, ◌+◌, ◌-◌, Bool, true, false, ◌&&◌, not, Option, none, some, List, [], ◌∷◌, ◌++◌,
  map, ltb, leb, ◌==◌, if◌then◌else◌, ◌>>=◌,
}
use mathlib.Core.List.{reverse}
use pulpitum.Base.Text.{Text, text_eq, is_blank, codes}
use pulpitum.Domain.Model.{
  BucketStrategy, calendar_year_utc, BucketId, Record, TableId, PartitionKey, TimeRange, DateTime,
}
use pulpitum.Domain.Calendar.{Chrono}
use pulpitum.Domain.Buckets.{for_event_time}

pub data SortDirection : Type 0 where
  ascending descending : SortDirection

pub record ClusteringColumn : Type 0 where
  pub field : Text
  pub direction : SortDirection

pub record TableDefinition : Type 0 where
  pub name : Text
  pub table_id : TableId
  pub partition_key : Text
  pub bucket_time_key : Text
  pub bucket_strategy : BucketStrategy
  pub clustering_key : List ClusteringColumn
  pub writable_buckets : ℕ

pub data DefinitionError : Type 0 where
  empty_name empty_table_id : DefinitionError
  unsupported_bucket_time_key : Text → DefinitionError
  unsupported_clustering_key invalid_write_window : DefinitionError

pub data Checked {ℓ} (A : Type ℓ) : Type ℓ where
  ok : A → Checked A
  err : DefinitionError → Checked A

-- `TableId::new`.
unfoldable pub table_id_new : Text → Checked TableId
table_id_new value = if is_blank value then err empty_table_id else ok value

abbrev pub column : Text → SortDirection → ClusteringColumn
column f d = record { field = f; direction = d }

abbrev pub required : List ClusteringColumn
required = column (codes "event_time") ascending ∷ column (codes "sort_key") ascending ∷ []

abbrev pub direction_eq : SortDirection → SortDirection → Bool
direction_eq ascending ascending = true
direction_eq descending descending = true
direction_eq _ _ = false

-- The derived `PartialEq` of columns, and that of lists of them.
abbrev pub columns_eq : List ClusteringColumn → List ClusteringColumn → Bool
columns_eq [] [] = true
columns_eq (c ∷ cs) (d ∷ ds) =
    (text_eq c.field d.field && direction_eq c.direction d.direction) && columns_eq cs ds
columns_eq _ _ = false

unfoldable pub validate : TableDefinition → Checked (Unit {0})
validate d =
    if is_blank d.name
    then err empty_name
    else if is_blank d.table_id
    then err empty_table_id
    else if not (text_eq d.bucket_time_key (codes "event_time"))
    then err (unsupported_bucket_time_key d.bucket_time_key)
    else if d.writable_buckets == 0
    then err invalid_write_window
    else if not (columns_eq d.clustering_key required)
    then err unsupported_clustering_key
    else ok tt

abbrev validated : TableDefinition → Checked (Unit {0}) → Checked TableDefinition
validated d (ok u) = ok d
validated d (err e) = err e

unfoldable pub new_with_bucket_strategy :
    Text
    → TableId
    → Text
    → Text
    → BucketStrategy
    → List ClusteringColumn
    → ℕ
    → Checked TableDefinition
new_with_bucket_strategy name table_id partition_key bucket_time_key strategy columns writable =
    let definition : TableDefinition = record {
      name = name;
      table_id = table_id;
      partition_key = partition_key;
      bucket_time_key = bucket_time_key;
      bucket_strategy = strategy;
      clustering_key = columns;
      writable_buckets = writable;
    } in
    validated definition (validate definition)

-- `TableDefinition::new`: the default strategy is the calendar year.
unfoldable pub new :
    Text → TableId → Text → Text → List ClusteringColumn → ℕ → Checked TableDefinition
unfolding new_with_bucket_strategy
new name table_id partition_key bucket_time_key columns writable =
    new_with_bucket_strategy name table_id partition_key bucket_time_key calendar_year_utc columns
      writable

-- `chat_messages`, before its `expect`.
unfoldable pub chat_messages : Text → TableId → Checked TableDefinition
unfolding new
chat_messages name table_id = new name table_id (codes "channel_id") (codes "event_time") required 2

module _ (c : Chrono) (d : TableDefinition) where
  unfoldable pub bucket_for_event_time : PartitionKey → DateTime → Option BucketId
  bucket_for_event_time partition_key event_time =
      for_event_time c d.table_id partition_key d.bucket_strategy event_time

  unfoldable pub bucket_for : Record → Option BucketId
  unfolding bucket_for_event_time
  bucket_for r = bucket_for_event_time r.partition_key r.event_time

  -- The `while bucket.start < range.end` of `buckets_for_range`, from a bucket on, with fuel.
  unfoldable pub walk_range : ℕ → PartitionKey → DateTime → BucketId → Option (List BucketId)
  walk_range zero p end bucket = none
  walk_range (suc fuel) p end bucket =
      let rest = bucket_for_event_time p bucket.end >>= walk_range fuel p end in
      if ltb bucket.start end then rest >>= (λ later. some (bucket ∷ later)) else some []

  -- Each round moves the bucket past an instant of the range: so many rounds are enough.
  unfoldable pub buckets_for_range : PartitionKey → TimeRange → Option (List BucketId)
  unfolding walk_range
  buckets_for_range p range =
      if leb range.end range.start
      then some []
      else bucket_for_event_time p range.start
        >>= walk_range (range.end - range.start + 2) p range.end

  -- The `for _ in 1..count` of `recent_buckets`: what it pushes after `bucket`, newest first.
  unfoldable pub walk_back : ℕ → PartitionKey → BucketId → Option (List BucketId)
  walk_back zero p bucket = some []
  walk_back (suc n) p bucket =
      let rest = bucket_for_event_time p (bucket.start - 1) >>= λ previous.
      walk_back n p previous >>= λ older. some (previous ∷ older) in
      if bucket.start == 0 then none else rest

  -- Oldest first, and last the bucket of the event time.
  unfoldable pub recent_buckets : PartitionKey → DateTime → ℕ → Option (List BucketId)
  unfolding walk_back
  recent_buckets p event_time zero = some []
  recent_buckets p event_time (suc n) = do
    bucket ← bucket_for_event_time p event_time
    older ← walk_back n p bucket
    some (reverse (bucket ∷ older))

  unfoldable pub writable_buckets_at : PartitionKey → DateTime → Option (List BucketId)
  unfolding recent_buckets
  writable_buckets_at p event_time = recent_buckets p event_time d.writable_buckets
