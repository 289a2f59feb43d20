-- ===== src/Domain/Model.antt =====
-- src/domain/model.rs: keys, records, cursors, time ranges, bucket identities and strategies.
-- A `DateTime<Utc>` is the number of nanoseconds since the earliest instant of the type.
use pulpitum.Base.{
  ℕ, ◌≡◌, Bool, true, ◌&&◌, Option, none, some, arith, ltb, leb, if◌then◌else◌, Order, nat_order,
  pair_order, order_by, less,
}
use pulpitum.Base.Text.{Text, Bytes, text_order, text_eq, is_blank, codes}

abbrev pub DateTime : Type 0
DateTime = ℕ

-- The newtypes over `Vec<u8>` and `String`: their derived `Eq` and `Ord` are those of the content.
abbrev pub PartitionKey : Type 0
PartitionKey = Bytes

abbrev pub SortKey : Type 0
SortKey = Bytes

abbrev pub TableId : Type 0
TableId = Text

abbrev pub BucketKey : Type 0
BucketKey = Text

pub data BucketKeyError : Type 0 where
  empty : BucketKeyError

pub data KeyResult : Type 0 where
  ok : BucketKey → KeyResult
  err : BucketKeyError → KeyResult

-- `BucketKey::new`.
unfoldable pub bucket_key_new : Text → KeyResult
bucket_key_new value = if is_blank value then err empty else ok value

pub data BucketStrategy : Type 0 where
  calendar_year_utc calendar_month_utc calendar_day_utc : BucketStrategy

unfoldable pub as_str : BucketStrategy → Text
as_str calendar_year_utc = codes "calendar_year_utc"
as_str calendar_month_utc = codes "calendar_month_utc"
as_str calendar_day_utc = codes "calendar_day_utc"

pub data StrategyResult : Type 0 where
  strategy : BucketStrategy → StrategyResult
  unsupported : Text → StrategyResult

-- `BucketStrategy::from_str`.
unfoldable pub from_str : Text → StrategyResult
from_str value =
    if text_eq value (codes "calendar_year_utc")
    then strategy calendar_year_utc
    else if text_eq value (codes "calendar_month_utc")
    then strategy calendar_month_utc
    else if text_eq value (codes "calendar_day_utc")
    then strategy calendar_day_utc
    else unsupported value

abbrev pub strategy_index : BucketStrategy → ℕ
strategy_index calendar_year_utc = 0
strategy_index calendar_month_utc = 1
strategy_index calendar_day_utc = 2

pub strategy_index-injective : (a b : BucketStrategy) → strategy_index a ≡ strategy_index b → a ≡ b
strategy_index-injective a b h = ground arith

-- The derived `Ord`: the order of declaration.
abbrev pub strategy_order : Order BucketStrategy
strategy_order = order_by strategy_index strategy_index-injective nat_order

pub record BucketId : Type 0 where
  pub table_id : TableId
  pub partition_key : PartitionKey
  pub strategy : BucketStrategy
  pub key : BucketKey
  pub start : DateTime
  pub end : DateTime

abbrev pub bucket_fields : BucketId → Text × (Bytes × (BucketStrategy × (Text × (ℕ × ℕ))))
bucket_fields b = (b.table_id, (b.partition_key, (b.strategy, (b.key, (b.start, b.end)))))

pub bucket_fields-injective : (a b : BucketId) → bucket_fields a ≡ bucket_fields b → a ≡ b
bucket_fields-injective a b h = ground arith

-- The derived `Ord` and `Eq`: field by field, in the order of declaration.
unfoldable pub bucket_order : Order BucketId
bucket_order = order_by bucket_fields bucket_fields-injective (
    pair_order text_order (
      pair_order text_order
        (pair_order strategy_order (pair_order text_order (pair_order nat_order nat_order)))))

-- `BucketId::contains` and `TimeRange::contains`: the end is exclusive.
unfoldable pub contains : BucketId → DateTime → Bool
contains b event_time = leb b.start event_time && ltb event_time b.end

pub record Record : Type 0 where
  pub partition_key : PartitionKey
  pub event_time : DateTime
  pub sort_key : SortKey
  pub value : Bytes

pub record Cursor : Type 0 where
  pub event_time : DateTime
  pub sort_key : SortKey

-- `Cursor::from`.
unfoldable pub cursor_of : Record → Cursor
cursor_of r = record { event_time = r.event_time; sort_key = r.sort_key }

pub record TimeRange : Type 0 where
  pub start : DateTime
  pub end : DateTime

unfoldable pub range_contains : TimeRange → DateTime → Bool
range_contains range timestamp = leb range.start timestamp && ltb timestamp range.end

-- The clustering key `(event_time, sort_key)`, and its order: that of the pair.
abbrev pub ClusteringKey : Type 0
ClusteringKey = DateTime × SortKey

unfoldable pub key_order : Order ClusteringKey
key_order = pair_order nat_order text_order

abbrev pub record_key : Record → ClusteringKey
record_key r = (r.event_time, r.sort_key)

abbrev pub cursor_key : Cursor → ClusteringKey
cursor_key c = (c.event_time, c.sort_key)

-- `after.is_none_or(|cursor| (event_time, sort_key) > cursor)`.
unfoldable pub is_after : Option Cursor → Record → Bool
is_after none r = true
is_after (some c) r = less key_order (cursor_key c) (record_key r)
