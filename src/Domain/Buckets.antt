-- ===== src/Domain/Buckets.antt =====
-- `BucketStrategy::{bucket_key, bucket_bounds}` and `BucketId::for_event_time_with_strategy` of
-- src/domain/model.rs. `none` is a panic of an `expect`.
pub mod Dates
pub mod Bounds
use pulpitum.Base.{ℕ, ◌++◌, Option, none, some, ◌>>=◌}
use pulpitum.Base.Text.{Text, codes, pad, pad_int, decimal}
use pulpitum.Base.Int.{ℤ}
use pulpitum.Domain.Model.{
  BucketStrategy, calendar_year_utc, calendar_month_utc, calendar_day_utc, BucketId, BucketKey,
  PartitionKey, TableId, DateTime, KeyResult, bucket_key_new,
}
use pulpitum.Domain.Calendar.{Chrono, Date}

abbrev key_or_panic : KeyResult → Option BucketKey
key_or_panic (KeyResult.ok key) = some key
key_or_panic (KeyResult.err e) = none

-- The canonical key, as text.
unfoldable pub key_text : BucketStrategy → Date → Text
unfolding pad pad_int decimal
key_text calendar_year_utc d = codes "year:" ++ pad_int 4 d.year
key_text calendar_month_utc d =
    codes "month:" ++ (pad_int 4 d.year ++ (codes "-" ++ pad 2 (decimal d.month)))
key_text calendar_day_utc d =
    codes "day:"
    ++ (pad_int 4 d.year
        ++ (codes "-" ++ (pad 2 (decimal d.month) ++ (codes "-" ++ pad 2 (decimal d.day)))))

module _ (c : Chrono) where
  open c use {date, midnight, checked_add_months, checked_add_days}

  unfoldable pub bucket_key : BucketStrategy → DateTime → Option BucketKey
  bucket_key s event_time = key_or_panic (bucket_key_new (key_text s (date event_time)))

  unfoldable pub utc_date : ℤ → ℕ → ℕ → Option DateTime
  utc_date year month day = midnight (record { year = year; month = month; day = day })

  -- The `start` of `bucket_bounds`.
  unfoldable pub bucket_start : BucketStrategy → Date → Option DateTime
  unfolding utc_date
  bucket_start calendar_year_utc d = utc_date d.year 1 1
  bucket_start calendar_month_utc d = utc_date d.year d.month 1
  bucket_start calendar_day_utc d = utc_date d.year d.month d.day

  -- The `end` of `bucket_bounds`, from its `start`.
  unfoldable pub bucket_end : BucketStrategy → DateTime → Option DateTime
  bucket_end calendar_year_utc start = checked_add_months start 12
  bucket_end calendar_month_utc start = checked_add_months start 1
  bucket_end calendar_day_utc start = checked_add_days start 1

  unfoldable pub date_bounds : BucketStrategy → Date → Option (DateTime × DateTime)
  unfolding bucket_start bucket_end
  date_bounds s d = do start ← bucket_start s d; end ← bucket_end s start; some (start, end)

  unfoldable pub bucket_bounds : BucketStrategy → DateTime → Option (DateTime × DateTime)
  bucket_bounds s event_time = date_bounds s (date event_time)

  unfoldable pub for_event_time :
      TableId → PartitionKey → BucketStrategy → DateTime → Option BucketId
  for_event_time table_id partition_key s event_time = do
    (start, end) ← bucket_bounds s event_time
    key ← bucket_key s event_time
    some (record {
      table_id = table_id;
      partition_key = partition_key;
      strategy = s;
      key = key;
      start = start;
      end = end;
    })
