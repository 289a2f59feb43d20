-- ===== src/Table/Query.antt =====
-- `Query`, `QueryPage`, `query_page` and `query` of src/application/durable_table.rs. `none` is a
-- panic of the bucket derivation. The schedule says how the reads of the buckets interleave.
pub mod Page
pub mod Quiet
use pulpitum.Base.{
  ℕ, ◌+◌, ◌≡◌, Bool, Option, none, some, List, [], ◌∷◌, length, take, sort_by, ltb, leb, ◌==◌,
  if◌then◌else◌, ◌>>=◌, min,
}
use pulpitum.Domain.Model.{
  PartitionKey, Record, Cursor, TimeRange, cursor_of, key_order, record_key,
}
use pulpitum.Domain.Calendar.{Chrono}
use pulpitum.Domain.Schema.{TableDefinition, buckets_for_range}
use pulpitum.Archive.Port.{ArchiveStore}
use pulpitum.Archive.Coordinator.{World}
use pulpitum.Table.Read.{DurableTableError, invalid_time_range, TableResult, ok, err}
use pulpitum.Table.Join.{Join, read_buckets}

pub record Query : Type 0 where
  pub partition_key : PartitionKey
  pub range : TimeRange
  pub after : Option Cursor
  pub limit : ℕ

pub record QueryPage : Type 0 where
  pub records : List Record
  pub next : Option Cursor

-- `usize::MAX` on a 64-bit target.
abbrev pub usize_max : ℕ
usize_max = 18446744073709551615

-- `limit.saturating_add(1)`.
unfoldable pub page_capacity : ℕ → ℕ
page_capacity limit = min (limit + 1) usize_max

abbrev pub last_cursor : List Record → Option Cursor
last_cursor [] = none
last_cursor (r ∷ []) = some (cursor_of r)
last_cursor (r ∷ s ∷ rs) = last_cursor (s ∷ rs)

-- The page of a sorted result: cut, and with a cursor if there is more.
abbrev pub page_of : ℕ → List Record → QueryPage
page_of limit sorted = record {
  records = take limit sorted;
  next = if ltb limit (length sorted) then last_cursor (take limit sorted) else none;
}

abbrev pub paged : ℕ → TableResult (List Record) → TableResult QueryPage
paged limit (err e) = err e
paged limit (ok result) = ok (page_of limit (sort_by key_order record_key result))

abbrev pub run_page :
    {W : Type 0} → Query → World W × TableResult (List Record) → World W × TableResult QueryPage
run_page q (w, result) = (w, paged q.limit result)

module _ {W : Type 0} (archive : ArchiveStore W) (c : Chrono) (d : TableDefinition) where
  unfoldable pub query_page :
      (ℕ → Join) → Query → World W → Option (World W × TableResult QueryPage)
  unfolding page_capacity
  query_page schedule q w =
      if leb q.range.end q.range.start
      then some (w, err invalid_time_range)
      else if q.limit == 0
      then some (w, ok (record { records = []; next = q.after }))
      else buckets_for_range c d q.partition_key q.range >>= λ buckets. some (
          run_page q
            (read_buckets archive q.range q.after (page_capacity q.limit) schedule buckets w))

  abbrev pub records_of : TableResult QueryPage → TableResult (List Record)
  records_of (err e) = err e
  records_of (ok page) = ok page.records

  -- `query`: one page without a cursor or a bound.
  unfoldable pub query :
      (ℕ → Join) → PartitionKey → TimeRange → World W → Option (World W × TableResult (List Record))
  unfolding query_page
  query schedule p range w =
      query_page schedule
        (record { partition_key = p; range = range; after = none; limit = usize_max }) w
      >>= λ out. some (out.0, records_of out.1)
