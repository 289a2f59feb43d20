-- ===== src/Tests/Tables.antt =====
-- Buckets, writes and queries of a table by days, under the test calendar.
use mathlib.Core.List.{Mem}
use pulpitum.Base.{
  ℕ, ◌≡◌, ◌≤◌, ◌<◌, refl, sym, subst, inl, inr, Option, List, [], ◌∷◌, All, length, arith, none,
  some, true, if◌then◌else◌, ◌==◌, flat, sort_by,
}
use pulpitum.Domain.Model.{
  BucketId, Record, DateTime, calendar_day_utc, contains, TimeRange, key_order, record_key,
}
use pulpitum.Domain.Buckets.{for_event_time}
use pulpitum.Domain.Buckets.Bounds.{for_event_time-contains, for_event_time_canonical}
use pulpitum.Domain.Schema.{buckets_for_range, bucket_for, writable_buckets_at}
use pulpitum.Domain.Schema.Ranges.{
  Derives, Tiles, buckets_for_range-Tiles, Representable, buckets_for_range_total,
}
use pulpitum.Store.State.{hot}
use pulpitum.Store.Memory.{Store, entry_of}
use pulpitum.Archive.Port.{Belongs}
use pulpitum.Archive.Memory.{in_memory, Objects}
use pulpitum.Archive.Coordinator.{World, archive_bucket}
use pulpitum.Table.Read.{TableResult}
use pulpitum.Table.Join.{read_buckets}
use pulpitum.Table.Join.Order.{IsSteady, Separated, Serves, read_buckets-sort}
use pulpitum.Table.Query.{Query, QueryPage, page_capacity, query_page}
use pulpitum.Table.Query.Page.{IsPage, selected, block, IsBucket, query_page_ok}
use pulpitum.Table.Query.Quiet.{Stores, ReadsOnly, IsQuiet, Serves-All, query_page_quiet}
use pulpitum.Table.Append
use pulpitum.Table.Append.{ends, append_ok}
use pulpitum.Tests.Almanac.{almanac, almanac-IsCalendar}
use pulpitum.Tests.Samples.{
  partition, day_table, first_day, second_day, record_at, lease, calls, empty_world, written_store,
  alone, object_key,
}

first_derived :
    for_event_time almanac day_table.table_id partition calendar_day_utc 5 ≡ some first_day
unfolding pulpitum.Domain.Schema.buckets_for_range pulpitum.Domain.Schema.walk_range
    pulpitum.Domain.Schema.bucket_for_event_time pulpitum.Domain.Schema.bucket_for
    pulpitum.Domain.Buckets.for_event_time pulpitum.Domain.Buckets.bucket_bounds
    pulpitum.Domain.Buckets.date_bounds pulpitum.Domain.Buckets.bucket_start
    pulpitum.Domain.Buckets.bucket_end pulpitum.Domain.Buckets.utc_date
    pulpitum.Domain.Buckets.bucket_key pulpitum.Domain.Buckets.key_text
    pulpitum.Domain.Model.bucket_key_new pulpitum.Base.Text.pad pulpitum.Base.Text.pad_int
    pulpitum.Base.Text.decimal pulpitum.Base.Text.is_blank
first_derived = refl

in_first_day : contains first_day 7 ≡ true
unfolding pulpitum.Domain.Model.contains
in_first_day = refl

for_event_time-contains_example : contains first_day 5 ≡ true
for_event_time-contains_example =
    for_event_time-contains almanac almanac-IsCalendar day_table.table_id partition calendar_day_utc
      5 first_day first_derived

for_event_time_canonical_example :
    for_event_time almanac day_table.table_id partition calendar_day_utc 7 ≡ some first_day
for_event_time_canonical_example =
    for_event_time_canonical almanac almanac-IsCalendar day_table.table_id partition
      calendar_day_utc 5 7 first_day first_derived in_first_day

abbrev two_days : TimeRange
two_days = record { start = 3; end = 40 }

abbrev days : List BucketId
days = first_day ∷ second_day ∷ []

listed : buckets_for_range almanac day_table partition two_days ≡ some days
unfolding pulpitum.Domain.Schema.buckets_for_range pulpitum.Domain.Schema.walk_range
    pulpitum.Domain.Schema.bucket_for_event_time pulpitum.Domain.Schema.bucket_for
    pulpitum.Domain.Buckets.for_event_time pulpitum.Domain.Buckets.bucket_bounds
    pulpitum.Domain.Buckets.date_bounds pulpitum.Domain.Buckets.bucket_start
    pulpitum.Domain.Buckets.bucket_end pulpitum.Domain.Buckets.utc_date
    pulpitum.Domain.Buckets.bucket_key pulpitum.Domain.Buckets.key_text
    pulpitum.Domain.Model.bucket_key_new pulpitum.Base.Text.pad pulpitum.Base.Text.pad_int
    pulpitum.Base.Text.decimal pulpitum.Base.Text.is_blank
listed = refl

forward : two_days.start < two_days.end
forward = omega arith

buckets_for_range-Tiles_example :
    (first : BucketId) × Derives almanac almanac-IsCalendar day_table partition 3 first
    × Tiles almanac almanac-IsCalendar day_table partition first.start 40 days
buckets_for_range-Tiles_example =
    buckets_for_range-Tiles almanac almanac-IsCalendar day_table partition two_days days forward
      listed

abbrev first_tick : TimeRange
first_tick = record { start = 0; end = 1 }

representable : Representable almanac almanac-IsCalendar day_table partition 1
unfolding pulpitum.Domain.Schema.buckets_for_range pulpitum.Domain.Schema.walk_range
    pulpitum.Domain.Schema.bucket_for_event_time pulpitum.Domain.Schema.bucket_for
    pulpitum.Domain.Buckets.for_event_time pulpitum.Domain.Buckets.bucket_bounds
    pulpitum.Domain.Buckets.date_bounds pulpitum.Domain.Buckets.bucket_start
    pulpitum.Domain.Buckets.bucket_end pulpitum.Domain.Buckets.utc_date
    pulpitum.Domain.Buckets.bucket_key pulpitum.Domain.Buckets.key_text
    pulpitum.Domain.Model.bucket_key_new pulpitum.Base.Text.pad pulpitum.Base.Text.pad_int
    pulpitum.Base.Text.decimal pulpitum.Base.Text.is_blank
representable t h =
    let e : 0 ≡ t = omega arith in
    subst
      (λ u.
        (b : BucketId) × (b' : BucketId) × Derives almanac almanac-IsCalendar day_table partition u
          b
        × Derives almanac almanac-IsCalendar day_table partition b.end b')
      e (first_day, second_day, refl, refl)

buckets_for_range_total_example :
    (bs : List BucketId) × (buckets_for_range almanac day_table partition first_tick ≡ some bs)
buckets_for_range_total_example =
    buckets_for_range_total almanac almanac-IsCalendar day_table partition first_tick representable

-- The first day's cutover has ended, and the second day takes writes.
abbrev world : World Objects
world = (archive_bucket in_memory calls first_day lease empty_world).0

-- What the buckets hold.
abbrev content : BucketId → List Record
content b =
    if b.start == 0
    then record_at 5 ∷ record_at 7 ∷ []
    else if b.start == 24
    then record_at 30 ∷ []
    else []

abbrev two_records : Query
two_records = record { partition_key = partition; range = two_days; after = none; limit = 2 }

in_order : All (IsBucket two_records content) days
unfolding pulpitum.Base.cmp_list pulpitum.Domain.Model.key_order
    pulpitum.Domain.Model.range_contains pulpitum.Domain.Model.is_after pulpitum.Store.Memory.select
    pulpitum.Table.Query.page_capacity
in_order = (
  record {
    sorted = ((refl, tt), (tt, tt));
    timed = ((omega arith, omega arith), ((omega arith, omega arith), tt));
  },
  (record { sorted = (tt, tt); timed = ((omega arith, omega arith), tt) }, tt),
)

stored : All (Stores in_memory content world) days
unfolding pulpitum.Base.get pulpitum.Base.put pulpitum.Base.cmp_list pulpitum.Base.sort_by
    pulpitum.Domain.Model.bucket_order pulpitum.Domain.Model.key_order
    pulpitum.Domain.Model.contains pulpitum.Store.History.run pulpitum.Store.History.apply
    pulpitum.Store.Memory.append pulpitum.Store.Memory.on_entry pulpitum.Store.Memory.append_entry
    pulpitum.Store.Memory.on_existing pulpitum.Store.Memory.begin_archive
    pulpitum.Store.Memory.begin_entry pulpitum.Store.State.lease_deadline
    pulpitum.Store.State.next_generation pulpitum.Store.Memory.snapshot
    pulpitum.Store.State.validate_archive_session pulpitum.Store.State.validate_active_session
    pulpitum.Store.State.lease_expired pulpitum.Store.State.attempt_due
    pulpitum.Store.Memory.publish_archive pulpitum.Store.Memory.publish_entry
    pulpitum.Store.Memory.delete_hot_bucket pulpitum.Store.Memory.delete_entry
    pulpitum.Store.Memory.renew_archive_lease pulpitum.Store.Memory.renew_entry
    pulpitum.Archive.Coordinator.archive_bucket pulpitum.Archive.Coordinator.archive_claimed_bucket
    pulpitum.Archive.Coordinator.upload_snapshot pulpitum.Archive.Coordinator.publish_uploaded
    pulpitum.Archive.Coordinator.delete_published pulpitum.Archive.Memory.put_bucket_generation
    pulpitum.Archive.Memory.generation_path pulpitum.Archive.Memory.partition_key_path_component
    pulpitum.Base.Text.decimal pulpitum.Archive.Memory.get_bucket pulpitum.Archive.Port.belongs
stored = (inr (object_key, true, refl, refl), (inl (inl refl, refl), tt))

room : length (flat (selected two_records content) days) ≤ 18446744073709551615
unfolding pulpitum.Base.cmp_list pulpitum.Domain.Model.key_order
    pulpitum.Domain.Model.range_contains pulpitum.Domain.Model.is_after pulpitum.Store.Memory.select
    pulpitum.Table.Query.page_capacity
room = omega arith

reads_only : ReadsOnly in_memory content
unfolding pulpitum.Archive.Memory.get_bucket
reads_only b key o = refl

quiet : IsQuiet in_memory content alone
quiet = record { alone = λ n. refl; sound = λ n. refl }

query_page_quiet_example :
    (w' : World Objects) × (page : QueryPage) × (query_page in_memory almanac day_table alone
        two_records world
      ≡ some (w', TableResult.ok page))
    × IsPage 2 (flat (selected two_records content) days) page
query_page_quiet_example =
    query_page_quiet in_memory almanac almanac-IsCalendar day_table alone two_records content days
      world forward (omega arith) (omega arith) listed in_order stored room reads_only quiet

steady : IsSteady in_memory two_days none 3 alone (λ w. w ≡ world)
unfolding pulpitum.Store.History.run
steady = record { sound = λ n. refl; keeps = λ n w e. e }

capacity : page_capacity 2 ≡ 3
unfolding pulpitum.Table.Query.page_capacity
capacity = refl

steady_page : IsSteady in_memory two_days none (page_capacity 2) alone (λ w. w ≡ world)
steady_page =
    subst (λ n. IsSteady in_memory two_days none n alone (λ w. w ≡ world)) (sym capacity) steady

serves :
    All
      (Serves in_memory two_days none
        (page_capacity 2)
        alone
        (λ w. w ≡ world)
        (block two_records content))
      days
serves = Serves-All in_memory content two_records alone days world reads_only in_order stored

query_page_ok_example :
    (w' : World Objects) × (page : QueryPage) × (query_page in_memory almanac day_table alone
        two_records world
      ≡ some (w', TableResult.ok page))
    × IsPage 2 (flat (selected two_records content) days) page
query_page_ok_example =
    query_page_ok in_memory almanac almanac-IsCalendar day_table alone two_records content
      (λ w. w ≡ world) days world forward (omega arith) (omega arith) listed in_order room
      steady_page serves refl

separated : All (Separated (block two_records content) first_day) (second_day ∷ [])
unfolding pulpitum.Base.cmp_list pulpitum.Domain.Model.key_order
    pulpitum.Domain.Model.range_contains pulpitum.Domain.Model.is_after pulpitum.Store.Memory.select
    pulpitum.Table.Query.page_capacity
separated = (((refl, tt), ((refl, tt), tt)), tt)

read_buckets-sort_example :
    (rs : List Record) × ((read_buckets in_memory two_days none
        (page_capacity 2)
        alone
        days
        world).1
      ≡ TableResult.ok rs)
    × (sort_by key_order record_key rs
        ≡ sort_by key_order record_key (flat (block two_records content) days))
read_buckets-sort_example =
    read_buckets-sort in_memory two_days none (page_capacity 2) alone (λ w. w ≡ world)
      (block two_records content) steady_page days world (separated, (tt, tt)) serves refl

abbrev after_append : Store
after_append = (pulpitum.Store.Memory.append first_day (record_at 3) written_store).0

appends :
    Append.append almanac day_table 30 (record_at 3) written_store
    ≡ some (after_append, TableResult.ok tt)
unfolding pulpitum.Base.get pulpitum.Base.put pulpitum.Base.cmp_list pulpitum.Base.sort_by
    pulpitum.Domain.Model.bucket_order pulpitum.Domain.Model.key_order
    pulpitum.Domain.Model.contains pulpitum.Store.History.run pulpitum.Store.History.apply
    pulpitum.Store.Memory.append pulpitum.Store.Memory.on_entry pulpitum.Store.Memory.append_entry
    pulpitum.Store.Memory.on_existing pulpitum.Store.Memory.begin_archive
    pulpitum.Store.Memory.begin_entry pulpitum.Store.State.lease_deadline
    pulpitum.Store.State.next_generation pulpitum.Store.Memory.snapshot
    pulpitum.Store.State.validate_archive_session pulpitum.Store.State.validate_active_session
    pulpitum.Store.State.lease_expired pulpitum.Store.State.attempt_due
    pulpitum.Store.Memory.publish_archive pulpitum.Store.Memory.publish_entry
    pulpitum.Store.Memory.delete_hot_bucket pulpitum.Store.Memory.delete_entry
    pulpitum.Store.Memory.renew_archive_lease pulpitum.Store.Memory.renew_entry
    pulpitum.Domain.Schema.bucket_for_event_time pulpitum.Domain.Schema.bucket_for
    pulpitum.Domain.Buckets.for_event_time pulpitum.Domain.Buckets.bucket_bounds
    pulpitum.Domain.Buckets.date_bounds pulpitum.Domain.Buckets.bucket_start
    pulpitum.Domain.Buckets.bucket_end pulpitum.Domain.Buckets.utc_date
    pulpitum.Domain.Buckets.bucket_key pulpitum.Domain.Buckets.key_text
    pulpitum.Domain.Model.bucket_key_new pulpitum.Base.Text.pad pulpitum.Base.Text.pad_int
    pulpitum.Base.Text.decimal pulpitum.Base.Text.is_blank pulpitum.Table.Append.append
    pulpitum.Table.Append.is_writable pulpitum.Domain.Schema.writable_buckets_at
    pulpitum.Domain.Schema.recent_buckets pulpitum.Domain.Schema.walk_back
appends = refl

append_ok_example :
    (b : BucketId) × (writable : List BucketId) × (window : BucketId × BucketId) × (bucket_for
        almanac day_table
        (record_at 3)
      ≡ some b)
    × (writable_buckets_at almanac day_table b.partition_key 30 ≡ some writable)
    × (ends writable ≡ some window)
    × (window.0.start ≤ b.start)
    × (b.start ≤ window.1.start)
    × Belongs b (record_at 3)
    × ((entry_of b written_store).state ≡ hot)
    × Mem (record_at 3) (entry_of b after_append).records
append_ok_example =
    append_ok almanac almanac-IsCalendar day_table 30 (record_at 3) written_store after_append
      appends
