-- ===== src/Tests/Databases.antt =====
-- The database: transactions on the bucket of the first day, a lost commit, a cached route.
use pulpitum.Base.{
  ℕ, ◌+◌, ◌≤◌, ◌≡◌, refl, inl, Bool, zero, suc, true, false, Option, none, some, List, [], ◌∷◌,
  arith, All, length, get,
}
use pulpitum.Base.Text.{codes}
use pulpitum.Domain.Model.{BucketId, Record, TimeRange}
use pulpitum.Store.State.{ok, archive_key}
use pulpitum.Store.Fencing.{RoutesTo}
use pulpitum.Cockroach.Tables.{
  hot_text, MetadataRow, row_key, row_key_order, Tables, passes_checks, metadata_state,
}
use pulpitum.Cockroach.Statements.{serialization_failure}
use pulpitum.Cockroach.Bodies.{append_body}
use pulpitum.Cockroach.Transaction.{
  Attempt, begun, undisturbed, commit_refused, commit_lost, transaction,
}
use pulpitum.Cockroach.Atomic.{Effect, transaction-Effect}
use pulpitum.Cockroach.Backoff.{IsBackoff, transaction-IsBackoff}
use pulpitum.Cockroach.Operations.{
  Client, cache_archive_at, route_cache_max_entries, archived_route,
}
use pulpitum.Cockroach.Reads.{ReadCall, read_range}
use pulpitum.Cockroach.Entries.{Steps, entry_at, route_state}
use pulpitum.Cockroach.History.{
  Commit, appends, begins, publishes, apply, apply-Steps, run, run-RoutesTo,
}
use pulpitum.Cockroach.Checks.{IsChecked, run-metadata_state}
use pulpitum.Cockroach.Sound.{Event, commits, reads, play}
use pulpitum.Cockroach.RouteBound.{cache_archive_at-le}
use pulpitum.Tests.Samples.{first_day, record_at, whole_day, session, object_key}

abbrev no_tables : Tables
no_tables = record { metadata = []; records = [] }

-- The first attempt meets a conflict at its commit; the response to the second is lost.
abbrev attempt : ℕ → Attempt
attempt k = record {
  connects = true;
  others = λ t. t;
  begin = begun;
  interruption = undisturbed;
  commit = elim k [ zero ↦ commit_refused serialization_failure | suc n ↦ commit_lost true ];
  rolls_back = true;
  sample = 513;
}

transaction-Effect_example :
    Effect
      (append_body first_day (record_at 5))
      attempt
      0
      no_tables
      (transaction (append_body first_day (record_at 5)) attempt no_tables).tables
      (transaction (append_body first_day (record_at 5)) attempt no_tables).result
transaction-Effect_example =
    transaction-Effect (append_body first_day (record_at 5)) attempt no_tables

transaction-IsBackoff_example :
    (length (transaction (append_body first_day (record_at 5)) attempt no_tables).checkouts ≤ 5)
    × (length (transaction (append_body first_day (record_at 5)) attempt no_tables).delays ≤ 4)
    × (length (transaction (append_body first_day (record_at 5)) attempt no_tables).checkouts
        ≤ length (transaction (append_body first_day (record_at 5)) attempt no_tables).delays + 1)
    × IsBackoff
        (append_body first_day (record_at 5))
        attempt
        0
        (transaction (append_body first_day (record_at 5)) attempt no_tables).delays
transaction-IsBackoff_example =
    transaction-IsBackoff (append_body first_day (record_at 5)) attempt no_tables

abbrev writes : List Commit
writes = appends first_day (record_at 7) ∷ appends first_day (record_at 5) ∷ []

abbrev cutover : List Commit
cutover =
    appends first_day (record_at 7)
    ∷ appends first_day (record_at 5)
    ∷ begins first_day (codes "owner") 10
    ∷ publishes session object_key 20
    ∷ []

abbrev tables : Tables
tables = run writes no_tables

apply-Steps_example : Steps tables (apply (appends first_day (record_at 9)) tables)
apply-Steps_example = apply-Steps (appends first_day (record_at 9)) tables refl

abbrev published : Tables
published = run cutover no_tables

published_route : RoutesTo object_key (entry_at (row_key first_day) published)
unfolding entry_at get run pulpitum.Base.put pulpitum.Base.cmp_list metadata_state
    pulpitum.Cockroach.Tables.new_row pulpitum.Domain.Model.as_str
published_route = inl refl

run-RoutesTo_example :
    ((entry_at (row_key first_day) published).generation
      ≤ (entry_at
          (row_key first_day)
          (run (begins first_day (codes "late") 900 ∷ []) published)).generation)
    × (RoutesTo object_key (entry_at (row_key first_day) published)
        → RoutesTo object_key (
            entry_at
              (row_key first_day)
              (run (begins first_day (codes "late") 900 ∷ []) published)))
run-RoutesTo_example =
    run-RoutesTo (row_key first_day) object_key (begins first_day (codes "late") 900 ∷ []) published
      (tt, tt)

no_rows : IsChecked no_tables
unfolding get
no_rows j r h = cc

abbrev hot_row : MetadataRow
hot_row = record {
  bucket_strategy = codes "calendar_day_utc";
  bucket_start = 0;
  bucket_end = 24;
  state = hot_text;
  generation = 0;
  archive_owner_token = none;
  archive_owner_expires_at = none;
  archive_object_key = none;
  hot_deleted = false;
  archive_attempts = 0;
  archive_next_attempt_at = none;
}

row_found : get row_key_order (row_key first_day) (run writes no_tables).metadata ≡ some hot_row
unfolding get run pulpitum.Base.put pulpitum.Base.cmp_list metadata_state
    pulpitum.Cockroach.Tables.new_row pulpitum.Domain.Model.as_str
row_found = refl

run-metadata_state_example :
    (passes_checks hot_row ≡ true)
    × (metadata_state hot_row ≡ ok (route_state hot_row.state hot_row))
run-metadata_state_example =
    run-metadata_state writes no_tables no_rows (row_key first_day) hot_row row_found

abbrev read_call : ReadCall
read_call = record {
  connects = true;
  answers = true;
  second_answers = true;
  now = 30;
  second_now = 31;
  instant = 1;
  timestamptz = λ t. t;
}

-- A read before the cutover, one that caches the route, and one from the cache.
abbrev events : List Event
events =
    commits (appends first_day (record_at 7))
    ∷ reads read_call first_day whole_day none 10
    ∷ commits (begins first_day (codes "owner") 10)
    ∷ commits (publishes session object_key 20)
    ∷ reads read_call first_day whole_day none 10
    ∷ []

abbrev played : Client
played = play events (record { tables = no_tables; route_cache = [] })

cached_read :
    (read_range read_call first_day whole_day none 10 played).1 ≡ ok (archive_key object_key)
unfolding read_range get play pulpitum.Base.put pulpitum.Base.cmp_list metadata_state
    pulpitum.Cockroach.Tables.new_row pulpitum.Base.sort_by pulpitum.Domain.Model.range_contains
    pulpitum.Domain.Model.is_after pulpitum.Domain.Model.bucket_order
cached_read = refl

cache_archive_at-le_example :
    (length (cache_archive_at first_day object_key 3 []) ≤ route_cache_max_entries)
    × (archived_route first_day (cache_archive_at first_day object_key 3 []) ≡ some object_key)
cache_archive_at-le_example = cache_archive_at-le first_day object_key 3 [] (omega arith)
