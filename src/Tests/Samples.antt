-- ===== src/Tests/Samples.antt =====
-- Test data: a table of day buckets, two records of its first day, and calls of the store.
use pulpitum.Base.{ℕ, false, none, List, [], ◌∷◌}
use pulpitum.Base.Text.{Text, codes}
use pulpitum.Domain.Model.{BucketId, calendar_day_utc, Record, TimeRange, PartitionKey, DateTime}
use pulpitum.Domain.Schema.{TableDefinition, required}
use pulpitum.Store.State.{Env, ArchiveSession, ArchiveScan, Duration}
use pulpitum.Store.Memory.{Store, session_at}
use pulpitum.Store.History.{Operation, appends, renews, begins, publishes, run}
use pulpitum.Archive.Coordinator.{Call, Calls, World, ArchiveOutcome}
use pulpitum.Archive.Memory.{Objects}
use pulpitum.Table.Join.{Join}

abbrev pub partition : PartitionKey
partition = codes "p"

abbrev pub day_table : TableDefinition
day_table = record {
  name = codes "events";
  table_id = codes "t";
  partition_key = codes "tenant";
  bucket_time_key = codes "event_time";
  bucket_strategy = calendar_day_utc;
  clustering_key = required;
  writable_buckets = 2;
}

-- The bucket of the ticks 0 to 24.
abbrev pub first_day : BucketId
first_day = record {
  table_id = codes "t";
  partition_key = partition;
  strategy = calendar_day_utc;
  key = codes "day:0000-01-01";
  start = 0;
  end = 24;
}

abbrev pub second_day : BucketId
second_day = record {
  table_id = codes "t";
  partition_key = partition;
  strategy = calendar_day_utc;
  key = codes "day:0000-01-02";
  start = 24;
  end = 48;
}

abbrev pub record_at : DateTime → Record
record_at t = record { partition_key = partition; event_time = t; sort_key = codes "k"; value = [] }

abbrev pub env : Env
env = record { first = 10; second = 10; limit = 1000; token = codes "owner" }

abbrev pub late_env : Env
late_env = record { first = 900; second = 900; limit = 10000; token = codes "later" }

abbrev pub lease : Duration
lease = 300

-- Two records of the first day, written out of order.
abbrev pub written : List Operation
written = appends first_day (record_at 7) ∷ appends first_day (record_at 5) ∷ []

abbrev pub session : ArchiveSession
session = session_at first_day (codes "owner") 1

abbrev pub later_session : ArchiveSession
later_session = session_at first_day (codes "later") 2

abbrev pub call : List Operation → Call
call ops = record { others = ops; env = env; lost = none }

-- The records arrive before the cutover begins; the lease is renewed before the upload.
abbrev pub calls : Calls
calls = record {
  begin = call written;
  read = call [];
  upload = call (renews env session lease ∷ []);
  publish = call (appends second_day (record_at 30) ∷ []);
  delete = call [];
  abort = call [];
}

abbrev pub empty_world : World Objects
empty_world = record { buckets = []; objects = [] }

abbrev pub object_key : Text
object_key = codes "archives/t/70/day:0000-01-01/generation-1/data.json"

abbrev pub outcome : ArchiveOutcome
outcome = record { bucket = first_day; object_key = object_key; records_archived = 2 }

abbrev pub whole_day : TimeRange
whole_day = record { start = 0; end = 24 }

abbrev pub scan : ArchiveScan
scan = record { eligible_before = 24; limit = 10 }

-- No other client, no failure; the last read in flight finishes first.
abbrev pub alone : ℕ → Join
alone n = record { others = []; pick = n; failed = false }

-- The store after the writes, after a cutover has begun, and after its publication.
abbrev pub written_store : Store
written_store = run written []

abbrev pub begun_store : Store
begun_store = run (begins env first_day lease ∷ []) written_store

abbrev pub published_store : Store
published_store = run (publishes env session object_key ∷ []) begun_store
