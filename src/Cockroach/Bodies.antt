-- ===== src/Cockroach/Bodies.antt =====
-- What each transaction of src/adapters/cockroach_durable.rs does to the tables, statement by
-- statement. `now` is the timestamp of the transaction; the expiry of a lease comes from the
-- client's clock.
use pulpitum.Base.{
  ℕ, ◌+◌, Bool, true, false, ◌&&◌, ◌||◌, not, Option, none, some, List, ◌==◌, if◌then◌else◌, keep,
  map, sort_by, get,
}
use pulpitum.Base.Text.{Text}
use pulpitum.Domain.Model.{BucketId, Record, DateTime, key_order, record_key}
use pulpitum.Store.State.{
  BucketState, hot, state_eq, bucket_read_only, archive_not_allowed, bucket_strategy_mismatch,
  stale_archive_session, ArchiveSession,
}
use pulpitum.Cockroach.Tables.{
  hot_text, archiving_text, archived_text, MetadataRow, RowKey, row_key_order, row_key, Tables,
  is_past, is_future, is_due, text_is, is_hot_text, is_archiving_text, is_archived_text,
}
use pulpitum.Cockroach.Statements.{
  Body, done, failed, give, in_bucket, insert_metadata, insert_record, refuse, state_from_metadata,
  store, strategy_conflict, to_record, update, ◌>>=◌, ◌>>◌,
}

abbrev pub only_hot : BucketState → Body (Unit {0})
only_hot state = if state_eq state hot then give tt else refuse (bucket_read_only state)

unfoldable pub append_hot : BucketId → Record → Body (Unit {0})
unfolding insert_metadata state_from_metadata insert_record
append_hot b r = do
  insert_metadata b
  state ← state_from_metadata b
  only_hot state
  insert_record b r

unfoldable pub append_body : BucketId → Record → Body (Unit {0})
unfolding strategy_conflict append_hot
append_body b r t =
    if strategy_conflict b t then failed (store bucket_strategy_mismatch) else append_hot b r t

-- The session of a row that was claimed. `generation as u64` of a natural number.
abbrev pub claimed_session : BucketId → Text → Option MetadataRow → Option ArchiveSession
claimed_session b token none = none
claimed_session b token (some r) =
    some (record { bucket = b; owner_token = token; generation = r.generation })

-- A bucket that is hot, or whose attempt has run out of its lease.
abbrev pub is_claimable : DateTime → MetadataRow → Bool
is_claimable now r =
    is_hot_text r.state || (is_archiving_text r.state && is_past r.archive_owner_expires_at now)

abbrev pub to_archiving : Text → DateTime → MetadataRow → MetadataRow
to_archiving token expires_at r = record r {
  state = archiving_text;
  generation = r.generation + 1;
  archive_owner_token = some token;
  archive_owner_expires_at = some expires_at;
  archive_object_key = none;
  hot_deleted = false;
}

abbrev pub is_due_claimable : DateTime → MetadataRow → Bool
is_due_claimable now r = is_due r.archive_next_attempt_at now && is_claimable now r

abbrev pub to_claimed : Text → DateTime → MetadataRow → MetadataRow
to_claimed token expires_at r = record (to_archiving token expires_at r) {
  archive_next_attempt_at = none;
}

unfoldable pub claim_archive_body :
    BucketId → Text → DateTime → DateTime → Body (Option ArchiveSession)
unfolding update
claim_archive_body b token expires_at now = do
  row ← update b (is_due_claimable now) (to_claimed token expires_at)
  give (claimed_session b token row)

abbrev pub is_cleanup_claimable : DateTime → MetadataRow → Bool
is_cleanup_claimable now r =
    is_archived_text r.state
    && not r.hot_deleted
    && is_due r.archive_next_attempt_at now
    && is_due r.archive_owner_expires_at now

abbrev pub to_cleanup_claimed : Text → DateTime → MetadataRow → MetadataRow
to_cleanup_claimed token expires_at r = record r {
  generation = r.generation + 1;
  archive_owner_token = some token;
  archive_owner_expires_at = some expires_at;
  archive_next_attempt_at = none;
}

unfoldable pub claim_cleanup_body :
    BucketId → Text → DateTime → DateTime → Body (Option ArchiveSession)
unfolding update
claim_cleanup_body b token expires_at now = do
  row ← update b (is_cleanup_claimable now) (to_cleanup_claimed token expires_at)
  give (claimed_session b token row)

-- `generation = $3 AND archive_owner_token = $4 AND archive_owner_expires_at > now()`.
abbrev pub is_current : ArchiveSession → DateTime → MetadataRow → Bool
is_current session now r =
    r.generation == session.generation
    && text_is r.archive_owner_token session.owner_token
    && is_future r.archive_owner_expires_at now

-- `if updated == 1 { Ok(()) } else { Err(StaleArchiveSession) }`.
abbrev pub unless_stale : Option MetadataRow → Body (Unit {0})
unless_stale none = refuse stale_archive_session
unless_stale (some r) = give tt

abbrev pub is_renewable : ArchiveSession → DateTime → MetadataRow → Bool
is_renewable session now r =
    is_current session now r
    && (is_archiving_text r.state || (is_archived_text r.state && not r.hot_deleted))

abbrev pub to_renewed : DateTime → MetadataRow → MetadataRow
to_renewed expires_at r = record r { archive_owner_expires_at = some expires_at }

-- The fence of an attempt: the bucket is archiving under the session, whose lease runs.
abbrev pub is_fenced : ArchiveSession → DateTime → MetadataRow → Bool
is_fenced session now r = is_archiving_text r.state && is_current session now r

unfoldable pub renew_body : ArchiveSession → DateTime → DateTime → Body (Unit {0})
unfolding update
renew_body session expires_at now = do
  row ← update session.bucket (is_renewable session now) (to_renewed expires_at)
  unless_stale row

abbrev pub to_hot : MetadataRow → MetadataRow
to_hot r = record r {
  state = hot_text;
  archive_owner_token = none;
  archive_owner_expires_at = none;
  archive_object_key = none;
  hot_deleted = false;
}

abbrev pub to_deferred : DateTime → MetadataRow → MetadataRow
to_deferred retry_at r = record (to_hot r) {
  archive_attempts = r.archive_attempts + 1;
  archive_next_attempt_at = some retry_at;
}

unfoldable pub defer_archive_body : ArchiveSession → DateTime → DateTime → Body (Unit {0})
unfolding update
defer_archive_body session retry_at now = do
  row ← update session.bucket (is_fenced session now) (to_deferred retry_at)
  unless_stale row

abbrev pub is_cleanable : ArchiveSession → DateTime → MetadataRow → Bool
is_cleanable session now r =
    is_archived_text r.state && not r.hot_deleted && is_current session now r

abbrev pub to_cleanup_deferred : DateTime → MetadataRow → MetadataRow
to_cleanup_deferred retry_at r = record r {
  archive_owner_expires_at = some retry_at;
  archive_attempts = r.archive_attempts + 1;
  archive_next_attempt_at = some retry_at;
}

unfoldable pub defer_cleanup_body : ArchiveSession → DateTime → DateTime → Body (Unit {0})
unfolding update
defer_cleanup_body session retry_at now = do
  row ← update session.bucket (is_cleanable session now) (to_cleanup_deferred retry_at)
  unless_stale row

-- `INTERVAL '5 minutes'`, in nanoseconds.
abbrev pub five_minutes : ℕ
five_minutes = 300000000000

-- The result of `begin_archive`: its session, or the state that does not allow one.
abbrev pub begun : BucketId → Text → Option MetadataRow → Body ArchiveSession
begun b token (some r) =
    give (record { bucket = b; owner_token = token; generation = r.generation })
begun b token none = do state ← state_from_metadata b; refuse (archive_not_allowed state)

unfoldable pub begin_body : BucketId → Text → DateTime → Body ArchiveSession
unfolding insert_metadata update state_from_metadata
begin_body b token now = do
  insert_metadata b
  row ← update b (is_claimable now) (to_archiving token (now + five_minutes))
  begun b token row

-- `SELECT ... WHERE` the key `ORDER BY event_time, sort_key`.
unfoldable pub select_records : RowKey → Tables → List Record
select_records key t = sort_by key_order record_key (map to_record (keep (in_bucket key) t.records))

abbrev pub owned : ArchiveSession → DateTime → Option MetadataRow → Bool
owned session now none = false
owned session now (some r) = is_fenced session now r

unfoldable pub snapshot_body : ArchiveSession → DateTime → Body (List Record)
unfolding select_records
snapshot_body session now t =
    if owned session now (get row_key_order (row_key session.bucket) t.metadata)
    then done t (select_records (row_key session.bucket) t)
    else failed (store stale_archive_session)

abbrev pub to_published : Text → MetadataRow → MetadataRow
to_published object_key r = record r {
  state = archived_text;
  archive_object_key = some object_key;
  hot_deleted = false;
}

unfoldable pub publish_body : ArchiveSession → Text → DateTime → Body (Unit {0})
unfolding update
publish_body session object_key now = do
  row ← update session.bucket (is_fenced session now) (to_published object_key)
  unless_stale row

abbrev pub cleans : ArchiveSession → DateTime → Option MetadataRow → Bool
cleans session now none = false
cleans session now (some r) = is_cleanable session now r

-- `DELETE ... AND EXISTS (SELECT ...)`.
unfoldable pub delete_records : ArchiveSession → DateTime → Body (Unit {0})
delete_records session now t =
    let key = row_key session.bucket in
    if cleans session now (get row_key_order key t.metadata)
    then done (record t { records = keep (λ row. not (in_bucket key row)) t.records }) tt
    else done t tt

abbrev pub to_cleaned : MetadataRow → MetadataRow
to_cleaned r = record r { hot_deleted = true }

unfoldable pub delete_body : ArchiveSession → DateTime → Body (Unit {0})
unfolding delete_records update
delete_body session now = do
  delete_records session now
  row ← update session.bucket (is_cleanable session now) to_cleaned
  unless_stale row

unfoldable pub abort_body : ArchiveSession → DateTime → Body (Unit {0})
unfolding update
abort_body session now = do
  row ← update session.bucket (is_fenced session now) to_hot
  unless_stale row
