-- ===== src/Store/Memory.antt =====
-- `InMemoryDurableBucketStore` of src/ports/storage.rs. Each operation holds the lock throughout,
-- so it is one step on the map of buckets. `on_entry` is a write through `entry().or_default()`,
-- `on_existing` one through `get_mut().ok_or(StaleArchiveSession)`; the operation's effect on the
-- entry is a function of its own.
use pulpitum.Base.{
  ℕ, Bool, true, false, ◌&&◌, ◌||◌, not, Option, none, some, List, [], ◌∷◌, ◌++◌, take, keep,
  if◌then◌else◌, Map, get, put, sort_by,
}
use pulpitum.Base.Text.{Text}
use pulpitum.Domain.Model.{
  BucketId, Record, Cursor, TimeRange, bucket_order, key_order, record_key, range_contains,
  is_after,
}
use pulpitum.Store.State.{
  BucketState, hot, archiving, archived, state_eq, operation_failed, bucket_read_only,
  archive_not_allowed, stale_archive_session, Result, ok, err, DurableBucketRead, hot_records,
  archive_key, ArchiveSession, Instant, Duration, Env, DurableBucketEntry, default_entry,
  attempt_due, lease_expired, lease_deadline, validate_active_session, validate_archive_session,
  next_generation, is_pending_cleanup,
}

abbrev pub Entry : Type 0
Entry = DurableBucketEntry

abbrev pub Store : Type 0
Store = Map BucketId Entry

abbrev pub find : BucketId → Store → Option Entry
find = get bucket_order

abbrev pub or_default : Option Entry → Entry
or_default none = default_entry
or_default (some e) = e

-- The entry that a bucket has, as `entry().or_default()` finds it.
abbrev pub entry_of : BucketId → Store → Entry
entry_of b s = or_default (find b s)

-- A change of one entry, with the result of the operation.
abbrev pub Change : Type 0 → Type 0
Change A = Entry → Entry × Result A

unfoldable pub on_entry : {A : Type 0} → BucketId → Change A → Store → Store × Result A
on_entry b change s = let (e, r) = change (entry_of b s) in (put bucket_order b e s, r)

abbrev pub change_existing :
    {A : Type 0} → BucketId → Change A → Store → Option Entry → Store × Result A
change_existing b change s none = (s, err stale_archive_session)
change_existing b change s (some e) = let (e', r) = change e in (put bucket_order b e' s, r)

unfoldable pub on_existing : {A : Type 0} → BucketId → Change A → Store → Store × Result A
on_existing b change s = change_existing b change s (find b s)

-- Runs a change only after a check of the entry.
abbrev pub checked : {A : Type 0} → Result (Unit {0}) → Entry → Entry × Result A → Entry × Result A
checked (ok u) e done = done
checked (err x) e done = (e, err x)

-- Runs an operation only if the deadline that it starts with can be represented.
abbrev pub with_deadline :
    {A : Type 0} → Result Instant → Store → (Instant → Store × Result A) → Store × Result A
with_deadline (ok at) s op = op at
with_deadline (err x) s op = (s, err x)

unfoldable pub append_entry : Record → Change (Unit {0})
append_entry r e =
    if not (state_eq e.state hot)
    then (e, err (bucket_read_only e.state))
    else (record e { records = sort_by key_order record_key (e.records ++ r ∷ []) }, ok tt)

unfoldable pub append : BucketId → Record → Store → Store × Result (Unit {0})
append b r s = on_entry b (append_entry r) s

unfoldable pub state : BucketId → Store → Result BucketState
state b s = elim (find b s) [ none ↦ ok hot | some e ↦ ok e.state ]

-- Whether `claim_archive` and `claim_cleanup` may take the bucket.
unfoldable pub claimable : Entry → Instant → Bool
unfolding attempt_due lease_expired
claimable e now =
    attempt_due e now
    && (state_eq e.state hot || (state_eq e.state archiving && lease_expired e now))

unfoldable pub cleanup_claimable : Entry → Instant → Bool
unfolding attempt_due lease_expired
cleanup_claimable e now = is_pending_cleanup e.state && (attempt_due e now && lease_expired e now)

abbrev pub session_at : BucketId → Text → ℕ → ArchiveSession
session_at b t g = record { bucket = b; owner_token = t; generation = g }

unfoldable pub claim_archive_entry : Env → BucketId → Instant → Change (Option ArchiveSession)
unfolding claimable next_generation
claim_archive_entry env b expires_at e =
    if not (claimable e env.first) then (e, ok none) else elim (next_generation e.generation) [
      | none ↦ (e, err operation_failed)
      | some g ↦ (
        record e {
          generation = g;
          state = archiving;
          archive_owner_token = some env.token;
          archive_owner_expires_at = some expires_at;
          next_attempt_at = none;
        },
        ok (some (session_at b env.token g)),
      )
    ]

unfoldable pub claim_archive :
    Env → BucketId → Duration → Store → Store × Result (Option ArchiveSession)
claim_archive env b lease_for s =
    with_deadline (lease_deadline env env.second lease_for) s
      λ expires_at. on_entry b (claim_archive_entry env b expires_at) s

unfoldable pub claim_cleanup_entry : Env → BucketId → Instant → Change (Option ArchiveSession)
unfolding cleanup_claimable next_generation
claim_cleanup_entry env b expires_at e =
    if not (cleanup_claimable e env.first)
    then (e, ok none)
    else elim (next_generation e.generation) [
      | none ↦ (e, err operation_failed)
      | some g ↦ (
        record e {
          generation = g;
          archive_owner_token = some env.token;
          archive_owner_expires_at = some expires_at;
          next_attempt_at = none;
        },
        ok (some (session_at b env.token g)),
      )
    ]

unfoldable pub claim_cleanup :
    Env → BucketId → Duration → Store → Store × Result (Option ArchiveSession)
claim_cleanup env b lease_for s =
    with_deadline (lease_deadline env env.second lease_for) s λ expires_at. elim (find b s) [
      | none ↦ (s, ok none)
      | some e ↦
          let (e', r) = claim_cleanup_entry env b expires_at e in (put bucket_order b e' s, r)
    ]

unfoldable pub renew_entry : Env → ArchiveSession → Instant → Change (Unit {0})
renew_entry env session expires_at e =
    checked (validate_active_session e session env.second) e
      (record e { archive_owner_expires_at = some expires_at }, ok tt)

unfoldable pub renew_archive_lease :
    Env → ArchiveSession → Duration → Store → Store × Result (Unit {0})
renew_archive_lease env session lease_for s =
    with_deadline (lease_deadline env env.first lease_for) s
      λ expires_at. on_existing session.bucket (renew_entry env session expires_at) s

unfoldable pub defer_archive_entry : Env → ArchiveSession → Instant → Change (Unit {0})
defer_archive_entry env session retry_at e =
    checked (validate_archive_session e session archiving env.second) e (
      record e {
        state = hot;
        archive_owner_token = none;
        archive_owner_expires_at = none;
        next_attempt_at = some retry_at;
      },
      ok tt,
    )

unfoldable pub defer_archive : Env → ArchiveSession → Duration → Store → Store × Result (Unit {0})
defer_archive env session retry_after s =
    with_deadline (lease_deadline env env.first retry_after) s
      λ retry_at. on_existing session.bucket (defer_archive_entry env session retry_at) s

unfoldable pub defer_cleanup_entry : Env → ArchiveSession → Instant → Change (Unit {0})
defer_cleanup_entry env session retry_at e =
    checked (validate_active_session e session env.second) e (
      if not (is_pending_cleanup e.state) then (e, err stale_archive_session) else (
        record e { archive_owner_expires_at = some retry_at; next_attempt_at = some retry_at },
        ok tt,
      ))

unfoldable pub defer_cleanup : Env → ArchiveSession → Duration → Store → Store × Result (Unit {0})
defer_cleanup env session retry_after s =
    with_deadline (lease_deadline env env.first retry_after) s
      λ retry_at. on_existing session.bucket (defer_cleanup_entry env session retry_at) s

-- The records that a bounded read selects.
unfoldable pub select : TimeRange → Option Cursor → List Record → List Record
select range after records =
    keep (is_after after) (keep (λ r. range_contains range r.event_time) records)

abbrev pub read_entry :
    TimeRange → Option Cursor → ℕ → BucketState → List Record → DurableBucketRead
read_entry range after limit (archived key d) records = archive_key key
read_entry range after limit hot records = hot_records (take limit (select range after records))
read_entry range after limit archiving records =
    hot_records (take limit (select range after records))

-- The buckets that do not exist read as empty.
abbrev pub read_in : TimeRange → Option Cursor → ℕ → Option Entry → Result DurableBucketRead
read_in range after limit none = ok (hot_records [])
read_in range after limit (some e) = ok (read_entry range after limit e.state e.records)

unfoldable pub read_range :
    BucketId → TimeRange → Option Cursor → ℕ → Store → Result DurableBucketRead
read_range b range after limit s = read_in range after limit (find b s)

abbrev pub begun : Entry → Env → BucketId → Result Instant → Entry × Result ArchiveSession
begun e env b (ok at) = (
  record e { archive_owner_expires_at = some at; next_attempt_at = none },
  ok (session_at b env.token e.generation),
)
begun e env b (err x) = (e, err x)

-- The deadline is computed after the entry has been changed: if it fails, the change stays.
unfoldable pub begin_entry : Env → BucketId → Duration → Change ArchiveSession
unfolding next_generation
begin_entry env b lease e =
    if not (state_eq e.state hot)
    then (e, err (archive_not_allowed e.state))
    else elim (next_generation e.generation) [
      | none ↦ (e, err operation_failed)
      | some g ↦
          begun
            (record e { generation = g; state = archiving; archive_owner_token = some env.token })
            env b (lease_deadline env env.first lease)
    ]

-- `lease` is `Duration::from_secs(300)` in ticks.
unfoldable pub begin_archive : Duration → Env → BucketId → Store → Store × Result ArchiveSession
begin_archive lease env b s = on_entry b (begin_entry env b lease) s

abbrev pub guarded : {A : Type 0} → Result (Unit {0}) → A → Result A
guarded (ok u) a = ok a
guarded (err x) a = err x

abbrev pub snapshot_in : Env → ArchiveSession → Option Entry → Result (List Record)
snapshot_in env session none = err stale_archive_session
snapshot_in env session (some e) =
    guarded (validate_archive_session e session archiving env.first) e.records

unfoldable pub snapshot : Env → ArchiveSession → Store → Result (List Record)
snapshot env session s = snapshot_in env session (find session.bucket s)

unfoldable pub publish_entry : Env → ArchiveSession → Text → Change (Unit {0})
publish_entry env session object_key e =
    checked (validate_archive_session e session archiving env.first) e
      (record e { state = archived object_key false }, ok tt)

unfoldable pub publish_archive : Env → ArchiveSession → Text → Store → Store × Result (Unit {0})
publish_archive env session object_key s =
    on_existing session.bucket (publish_entry env session object_key) s

abbrev pub delete_in : Env → ArchiveSession → BucketState → Change (Unit {0})
delete_in env session (archived object_key false) e =
    checked (validate_active_session e session env.first) e
      (record e { records = []; state = archived object_key true }, ok tt)
delete_in env session _ e = (e, err stale_archive_session)

unfoldable pub delete_entry : Env → ArchiveSession → Change (Unit {0})
delete_entry env session e = delete_in env session e.state e

unfoldable pub delete_hot_bucket : Env → ArchiveSession → Store → Store × Result (Unit {0})
delete_hot_bucket env session s = on_existing session.bucket (delete_entry env session) s

unfoldable pub abort_entry : Env → ArchiveSession → Change (Unit {0})
abort_entry env session e = checked (validate_archive_session e session archiving env.first) e (
  record e {
    state = hot;
    archive_owner_token = none;
    archive_owner_expires_at = none;
    next_attempt_at = none;
  },
  ok tt,
)

unfoldable pub abort_archive : Env → ArchiveSession → Store → Store × Result (Unit {0})
abort_archive env session s = on_existing session.bucket (abort_entry env session) s
