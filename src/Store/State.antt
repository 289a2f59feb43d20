-- ===== src/Store/State.antt =====
-- src/ports/storage.rs: routing states, errors, sessions, work items and the entry of a bucket,
-- with the tests on an entry that the operations share. An `Instant` or `Duration` is a number of
-- ticks; `limit` is the last instant that the platform can represent. An operation reads the
-- clock at most twice: `first` and `second` are the two readings, `token` is what
-- `Uuid::new_v4().to_string()` gives it.
use pulpitum.Base.{
  ℕ, ◌+◌, Bool, true, false, ◌&&◌, ◌||◌, not, Option, none, some, List, [], ltb, leb, ◌==◌,
  if◌then◌else◌,
}
use pulpitum.Base.Text.{Text, text_eq}
use pulpitum.Domain.Model.{BucketId, Record, DateTime}

pub data BucketState : Type 0 where
  hot archiving : BucketState
  -- The object key, and `hot_deleted`.
  archived : Text → Bool → BucketState

abbrev pub bool_eq : Bool → Bool → Bool
bool_eq true b = b
bool_eq false b = not b

-- The derived `PartialEq`.
abbrev pub state_eq : BucketState → BucketState → Bool
state_eq hot hot = true
state_eq archiving archiving = true
state_eq (archived k d) (archived k' d') = text_eq k k' && bool_eq d d'
state_eq _ _ = false

pub data DurableBucketStoreError : Type 0 where
  unavailable operation_failed commit_outcome_unknown : DurableBucketStoreError
  bucket_read_only archive_not_allowed : BucketState → DurableBucketStoreError
  bucket_strategy_mismatch stale_archive_session : DurableBucketStoreError

pub data Result {ℓ} (A : Type ℓ) : Type ℓ where
  ok : A → Result A
  err : DurableBucketStoreError → Result A

pub data DurableBucketRead : Type 0 where
  hot_records : List Record → DurableBucketRead
  archive_key : Text → DurableBucketRead

pub record ArchiveSession : Type 0 where
  pub bucket : BucketId
  pub owner_token : Text
  pub generation : ℕ

pub data ArchiveWork : Type 0 where
  cutover cleanup : BucketId → ArchiveWork

pub record ArchiveScan : Type 0 where
  pub eligible_before : DateTime
  pub limit : ℕ

abbrev pub Instant : Type 0
Instant = ℕ

abbrev pub Duration : Type 0
Duration = ℕ

pub record Env : Type 0 where
  pub first : Instant
  pub second : Instant
  pub limit : Instant
  pub token : Text

pub record DurableBucketEntry : Type 0 where
  pub state : BucketState
  pub generation : ℕ
  pub archive_owner_token : Option Text
  pub archive_owner_expires_at : Option Instant
  pub next_attempt_at : Option Instant
  pub records : List Record

-- `DurableBucketEntry::default`.
abbrev pub default_entry : DurableBucketEntry
default_entry = record {
  state = hot;
  generation = 0;
  archive_owner_token = none;
  archive_owner_expires_at = none;
  next_attempt_at = none;
  records = [];
}

abbrev due_at : Option Instant → Instant → Bool
due_at none now = true
due_at (some at) now = leb at now

unfoldable pub attempt_due : DurableBucketEntry → Instant → Bool
attempt_due e now = due_at e.next_attempt_at now

unfoldable pub lease_expired : DurableBucketEntry → Instant → Bool
lease_expired e now = due_at e.archive_owner_expires_at now

-- `lease_deadline`, at a reading of the clock.
unfoldable pub lease_deadline : Env → Instant → Duration → Result Instant
lease_deadline env now duration =
    if duration == 0
    then err operation_failed
    else if leb (now + duration) env.limit
    then ok (now + duration)
    else err operation_failed

abbrev owns : Option Text → Text → Bool
owns none t = false
owns (some o) t = text_eq o t

-- `validate_active_session`, at a reading of the clock.
unfoldable pub validate_active_session :
    DurableBucketEntry → ArchiveSession → Instant → Result (Unit {0})
unfolding lease_expired
validate_active_session e session now =
    if not (e.generation == session.generation)
      || not (owns e.archive_owner_token session.owner_token)
      || lease_expired e now
    then err stale_archive_session
    else ok tt

unfoldable pub validate_archive_session :
    DurableBucketEntry → ArchiveSession → BucketState → Instant → Result (Unit {0})
unfolding validate_active_session
validate_archive_session e session expected now =
    if not (state_eq e.state expected)
    then err stale_archive_session
    else validate_active_session e session now

abbrev pub u64_max : ℕ
u64_max = 18446744073709551615

-- `generation.checked_add(1)` on `u64`.
unfoldable pub next_generation : ℕ → Option ℕ
next_generation g = if ltb g u64_max then some (g + 1) else none

abbrev pub is_pending_cleanup : BucketState → Bool
is_pending_cleanup (archived k false) = true
is_pending_cleanup _ = false
