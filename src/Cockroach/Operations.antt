-- ===== src/Cockroach/Operations.antt =====
-- The operations of `CockroachDurableBucketStore` of src/adapters/cockroach_durable.rs: leases and
-- sessions as the database takes them, transactions, and the cache of published routes. The state
-- of a client is the tables and its route cache; a routed read is one statement.
use pulpitum.Base.{
  ℕ, ◌+◌, ◌&&◌, Option, none, some, List, [], ◌∷◌, ltb, leb, ◌==◌, if◌then◌else◌, length, get, put,
  remove, Map,
}
use pulpitum.Base.Text.{Text}
use pulpitum.Domain.Model.{BucketId, Record, DateTime, bucket_order}
use pulpitum.Store.State.{operation_failed, Result, ok, err, ArchiveSession}
use pulpitum.Cockroach.Tables.{sent_record, Tables, is_null, i64_max}
use pulpitum.Cockroach.Statements.{Body}
use pulpitum.Cockroach.Bodies.{
  append_body, claim_archive_body, claim_cleanup_body, renew_body, defer_archive_body,
  defer_cleanup_body, begin_body, snapshot_body, publish_body, delete_body, abort_body,
}
use pulpitum.Cockroach.Transaction.{Attempt, transaction}

pub record CachedArchiveEntry : Type 0 where
  pub object_key : Text
  pub observed_at : ℕ

abbrev pub RouteCache : Type 0
RouteCache = Map BucketId CachedArchiveEntry

abbrev pub route_cache_max_entries : ℕ
route_cache_max_entries = 4096

abbrev pub key_of : Option CachedArchiveEntry → Option Text
key_of none = none
key_of (some e) = some e.object_key

-- `RouteCache::archived`.
unfoldable pub archived_route : BucketId → RouteCache → Option Text
archived_route b cache = key_of (get bucket_order b cache)

-- `min_by_key(observed_at)`: the first of the oldest, in the order of the map.
abbrev pub older : BucketId × CachedArchiveEntry → Option (BucketId × ℕ) → Option (BucketId × ℕ)
older (b, e) none = some (b, e.observed_at)
older (b, e) (some (c, at)) = if leb e.observed_at at then some (b, e.observed_at) else some (c, at)

unfoldable pub oldest : RouteCache → Option (BucketId × ℕ)
oldest [] = none
oldest (entry ∷ rest) = older entry (oldest rest)

abbrev pub evicted : RouteCache → Option (BucketId × ℕ) → RouteCache
evicted cache none = cache
evicted cache (some (b, at)) = remove bucket_order b cache

-- A new bucket takes the place of the oldest in a full cache.
unfoldable pub with_room : BucketId → RouteCache → RouteCache
unfolding oldest
with_room b cache =
    if is_null (get bucket_order b cache) && leb route_cache_max_entries (length cache)
    then evicted cache (oldest cache)
    else cache

unfoldable pub cache_archive_at : BucketId → Text → ℕ → RouteCache → RouteCache
unfolding with_room
cache_archive_at b object_key observed_at cache =
    put bucket_order b (record { object_key = object_key; observed_at = observed_at })
      (with_room b cache)

unfoldable pub invalidate : BucketId → RouteCache → RouteCache
invalidate b cache = remove bucket_order b cache

-- The database and one client of it.
pub record Client : Type 0 where
  pub tables : Tables
  pub route_cache : RouteCache

-- What an operation is given: the database and the network at each attempt, the client's clock,
-- the largest instant and the largest duration of chrono, what `Uuid::new_v4()` gives, the
-- timestamp of the transaction or statement, the monotonic clock, and what the driver sends of an
-- instant. The bounds of a bucket are sent as they are: they are whole seconds.
pub record Call : Type 0 where
  pub attempts : ℕ → Attempt
  pub utc_now : DateTime
  pub max_instant : DateTime
  pub max_duration : ℕ
  pub owner_token : Text
  pub now : DateTime
  pub instant : ℕ
  pub timestamptz : DateTime → DateTime

unfoldable pub archive_lease_expiry : Call → ℕ → Result DateTime
archive_lease_expiry call lease_for =
    if lease_for == 0
    then err operation_failed
    else if ltb call.max_duration lease_for
    then err operation_failed
    else if ltb call.max_instant (call.utc_now + lease_for)
    then err operation_failed
    else ok (call.utc_now + lease_for)

-- `i64::try_from(session.generation())`.
abbrev pub checked_generation : ArchiveSession → Result ℕ
checked_generation session =
    if leb session.generation i64_max then ok session.generation else err operation_failed

-- The `?` of the source, on a value that does not depend on the database.
abbrev pub given : {A B : Type 0} → Result A → Client → (A → Client × Result B) → Client × Result B
given (ok a) c f = f a
given (err e) c f = (c, err e)

abbrev pub transacted : {A : Type 0} → Body A → Call → Client → Client × Result A
transacted body call c =
    let run = transaction body call.attempts c.tables in
    (record c { tables = run.tables }, run.result)

-- `route_cache.invalidate(session.bucket())` after an operation that succeeded.
abbrev pub invalidating : {A : Type 0} → BucketId → Client × Result A → Client × Result A
invalidating b (c, err e) = (c, err e)
invalidating b (c, ok a) = (record c { route_cache = invalidate b c.route_cache }, ok a)

unfoldable pub append : Call → BucketId → Record → Client → Client × Result (Unit {0})
append call b r c = transacted (append_body b (sent_record call.timestamptz r)) call c

abbrev pub if_claimed :
    Client × Result (Option ArchiveSession) → Client × Result (Option ArchiveSession)
if_claimed (c, ok (some session)) =
    (record c { route_cache = invalidate session.bucket c.route_cache }, ok (some session))
if_claimed (c, ok none) = (c, ok none)
if_claimed (c, err e) = (c, err e)

unfoldable pub claim_archive :
    Call → BucketId → ℕ → Client → Client × Result (Option ArchiveSession)
unfolding archive_lease_expiry
claim_archive call b lease_for c = given (archive_lease_expiry call lease_for) c (λ expires_at.
    if_claimed (
      transacted (claim_archive_body b call.owner_token (call.timestamptz expires_at) call.now) call
        c))

unfoldable pub claim_cleanup :
    Call → BucketId → ℕ → Client → Client × Result (Option ArchiveSession)
unfolding archive_lease_expiry
claim_cleanup call b lease_for c = given (archive_lease_expiry call lease_for) c (λ expires_at.
    transacted (claim_cleanup_body b call.owner_token (call.timestamptz expires_at) call.now) call
      c)

unfoldable pub renew_archive_lease : Call → ArchiveSession → ℕ → Client → Client × Result (Unit {0})
unfolding archive_lease_expiry
renew_archive_lease call session lease_for c = given (checked_generation session) c (λ _.
    given (archive_lease_expiry call lease_for) c
      (λ expires_at. transacted (renew_body session (call.timestamptz expires_at) call.now) call c))

unfoldable pub defer_archive : Call → ArchiveSession → ℕ → Client → Client × Result (Unit {0})
unfolding archive_lease_expiry invalidate
defer_archive call session retry_after c = given (checked_generation session) c (λ _.
    given (archive_lease_expiry call retry_after) c (λ retry_at.
      invalidating session.bucket
        (transacted (defer_archive_body session (call.timestamptz retry_at) call.now) call c)))

unfoldable pub defer_cleanup : Call → ArchiveSession → ℕ → Client → Client × Result (Unit {0})
unfolding archive_lease_expiry
defer_cleanup call session retry_after c = given (checked_generation session) c (λ _.
    given (archive_lease_expiry call retry_after) c (λ retry_at.
      transacted (defer_cleanup_body session (call.timestamptz retry_at) call.now) call c))

unfoldable pub begin_archive : Call → BucketId → Client → Client × Result ArchiveSession
unfolding invalidate
begin_archive call b c = invalidating b (transacted (begin_body b call.owner_token call.now) call c)

unfoldable pub snapshot : Call → ArchiveSession → Client → Client × Result (List Record)
snapshot call session c =
    given (checked_generation session) c (λ _. transacted (snapshot_body session call.now) call c)

unfoldable pub publish_archive : Call → ArchiveSession → Text → Client → Client × Result (Unit {0})
unfolding invalidate
publish_archive call session object_key c = given (checked_generation session) c (λ _.
    invalidating session.bucket (transacted (publish_body session object_key call.now) call c))

unfoldable pub delete_hot_bucket : Call → ArchiveSession → Client → Client × Result (Unit {0})
delete_hot_bucket call session c =
    given (checked_generation session) c (λ _. transacted (delete_body session call.now) call c)

unfoldable pub abort_archive : Call → ArchiveSession → Client → Client × Result (Unit {0})
unfolding invalidate
abort_archive call session c =
    given (checked_generation session) c
      (λ _. invalidating session.bucket (transacted (abort_body session call.now) call c))
