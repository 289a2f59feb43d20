-- ===== src/Cockroach/RouteBound.antt =====
-- The bound on the route cache of src/adapters/cockroach_durable.rs.
use pulpitum.Base.{
  ℕ, suc, ◌≤◌, ◌<◌, ◌≡◌, refl, ◌⊎◌, inl, inr, Bool, true, false, ◌&&◌, Option, none, some, [], ◌∷◌,
  arith, leb, if◌then◌else◌, length, get, put, get-put_self, remove, eqb, eqb_refl, Bool-cases,
}
use pulpitum.Base.Text.{Text}
use pulpitum.Domain.Model.{BucketId, bucket_order}
use pulpitum.Cockroach.Tables.{is_null}
use pulpitum.Cockroach.Operations.{
  RouteCache, CachedArchiveEntry, cache_archive_at, with_room, oldest, evicted, older,
  route_cache_max_entries, archived_route,
}

length-put-le :
    (b : BucketId) (e : CachedArchiveEntry) (m : RouteCache)
    → length (put bucket_order b e m) ≤ suc (length m)
unfolding put
length-put-le b e [] = omega arith
length-put-le b e ((i, w) ∷ m) = ground (arith, length-put-le b e m)

length-put_present :
    (b : BucketId) (e : CachedArchiveEntry) (m : RouteCache)
    → is_null (get bucket_order b m) ≡ false
    → length (put bucket_order b e m) ≡ length m
unfolding put get
length-put_present b e [] h = cc
length-put_present b e ((i, w) ∷ m) h = ground (arith, length-put_present b e m, h)

length-remove-le : (b : BucketId) (m : RouteCache) → length (remove bucket_order b m) ≤ length m
unfolding remove
length-remove-le b [] = omega arith
length-remove-le b ((i, w) ∷ m) = ground (arith, length-remove-le b m)

length-remove-lt :
    (b : BucketId) (m : RouteCache)
    → is_null (get bucket_order b m) ≡ false
    → length (remove bucket_order b m) < length m
unfolding remove get
length-remove-lt b [] h = cc
length-remove-lt b ((i, w) ∷ m) h = ground (arith, length-remove-lt b m, length-remove-le b m, h)

-- The oldest entry is in the cache.
oldest_present :
    (m : RouteCache) {b : BucketId} {at : ℕ}
    → oldest m ≡ some (b, at)
    → is_null (get bucket_order b m) ≡ false
unfolding oldest get
oldest_present [] h = cc
oldest_present ((i, w) ∷ m) {b} {at} h = from (oldest m) h (λ c at' e. oldest_present m e) refl
  where
    from :
        (o : Option (BucketId × ℕ))
        → older (i, w) o ≡ some (b, at)
        → ((c : BucketId) (at' : ℕ)
            → oldest m ≡ some (c, at')
            → is_null (get bucket_order c m) ≡ false)
        → oldest m ≡ o
        → is_null (if eqb bucket_order i b then some w else get bucket_order b m) ≡ false
    from none k rest e = ground (arith, k, eqb_refl bucket_order i)
    from (some (c, at')) k rest e = ground (arith, k, eqb_refl bucket_order i, rest c at' e)

oldest_exists : (m : RouteCache) → oldest m ≡ none → length m ≡ 0
unfolding oldest
oldest_exists [] h = refl
oldest_exists ((i, w) ∷ m) h = absurd (ground (arith, h))

evicted_shorter :
    (m : RouteCache) (o : Option (BucketId × ℕ))
    → oldest m ≡ o
    → length m ≡ 0 ⊎ (length (evicted m o) < length m)
evicted_shorter m none h = inl (oldest_exists m h)
evicted_shorter m (some (b, at)) h = inr (length-remove-lt b m (oldest_present m h))

-- To cache a route keeps the route cache within 4,096 entries, and the route is found there.
pub cache_archive_at-le :
    (b : BucketId) (key : Text) (at : ℕ) (cache : RouteCache)
    → length cache ≤ route_cache_max_entries
    → (length (cache_archive_at b key at cache) ≤ route_cache_max_entries)
      × (archived_route b (cache_archive_at b key at cache) ≡ some key)
unfolding cache_archive_at with_room archived_route
cache_archive_at-le b key at cache bound = (
  within (is_null (get bucket_order b cache)) refl,
  rw (get-put_self bucket_order b entry (with_room b cache)) refl,
)
  where
    entry : CachedArchiveEntry
    entry = record { object_key = key; observed_at = at }

    within :
        (absent : Bool)
        → is_null (get bucket_order b cache) ≡ absent
        → length (
            put bucket_order b entry (
              if absent && leb route_cache_max_entries (length cache)
              then evicted cache (oldest cache)
              else cache))
          ≤ route_cache_max_entries
    within false present = omega (arith, length-put_present b entry cache present)
    within true absent = elim (Bool-cases (leb route_cache_max_entries (length cache))) [
      | inr free ↦ rw free (ground (arith, free, length-put-le b entry cache))
      | inl full ↦ rw full (
          ground (
            arith,
            full,
            bound,
            evicted_shorter cache (oldest cache) refl,
            length-put-le b entry (evicted cache (oldest cache)),
          ))
    ]
