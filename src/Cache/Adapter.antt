-- ===== src/Cache/Adapter.antt =====
-- `impl ArchiveStore for ImmutableArchiveCache` of src/adapters/immutable_archive_cache.rs, over
-- any archive store: the world is that of the inner store and the cache.
use pulpitum.Base.{ℕ, ◌≡◌, refl, ap, ◌∙◌, Option, none, some, List, get, get-remove_self, arith}
use pulpitum.Base.Text.{Text}
use pulpitum.Domain.Model.{BucketId, Record}
use pulpitum.Archive.Port.{StoreResult, ok, err, ArchiveStore, IsFaithful}
use pulpitum.Cache.State.{
  Cache, CacheState, CacheEntry, CacheKey, Limits, cache_key_order, remove_entry, removed,
  get_cached, touched, cache, invalidate,
}

module _ {W : Type 0} (inner : ArchiveStore W) (limits : Limits) where
  abbrev pub after_put : BucketId → Cache → W × StoreResult Text → (W × Cache) × StoreResult Text
  after_put b c (w, ok key) = ((w, invalidate b key c), ok key)
  after_put b c (w, err e) = ((w, c), err e)

  unfoldable pub cached_put : BucketId → List Record → W × Cache → (W × Cache) × StoreResult Text
  cached_put b records (w, c) = after_put b c (inner.put_bucket b records w)

  unfoldable pub cached_put_generation :
      BucketId → ℕ → List Record → W × Cache → (W × Cache) × StoreResult Text
  cached_put_generation b g records (w, c) =
      after_put b c (inner.put_bucket_generation b g records w)

  abbrev pub after_get :
      BucketId
      → Text
      → Cache
      → W × StoreResult (List Record)
      → (W × Cache) × StoreResult (List Record)
  after_get b key c (w, ok records) = ((w, cache limits b key records c), ok records)
  after_get b key c (w, err e) = ((w, c), err e)

  abbrev pub looked_up :
      BucketId → Text → W → Cache × Option (List Record) → (W × Cache) × StoreResult (List Record)
  looked_up b key w (c, some records) = ((w, c), ok records)
  looked_up b key w (c, none) = after_get b key c (inner.get_bucket b key w)

  unfoldable pub cached_get : BucketId → Text → W × Cache → (W × Cache) × StoreResult (List Record)
  cached_get b key (w, c) = looked_up b key w (get_cached b key c)

  abbrev pub cached : ArchiveStore (W × Cache)
  cached = record {
    put_bucket = cached_put;
    put_bucket_generation = cached_put_generation;
    get_bucket = cached_get;
  }

  removed_absent :
      (key : CacheKey) (st : CacheState) (e : Option CacheEntry)
      → get cache_key_order key st.entries ≡ e
      → get cache_key_order key (removed key st e).entries ≡ none
  removed_absent key st none h = h
  removed_absent key st (some e) h = get-remove_self cache_key_order key st.entries

  missed :
      (b : BucketId) (key : Text) (c : Cache) → (get_cached b key (invalidate b key c)).1 ≡ none
  unfolding get_cached invalidate remove_entry
  missed b key c =
      ap (λ e. (touched (b, key) (invalidate b key c) e).1) (removed_absent (b, key) c.state _ refl)

  miss_read :
      (b : BucketId) (key : Text) (w : W) (l : Cache × Option (List Record))
      → l.1 ≡ none
      → (looked_up b key w l).1 ≡ (inner.get_bucket b key w).1
  miss_read b key w (c, some rs) h = cc
  miss_read b key w (c, none) h = got (inner.get_bucket b key w)
    where
      got : (r : W × StoreResult (List Record)) → (after_get b key c r).1 ≡ r.1
      got (w', ok rs) = refl
      got (w', err e) = refl

  put_read :
      (b : BucketId) (key : Text) (c : Cache) (rs : List Record) (out : W × StoreResult Text)
      → (after_put b c out).1 ≡ ok key
      → (out.1 ≡ ok key → (inner.get_bucket b key out.0).1 ≡ ok rs)
      → (cached_get b key (after_put b c out).0).1 ≡ ok rs
  unfolding cached_get
  put_read b key c rs (w, ok k) h f =
      let e : k ≡ key = ground arith in
      rw e
        (miss_read b key w (get_cached b key (invalidate b key c)) (missed b key c) ∙ f (ap ok e))
  put_read b key c rs (w, err e) h f = cc

  -- The cache is transparent after a write: in front of a faithful store, an object that was stored
  -- for a bucket is read back, whatever the cache held under its key.
  pub cached-IsFaithful : IsFaithful inner → IsFaithful cached
  unfolding cached_put_generation
  cached-IsFaithful faithful = record {
    read_back = λ b g rs wc key done own.
        put_read b key wc.1 rs (inner.put_bucket_generation b g rs wc.0) done
          (λ stored. faithful.read_back b g rs wc.0 key stored own);
  }
