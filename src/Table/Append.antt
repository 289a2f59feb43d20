-- ===== src/Table/Append.antt =====
-- `DurableTable::append` of src/application/durable_table.rs: the write window, the bucket that the
-- record derives, and the errors of the store. `none` is a panic.
use mathlib.Core.List.{Mem, mem-append_right, mem-cons_self}
use mathlib.Core.List.Perm
use pulpitum.Base.{
  ◌≤◌, ◌≡◌, refl, sym, subst, Bool, true, false, ◌||◌, not, Option, none, some, List, [], ◌∷◌,
  arith, ltb, ◌>>=◌, >>=-eq-some, Bool-cases, inl, inr, sort_by-perm, get-put_self, eqb_refl,
}
use pulpitum.Domain.Model.{BucketId, Record, DateTime, bucket_order, key_order, record_key}
use pulpitum.Domain.Calendar.{Chrono, IsCalendar}
use pulpitum.Domain.Schema.{TableDefinition, bucket_for, bucket_for_event_time, writable_buckets_at}
use pulpitum.Store.State.{hot, state_eq, DurableBucketStoreError, Result}
use pulpitum.Store.Memory.{Store, Entry, entry_of, append_entry, on_entry}
use pulpitum.Store.Lifecycle.{is-hot}
use pulpitum.Domain.Buckets.Bounds.{for_event_time-contains, for_event_time-partition}
use pulpitum.Base.Text.{text_order}
use pulpitum.Store.Memory
use pulpitum.Archive.Port.{belongs, Belongs}
use pulpitum.Table.Read.{
  DurableTableError, outside_write_window, durable_store, TableResult, ok, err,
}

-- The first and the last of a list, as `first().expect(…)` and `last().expect(…)`.
abbrev pub ends_from : BucketId → BucketId → List BucketId → BucketId × BucketId
ends_from first last [] = (first, last)
ends_from first last (b ∷ bs) = ends_from first b bs

abbrev pub ends : List BucketId → Option (BucketId × BucketId)
ends [] = none
ends (b ∷ bs) = some (ends_from b b bs)

-- The `map_err` of the store's append.
abbrev pub append_result : BucketId → Result (Unit {0}) → TableResult (Unit {0})
append_result b (Result.ok u) = ok u
append_result b (Result.err (DurableBucketStoreError.bucket_read_only state)) =
    err (DurableTableError.bucket_read_only b state)
append_result b (Result.err e) = err (durable_store e)

unfoldable pub is_writable : BucketId → BucketId × BucketId → Bool
is_writable b (oldest, newest) = not (ltb b.start oldest.start || ltb newest.start b.start)

-- The write, once the window has been checked.
abbrev pub write_if :
    Bool → BucketId → Record → BucketId × BucketId → Store → Store × TableResult (Unit {0})
write_if true b r window s = let (s', result) = Memory.append b r s in (s', append_result b result)
write_if false b r (oldest, newest) s = (s, err (outside_write_window b oldest.key newest.key))

abbrev pub write : BucketId → Record → BucketId × BucketId → Store → Store × TableResult (Unit {0})
write b r window s = write_if (is_writable b window) b r window s

module _ (c : Chrono) (d : TableDefinition) where
  -- `now` is `Utc::now()`.
  unfoldable pub append : DateTime → Record → Store → Option (Store × TableResult (Unit {0}))
  append now r s = do
    bucket ← bucket_for c d r
    writable ← writable_buckets_at c d bucket.partition_key now
    window ← ends writable
    some (write bucket r window s)

append_result_ok :
    (b : BucketId) (r : Result (Unit {0})) → append_result b r ≡ ok tt → r ≡ Result.ok tt
append_result_ok b (Result.ok u) h = refl
append_result_ok b (Result.err (DurableBucketStoreError.bucket_read_only x)) h = cc
append_result_ok b (Result.err DurableBucketStoreError.unavailable) h = cc
append_result_ok b (Result.err DurableBucketStoreError.operation_failed) h = cc
append_result_ok b (Result.err DurableBucketStoreError.commit_outcome_unknown) h = cc
append_result_ok b (Result.err DurableBucketStoreError.bucket_strategy_mismatch) h = cc
append_result_ok b (Result.err DurableBucketStoreError.stale_archive_session) h = cc
append_result_ok b (Result.err (DurableBucketStoreError.archive_not_allowed x)) h = cc

append_entry_ok :
    (r : Record) (e : Entry)
    → (append_entry r e).1 ≡ Result.ok tt
    → (e.state ≡ hot) × Mem r (append_entry r e).0.records
unfolding append_entry
append_entry_ok r e h = elim (Bool-cases (state_eq e.state hot)) [
  | inl t ↦ (
    is-hot e.state t,
    rw t (
        (Perm.mem_iff (sort_by-perm key_order record_key _)).1
          (mem-append_right e.records mem-cons_self)),
  )
  | inr f ↦ absurd (ground arith)
]

write_ok :
    (allowed : Bool) (b : BucketId) (r : Record) (window : BucketId × BucketId) (s : Store)
    → (write_if allowed b r window s).1 ≡ ok tt
    → (allowed ≡ true)
      × ((Memory.append b r s).1 ≡ Result.ok tt)
      × ((write_if allowed b r window s).0 ≡ (Memory.append b r s).0)
write_ok true b r window s h = (refl, append_result_ok b (Memory.append b r s).1 h, refl)
write_ok false b r (oldest, newest) s h = cc

appended_ok :
    (b : BucketId) (r : Record) (s : Store)
    → (Memory.append b r s).1 ≡ Result.ok tt
    → ((entry_of b s).state ≡ hot) × Mem r (entry_of b (Memory.append b r s).0).records
unfolding Memory.append on_entry
appended_ok b r s h =
    let (state, m) = append_entry_ok r (entry_of b s) h in
    (state, rw (get-put_self bucket_order b (append_entry r (entry_of b s)).0 s) m)

module _ (c : Chrono) (cal : IsCalendar c) (d : TableDefinition) where
  bucket_for-Belongs : (r : Record) (b : BucketId) → bucket_for c d r ≡ some b → Belongs b r
  unfolding bucket_for bucket_for_event_time belongs
  bucket_for-Belongs r b h =
      let time =
        for_event_time-contains c cal d.table_id r.partition_key d.bucket_strategy r.event_time b
          h in
      let same =
        for_event_time-partition c cal d.table_id r.partition_key d.bucket_strategy r.event_time b
          h in
      rw (time, same, eqb_refl text_order r.partition_key) refl

  -- A record that `append` accepts is stored in the bucket that it derives, to which it belongs
  -- and which took writes. The bucket starts no earlier than the first writable bucket of the
  -- moment, and no later than the last.
  pub append_ok :
      (now : DateTime) (r : Record) (s s' : Store)
      → append c d now r s ≡ some (s', ok tt)
      → (b : BucketId) × (writable : List BucketId) × (window : BucketId × BucketId) × (bucket_for c
            d r
          ≡ some b)
        × (writable_buckets_at c d b.partition_key now ≡ some writable)
        × (ends writable ≡ some window)
        × (window.0.start ≤ b.start)
        × (b.start ≤ window.1.start)
        × Belongs b r
        × ((entry_of b s).state ≡ hot)
        × Mem r (entry_of b s').records
  unfolding append is_writable
  append_ok now r s s' h =
      let (b, derived, h₁) = >>=-eq-some (bucket_for c d r) _ h in
      let (writable, listed, h₂) = >>=-eq-some (writable_buckets_at c d b.partition_key now) _ h₁ in
      let (window, at_ends, h₃) = >>=-eq-some (ends writable) (λ w. some (write b r w s)) h₂ in
      let (allowed, done, same) =
        write_ok (is_writable b window) b r window s (ground (arith, h₃)) in
      let (state, m) = appended_ok b r s done in
      let e : s' ≡ (Memory.append b r s).0 = ground (arith, h₃, same) in
      (
        b,
        writable,
        window,
        derived,
        listed,
        at_ends,
        ground (arith, allowed),
        ground (arith, allowed),
        bucket_for-Belongs r b derived,
        state,
        subst (λ x. Mem r (entry_of b x).records) (sym e) m,
      )
