-- ===== src/Cockroach/Routing.antt =====
-- What `read_range` of src/adapters/cockroach_durable.rs returns: the read of the bucket's entry,
-- also when the route comes from the cache.
use pulpitum.Base.{
  ℕ, min, ◌≡◌, refl, sym, ap, ◌∙◌, inl, inr, true, false, ◌&&◌, Option, none, some, List, [], ◌∷◌,
  arith, take, keep, map, keep-sort_by, get,
}
use pulpitum.Base.Text.{Text}
use pulpitum.Domain.Model.{
  BucketId, Record, Cursor, TimeRange, range_contains, is_after, key_order, record_key,
}
use pulpitum.Store.State.{
  BucketState, hot, archiving, archived, Result, ok, err, DurableBucketRead, hot_records,
  archive_key,
}
use pulpitum.Store.Memory.{Entry}
use pulpitum.Store.Fencing.{RoutesTo}
use pulpitum.Cockroach.Tables.{
  sent_range, sent_cursor, StateText, hot_text, archiving_text, archived_text, other_text,
  MetadataRow, RowKey, row_key_order, row_key, Tables, passes_checks, is_archived_text, i64_max,
}
use pulpitum.Cockroach.Statements.{in_bucket, to_record}
use pulpitum.Cockroach.Bodies.{select_records}
use pulpitum.Cockroach.Operations.{Client, archived_route}
use pulpitum.Cockroach.Reads.{
  ReadCall, routed_select, hot_range, route_of, joined, rows_records, routed_read_from_snapshot,
  read_rows, query_route, read_range, cached_or, caching,
}
use pulpitum.Cockroach.Entries.{row_entry, key_or_empty, entry_at}
use pulpitum.Cockroach.Checks.{IsChecked}

-- The read of an entry: the first records of the range after the cursor, or the archive's key.
abbrev pub entry_read : TimeRange → Option Cursor → ℕ → Entry → DurableBucketRead
entry_read range after limit e = routed e.state
  where
    selected : List Record
    selected =
        take limit (keep (λ r. range_contains range r.event_time && is_after after r) e.records)

    routed : BucketState → DurableBucketRead
    routed hot = hot_records selected
    routed archiving = hot_records selected
    routed (archived key deleted) = archive_key key

rows_records-map :
    (state : StateText) (key : Option Text) (rs : List Record)
    → rows_records
        (map (λ x. record { route_state = state; route_object_key = key; hot = some x }) rs)
      ≡ rs
unfolding rows_records
rows_records-map state key [] = refl
rows_records-map state key (r ∷ rs) = ap (r ∷◌) (rows_records-map state key rs)

read_joined :
    (state : StateText) (key : Option Text) (rs : List Record)
    → read_rows (joined state key rs) ≡ routed_read_from_snapshot state key rs
unfolding rows_records
read_joined state key [] = refl
read_joined state key (r ∷ rs) =
    ap (λ l. routed_read_from_snapshot state key (r ∷ l)) (rows_records-map state key rs)

hot_range_lem :
    (key : RowKey) (state : StateText) (range : TimeRange) (after : Option Cursor) (limit : ℕ)
    (t : Tables)
    → is_archived_text state ≡ false
    → hot_range key state range after limit t
      ≡ take limit
          (keep (λ r. range_contains range r.event_time && is_after after r) (select_records key t))
unfolding hot_range select_records
hot_range_lem key state range after limit t h = rw h (
    ap (take limit) (
      sym (
        keep-sort_by key_order record_key
          (λ r. range_contains range r.event_time && is_after after r)
          (map to_record (keep (in_bucket key) t.records)))))

hot_range_archived :
    (key : RowKey) (range : TimeRange) (after : Option Cursor) (limit : ℕ) (t : Tables)
    → hot_range key archived_text range after limit t ≡ []
unfolding hot_range
hot_range_archived key range after limit t = refl

-- The decision on the rows of the SELECT, by the state of the route.
routed_ok :
    (state : StateText) (r : MetadataRow) (range : TimeRange) (after : Option Cursor) (limit : ℕ)
    (key : RowKey) (t : Tables)
    → r.state ≡ state
    → passes_checks r ≡ true
    → routed_read_from_snapshot state r.archive_object_key (hot_range key state range after limit t)
      ≡ ok (
          entry_read range after limit
            (row_entry (some (record r { state = state })) (select_records key t)))
unfolding passes_checks routed_read_from_snapshot
routed_ok hot_text r range after limit key t is p =
    let bare : r.archive_object_key ≡ none = ground (arith, is, p) in
    rw (bare, hot_range_lem key hot_text range after limit t refl) refl
routed_ok archiving_text r range after limit key t is p =
    let bare : r.archive_object_key ≡ none = ground (arith, is, p) in
    rw (bare, hot_range_lem key archiving_text range after limit t refl) refl
routed_ok archived_text r range after limit key t is p = archived_ok r.archive_object_key refl
  where
    archived_ok :
        (o : Option Text)
        → r.archive_object_key ≡ o
        → routed_read_from_snapshot archived_text o
            (hot_range key archived_text range after limit t)
          ≡ ok (archive_key (key_or_empty o))
    archived_ok none e = absurd (ground (arith, is, p, e))
    archived_ok (some k) e = rw (hot_range_archived key range after limit t) refl
routed_ok (other_text x) r range after limit key t is p = absurd (ground (arith, is, p))

unrouted :
    (key : RowKey) (range : TimeRange) (after : Option Cursor) (limit : ℕ) (t : Tables)
    → routed_read_from_snapshot hot_text none (hot_range key hot_text range after limit t)
      ≡ ok (entry_read range after limit (row_entry none (select_records key t)))
unfolding routed_read_from_snapshot
unrouted key range after limit t = rw (hot_range_lem key hot_text range after limit t refl) refl

-- The routed SELECT is the read of the bucket's entry.
pub read_rows-routed_select :
    (key : RowKey) (range : TimeRange) (after : Option Cursor) (limit : ℕ) (t : Tables)
    → IsChecked t
    → read_rows (routed_select key range after limit t)
      ≡ ok (entry_read range after limit (entry_at key t))
unfolding routed_select entry_at
read_rows-routed_select key range after limit t checked =
    from (get row_key_order key t.metadata) refl
  where
    from :
        (o : Option MetadataRow)
        → get row_key_order key t.metadata ≡ o
        → read_rows (
            joined (route_of o).0 (route_of o).1 (hot_range key (route_of o).0 range after limit t))
          ≡ ok (entry_read range after limit (row_entry o (select_records key t)))
    from none found =
        read_joined hot_text none (hot_range key hot_text range after limit t)
        ∙ unrouted key range after limit t
    from (some r) found =
        read_joined r.state r.archive_object_key (hot_range key r.state range after limit t)
        ∙ routed_ok r.state r range after limit key t refl (checked key r found)

-- Every cached route is that of its bucket.
abbrev pub IsSound : Client → Type 0
IsSound c =
    (b : BucketId) (key : Text)
    → archived_route b c.route_cache ≡ some key
    → RoutesTo key (entry_at (row_key b) c.tables)

routed_read :
    (range : TimeRange) (after : Option Cursor) (limit : ℕ) (key : Text) (e : Entry)
    → RoutesTo key e
    → entry_read range after limit e ≡ archive_key key
routed_read range after limit key e (inl s) = rw s refl
routed_read range after limit key e (inr s) = rw s refl

caching_result :
    (b : BucketId) (instant : ℕ) (c : Client) (r : Result DurableBucketRead)
    → (caching b instant c r).1 ≡ r
caching_result b instant c (ok (archive_key key)) = refl
caching_result b instant c (ok (hot_records rs)) = refl
caching_result b instant c (err e) = refl

-- A routed read by a client that gets a connection and an answer, whose cached routes are those of
-- the buckets, from tables that pass the CHECK constraints: it succeeds with the object that the
-- bucket routes to, or with the first `limit` of its hot records in the range and after the
-- cursor as the driver sends them, in clustering order; never with stale rows, and also when the route was cached.
pub read_range_ok :
    (call : ReadCall) (b : BucketId) (range : TimeRange) (after : Option Cursor) (limit : ℕ)
    (c : Client)
    → call.connects ≡ true
    → call.answers ≡ true
    → IsChecked c.tables
    → IsSound c
    → (read_range call b range after limit c).1
      ≡ ok (
          entry_read
            (sent_range call.timestamptz range)
            (sent_cursor call.timestamptz after)
            (min limit i64_max)
            (entry_at (row_key b) c.tables))
unfolding read_range
read_range_ok call b range after limit c connects answers checked sound =
    from (archived_route b c.route_cache) refl
  where
    from :
        (o : Option Text)
        → archived_route b c.route_cache ≡ o
        → (cached_or o c (query_route call b range after limit c)).1
          ≡ ok (
              entry_read
                (sent_range call.timestamptz range)
                (sent_cursor call.timestamptz after)
                (min limit i64_max)
                (entry_at (row_key b) c.tables))
    from (some key) cached = ap ok (
        sym (
          routed_read (sent_range call.timestamptz range) (sent_cursor call.timestamptz after)
            (min limit i64_max) key (entry_at (row_key b) c.tables) (sound b key cached)))
    from none missed =
        rw (connects, answers)
          (caching_result b call.instant c _
            ∙ read_rows-routed_select (row_key b) (sent_range call.timestamptz range)
                (sent_cursor call.timestamptz after) (min limit i64_max) c.tables checked)
