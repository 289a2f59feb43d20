-- ===== src/Cockroach/Entries.antt =====
-- The entry of a bucket that the tables of src/adapters/cockroach_durable.rs stand for, and what a
-- statement does to it.
use pulpitum.Base.{
  ◌≡◌, refl, sym, ap, subst, ◌∙◌, inl, inr, Bool, true, false, Option, none, some, List, [], ◌∷◌,
  ◌++◌, arith, keep, map, sort_by, sort_by-append, keep-append, append_nil, get, put, get-put, eqb,
  eqb_iff, Bool-cases,
}
use pulpitum.Base.Text.{Text}
use pulpitum.Domain.Model.{BucketId, Record, key_order, record_key}
use pulpitum.Store.State.{BucketState, hot, archiving, archived}
use pulpitum.Store.Memory.{Entry}
use pulpitum.Store.Lifecycle.{stays, Step, appended}
use pulpitum.Cockroach.Tables.{
  StateText, hot_text, archiving_text, archived_text, other_text, MetadataRow, RowKey,
  row_key_order, row_key, RecordRow, Tables, new_row,
}
use pulpitum.Cockroach.Statements.{done, updated, inserted, insert_metadata, in_bucket, to_record}
use pulpitum.Cockroach.Bodies.{select_records}

abbrev pub key_or_empty : Option Text → Text
key_or_empty none = []
key_or_empty (some key) = key

abbrev pub route_state : StateText → MetadataRow → BucketState
route_state hot_text r = hot
route_state archiving_text r = archiving
route_state archived_text r = archived (key_or_empty r.archive_object_key) r.hot_deleted
route_state (other_text t) r = hot

-- A bucket without a row is hot, as it is for `state` and `read_range`.
abbrev pub row_entry : Option MetadataRow → List Record → Entry
row_entry none rs = record {
  state = hot;
  generation = 0;
  archive_owner_token = none;
  archive_owner_expires_at = none;
  next_attempt_at = none;
  records = rs;
}
row_entry (some r) rs = record {
  state = route_state r.state r;
  generation = r.generation;
  archive_owner_token = r.archive_owner_token;
  archive_owner_expires_at = r.archive_owner_expires_at;
  next_attempt_at = r.archive_next_attempt_at;
  records = rs;
}

unfoldable pub entry_at : RowKey → Tables → Entry
unfolding select_records
entry_at key t = row_entry (get row_key_order key t.metadata) (select_records key t)

-- Every bucket goes through at most one step of its lifecycle.
abbrev pub Steps : Tables → Tables → Type 0
Steps t t' = (key : RowKey) → Step (entry_at key t) (entry_at key t')

abbrev pub RowSteps : (MetadataRow → Bool) → (MetadataRow → MetadataRow) → Type 0
RowSteps guard set =
    (r : MetadataRow) (rs : List Record)
    → guard r ≡ true
    → Step (row_entry (some r) rs) (row_entry (some (set r)) rs)

-- A new row for a key, and the same records: a relation between entries, from that of the key.
put_at :
    (P : Entry → Entry → Type 0) (key j : RowKey) (old : Option MetadataRow) (new : MetadataRow)
    (t : Tables)
    → get row_key_order key t.metadata ≡ old
    → ((e : Entry) → P e e)
    → P (row_entry old (select_records key t)) (row_entry (some new) (select_records key t))
    → P (entry_at j t) (entry_at j (record t { metadata = put row_key_order key new t.metadata }))
unfolding entry_at select_records
put_at P key j old new t found same step = elim (Bool-cases (eqb row_key_order key j)) [
  | inl here ↦
      let e : key ≡ j = (eqb_iff row_key_order key j).0 here in
      rw (get-put row_key_order j key new t.metadata, here, ← e, found) step
  | inr differ ↦ rw (get-put row_key_order j key new t.metadata, differ) (same (entry_at j t))
]

pub updated-Steps :
    (key : RowKey) (guard : MetadataRow → Bool) (set : MetadataRow → MetadataRow) (t t' : Tables)
    (row : Option MetadataRow)
    → RowSteps guard set
    → (o : Option MetadataRow) → get row_key_order key t.metadata ≡ o
    → updated key guard set t o ≡ done t' row
    → Steps t t'
updated-Steps key guard set t t' row steps none found h j =
    let same : t ≡ t' = ground arith in
    subst (λ s. Step (entry_at j t) (entry_at j s)) same (stays (entry_at j t))
updated-Steps key guard set t t' row steps (some r) found h j = elim (Bool-cases (guard r)) [
  | inr n ↦
      let same : t ≡ t' = ground (arith, n) in
      subst (λ s. Step (entry_at j t) (entry_at j s)) same (stays (entry_at j t))
  | inl y ↦
      let same : record t { metadata = put row_key_order key (set r) t.metadata } ≡ t' =
        ground (arith, y) in
      subst (λ s. Step (entry_at j t) (entry_at j s)) same
        (put_at Step key j (some r) (set r) t found stays (steps r (select_records key t) y))
]

new_entry : (b : BucketId) (rs : List Record) → row_entry none rs ≡ row_entry (some (new_row b)) rs
unfolding new_row
new_entry b rs = refl

inserted-same :
    (b : BucketId) (t t' : Tables) (j : RowKey) (o : Option MetadataRow)
    → get row_key_order (row_key b) t.metadata ≡ o
    → inserted b t o ≡ done t' tt
    → entry_at j t ≡ entry_at j t'
inserted-same b t t' j (some r) found h = ap (entry_at j) (ground arith)
inserted-same b t t' j none found h =
    let same : record t { metadata = put row_key_order (row_key b) (new_row b) t.metadata } ≡ t' =
      ground arith in
    subst (λ s. entry_at j t ≡ entry_at j s) same
      (put_at (λ e e'. e ≡ e') (row_key b) j none (new_row b) t found (λ e. refl)
        (new_entry b (select_records (row_key b) t)))

-- A new metadata row stands for what a missing one does.
pub insert_metadata-same :
    (b : BucketId) (t t' : Tables)
    → insert_metadata b t ≡ done t' tt
    → (j : RowKey) → entry_at j t ≡ entry_at j t'
unfolding insert_metadata
insert_metadata-same b t t' h j =
    inserted-same b t t' j (get row_key_order (row_key b) t.metadata) refl h

pub in_bucket-key :
    (key : RowKey) (row : RecordRow)
    → in_bucket key row ≡ eqb row_key_order (row.table_id, (row.partition_key, row.bucket_key)) key
in_bucket-key (a, (b, c)) row = ground arith

map-append :
    (xs ys : List RecordRow) → map to_record (xs ++ ys) ≡ map to_record xs ++ map to_record ys
map-append [] ys = refl
map-append (x ∷ xs) ys = ap (to_record x ∷◌) (map-append xs ys)

-- What a new row adds to a bucket, and to the others.
select_own :
    (j : RowKey) (row : RecordRow) (t : Tables)
    → in_bucket j row ≡ true
    → select_records j (record t { records = t.records ++ row ∷ [] })
      ≡ sort_by key_order record_key (select_records j t ++ to_record row ∷ [])
unfolding select_records
select_own j row t y =
    rw
      (
        keep-append (in_bucket j) t.records (row ∷ []),
        y,
        map-append (keep (in_bucket j) t.records) (row ∷ []),
      )
      (sym (
        sort_by-append key_order record_key (map to_record (keep (in_bucket j) t.records))
          (to_record row ∷ [])))

select_other :
    (j : RowKey) (row : RecordRow) (t : Tables)
    → in_bucket j row ≡ false
    → select_records j (record t { records = t.records ++ row ∷ [] }) ≡ select_records j t
unfolding select_records
select_other j row t n =
    rw
      (keep-append (in_bucket j) t.records (row ∷ []), n, append_nil (keep (in_bucket j) t.records))
      refl

abbrev pub key_of_row : RecordRow → RowKey
key_of_row row = (row.table_id, (row.partition_key, row.bucket_key))

-- A new record goes to the bucket of its row, which must be hot.
pub append_record-Step :
    (row : RecordRow) (t : Tables)
    → (entry_at (key_of_row row) t).state ≡ hot
    → Steps t (record t { records = t.records ++ row ∷ [] })
unfolding entry_at
append_record-Step row t h j = elim (Bool-cases (in_bucket j row)) [
  | inr n ↦ rw (select_other j row t n) (stays (entry_at j t))
  | inl y ↦
      let here : key_of_row row ≡ j =
        (eqb_iff row_key_order (key_of_row row) j).0 (sym (in_bucket-key j row) ∙ y) in
      let state : (row_entry (get row_key_order j t.metadata) (select_records j t)).state ≡ hot =
        subst (λ k. (row_entry (get row_key_order k t.metadata) (select_records k t)).state ≡ hot)
          here h in
      opened (get row_key_order j t.metadata) (to_record row) (select_records j t)
        (select_records j (record t { records = t.records ++ row ∷ [] })) state
        (select_own j row t y)
]
  where
    opened :
        (o : Option MetadataRow) (r : Record) (rs rs' : List Record)
        → (row_entry o rs).state ≡ hot
        → rs' ≡ sort_by key_order record_key (rs ++ r ∷ [])
        → Step (row_entry o rs) (row_entry o rs')
    opened none r rs rs' s e = appended r refl refl refl e
    opened (some m) r rs rs' s e = appended r s s refl e
