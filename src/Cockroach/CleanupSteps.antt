-- ===== src/Cockroach/CleanupSteps.antt =====
-- The deletion of the hot rows in src/adapters/cockroach_durable.rs as a step of the lifecycle.
use pulpitum.Base.{
  ◌≡◌, refl, sym, ap, subst, ◌∙◌, inl, inr, true, false, not, Option, none, some, List, [], ◌∷◌,
  arith, keep, map, sort_by, get, put, get-put, eqb, eqb_iff, Bool-cases,
}
use pulpitum.Domain.Model.{Record, DateTime, key_order, record_key}
use pulpitum.Store.State.{archived, ArchiveSession}
use pulpitum.Store.Lifecycle.{stays, Step, cleaned}
use pulpitum.Cockroach.Tables.{
  StateText, MetadataRow, RowKey, row_key_order, row_key, RecordRow, Tables, is_archived_text,
}
use pulpitum.Cockroach.Statements.{done, update, in_bucket, to_record}
use pulpitum.Cockroach.Bodies.{
  delete_body, delete_records, select_records, is_cleanable, to_cleaned,
}
use pulpitum.Cockroach.Entries.{
  row_entry, route_state, key_or_empty, entry_at, Steps, in_bucket-key, key_of_row,
}
use pulpitum.Cockroach.Refinement.{pending_route}

in_one :
    (key j : RowKey) (row : RecordRow) → in_bucket key row ≡ true → in_bucket j row ≡ true → key ≡ j
in_one key j row x y =
    sym ((eqb_iff row_key_order (key_of_row row) key).0 (sym (in_bucket-key key row) ∙ x))
    ∙ (eqb_iff row_key_order (key_of_row row) j).0 (sym (in_bucket-key j row) ∙ y)

-- Rows that another bucket's DELETE keeps, and those that its own does not.
select_kept :
    (key j : RowKey) (t : Tables)
    → eqb row_key_order key j ≡ false
    → select_records j (record t { records = keep (λ row. not (in_bucket key row)) t.records })
      ≡ select_records j t
unfolding select_records
select_kept key j t differ =
    ap (λ rows. sort_by key_order record_key (map to_record rows)) (kept t.records)
  where
    elsewhere : (row : RecordRow) → in_bucket j row ≡ true → in_bucket key row ≡ false
    elsewhere row y = elim (Bool-cases (in_bucket key row)) [
      | inr n ↦ n
      | inl x ↦
          let same : eqb row_key_order key j ≡ true =
            (eqb_iff row_key_order key j).1 (in_one key j row x y) in
          absurd (ground (arith, same, differ))
    ]

    kept :
        (rows : List RecordRow)
        → keep (in_bucket j) (keep (λ row. not (in_bucket key row)) rows) ≡ keep (in_bucket j) rows
    kept [] = refl
    kept (row ∷ rows) = ground (arith, kept rows, elsewhere row)

select_deleted :
    (key : RowKey) (t : Tables)
    → select_records key (record t { records = keep (λ row. not (in_bucket key row)) t.records })
      ≡ []
unfolding select_records sort_by
select_deleted key t =
    ap (λ rows. sort_by key_order record_key (map to_record rows)) (gone t.records)
  where
    gone :
        (rows : List RecordRow)
        → keep (in_bucket key) (keep (λ row. not (in_bucket key row)) rows) ≡ []
    gone [] = refl
    gone (row ∷ rows) = ground (arith, gone rows)

cleaned_route :
    (r : MetadataRow) (s : StateText)
    → is_archived_text s ≡ true
    → route_state s (to_cleaned r) ≡ archived (key_or_empty r.archive_object_key) true
cleaned_route r s h = ground arith

row_cleaned :
    (r : MetadataRow) (rs : List Record)
    → is_archived_text r.state ≡ true
    → r.hot_deleted ≡ false
    → Step (row_entry (some r) rs) (row_entry (some (to_cleaned r)) [])
row_cleaned r rs state pending =
    cleaned (key_or_empty r.archive_object_key) (pending_route r r.state state pending)
      (cleaned_route r r.state state) refl refl

abbrev without : RowKey → Tables → List RecordRow
without key t = keep (λ row. not (in_bucket key row)) t.records

cleaned-Steps :
    (key : RowKey) (t : Tables) (r : MetadataRow)
    → get row_key_order key t.metadata ≡ some r
    → is_archived_text r.state ≡ true
    → r.hot_deleted ≡ false
    → Steps t (record {
      metadata = put row_key_order key (to_cleaned r) t.metadata;
      records = without key t;
    })
unfolding entry_at select_records
cleaned-Steps key t r found state pending j = elim (Bool-cases (eqb row_key_order key j)) [
  | inr differ ↦
      let kept : select_records j (record t { records = without key t }) ≡ select_records j t =
        select_kept key j t differ in
      rw (get-put row_key_order j key (to_cleaned r) t.metadata, differ)
        (subst (λ rs. Step (entry_at j t) (row_entry (get row_key_order j t.metadata) rs))
          (sym kept) (stays (entry_at j t)))
  | inl here ↦
      let same : key ≡ j = (eqb_iff row_key_order key j).0 here in
      let gone : select_records key (record t { records = without key t }) ≡ [] =
        select_deleted key t in
      rw (get-put row_key_order j key (to_cleaned r) t.metadata, here, ← same, found)
        (subst
          (λ rs.
            Step (row_entry (some r) (select_records key t)) (row_entry (some (to_cleaned r)) rs))
          (sym gone) (row_cleaned r (select_records key t) state pending))
]

-- A clean-up that commits: the row was pending, and what it leaves.
delete_body_ok :
    (session : ArchiveSession) (now : DateTime) (t t' : Tables) (o : Option MetadataRow)
    → get row_key_order (row_key session.bucket) t.metadata ≡ o
    → delete_body session now t ≡ done t' tt
    → (r : MetadataRow) × (o ≡ some r)
      × (is_cleanable session now r ≡ true)
      × (record {
        metadata = put row_key_order (row_key session.bucket) (to_cleaned r) t.metadata;
        records = without (row_key session.bucket) t;
      }
          ≡ t')
unfolding delete_body delete_records update
delete_body_ok session now t t' none found h = absurd (ground (arith, found, h))
delete_body_ok session now t t' (some r) found h =
    (r, refl, ground (arith, found, h), ground (arith, found, h))

pub delete_body-Steps :
    (session : ArchiveSession) (now : DateTime) (t t' : Tables)
    → delete_body session now t ≡ done t' tt
    → Steps t t'
delete_body-Steps session now t t' h =
    let (r, found, pending, same) =
      delete_body_ok session now t t' (get row_key_order (row_key session.bucket) t.metadata) refl
        h in
    subst (Steps t) same (
      cleaned-Steps (row_key session.bucket) t r found (ground (arith, pending))
        (ground (arith, pending)))
