-- ===== src/Cockroach/AppendSteps.antt =====
-- The append of src/adapters/cockroach_durable.rs as a step of the lifecycle.
use pulpitum.Base.{
  ◌≡◌, refl, sym, ap, subst, ◌∙◌, true, Option, none, some, [], ◌∷◌, ◌++◌, arith, get,
}
use pulpitum.Domain.Model.{BucketId, Record}
use pulpitum.Store.State.{BucketState, hot, state_eq}
use pulpitum.Cockroach.Tables.{MetadataRow, RowKey, row_key_order, row_key, Tables, metadata_state}
use pulpitum.Cockroach.Statements.{
  done, insert_metadata, state_from_metadata, known_state, insert_record, to_row,
}
use pulpitum.Cockroach.Bodies.{append_body, append_hot, only_hot}
use pulpitum.Cockroach.Entries.{entry_at, Steps, insert_metadata-same, append_record-Step}
use pulpitum.Cockroach.Refinement.{next_statement-eq-done, same-Steps}

-- The state that a transaction reads is that of the bucket's entry.
known_state-entry :
    (j : RowKey) (o : Option MetadataRow) (s s' : Tables) (st : BucketState)
    → get row_key_order j s.metadata ≡ o
    → known_state o s ≡ done s' st
    → state_eq st hot ≡ true
    → (s' ≡ s) × ((entry_at j s).state ≡ hot)
unfolding entry_at metadata_state
known_state-entry j none s s' st found h is = cc
known_state-entry j (some r) s s' st found h is = (ground arith, rw found (ground arith))

only_hot_ok :
    (st : BucketState) (s s' : Tables)
    → only_hot st s ≡ done s' tt
    → (s' ≡ s) × (state_eq st hot ≡ true)
only_hot_ok st s s' h = ground arith

insert_record_ok :
    (b : BucketId) (r : Record) (s t' : Tables)
    → insert_record b r s ≡ done t' tt
    → record s { records = s.records ++ to_row b r ∷ [] } ≡ t'
unfolding insert_record
insert_record_ok b r s t' h = ground arith

append_hot-Steps :
    (b : BucketId) (r : Record) (t t' : Tables)
    → r.partition_key ≡ b.partition_key
    → append_hot b r t ≡ done t' tt
    → Steps t t'
unfolding append_hot state_from_metadata
append_hot-Steps b r t t' own h =
    let (s1, _, inserted, h1) = next_statement-eq-done (insert_metadata b t) _ h in
    let (s2, st, known, h2) = next_statement-eq-done (state_from_metadata b s1) _ h1 in
    let (s3, _, opened, h3) = next_statement-eq-done (only_hot st s2) _ h2 in
    let (still, is) = only_hot_ok st s2 s3 opened in
    let (kept, hot_entry) =
      known_state-entry (row_key b) (get row_key_order (row_key b) s1.metadata) s1 s2 st refl known
        is in
    let same : s3 ≡ s1 = still ∙ kept in
    let stored : record s1 { records = s1.records ++ to_row b r ∷ [] } ≡ t' =
      insert_record_ok b r s1 t' (subst (λ s. insert_record b r s ≡ done t' tt) same h3) in
    let key : row_key b ≡ (b.table_id, (r.partition_key, b.key)) =
      ap (λ p. (b.table_id, (p, b.key))) (sym own) in
    same-Steps t s1 t' (insert_metadata-same b t s1 inserted) (
      subst (Steps s1) stored (
        append_record-Step (to_row b r) s1
          (subst (λ k. (entry_at k s1).state ≡ hot) key hot_entry)))

pub append_body-Steps :
    (b : BucketId) (r : Record) (t t' : Tables)
    → r.partition_key ≡ b.partition_key
    → append_body b r t ≡ done t' tt
    → Steps t t'
unfolding append_body
append_body-Steps b r t t' own h = append_hot-Steps b r t t' own (ground arith)
