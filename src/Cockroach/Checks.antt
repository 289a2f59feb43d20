-- ===== src/Cockroach/Checks.antt =====
-- The CHECK constraints of the metadata table of src/adapters/cockroach_schema.rs, which no
-- transaction of src/adapters/cockroach_durable.rs would break.
use pulpitum.Base.{
  ◌+◌, ◌≡◌, refl, subst, inl, inr, Bool, true, Option, none, some, List, [], ◌∷◌, arith, ltb, get,
  put, get-put, eqb, Bool-cases,
}
use pulpitum.Base.Text.{Text}
use pulpitum.Domain.Model.{BucketId, Record, DateTime}
use pulpitum.Store.State.{ok, ArchiveSession}
use pulpitum.Cockroach.Tables.{
  MetadataRow, RowKey, row_key_order, row_key, Tables, metadata_state, passes_checks, new_row,
}
use pulpitum.Cockroach.Statements.{
  Outcome, done, failed, Body, next_statement, updated, update, inserted, insert_metadata,
  state_from_metadata, insert_record,
}
use pulpitum.Cockroach.Bodies.{
  append_body, append_hot, only_hot, claim_archive_body, claim_cleanup_body, claimed_session,
  renew_body, defer_archive_body, defer_cleanup_body, begin_body, begun, snapshot_body,
  publish_body, delete_body, delete_records, abort_body, unless_stale, is_claimable,
  is_due_claimable, to_claimed, to_archiving, is_cleanup_claimable, to_cleanup_claimed,
  is_renewable, to_renewed, is_fenced, to_deferred, is_cleanable, to_cleanup_deferred, to_published,
  to_cleaned, to_hot, five_minutes,
}
use pulpitum.Cockroach.Entries.{route_state}
use pulpitum.Cockroach.Refinement.{next_statement-eq-done, begun-Reads}
use pulpitum.Cockroach.History.{
  Commit, appends, claims, cleanup_claims, begins, renews, defers, cleanup_defers, publishes,
  snapshots, deletes, aborts, apply, run, after,
}

-- Every row passes the CHECK constraints.
abbrev pub IsChecked : Tables → Type 0
IsChecked t =
    (j : RowKey) (r : MetadataRow)
    → get row_key_order j t.metadata ≡ some r
    → passes_checks r ≡ true

abbrev Keeps : (MetadataRow → Bool) → (MetadataRow → MetadataRow) → Type 0
Keeps guard set =
    (r : MetadataRow) → guard r ≡ true → passes_checks r ≡ true → passes_checks (set r) ≡ true

put-IsChecked :
    (key : RowKey) (new : MetadataRow) (t : Tables)
    → passes_checks new ≡ true
    → IsChecked t
    → IsChecked (record t { metadata = put row_key_order key new t.metadata })
put-IsChecked key new t passes checked j r found = elim (Bool-cases (eqb row_key_order key j)) [
  | inl here ↦
      let new_is : new ≡ r =
        ground (arith, get-put row_key_order j key new t.metadata, here, found) in
      subst (λ x. passes_checks x ≡ true) new_is passes
  | inr differ ↦
      checked j r (ground (arith, get-put row_key_order j key new t.metadata, differ, found))
]

updated-IsChecked :
    (key : RowKey) (guard : MetadataRow → Bool) (set : MetadataRow → MetadataRow) (t t' : Tables)
    (row : Option MetadataRow)
    → Keeps guard set
    → IsChecked t
    → (o : Option MetadataRow) → get row_key_order key t.metadata ≡ o
    → updated key guard set t o ≡ done t' row
    → IsChecked t'
updated-IsChecked key guard set t t' row keeps checked none found h =
    let same : t ≡ t' = ground arith in subst IsChecked same checked
updated-IsChecked key guard set t t' row keeps checked (some r) found h =
    elim (Bool-cases (guard r)) [
      | inr n ↦ let same : t ≡ t' = ground (arith, n) in subst IsChecked same checked
      | inl y ↦
          let same : record t { metadata = put row_key_order key (set r) t.metadata } ≡ t' =
            ground (arith, y) in
          subst IsChecked same
            (put-IsChecked key (set r) t (keeps r y (checked key r found)) checked)
    ]

-- A commit of `body` leaves every row checked.
abbrev Safe : {A : Type 0} → Body A → Type 0
Safe body = (t t' : Tables) (v : _) → body t ≡ done t' v → IsChecked t → IsChecked t'

update-Safe :
    (b : BucketId) (guard : MetadataRow → Bool) (set : MetadataRow → MetadataRow)
    → Keeps guard set
    → Safe (update b guard set)
unfolding update
update-Safe b guard set keeps t t' v h checked =
    updated-IsChecked (row_key b) guard set t t' v keeps checked
      (get row_key_order (row_key b) t.metadata) refl h

then-Safe :
    {A B : Type 0} (m : Body A) (f : A → Body B)
    → Safe m
    → ((a : A) → Safe (f a))
    → Safe (λ t. next_statement (m t) f)
then-Safe m f first rest t t' v h checked =
    let (s, a, one, two) = next_statement-eq-done (m t) f h in
    rest a s t' v two (first t s a one checked)

reads-Safe :
    {A : Type 0} (m : Body A) → ((t t' : Tables) (v : A) → m t ≡ done t' v → t ≡ t') → Safe m
reads-Safe m reads t t' v h checked = subst IsChecked (reads t t' v h) checked

unless_stale-Safe : (row : Option MetadataRow) → Safe (unless_stale row)
unless_stale-Safe none t t' v h checked = cc
unless_stale-Safe (some r) t t' v h checked =
    let same : t ≡ t' = ground arith in subst IsChecked same checked

new_row-passes : (b : BucketId) → ltb b.start b.end ≡ true → passes_checks (new_row b) ≡ true
unfolding passes_checks new_row
new_row-passes b fits = rw fits refl

insert_metadata-Safe : (b : BucketId) → Safe (insert_metadata b)
unfolding insert_metadata
insert_metadata-Safe b t t' v h checked = made (get row_key_order (row_key b) t.metadata) h
  where
    made : (o : Option MetadataRow) → inserted b t o ≡ done t' v → IsChecked t'
    made (some r) h = let same : t ≡ t' = ground arith in subst IsChecked same checked
    made none h =
        let fits : ltb b.start b.end ≡ true = ground (arith, h) in
        let same : record t { metadata = put row_key_order (row_key b) (new_row b) t.metadata }
            ≡ t' =
          ground (arith, h) in
        subst IsChecked same
          (put-IsChecked (row_key b) (new_row b) t (new_row-passes b fits) checked)

give-Safe : {A B : Type 0} (g : A → B) (a : A) → Safe (λ t. done t (g a))
give-Safe g a t t' v h checked = let same : t ≡ t' = ground arith in subst IsChecked same checked

claim_archive_body-Safe :
    (b : BucketId) (token : Text) (e now : DateTime) → Safe (claim_archive_body b token e now)
unfolding claim_archive_body passes_checks
claim_archive_body-Safe b token e now =
    then-Safe (update b (is_due_claimable now) (to_claimed token e)) _
      (update-Safe b (is_due_claimable now) (to_claimed token e) (λ r g p. ground (arith, g, p)))
      (give-Safe (claimed_session b token))

claim_cleanup_body-Safe :
    (b : BucketId) (token : Text) (e now : DateTime) → Safe (claim_cleanup_body b token e now)
unfolding claim_cleanup_body passes_checks
claim_cleanup_body-Safe b token e now =
    then-Safe (update b (is_cleanup_claimable now) (to_cleanup_claimed token e)) _
      (update-Safe b (is_cleanup_claimable now) (to_cleanup_claimed token e)
        (λ r g p. ground (arith, g, p)))
      (give-Safe (claimed_session b token))

fenced-Safe :
    (b : BucketId) (guard : MetadataRow → Bool) (set : MetadataRow → MetadataRow)
    → Keeps guard set
    → Safe (λ t. next_statement (update b guard set t) unless_stale)
fenced-Safe b guard set keeps =
    then-Safe (update b guard set) unless_stale (update-Safe b guard set keeps) unless_stale-Safe

renew_body-Safe : (n : ArchiveSession) (e now : DateTime) → Safe (renew_body n e now)
unfolding renew_body passes_checks
renew_body-Safe n e now =
    fenced-Safe n.bucket (is_renewable n now) (to_renewed e) (λ r g p. ground (arith, g, p))

defer_archive_body-Safe :
    (n : ArchiveSession) (e now : DateTime) → Safe (defer_archive_body n e now)
unfolding defer_archive_body passes_checks
defer_archive_body-Safe n e now =
    fenced-Safe n.bucket (is_fenced n now) (to_deferred e) (λ r g p. ground (arith, g, p))

defer_cleanup_body-Safe :
    (n : ArchiveSession) (e now : DateTime) → Safe (defer_cleanup_body n e now)
unfolding defer_cleanup_body passes_checks
defer_cleanup_body-Safe n e now =
    fenced-Safe n.bucket (is_cleanable n now) (to_cleanup_deferred e)
      (λ r g p. ground (arith, g, p))

publish_body-Safe :
    (n : ArchiveSession) (key : Text) (now : DateTime) → Safe (publish_body n key now)
unfolding publish_body passes_checks
publish_body-Safe n key now =
    fenced-Safe n.bucket (is_fenced n now) (to_published key) (λ r g p. ground (arith, g, p))

abort_body-Safe : (n : ArchiveSession) (now : DateTime) → Safe (abort_body n now)
unfolding abort_body passes_checks
abort_body-Safe n now =
    fenced-Safe n.bucket (is_fenced n now) to_hot (λ r g p. ground (arith, g, p))

delete_records-Safe : (n : ArchiveSession) (now : DateTime) → Safe (delete_records n now)
unfolding delete_records
delete_records-Safe n now t t' v h checked =
    let same : t.metadata ≡ t'.metadata = ground (arith, h) in
    subst (λ m. IsChecked (record t { metadata = m })) same checked

delete_body-Safe : (n : ArchiveSession) (now : DateTime) → Safe (delete_body n now)
unfolding delete_body passes_checks
delete_body-Safe n now =
    then-Safe (delete_records n now) _ (delete_records-Safe n now)
      (λ _. fenced-Safe n.bucket (is_cleanable n now) to_cleaned (λ r g p. ground (arith, g, p)))

begin_body-Safe : (b : BucketId) (token : Text) (now : DateTime) → Safe (begin_body b token now)
unfolding begin_body passes_checks
begin_body-Safe b token now = then-Safe (insert_metadata b) _ (insert_metadata-Safe b) (λ _.
    then-Safe (update b (is_claimable now) (to_archiving token (now + five_minutes)))
      (begun b token)
      (update-Safe b (is_claimable now) (to_archiving token (now + five_minutes))
        (λ r g p. ground (arith, g, p)))
      (λ row. reads-Safe (begun b token row) (begun-Reads b token row)))

state_from_metadata-Safe : (b : BucketId) → Safe (state_from_metadata b)
unfolding state_from_metadata
state_from_metadata-Safe b = reads-Safe _ (λ t t' v h. ground (arith, h))

append_hot-Safe : (b : BucketId) (r : Record) → Safe (append_hot b r)
unfolding append_hot insert_record
append_hot-Safe b r = then-Safe (insert_metadata b) _ (insert_metadata-Safe b) (λ _.
    then-Safe (state_from_metadata b) _ (state_from_metadata-Safe b) (λ state.
      then-Safe (only_hot state) _ (reads-Safe (only_hot state) (λ t t' v h. ground (arith, h)))
        (λ _ t t' v h checked.
          let same : t.metadata ≡ t'.metadata = ground (arith, h) in
          subst (λ m. IsChecked (record t { metadata = m })) same checked)))

append_body-Safe : (b : BucketId) (r : Record) → Safe (append_body b r)
unfolding append_body
append_body-Safe b r t t' v h checked = append_hot-Safe b r t t' v (ground (arith, h)) checked

snapshot_body-Safe : (n : ArchiveSession) (now : DateTime) → Safe (snapshot_body n now)
unfolding snapshot_body
snapshot_body-Safe n now = reads-Safe _ (λ t t' v h. ground (arith, h))

after-IsChecked :
    {A : Type 0} (t : Tables) (body : Body A)
    → Safe body
    → IsChecked t
    → IsChecked (after t (body t))
after-IsChecked {A} t body safe checked = by (body t) refl
  where
    by : (o : Outcome A) → body t ≡ o → IsChecked (after t o)
    by (done t' v) h = safe t t' v h checked
    by (failed e) h = checked

apply-IsChecked : (c : Commit) (t : Tables) → IsChecked t → IsChecked (apply c t)
unfolding apply
apply-IsChecked (appends b r) t = after-IsChecked t _ (append_body-Safe b r)
apply-IsChecked (claims b token e now) t =
    after-IsChecked t _ (claim_archive_body-Safe b token e now)
apply-IsChecked (cleanup_claims b token e now) t =
    after-IsChecked t _ (claim_cleanup_body-Safe b token e now)
apply-IsChecked (begins b token now) t = after-IsChecked t _ (begin_body-Safe b token now)
apply-IsChecked (renews n e now) t = after-IsChecked t _ (renew_body-Safe n e now)
apply-IsChecked (defers n e now) t = after-IsChecked t _ (defer_archive_body-Safe n e now)
apply-IsChecked (cleanup_defers n e now) t = after-IsChecked t _ (defer_cleanup_body-Safe n e now)
apply-IsChecked (publishes n key now) t = after-IsChecked t _ (publish_body-Safe n key now)
apply-IsChecked (snapshots n now) t = after-IsChecked t _ (snapshot_body-Safe n now)
apply-IsChecked (deletes n now) t = after-IsChecked t _ (delete_body-Safe n now)
apply-IsChecked (aborts n now) t = after-IsChecked t _ (abort_body-Safe n now)

pub run-IsChecked : (cs : List Commit) (t : Tables) → IsChecked t → IsChecked (run cs t)
unfolding run
run-IsChecked [] t checked = checked
run-IsChecked (c ∷ cs) t checked = run-IsChecked cs (apply c t) (apply-IsChecked c t checked)

-- The state of a row that passes the CHECK constraints.
pub metadata_state_ok :
    (r : MetadataRow) → passes_checks r ≡ true → metadata_state r ≡ ok (route_state r.state r)
unfolding metadata_state passes_checks
metadata_state_ok r h = ground (arith, h)

-- From tables whose rows pass the CHECK constraints, of bounds, state, owner, lease and object key,
-- every history of committed transactions keeps them so: the code's updates never run into them,
-- and the state of every row is read without an error.
pub run-metadata_state :
    (cs : List Commit) (t : Tables)
    → IsChecked t
    → (j : RowKey) (r : MetadataRow) → get row_key_order j (run cs t).metadata ≡ some r
    → (passes_checks r ≡ true) × (metadata_state r ≡ ok (route_state r.state r))
run-metadata_state cs t checked j r found =
    let passes : passes_checks r ≡ true = run-IsChecked cs t checked j r found in
    (passes, metadata_state_ok r passes)
