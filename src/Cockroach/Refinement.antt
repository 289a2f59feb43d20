-- ===== src/Cockroach/Refinement.antt =====
-- The transactions of src/adapters/cockroach_durable.rs that update one row of the bucket table:
-- at each bucket they are a step of the same lifecycle as that of the in-memory store.
use pulpitum.Base.{
  ◌+◌, ◌≡◌, refl, subst, ◌⊎◌, inl, inr, Bool, true, false, ◌&&◌, ◌||◌, Option, none, some, List,
  arith, get,
}
use pulpitum.Base.Text.{Text}
use pulpitum.Domain.Model.{BucketId, Record, DateTime}
use pulpitum.Store.State.{hot, archiving, archived, ArchiveSession}
use pulpitum.Store.Lifecycle.{stays, Step, leased, claimed, cleanup_claimed, reopened, published}
use pulpitum.Cockroach.Tables.{
  StateText, hot_text, archiving_text, archived_text, other_text, MetadataRow, RowKey,
  row_key_order, row_key, Tables, is_past, is_hot_text, is_archiving_text, is_archived_text,
}
use pulpitum.Cockroach.Statements.{
  Outcome, done, failed, Body, give, next_statement, update, insert_metadata, state_from_metadata,
}
use pulpitum.Cockroach.Bodies.{
  claim_archive_body, claim_cleanup_body, renew_body, defer_archive_body, defer_cleanup_body,
  begin_body, begun, to_archiving, five_minutes, snapshot_body, publish_body, abort_body,
  unless_stale, is_claimable, is_cleanable, claimed_session, is_due_claimable, to_claimed,
  is_cleanup_claimable, to_cleanup_claimed, is_renewable, to_renewed, is_fenced, to_deferred,
  to_cleanup_deferred, to_published, to_hot,
}
use pulpitum.Cockroach.Entries.{
  route_state, key_or_empty, entry_at, Steps, RowSteps, updated-Steps, insert_metadata-same,
}

-- A chain that commits has run its first statement.
pub next_statement-eq-done :
    {A B : Type 0} (m : Outcome A) (f : A → Body B) {t' : Tables} {v : B}
    → next_statement m f ≡ done t' v
    → (s : Tables) × (a : A) × (m ≡ done s a) × (f a s ≡ done t' v)
next_statement-eq-done (done s a) f h = (s, a, refl, h)
next_statement-eq-done (failed e) f h = cc

-- A statement that leaves the tables alone.
abbrev pub Reads : {A B : Type 0} → (A → Body B) → Type 0
Reads {A} {B} f = (a : A) (s t' : Tables) (v : B) → f a s ≡ done t' v → s ≡ t'

unless_stale-Reads : Reads unless_stale
unless_stale-Reads none s t' v h = cc
unless_stale-Reads (some r) s t' v h = ground arith

update_then :
    {A : Type 0} (b : BucketId) (guard : MetadataRow → Bool) (set : MetadataRow → MetadataRow)
    (f : Option MetadataRow → Body A) (t t' : Tables) (v : A)
    → next_statement (update b guard set t) f ≡ done t' v
    → Reads f
    → RowSteps guard set
    → Steps t t'
unfolding update
update_then b guard set f t t' v h reads steps =
    let (s, row, first, rest) = next_statement-eq-done (update b guard set t) f h in
    let same : s ≡ t' = reads row s t' v rest in
    subst (Steps t) same (
      updated-Steps (row_key b) guard set t s row steps (get row_key_order (row_key b) t.metadata)
        refl first)

claimable :
    (now : DateTime) (r : MetadataRow) (s : StateText)
    → (is_hot_text s || (is_archiving_text s && is_past r.archive_owner_expires_at now)) ≡ true
    → (route_state s r ≡ hot) ⊎ (route_state s r ≡ archiving)
claimable now r hot_text h = inl refl
claimable now r archiving_text h = inr refl
claimable now r archived_text h = cc
claimable now r (other_text x) h = cc

archiving_route :
    (r : MetadataRow) (s : StateText) → is_archiving_text s ≡ true → route_state s r ≡ archiving
archiving_route r s h = ground arith

pub pending_route :
    (r : MetadataRow) (s : StateText)
    → is_archived_text s ≡ true
    → r.hot_deleted ≡ false
    → route_state s r ≡ archived (key_or_empty r.archive_object_key) false
pending_route r s h d = ground arith

give-Reads : {A B : Type 0} (g : A → B) → Reads (λ a. give (g a))
give-Reads g a s t' v h = ground arith

pub claim_archive_body-Steps :
    (b : BucketId) (token : Text) (expires_at now : DateTime) (t t' : Tables)
    (v : Option ArchiveSession)
    → claim_archive_body b token expires_at now t ≡ done t' v
    → Steps t t'
unfolding claim_archive_body
claim_archive_body-Steps b token expires_at now t t' v h =
    update_then b (is_due_claimable now) (to_claimed token expires_at) _ t t' v h
      (give-Reads (claimed_session b token))
      (λ r rs g. claimed (claimable now r r.state (ground arith)) refl (ground arith) refl)

pub claim_cleanup_body-Steps :
    (b : BucketId) (token : Text) (expires_at now : DateTime) (t t' : Tables)
    (v : Option ArchiveSession)
    → claim_cleanup_body b token expires_at now t ≡ done t' v
    → Steps t t'
unfolding claim_cleanup_body
claim_cleanup_body-Steps b token expires_at now t t' v h =
    update_then b (is_cleanup_claimable now) (to_cleanup_claimed token expires_at) _ t t' v h
      (give-Reads (claimed_session b token))
      (λ r rs g.
        let route : route_state r.state r ≡ archived (key_or_empty r.archive_object_key) false =
          pending_route r r.state (ground arith) (ground arith) in
        cleanup_claimed (key_or_empty r.archive_object_key) route (ground arith) (ground arith)
          refl)

pub renew_body-Steps :
    (session : ArchiveSession) (expires_at now : DateTime) (t t' : Tables)
    → renew_body session expires_at now t ≡ done t' tt
    → Steps t t'
unfolding renew_body
renew_body-Steps session expires_at now t t' h =
    update_then session.bucket (is_renewable session now) (to_renewed expires_at) _ t t' tt h
      unless_stale-Reads (λ r rs g. leased (ground arith) refl refl)

pub defer_archive_body-Steps :
    (session : ArchiveSession) (retry_at now : DateTime) (t t' : Tables)
    → defer_archive_body session retry_at now t ≡ done t' tt
    → Steps t t'
unfolding defer_archive_body
defer_archive_body-Steps session retry_at now t t' h =
    update_then session.bucket (is_fenced session now) (to_deferred retry_at) _ t t' tt h
      unless_stale-Reads
      (λ r rs g. reopened (archiving_route r r.state (ground arith)) refl refl refl)

pub defer_cleanup_body-Steps :
    (session : ArchiveSession) (retry_at now : DateTime) (t t' : Tables)
    → defer_cleanup_body session retry_at now t ≡ done t' tt
    → Steps t t'
unfolding defer_cleanup_body
defer_cleanup_body-Steps session retry_at now t t' h =
    update_then session.bucket (is_cleanable session now) (to_cleanup_deferred retry_at) _ t t' tt h
      unless_stale-Reads (λ r rs g. leased (ground arith) refl refl)

pub publish_body-Steps :
    (session : ArchiveSession) (object_key : Text) (now : DateTime) (t t' : Tables)
    → publish_body session object_key now t ≡ done t' tt
    → Steps t t'
unfolding publish_body
publish_body-Steps session object_key now t t' h =
    update_then session.bucket (is_fenced session now) (to_published object_key) _ t t' tt h
      unless_stale-Reads
      (λ r rs g. published object_key (archiving_route r r.state (ground arith)) refl refl refl)

pub abort_body-Steps :
    (session : ArchiveSession) (now : DateTime) (t t' : Tables)
    → abort_body session now t ≡ done t' tt
    → Steps t t'
unfolding abort_body
abort_body-Steps session now t t' h =
    update_then session.bucket (is_fenced session now) to_hot _ t t' tt h unless_stale-Reads
      (λ r rs g. reopened (archiving_route r r.state (ground arith)) refl refl refl)

pub snapshot_body-Steps :
    (session : ArchiveSession) (now : DateTime) (t t' : Tables) (v : List Record)
    → snapshot_body session now t ≡ done t' v
    → Steps t t'
unfolding snapshot_body
snapshot_body-Steps session now t t' v h j =
    let same : t ≡ t' = ground arith in
    subst (λ s. Step (entry_at j t) (entry_at j s)) same (stays (entry_at j t))

pub same-Steps :
    (t s t' : Tables) → ((j : RowKey) → entry_at j t ≡ entry_at j s) → Steps s t' → Steps t t'
same-Steps t s t' same steps j = rw (same j) (steps j)

pub begun-Reads : (b : BucketId) (token : Text) → Reads (begun b token)
unfolding state_from_metadata
begun-Reads b token (some r) s t' v h = ground arith
begun-Reads b token none s t' v h =
    let (s1, st, known, h1) = next_statement-eq-done (state_from_metadata b s) _ h in cc

pub begin_body-Steps :
    (b : BucketId) (token : Text) (now : DateTime) (t t' : Tables) (v : ArchiveSession)
    → begin_body b token now t ≡ done t' v
    → Steps t t'
unfolding begin_body
begin_body-Steps b token now t t' v h =
    let (s, _, inserted, rest) = next_statement-eq-done (insert_metadata b t) _ h in
    same-Steps t s t' (insert_metadata-same b t s inserted) (
      update_then b (is_claimable now) (to_archiving token (now + five_minutes)) _ s t' v rest
        (begun-Reads b token)
        (λ r rs g. claimed (claimable now r r.state (ground arith)) refl (ground arith) refl))
