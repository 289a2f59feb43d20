-- ===== src/Store/Outcomes.antt =====
-- What the success of an operation on a session says of the bucket before and after, and that a
-- failed operation leaves the store as it was.
use pulpitum.Base.{
  suc, ◌≡◌, refl, ap, ◌∙◌, true, false, inl, inr, Option, none, some, List, [], arith, Option-cases,
  Bool-cases, put_self, get-put_self,
}
use pulpitum.Base.Text.{Text}
use pulpitum.Domain.Model.{BucketId, Record, bucket_order}
use pulpitum.Store.State.{
  BucketState, hot, archiving, archived, Result, ok, err, stale_archive_session, ArchiveSession,
  Duration, Env, Instant, validate_active_session, validate_archive_session, state_eq,
  lease_deadline,
}
use pulpitum.Store.Memory.{
  Entry, Store, Change, find, entry_of, or_default, on_entry, on_existing, checked, guarded,
  snapshot, snapshot_in, publish_archive, delete_hot_bucket, publish_entry, delete_entry, delete_in,
  begin_archive, begin_entry, claim_archive_entry, with_deadline, claim_archive, claimable,
}
use pulpitum.Store.Lifecycle.{validated-archiving, is-hot}

-- The bucket is archiving, and its generation is that of the session.
abbrev pub OwnedBy : ArchiveSession → Entry → Type 0
OwnedBy session e = (e.state ≡ archiving) × (e.generation ≡ session.generation)

active-generation :
    (e : Entry) (session : ArchiveSession) (now : Instant)
    → validate_active_session e session now ≡ ok tt
    → e.generation ≡ session.generation
unfolding validate_active_session
active-generation e session now h = ground arith

validated-OwnedBy :
    (e : Entry) (session : ArchiveSession) (now : Instant)
    → validate_archive_session e session archiving now ≡ ok tt
    → OwnedBy session e
validated-OwnedBy e session now h =
    let (state, active) = validated-archiving e session now h in
    (state, active-generation e session now active)

guarded_ok :
    {A : Type 0} (v : Result (Unit {0})) (a b : A) → guarded v a ≡ ok b → (v ≡ ok tt) × (a ≡ b)
guarded_ok (ok u) a b h = (refl, ground arith)
guarded_ok (err x) a b h = cc

checked_ok :
    {A : Type 0} (v : Result (Unit {0})) (e : Entry) (done : Entry × Result A) (a : A)
    → (checked v e done).1 ≡ ok a
    → (v ≡ ok tt) × (checked v e done ≡ done)
checked_ok (ok u) e done a h = (refl, refl)
checked_ok (err x) e done a h = cc

-- A change through `get_mut` that succeeds found an entry, and what it made of it is stored.
pub on_existing_ok :
    {A : Type 0} (b : BucketId) (change : Change A) (s : Store) (a : A)
    → (on_existing b change s).1 ≡ ok a
    → let e = entry_of b s in
      ((change e).1 ≡ ok a) × (entry_of b (on_existing b change s).0 ≡ (change e).0)
unfolding on_existing
on_existing_ok b change s a h = elim (Option-cases (find b s)) [
  | inl missing ↦ absurd (stale (rw missing at h))
  | inr (e, found) ↦
      rw found (rw found at h, ap or_default (get-put_self bucket_order b (change e).0 s))
]
  where
    stale : err stale_archive_session ≡ ok a → ⊥
    stale e = cc

-- What a successful snapshot saw.
pub snapshot_ok :
    (env : Env) (session : ArchiveSession) (s : Store) (rs : List Record)
    → snapshot env session s ≡ ok rs
    → OwnedBy session (entry_of session.bucket s) × ((entry_of session.bucket s).records ≡ rs)
unfolding snapshot
snapshot_ok env session s rs h = in_ok (find session.bucket s) h
  where
    in_ok :
        (o : Option Entry)
        → snapshot_in env session o ≡ ok rs
        → OwnedBy session (or_default o) × ((or_default o).records ≡ rs)
    in_ok none k = cc
    in_ok (some e) k =
        let (valid, same) = guarded_ok _ e.records rs k in
        (validated-OwnedBy e session env.first valid, same)

-- A successful publication was the owner's, and changed the route only.
pub publish_ok :
    (env : Env) (session : ArchiveSession) (key : Text) (s : Store)
    → (publish_archive env session key s).1 ≡ ok tt
    → let e = entry_of session.bucket s in
      OwnedBy session e
      × (entry_of session.bucket (publish_archive env session key s).0
          ≡ record e { state = archived key false })
unfolding publish_archive publish_entry
publish_ok env session key s h =
    let e = entry_of session.bucket s in
    let (done, stored) = on_existing_ok session.bucket (publish_entry env session key) s tt h in
    let (valid, whole) =
      checked_ok (validate_archive_session e session archiving env.first) e _ tt done in
    (validated-OwnedBy e session env.first valid, stored ∙ ap (λ x. x.0) whole)

abbrev cleaned_entry : Text → Entry → Entry
cleaned_entry key e = record e { records = []; state = archived key true }

delete_in_ok :
    (env : Env) (session : ArchiveSession) (st : BucketState) (e : Entry)
    → (delete_in env session st e).1 ≡ ok tt
    → (key : Text) × (st ≡ archived key false)
      × (e.generation ≡ session.generation)
      × ((delete_in env session st e).0 ≡ cleaned_entry key e)
delete_in_ok env session hot e h = cc
delete_in_ok env session archiving e h = cc
delete_in_ok env session (archived key true) e h = cc
delete_in_ok env session (archived key false) e h =
    let (valid, whole) = checked_ok (validate_active_session e session env.first) e _ tt h in
    (key, refl, active-generation e session env.first valid, ap (λ x. x.0) whole)

-- A successful clean-up found the bucket published under the session's generation, and removed
-- the records.
pub delete_ok :
    (env : Env) (session : ArchiveSession) (s : Store)
    → (delete_hot_bucket env session s).1 ≡ ok tt
    → let e = entry_of session.bucket s in
      (key : Text) × (e.state ≡ archived key false)
      × (e.generation ≡ session.generation)
      × (entry_of session.bucket (delete_hot_bucket env session s).0
          ≡ record e { records = []; state = archived key true })
unfolding delete_hot_bucket delete_entry
delete_ok env session s h =
    let e = entry_of session.bucket s in
    let (done, stored) = on_existing_ok session.bucket (delete_entry env session) s tt h in
    let (key, before, owned, after) = delete_in_ok env session e.state e done in
    (key, before, owned, stored ∙ after)

-- What a newly issued session says of the entry before and after the change.
pub record Issued (b : BucketId) (session : ArchiveSession) (e e' : Entry) : Type 0 where
  pub for_bucket : session.bucket ≡ b
  pub next_generation : session.generation ≡ suc e.generation
  pub owned : OwnedBy session e'
  pub kept : e'.records ≡ e.records

begin_entry-Issued :
    (lease : Duration) (env : Env) (b : BucketId) (e : Entry) (session : ArchiveSession)
    → (begin_entry env b lease e).1 ≡ ok session
    → (e.state ≡ hot) × Issued b session e (begin_entry env b lease e).0
unfolding begin_entry
begin_entry-Issued lease env b e session k = elim (Bool-cases (state_eq e.state hot)) [
  | inl t ↦ (is-hot e.state t, ground arith)
  | inr f ↦ absurd (ground arith)
]

claim_entry-Issued :
    (env : Env) (b : BucketId) (at : Instant) (e : Entry) (session : ArchiveSession)
    → (claim_archive_entry env b at e).1 ≡ ok (some session)
    → (claimable e env.first ≡ true) × Issued b session e (claim_archive_entry env b at e).0
unfolding claim_archive_entry
claim_entry-Issued env b at e session k = ground arith

-- A session is issued under a generation that is new to its bucket, with the write fence closed.
pub begin_ok :
    (lease : Duration) (env : Env) (b : BucketId) (s : Store) (session : ArchiveSession)
    → (begin_archive lease env b s).1 ≡ ok session
    → ((entry_of b s).state ≡ hot)
      × Issued b session (entry_of b s) (entry_of b (begin_archive lease env b s).0)
unfolding begin_archive on_entry
begin_ok lease env b s session h =
    rw (get-put_self bucket_order b (begin_entry env b lease (entry_of b s)).0 s)
      (begin_entry-Issued lease env b (entry_of b s) session h)

deadline_ok :
    {A : Type 0} (d : Result Instant) (s : Store) (op : Instant → Store × Result A) (a : A)
    → (with_deadline d s op).1 ≡ ok a
    → (at : Instant) × (with_deadline d s op ≡ op at) × ((op at).1 ≡ ok a)
deadline_ok (ok at) s op a h = (at, refl, h)
deadline_ok (err x) s op a h = cc

pub claim_ok :
    (env : Env) (b : BucketId) (lease : Duration) (s : Store) (session : ArchiveSession)
    → (claim_archive env b lease s).1 ≡ ok (some session)
    → (claimable (entry_of b s) env.first ≡ true)
      × Issued b session (entry_of b s) (entry_of b (claim_archive env b lease s).0)
unfolding claim_archive on_entry
claim_ok env b lease s session h =
    let (at, same, done) = deadline_ok (lease_deadline env env.second lease) s _ (some session) h in
    rw (same, get-put_self bucket_order b (claim_archive_entry env b at (entry_of b s)).0 s)
      (claim_entry-Issued env b at (entry_of b s) session done)

-- A failed change through `get_mut` that leaves the entry alone leaves the store alone.
pub on_existing_err :
    {A : Type 0} (b : BucketId) (change : Change A) (s : Store)
    → ((e : Entry) → find b s ≡ some e → (change e).0 ≡ e)
    → (on_existing b change s).0 ≡ s
unfolding on_existing
on_existing_err b change s same = elim (Option-cases (find b s)) [
  | inl missing ↦ rw (missing, on_existing)
  | inr (e, found) ↦ rw (found, on_existing, same e found) (put_self bucket_order b e s found)
]
