-- ===== src/Store/Superseded.antt =====
-- A session that a later owner has superseded (src/ports/storage.rs): it is refused by every
-- operation of the in-memory store, in every later history.
use pulpitum.Base.{
  ◌≤◌, ◌<◌, ◌≡◌, refl, true, false, inl, inr, ◌≢◌, some, List, arith, Option-cases, put_self,
}
use pulpitum.Base.Text.{Text}
use pulpitum.Domain.Model.{BucketId, Record, bucket_order}
use pulpitum.Store.State.{
  BucketState, hot, archiving, archived, Result, ok, err, stale_archive_session, ArchiveSession,
  Duration, Env, Instant, validate_active_session, validate_archive_session,
}
use pulpitum.Store.Memory.{
  Entry, Store, Change, find, entry_of, on_existing, snapshot, claim_archive, renew_archive_lease,
  defer_archive, defer_cleanup, publish_archive, delete_hot_bucket, abort_archive, publish_entry,
  renew_entry, defer_archive_entry, defer_cleanup_entry, delete_entry, abort_entry, delete_in,
  with_deadline,
}
use pulpitum.Store.Outcomes.{snapshot_ok, claim_ok}
use pulpitum.Store.History.{Operation, run}
use pulpitum.Store.Fencing.{run_generation}

-- A session whose generation the bucket has left behind.
abbrev pub IsSuperseded : ArchiveSession → Store → Type 0
IsSuperseded session s = session.generation < (entry_of session.bucket s).generation

-- The operation changes nothing and does not succeed.
abbrev pub IsRejected : {A : Type 0} → Store → Store × Result A → Type 0
IsRejected {A} s r = (r.0 ≡ s) × ((a : A) → r.1 ≢ ok a)

not-active :
    (e : Entry) (session : ArchiveSession) (now : Instant)
    → session.generation < e.generation
    → validate_active_session e session now ≡ err stale_archive_session
unfolding validate_active_session
not-active e session now h = ground arith

not-valid :
    (e : Entry) (session : ArchiveSession) (now : Instant)
    → session.generation < e.generation
    → validate_archive_session e session archiving now ≡ err stale_archive_session
unfolding validate_archive_session
not-valid e session now h = ground (arith, not-active e session now h)

on_existing-IsRejected :
    {A : Type 0} (session : ArchiveSession) (change : Change A) (s : Store)
    → IsSuperseded session s
    → ((e : Entry) → session.generation < e.generation → change e ≡ (e, err stale_archive_session))
    → IsRejected s (on_existing session.bucket change s)
unfolding on_existing
on_existing-IsRejected session change s old refuses = elim (Option-cases (find session.bucket s)) [
  | inl missing ↦ rw missing (refl, λ a e. cc)
  | inr (e, found) ↦
      rw (found, refuses e (rw found at old))
        (put_self bucket_order session.bucket e s found, λ a x. cc)
]

with_deadline-IsRejected :
    {A : Type 0} (d : Result Instant) (s : Store) (op : Instant → Store × Result A)
    → ((at : Instant) → IsRejected s (op at))
    → IsRejected s (with_deadline d s op)
with_deadline-IsRejected (ok at) s op h = h at
with_deadline-IsRejected (err x) s op h = (refl, λ a e. cc)

delete_in_stale :
    (env : Env) (session : ArchiveSession) (st : BucketState) (e : Entry)
    → validate_active_session e session env.first ≡ err stale_archive_session
    → delete_in env session st e ≡ (e, err stale_archive_session)
delete_in_stale env session hot e h = refl
delete_in_stale env session archiving e h = refl
delete_in_stale env session (archived k true) e h = refl
delete_in_stale env session (archived k false) e h = rw h

-- The six mutations that a session allows, and its snapshot, are refused.
pub record IsFenced (env : Env) (session : ArchiveSession) (s : Store) : Type 0 where
  pub renew : (d : Duration) → IsRejected s (renew_archive_lease env session d s)
  pub defer : (d : Duration) → IsRejected s (defer_archive env session d s)
  pub defer_clean : (d : Duration) → IsRejected s (defer_cleanup env session d s)
  pub publish : (key : Text) → IsRejected s (publish_archive env session key s)
  pub delete : IsRejected s (delete_hot_bucket env session s)
  pub abort : IsRejected s (abort_archive env session s)
  pub read : (rs : List Record) → snapshot env session s ≢ ok rs

superseded-IsFenced :
    (env : Env) (session : ArchiveSession) (s : Store)
    → IsSuperseded session s
    → IsFenced env session s
unfolding renew_archive_lease defer_archive defer_cleanup publish_archive delete_hot_bucket
    abort_archive renew_entry defer_archive_entry defer_cleanup_entry publish_entry delete_entry
    abort_entry
superseded-IsFenced env session s old = record {
  renew = λ d. with_deadline-IsRejected _ s _ (λ at.
      on_existing-IsRejected session _ s old (λ e h. rw (not-active e session env.second h)));
  defer = λ d.
      with_deadline-IsRejected _ s _ (λ at.
        on_existing-IsRejected session _ s old (λ e h. rw (not-valid e session env.second h)));
  defer_clean = λ d. with_deadline-IsRejected _ s _ (λ at.
      on_existing-IsRejected session _ s old (λ e h. rw (not-active e session env.second h)));
  publish =
      λ key. on_existing-IsRejected session _ s old (λ e h. rw (not-valid e session env.first h));
  delete =
      on_existing-IsRejected session _ s old
        (λ e h. delete_in_stale env session e.state e (not-active e session env.first h));
  abort = on_existing-IsRejected session _ s old (λ e h. rw (not-valid e session env.first h));
  read = λ rs h. absurd (omega (arith, (snapshot_ok env session s rs h).0.1));
}

-- Once a claim has given a bucket a new owner, every session for it whose generation is no later
-- than the bucket's was before the claim is refused at every operation, in every later history,
-- and leaves the store as it finds it.
pub claim_fences :
    (env env' : Env) (b : BucketId) (lease : Duration) (s : Store) (old new : ArchiveSession)
    (ops : List Operation)
    → old.bucket ≡ b
    → old.generation ≤ (entry_of b s).generation
    → (claim_archive env b lease s).1 ≡ ok (some new)
    → IsFenced env' old (run ops (claim_archive env b lease s).0)
claim_fences env env' b lease s old new ops same before issued =
    let s' = (claim_archive env b lease s).0 in
    let (_, i) = claim_ok env b lease s new issued in
    superseded-IsFenced env' old (run ops s')
      (rw same (omega (arith, run_generation b ops s', i.next_generation, i.owned.1)))
