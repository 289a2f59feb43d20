-- ===== src/Store/Ownership.antt =====
-- Who owns a bucket entry of the in-memory store, over every history.
use pulpitum.Base.{◌≡◌, refl, subst, Option, none, some, List, [], ◌∷◌, arith, get}
use pulpitum.Base.Text.{Text}
use pulpitum.Domain.Model.{BucketId, Record}
use pulpitum.Store.State.{
  BucketState, hot, archiving, archived, ArchiveSession, Env, Instant, Duration,
  validate_active_session, validate_archive_session,
}
use pulpitum.Store.Memory.{
  Entry, Store, entry_of, append_entry, claim_archive_entry, claim_cleanup_entry, begin_entry,
  renew_entry, defer_archive_entry, defer_cleanup_entry, publish_entry, delete_entry, abort_entry,
}
use pulpitum.Store.Lifecycle.{checked_elim, validated-archiving}
use pulpitum.Store.History.{Operation, apply, run, Changes, apply_elim}

-- A hot bucket has neither owner nor lease; any other has an owner's token.
abbrev pub Owned : BucketState → Option Text → Option Instant → Type 0
Owned hot token expires = (token ≡ none) × (expires ≡ none)
Owned archiving token expires = (t : Text) × (token ≡ some t)
Owned (archived k d) token expires = (t : Text) × (token ≡ some t)

abbrev pub IsOwned : Entry → Type 0
IsOwned e = Owned e.state e.archive_owner_token e.archive_owner_expires_at

append-IsOwned : (r : Record) (e : Entry) → IsOwned e → IsOwned (append_entry r e).0
unfolding append_entry
append-IsOwned r e v = ground arith

claim-IsOwned :
    (env : Env) (b : BucketId) (at : Instant) (e : Entry)
    → IsOwned e
    → IsOwned (claim_archive_entry env b at e).0
unfolding claim_archive_entry
claim-IsOwned env b at e v = ground arith

claim_cleanup-IsOwned :
    (env : Env) (b : BucketId) (at : Instant) (e : Entry)
    → IsOwned e
    → IsOwned (claim_cleanup_entry env b at e).0
unfolding claim_cleanup_entry
claim_cleanup-IsOwned env b at e v = ground arith

begin-IsOwned :
    (env : Env) (b : BucketId) (lease : Duration) (e : Entry)
    → IsOwned e
    → IsOwned (begin_entry env b lease e).0
unfolding begin_entry
begin-IsOwned env b lease e v = ground arith

renew-IsOwned :
    (env : Env) (n : ArchiveSession) (at : Instant) (e : Entry)
    → IsOwned e
    → IsOwned (renew_entry env n at e).0
unfolding renew_entry validate_active_session
renew-IsOwned env n at e v = ground arith

defer_cleanup-IsOwned :
    (env : Env) (n : ArchiveSession) (at : Instant) (e : Entry)
    → IsOwned e
    → IsOwned (defer_cleanup_entry env n at e).0
unfolding defer_cleanup_entry
defer_cleanup-IsOwned env n at e v = ground arith

defer-IsOwned :
    (env : Env) (n : ArchiveSession) (at : Instant) (e : Entry)
    → IsOwned e
    → IsOwned (defer_archive_entry env n at e).0
unfolding defer_archive_entry
defer-IsOwned env n at e v = ground arith

publish-IsOwned :
    (env : Env) (n : ArchiveSession) (k : Text) (e : Entry)
    → IsOwned e
    → IsOwned (publish_entry env n k e).0
unfolding publish_entry
publish-IsOwned env n k e v =
    checked_elim IsOwned (validate_archive_session e n archiving env.first) e _ v (λ h.
      subst (λ s. Owned s e.archive_owner_token e.archive_owner_expires_at)
        (validated-archiving e n env.first h).0 v)

delete-IsOwned :
    (env : Env) (n : ArchiveSession) (e : Entry) → IsOwned e → IsOwned (delete_entry env n e).0
unfolding delete_entry
delete-IsOwned env n e v = ground arith

abort-IsOwned :
    (env : Env) (n : ArchiveSession) (e : Entry) → IsOwned e → IsOwned (abort_entry env n e).0
unfolding abort_entry
abort-IsOwned env n e v = ground arith

IsOwned-changes : Changes (λ e e'. IsOwned e → IsOwned e') (λ e v. v)
IsOwned-changes = record {
  on_append = append-IsOwned;
  on_claim = claim-IsOwned;
  on_claim_cleanup = claim_cleanup-IsOwned;
  on_begin = begin-IsOwned;
  on_renew = renew-IsOwned;
  on_defer = defer-IsOwned;
  on_defer_cleanup = defer_cleanup-IsOwned;
  on_publish = publish-IsOwned;
  on_delete = delete-IsOwned;
  on_abort = abort-IsOwned;
}

run-IsOwned_from :
    (j : BucketId) (ops : List Operation) (s : Store)
    → IsOwned (entry_of j s)
    → IsOwned (entry_of j (run ops s))
unfolding run
run-IsOwned_from j [] s v = v
run-IsOwned_from j (op ∷ ops) s v =
    run-IsOwned_from j ops (apply op s)
      (apply_elim (λ e e'. IsOwned e → IsOwned e') (λ e w. w) IsOwned-changes j op s v)

-- In every history from an empty store, a bucket that takes writes has neither owner nor lease,
-- and any other bucket has an owner.
pub run-IsOwned : (j : BucketId) (ops : List Operation) → IsOwned (entry_of j (run ops []))
unfolding get
run-IsOwned j ops = run-IsOwned_from j ops [] (refl, refl)
