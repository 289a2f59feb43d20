-- ===== src/Store/History.antt =====
-- Histories of the in-memory store: sequences of operations by any clients, in any order. Every
-- bucket goes through steps of `Lifecycle` only.
use pulpitum.Base.{
  ℕ, ◌≡◌, subst, inl, inr, List, [], ◌∷◌, Bool-cases, put, get-put, eqb, eqb_iff, Option-cases,
}
use pulpitum.Base.Text.{Text}
use pulpitum.Domain.Model.{BucketId, Record, bucket_order}
use pulpitum.Store.State.{Result, ok, err, ArchiveSession, Duration, Env, lease_deadline}
use pulpitum.Store.Memory.{
  Entry, Store, Change, find, entry_of, on_entry, on_existing, with_deadline, append, claim_archive,
  claim_cleanup, renew_archive_lease, defer_archive, defer_cleanup, begin_archive, publish_archive,
  delete_hot_bucket, abort_archive, claim_cleanup_entry, claim_archive_entry, append_entry,
  begin_entry, renew_entry, defer_archive_entry, defer_cleanup_entry, publish_entry, delete_entry,
  abort_entry,
}
use pulpitum.Store.Lifecycle.{
  Step, stays, append-Step, claim_archive-Step, claim_cleanup-Step, begin-Step, renew-Step,
  defer_archive-Step, defer_cleanup-Step, publish-Step, delete-Step, abort-Step,
}

-- The calls of the port that can change the store, with what the clock and the generator of
-- tokens give them.
pub data Operation : Type 0 where
  appends : BucketId → Record → Operation
  claims_archive claims_cleanup begins : Env → BucketId → Duration → Operation
  renews defers_archive defers_cleanup : Env → ArchiveSession → Duration → Operation
  publishes : Env → ArchiveSession → Text → Operation
  deletes aborts : Env → ArchiveSession → Operation

unfoldable pub apply : Operation → Store → Store
apply (appends b r) s = (append b r s).0
apply (claims_archive env b lease) s = (claim_archive env b lease s).0
apply (claims_cleanup env b lease) s = (claim_cleanup env b lease s).0
apply (begins env b lease) s = (begin_archive lease env b s).0
apply (renews env session lease) s = (renew_archive_lease env session lease s).0
apply (defers_archive env session retry) s = (defer_archive env session retry s).0
apply (defers_cleanup env session retry) s = (defer_cleanup env session retry s).0
apply (publishes env session key) s = (publish_archive env session key s).0
apply (deletes env session) s = (delete_hot_bucket env session s).0
apply (aborts env session) s = (abort_archive env session s).0

unfoldable pub run : List Operation → Store → Store
run [] s = s
run (op ∷ ops) s = run ops (apply op s)

-- A write to the map is seen at its own key, and at no other.
pub put_elim {ℓ} :
    (P : Entry → Type ℓ) (b j : BucketId) (e : Entry) (s : Store)
    → (b ≡ j → P e)
    → P (entry_of j s)
    → P (entry_of j (put bucket_order b e s))
put_elim P b j e s here there = elim (Bool-cases (eqb bucket_order b j)) [
  | inl t ↦ rw (get-put bucket_order j b e s, t) (here ((eqb_iff bucket_order b j).0 t))
  | inr f ↦ rw (get-put bucket_order j b e s, f) there
]

-- A relation between an entry and itself after an operation, from the change of the entry.
pub on_entry_elim {ℓ} :
    {A : Type 0} (P : Entry → Entry → Type ℓ) (b j : BucketId) (change : Change A) (s : Store)
    → ((e : Entry) → P e e)
    → ((e : Entry) → P e (change e).0)
    → P (entry_of j s) (entry_of j (on_entry b change s).0)
unfolding on_entry
on_entry_elim P b j change s same step =
    put_elim (P (entry_of j s)) b j (change (entry_of b s)).0 s
      (λ e. subst (λ k. P (entry_of k s) (change (entry_of b s)).0) e (step (entry_of b s)))
      (same (entry_of j s))

pub on_existing_elim {ℓ} :
    {A : Type 0} (P : Entry → Entry → Type ℓ) (b j : BucketId) (change : Change A) (s : Store)
    → ((e : Entry) → P e e)
    → ((e : Entry) → P e (change e).0)
    → P (entry_of j s) (entry_of j (on_existing b change s).0)
unfolding on_existing
on_existing_elim P b j change s same step = elim (Option-cases (find b s)) [
  | inl missing ↦ rw (missing, on_existing) (same (entry_of j s))
  | inr (e, found) ↦
      rw (found, on_existing)
        (put_elim (P (entry_of j s)) b j (change e).0 s
          (λ eq. subst (λ k. P (entry_of k s) (change e).0) eq (rw found (step e)))
          (same (entry_of j s)))
]

with_deadline_elim {ℓ} :
    {A : Type 0} (P : Store → Type ℓ) (at : Result ℕ) (s : Store) (op : ℕ → Store × Result A)
    → P s
    → ((t : ℕ) → P (op t).0)
    → P (with_deadline at s op).0
with_deadline_elim P (ok t) s op same step = step t
with_deadline_elim P (err x) s op same step = same

-- What holds of every change of an entry holds of every operation, at every bucket.
module _ {ℓ} (P : Entry → Entry → Type ℓ) (same : (e : Entry) → P e e) where
  pub record Changes : Type ℓ where
    pub on_append : (r : Record) (e : Entry) → P e (append_entry r e).0
    pub on_claim :
        (env : Env) (b : BucketId) (at : ℕ) (e : Entry) → P e (claim_archive_entry env b at e).0
    pub on_claim_cleanup :
        (env : Env) (b : BucketId) (at : ℕ) (e : Entry) → P e (claim_cleanup_entry env b at e).0
    pub on_begin :
        (env : Env) (b : BucketId) (lease : Duration) (e : Entry)
        → P e (begin_entry env b lease e).0
    pub on_renew :
        (env : Env) (n : ArchiveSession) (at : ℕ) (e : Entry) → P e (renew_entry env n at e).0
    pub on_defer :
        (env : Env) (n : ArchiveSession) (at : ℕ) (e : Entry)
        → P e (defer_archive_entry env n at e).0
    pub on_defer_cleanup :
        (env : Env) (n : ArchiveSession) (at : ℕ) (e : Entry)
        → P e (defer_cleanup_entry env n at e).0
    pub on_publish :
        (env : Env) (n : ArchiveSession) (k : Text) (e : Entry) → P e (publish_entry env n k e).0
    pub on_delete : (env : Env) (n : ArchiveSession) (e : Entry) → P e (delete_entry env n e).0
    pub on_abort : (env : Env) (n : ArchiveSession) (e : Entry) → P e (abort_entry env n e).0

  module _ (c : Changes) (j : BucketId) where
    claim_cleanup_elim :
        (env : Env) (b : BucketId) (lease : Duration) (s : Store)
        → P (entry_of j s) (entry_of j (claim_cleanup env b lease s).0)
    unfolding claim_cleanup
    claim_cleanup_elim env b lease s =
        with_deadline_elim (λ s'. P (entry_of j s) (entry_of j s'))
          (lease_deadline env env.second lease) s _ (same (entry_of j s))
          (λ at. elim (Option-cases (find b s)) [
            | inl missing ↦ rw missing (same (entry_of j s))
            | inr (e, found) ↦ rw found (
                put_elim (P (entry_of j s)) b j _ s
                  (λ eq.
                    subst (λ k. P (entry_of k s) (claim_cleanup_entry env b at e).0) eq
                      (rw found (c.on_claim_cleanup env b at e)))
                  (same (entry_of j s)))
          ])

    pub apply_elim : (op : Operation) (s : Store) → P (entry_of j s) (entry_of j (apply op s))
    unfolding apply append claim_archive begin_archive renew_archive_lease defer_archive
        defer_cleanup publish_archive delete_hot_bucket abort_archive
    apply_elim (appends b r) s = on_entry_elim P b j (append_entry r) s same (c.on_append r)
    apply_elim (claims_archive env b lease) s =
        with_deadline_elim (λ s'. P (entry_of j s) (entry_of j s'))
          (lease_deadline env env.second lease) s _ (same (entry_of j s))
          (λ at. on_entry_elim P b j (claim_archive_entry env b at) s same (c.on_claim env b at))
    apply_elim (claims_cleanup env b lease) s = claim_cleanup_elim env b lease s
    apply_elim (begins env b lease) s =
        on_entry_elim P b j (begin_entry env b lease) s same (c.on_begin env b lease)
    apply_elim (renews env n lease) s =
        with_deadline_elim (λ s'. P (entry_of j s) (entry_of j s'))
          (lease_deadline env env.first lease) s _ (same (entry_of j s))
          (λ at. on_existing_elim P n.bucket j (renew_entry env n at) s same (c.on_renew env n at))
    apply_elim (defers_archive env n retry) s =
        with_deadline_elim (λ s'. P (entry_of j s) (entry_of j s'))
          (lease_deadline env env.first retry) s _ (same (entry_of j s))
          (λ at.
            on_existing_elim P n.bucket j (defer_archive_entry env n at) s same
              (c.on_defer env n at))
    apply_elim (defers_cleanup env n retry) s =
        with_deadline_elim (λ s'. P (entry_of j s) (entry_of j s'))
          (lease_deadline env env.first retry) s _ (same (entry_of j s))
          (λ at.
            on_existing_elim P n.bucket j (defer_cleanup_entry env n at) s same
              (c.on_defer_cleanup env n at))
    apply_elim (publishes env n key) s =
        on_existing_elim P n.bucket j (publish_entry env n key) s same (c.on_publish env n key)
    apply_elim (deletes env n) s =
        on_existing_elim P n.bucket j (delete_entry env n) s same (c.on_delete env n)
    apply_elim (aborts env n) s =
        on_existing_elim P n.bucket j (abort_entry env n) s same (c.on_abort env n)

step_changes : Changes Step stays
step_changes = record {
  on_append = append-Step;
  on_claim = claim_archive-Step;
  on_claim_cleanup = claim_cleanup-Step;
  on_begin = begin-Step;
  on_renew = renew-Step;
  on_defer = defer_archive-Step;
  on_defer_cleanup = defer_cleanup-Step;
  on_publish = publish-Step;
  on_delete = delete-Step;
  on_abort = abort-Step;
}

-- Every operation is, at each bucket, one step of the bucket's lifecycle, which may leave its
-- state, generation and records as they are.
pub apply-Step :
    (j : BucketId) (op : Operation) (s : Store) → Step (entry_of j s) (entry_of j (apply op s))
apply-Step j op s = apply_elim Step stays step_changes j op s

-- What every step keeps, every history keeps.
pub run_keeps {ℓ} :
    (P : Entry → Type ℓ)
    → ((e e' : Entry) → Step e e' → P e → P e')
    → (j : BucketId) (ops : List Operation) (s : Store) → P (entry_of j s)
    → P (entry_of j (run ops s))
unfolding run
run_keeps P keep j [] s h = h
run_keeps P keep j (op ∷ ops) s h =
    run_keeps P keep j ops (apply op s) (keep _ _ (apply-Step j op s) h)
