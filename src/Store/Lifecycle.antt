-- ===== src/Store/Lifecycle.antt =====
-- The life of one bucket, as an abstract step relation, and the proof that the effect of every
-- operation of the in-memory store on an entry is such a step.
use pulpitum.Base.{
  suc, ◌≡◌, refl, ◌∙◌, true, false, [], ◌∷◌, ◌++◌, arith, inl, inr, ◌⊎◌, sort_by, Bool-cases,
}
use pulpitum.Base.Text.{Text}
use pulpitum.Domain.Model.{BucketId, Record, key_order, record_key}
use pulpitum.Store.State.{
  BucketState, hot, archiving, archived, Result, ok, err, ArchiveSession, Instant, Duration, Env,
  validate_active_session, validate_archive_session, state_eq, is_pending_cleanup,
}
use pulpitum.Store.Memory.{
  Entry, append_entry, claim_archive_entry, claim_cleanup_entry, renew_entry, defer_archive_entry,
  defer_cleanup_entry, begin_entry, publish_entry, delete_entry, abort_entry, checked, delete_in,
}

-- What a step may do to the routing state, the generation and the records.
pub data Step (e e' : Entry) : Type 0 where
  -- Nothing but the lease and the retry time changes.
  leased : e'.state ≡ e.state → e'.generation ≡ e.generation → e'.records ≡ e.records → Step e e'
  appended :
      (r : Record)
      → e.state ≡ hot
      → e'.state ≡ hot
      → e'.generation ≡ e.generation
      → e'.records ≡ sort_by key_order record_key (e.records ++ r ∷ [])
      → Step e e'
  -- A new owner closes the write fence, or takes over an expired attempt.
  claimed :
      (e.state ≡ hot) ⊎ (e.state ≡ archiving)
      → e'.state ≡ archiving
      → e'.generation ≡ suc e.generation
      → e'.records ≡ e.records
      → Step e e'
  cleanup_claimed :
      (k : Text)
      → e.state ≡ archived k false
      → e'.state ≡ archived k false
      → e'.generation ≡ suc e.generation
      → e'.records ≡ e.records
      → Step e e'
  reopened :
      e.state ≡ archiving
      → e'.state ≡ hot
      → e'.generation ≡ e.generation
      → e'.records ≡ e.records
      → Step e e'
  published :
      (k : Text)
      → e.state ≡ archiving
      → e'.state ≡ archived k false
      → e'.generation ≡ e.generation
      → e'.records ≡ e.records
      → Step e e'
  cleaned :
      (k : Text)
      → e.state ≡ archived k false
      → e'.state ≡ archived k true
      → e'.generation ≡ e.generation
      → e'.records ≡ []
      → Step e e'

pub stays : (e : Entry) → Step e e
stays e = leased refl refl refl

pub is-hot : (s : BucketState) → state_eq s hot ≡ true → s ≡ hot
is-hot hot h = refl
is-hot archiving h = cc
is-hot (archived k d) h = cc

pub is-archiving : (s : BucketState) → state_eq s archiving ≡ true → s ≡ archiving
is-archiving hot h = cc
is-archiving archiving h = refl
is-archiving (archived k d) h = cc

pub is-pending :
    (s : BucketState) → is_pending_cleanup s ≡ true → (k : Text) × (s ≡ archived k false)
is-pending hot h = cc
is-pending archiving h = cc
is-pending (archived k true) h = cc
is-pending (archived k false) h = (k, refl)

-- A session that validates finds the bucket in the state that it expects.
pub validated-archiving :
    (e : Entry) (session : ArchiveSession) (now : Instant)
    → validate_archive_session e session archiving now ≡ ok tt
    → (e.state ≡ archiving) × (validate_active_session e session now ≡ ok tt)
unfolding validate_archive_session
validated-archiving e session now h = elim (Bool-cases (state_eq e.state archiving)) [
  | inl t ↦ (is-archiving e.state t, ground arith)
  | inr f ↦ absurd (ground arith)
]

-- A checked change leaves the entry alone unless the check passes.
pub checked_elim {ℓ} :
    {A : Type 0} (P : Entry → Type ℓ) (v : Result (Unit {0})) (e : Entry) (done : Entry × Result A)
    → P e
    → (v ≡ ok tt → P done.0)
    → P (checked v e done).0
checked_elim P (ok tt) e done p q = q refl
checked_elim P (err x) e done p q = p

pub append-Step : (r : Record) (e : Entry) → Step e (append_entry r e).0
unfolding append_entry
append-Step r e = elim (Bool-cases (state_eq e.state hot)) [
  | inl t ↦ rw (t, append_entry) (appended r (is-hot e.state t) (is-hot e.state t) refl refl)
  | inr f ↦ rw (f, append_entry) (stays e)
]

pub claim_archive-Step :
    (env : Env) (b : BucketId) (at : Instant) (e : Entry)
    → Step e (claim_archive_entry env b at e).0
unfolding claim_archive_entry
claim_archive-Step env b at e = grind (arith, leased, claimed)

claim_cleanup_parts :
    (env : Env) (b : BucketId) (at : Instant) (e : Entry)
    → let e' = (claim_cleanup_entry env b at e).0 in
      (e'.state ≡ e.state)
      × (e'.records ≡ e.records)
      × ((e'.generation ≡ e.generation)
          ⊎ ((is_pending_cleanup e.state ≡ true) × (e'.generation ≡ suc e.generation)))
unfolding claim_cleanup_entry
claim_cleanup_parts env b at e = ground arith

pub claim_cleanup-Step :
    (env : Env) (b : BucketId) (at : Instant) (e : Entry)
    → Step e (claim_cleanup_entry env b at e).0
claim_cleanup-Step env b at e =
    let (same, kept, change) = claim_cleanup_parts env b at e in
    elim change [
      | inl g ↦ leased same g kept
      | inr (t, g) ↦ let (k, h) = is-pending e.state t in cleanup_claimed k h (same ∙ h) g kept
    ]

pub begin-Step :
    (env : Env) (b : BucketId) (lease : Duration) (e : Entry) → Step e (begin_entry env b lease e).0
unfolding begin_entry
begin-Step env b lease e = grind (arith, leased, claimed)

module _ (env : Env) (session : ArchiveSession) where
  pub renew-Step : (at : Instant) (e : Entry) → Step e (renew_entry env session at e).0
  unfolding renew_entry
  renew-Step at e =
      checked_elim (Step e) (validate_active_session e session env.second) e _ (stays e)
        (λ h. leased refl refl refl)

  pub defer_archive-Step :
      (at : Instant) (e : Entry) → Step e (defer_archive_entry env session at e).0
  unfolding defer_archive_entry
  defer_archive-Step at e =
      checked_elim (Step e) (validate_archive_session e session archiving env.second) e _ (stays e)
        (λ h. reopened (validated-archiving e session _ h).0 refl refl refl)

  pub defer_cleanup-Step :
      (at : Instant) (e : Entry) → Step e (defer_cleanup_entry env session at e).0
  unfolding defer_cleanup_entry
  defer_cleanup-Step at e =
      checked_elim (Step e) (validate_active_session e session env.second) e _ (stays e)
        (λ h. grind (arith, leased))

  pub publish-Step : (k : Text) (e : Entry) → Step e (publish_entry env session k e).0
  unfolding publish_entry
  publish-Step k e =
      checked_elim (Step e) (validate_archive_session e session archiving env.first) e _ (stays e)
        (λ h. published k (validated-archiving e session _ h).0 refl refl refl)

  delete_in-Step :
      (s : BucketState) (e : Entry) → e.state ≡ s → Step e (delete_in env session s e).0
  delete_in-Step hot e h = stays e
  delete_in-Step archiving e h = stays e
  delete_in-Step (archived k true) e h = stays e
  delete_in-Step (archived k false) e h =
      checked_elim (Step e) (validate_active_session e session env.first) e _ (stays e)
        (λ v. cleaned k h refl refl refl)

  pub delete-Step : (e : Entry) → Step e (delete_entry env session e).0
  unfolding delete_entry
  delete-Step e = delete_in-Step e.state e refl

  pub abort-Step : (e : Entry) → Step e (abort_entry env session e).0
  unfolding abort_entry
  abort-Step e =
      checked_elim (Step e) (validate_archive_session e session archiving env.first) e _ (stays e)
        (λ h. reopened (validated-archiving e session _ h).0 refl refl refl)
