-- ===== src/Cockroach/Atomic.antt =====
-- What `transaction` of src/adapters/cockroach_durable.rs does to the tables: at most one run of
-- its body, as one step.
use pulpitum.Base.{
  ℕ, zero, suc, ◌+◌, ◌≡◌, refl, Bool, true, false, ◌&&◌, ltb, if◌then◌else◌, Bool-cases, inl, inr,
}
use pulpitum.Store.State.{
  DurableBucketStoreError, unavailable, operation_failed, commit_outcome_unknown, Result, ok, err,
}
use pulpitum.Cockroach.Tables.{Tables}
use pulpitum.Cockroach.Statements.{TransactionFailure, database, store, Outcome, done, failed, Body}
use pulpitum.Cockroach.Transaction.{
  BeginOutcome, begun, begin_timed_out, begin_failed, reusable, evicted, Interruption, undisturbed,
  operation_timed_out, statement_fails, CommitOutcome, committed, commit_refused, commit_ambiguous,
  commit_lost, commit_timed_out, Attempt, Run, transaction, attempt_from, max_transaction_attempts,
  transaction_retry_delay, stop, retried, after_commit, after_failure, after_body, operated,
  after_begin, tried, is_retryable,
}

module _ {A : Type 0} (body : Body A) (attempts : ℕ → Attempt) where
  -- What the other clients do before the attempts from `k` on, of which some may be made.
  pub data Others : ℕ → Tables → Tables → Type 0 where
    nobody : {k : ℕ} (t : Tables) → Others k t t
    before : {k : ℕ} (t t' : Tables) → Others (k + 1) ((attempts k).others t) t' → Others k t t'

  -- The tables after a run, and its result, as what one run of the body gives.
  pub data Effect (k : ℕ) (t t' : Tables) (r : Result A) : Type 0 where
    applied : (s : Tables) (v : A) → Others k t s → body s ≡ done t' v → r ≡ ok v → Effect k t t' r
    perhaps :
        (s : Tables) (v : A)
        → Others k t s
        → body s ≡ done t' v
        → r ≡ err commit_outcome_unknown
        → Effect k t t' r
    unreported :
        (s : Tables) (v : A) (n : ℕ) (b : Bool)
        → Others k t s
        → body s ≡ done t' v
        → (attempts n).commit ≡ commit_ambiguous b
        → r ≡ err operation_failed
        → Effect k t t' r
    nothing : (e : DurableBucketStoreError) → Others k t t' → r ≡ err e → Effect k t t' r

  lift :
      (k : ℕ) (t : Tables) {t' : Tables} {r : Result A}
      → Effect (k + 1) ((attempts k).others t) t' r
      → Effect k t t' r
  lift k t (applied s v o b e) = applied s v (before t s o) b e
  lift k t (perhaps s v o b e) = perhaps s v (before t s o) b e
  lift k t (unreported s v n b o h c e) = unreported s v n b (before t s o) h c e
  lift k t (nothing e o h) = nothing e (before t _ o) h

  abbrev Has : ℕ → Tables → Run A → Type 0
  Has k t run = Effect k t run.tables run.result

  module _ (n : ℕ) (i k : ℕ) (more : Bool) (next : Tables → Run A) (s : Tables)
      (later : Has k s (next s)) where
    abbrev a : Attempt
    a = attempts n

    lost :
        (b : Bool) (t' : Tables) (v : A)
        → body s ≡ done t' v
        → Effect k s (if b then t' else s) (err commit_outcome_unknown)
    lost true t' v h = perhaps s v (nobody s) h refl
    lost false t' v h = nothing commit_outcome_unknown (nobody s) refl

    ambiguous :
        (b : Bool) (t' : Tables) (v : A)
        → body s ≡ done t' v
        → (c : Bool) → (attempts n).commit ≡ commit_ambiguous c
        → Effect k s (if b then t' else s) (err operation_failed)
    ambiguous true t' v h c e = unreported s v n c (nobody s) h e refl
    ambiguous false t' v h c e = nothing operation_failed (nobody s) refl

    after_commit-Effect :
        (t' : Tables) (v : A) (c : CommitOutcome)
        → body s ≡ done t' v
        → a.commit ≡ c
        → Has k s (after_commit body a i more next s t' v c)
    after_commit-Effect t' v committed h e = applied s v (nobody s) h refl
    after_commit-Effect t' v (commit_refused x) h e = elim (Bool-cases (is_retryable x && more)) [
      | inl y ↦ rw y later
      | inr n ↦ rw n (nothing operation_failed (nobody s) refl)
    ]
    after_commit-Effect t' v (commit_ambiguous b) h e = ambiguous b t' v h b e
    after_commit-Effect t' v (commit_lost b) h e = lost b t' v h
    after_commit-Effect t' v (commit_timed_out b) h e = lost b t' v h

    after_rollback :
        (rolled_back : Bool)
        → Has k s (
            if rolled_back
            then retried reusable (transaction_retry_delay i a.sample) (next s)
            else stop s evicted (err operation_failed))
    after_rollback true = later
    after_rollback false = nothing operation_failed (nobody s) refl

    after_failure-Effect : (e : TransactionFailure) → Has k s (after_failure body a i more next s e)
    after_failure-Effect (database e) = elim (Bool-cases (is_retryable e && more)) [
      | inl y ↦ rw y (after_rollback a.rolls_back)
      | inr n ↦ rw n (nothing operation_failed (nobody s) refl)
    ]
    after_failure-Effect (store e) = nothing e (nobody s) refl

    after_body-Effect : (o : Outcome A) → body s ≡ o → Has k s (after_body body a i more next s o)
    after_body-Effect (done t' v) h = after_commit-Effect t' v a.commit h refl
    after_body-Effect (failed e) h = after_failure-Effect e

    operated-Effect : (n : Interruption) → Has k s (operated body a i more next s n)
    operated-Effect undisturbed = after_body-Effect (body s) refl
    operated-Effect (statement_fails e) = after_failure-Effect (database e)
    operated-Effect operation_timed_out = nothing operation_failed (nobody s) refl

    after_begin-Effect : (b : BeginOutcome) → Has k s (after_begin body a i more next s b)
    after_begin-Effect begun = operated-Effect a.interruption
    after_begin-Effect (begin_failed e) = elim (Bool-cases (is_retryable e && more)) [
      | inl y ↦ rw y later
      | inr n ↦ rw n (nothing operation_failed (nobody s) refl)
    ]
    after_begin-Effect begin_timed_out = nothing operation_failed (nobody s) refl

    tried-Effect : Has k s (tried body a i more next s)
    tried-Effect = elim (Bool-cases a.connects) [
      | inl y ↦ rw y (after_begin-Effect a.begin)
      | inr n ↦ rw n (nothing unavailable (nobody s) refl)
    ]

  attempt_from-Effect : (left k : ℕ) (t : Tables) → Has k t (attempt_from body attempts left k t)
  unfolding attempt_from
  attempt_from-Effect zero k t = nothing operation_failed (nobody t) refl
  attempt_from-Effect (suc left) k t = lift k t (
      tried-Effect k k (k + 1) (ltb (k + 1) max_transaction_attempts)
        (attempt_from body attempts left (k + 1)) ((attempts k).others t)
        (attempt_from-Effect left (k + 1) ((attempts k).others t)))

  -- A transaction is atomic, whatever the database, the network and other clients do: a value is
  -- that of one run of the body, on the tables that the others left, and the tables are those
  -- after it; an error means that the body had no effect, but for an unknown outcome of the
  -- commit, and for a failed operation where the database answered a commit with an ambiguous
  -- error: these mean that it had no effect or that of one such run.
  pub transaction-Effect :
      (t : Tables)
      → Effect 0 t (transaction body attempts t).tables (transaction body attempts t).result
  unfolding transaction
  transaction-Effect t = attempt_from-Effect max_transaction_attempts 0 t
