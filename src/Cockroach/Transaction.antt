-- ===== src/Cockroach/Transaction.antt =====
-- `transaction` of src/adapters/cockroach_durable.rs: the retry loop around a body. What the
-- database and the network do to an attempt is given by an `Attempt`; other clients may commit
-- before it.
use pulpitum.Base.{
  ℕ, zero, suc, ◌+◌, ◌*◌, ◌/◌, ◌%◌, ◌^◌, min, Bool, true, false, ◌&&◌, List, [], ◌∷◌, ltb,
  if◌then◌else◌,
}
use pulpitum.Store.State.{
  DurableBucketStoreError, unavailable, operation_failed, commit_outcome_unknown, Result, ok, err,
}
use pulpitum.Cockroach.Tables.{Tables}
use pulpitum.Cockroach.Statements.{
  DatabaseError, serialization_failure, statement_error, TransactionFailure, database, store,
  Outcome, done, failed, Body,
}

pub data BeginOutcome : Type 0 where
  begun begin_timed_out : BeginOutcome
  begin_failed : DatabaseError → BeginOutcome

-- An error that a statement of the body may meet, beside those of its own.
pub data Interruption : Type 0 where
  undisturbed operation_timed_out : Interruption
  statement_fails : DatabaseError → Interruption

-- A COMMIT that the database refuses with 40001, or with an error that is definite, has no effect.
-- One that it answers with an ambiguous error (40003), one whose response is lost, or one that
-- comes too late may have had its effect: the `Bool` tells.
pub data CommitOutcome : Type 0 where
  committed : CommitOutcome
  commit_refused : DatabaseError → CommitOutcome
  commit_ambiguous : Bool → CommitOutcome
  commit_lost commit_timed_out : Bool → CommitOutcome

pub record Attempt : Type 0 where
  -- `pool.acquire()` gives a connection.
  pub connects : Bool
  pub others : Tables → Tables
  pub begin : BeginOutcome
  pub interruption : Interruption
  pub commit : CommitOutcome
  -- ROLLBACK is answered in time.
  pub rolls_back : Bool
  -- Two bytes of `Uuid::new_v4()`.
  pub sample : ℕ

-- What becomes of a checkout: it goes back to the pool, or is closed.
pub data Disposition : Type 0 where
  reusable evicted : Disposition

pub record Run (A : Type 0) : Type 0 where
  pub tables : Tables
  pub result : Result A
  pub checkouts : List Disposition
  -- In milliseconds.
  pub delays : List ℕ

abbrev pub max_transaction_attempts : ℕ
max_transaction_attempts = 5

unfoldable pub is_retryable : DatabaseError → Bool
is_retryable serialization_failure = true
is_retryable statement_error = false

unfoldable pub transaction_retry_delay : ℕ → ℕ → ℕ
transaction_retry_delay attempt sample =
    let half = min (25 * 2 ^ min attempt 5) 1000 / 2 in half + sample % (half + 1)

abbrev pub disposition : Bool → Disposition
disposition rolled_back = if rolled_back then reusable else evicted

abbrev pub into_store_error : TransactionFailure → DurableBucketStoreError
into_store_error (database e) = operation_failed
into_store_error (store e) = e

abbrev pub stop : {A : Type 0} → Tables → Disposition → Result A → Run A
stop t d r = record { tables = t; result = r; checkouts = d ∷ []; delays = [] }

abbrev pub retried : {A : Type 0} → Disposition → ℕ → Run A → Run A
retried d delay run = record run { checkouts = d ∷ run.checkouts; delays = delay ∷ run.delays }

module _ {A : Type 0} (body : Body A) where
  -- `next` is the rest of the loop, `more` that another attempt is left.
  abbrev pub after_commit :
      Attempt → ℕ → Bool → (Tables → Run A) → Tables → Tables → A → CommitOutcome → Run A
  after_commit a k more next t t' v committed = stop t' reusable (ok v)
  after_commit a k more next t t' v (commit_refused e) =
      if is_retryable e && more
      then retried (disposition a.rolls_back) (transaction_retry_delay k a.sample) (next t)
      else stop t (disposition a.rolls_back) (err operation_failed)
  after_commit a k more next t t' v (commit_ambiguous applied) =
      stop (if applied then t' else t) (disposition a.rolls_back) (err operation_failed)
  after_commit a k more next t t' v (commit_lost applied) =
      stop (if applied then t' else t) (disposition a.rolls_back) (err commit_outcome_unknown)
  after_commit a k more next t t' v (commit_timed_out applied) =
      stop (if applied then t' else t) evicted (err commit_outcome_unknown)

  abbrev pub after_failure :
      Attempt → ℕ → Bool → (Tables → Run A) → Tables → TransactionFailure → Run A
  after_failure a k more next t (database e) =
      if is_retryable e && more
      then (if a.rolls_back
          then retried reusable (transaction_retry_delay k a.sample) (next t)
          else stop t evicted (err operation_failed))
      else stop t (disposition a.rolls_back) (err operation_failed)
  after_failure a k more next t (store e) = stop t (disposition a.rolls_back) (err e)

  abbrev pub after_body : Attempt → ℕ → Bool → (Tables → Run A) → Tables → Outcome A → Run A
  after_body a k more next t (done t' v) = after_commit a k more next t t' v a.commit
  after_body a k more next t (failed e) = after_failure a k more next t e

  abbrev pub operated : Attempt → ℕ → Bool → (Tables → Run A) → Tables → Interruption → Run A
  operated a k more next t undisturbed = after_body a k more next t (body t)
  operated a k more next t (statement_fails e) = after_failure a k more next t (database e)
  operated a k more next t operation_timed_out = stop t evicted (err operation_failed)

  abbrev pub after_begin : Attempt → ℕ → Bool → (Tables → Run A) → Tables → BeginOutcome → Run A
  after_begin a k more next t begun = operated a k more next t a.interruption
  after_begin a k more next t (begin_failed e) =
      if is_retryable e && more
      then retried evicted (transaction_retry_delay k a.sample) (next t)
      else stop t evicted (err operation_failed)
  after_begin a k more next t begin_timed_out = stop t evicted (err operation_failed)

  abbrev pub tried : Attempt → ℕ → Bool → (Tables → Run A) → Tables → Run A
  tried a k more next t =
      if a.connects
      then after_begin a k more next t a.begin
      else record { tables = t; result = err unavailable; checkouts = []; delays = [] }

  unfoldable pub attempt_from : (ℕ → Attempt) → ℕ → ℕ → Tables → Run A
  unfolding is_retryable transaction_retry_delay
  attempt_from attempts zero k t = record {
    tables = t;
    result = err operation_failed;
    checkouts = [];
    delays = [];
  }
  attempt_from attempts (suc left) k t =
      tried (attempts k) k (ltb (k + 1) max_transaction_attempts)
        (attempt_from attempts left (k + 1)) ((attempts k).others t)

  unfoldable pub transaction : (ℕ → Attempt) → Tables → Run A
  unfolding attempt_from
  transaction attempts t = attempt_from attempts max_transaction_attempts 0 t
