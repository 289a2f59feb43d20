-- ===== src/Cockroach/Backoff.antt =====
-- When `transaction` of src/adapters/cockroach_durable.rs makes another attempt, and how long it
-- waits before it.
use pulpitum.Base.{
  ℕ, zero, suc, ◌+◌, ◌*◌, ◌/◌, ◌^◌, List, [], ◌∷◌, ◌≤◌, ◌<◌, ◌-◌, ◌≡◌, refl, ap, ◌∙◌, Bool, true,
  ◌&&◌, arith, ltb, length, if◌then◌else◌, Bool-cases, inl, inr,
}
use pulpitum.Store.State.{Result}
use pulpitum.Cockroach.Tables.{Tables}
use pulpitum.Cockroach.Statements.{
  serialization_failure, statement_error, DatabaseError, TransactionFailure, database, store,
  Outcome, done, failed, Body,
}
use pulpitum.Cockroach.Transaction.{
  BeginOutcome, begun, begin_timed_out, begin_failed, Disposition, reusable, evicted, Interruption,
  undisturbed, operation_timed_out, statement_fails, CommitOutcome, committed, commit_refused,
  commit_ambiguous, commit_lost, commit_timed_out, Attempt, Run, transaction, attempt_from,
  max_transaction_attempts, transaction_retry_delay, stop, retried, after_commit, after_failure,
  after_body, operated, after_begin, tried, is_retryable,
}

delay-between :
    (k sample : ℕ)
    → k < 5
    → (25 * 2 ^ k / 2 ≤ transaction_retry_delay k sample)
      × (transaction_retry_delay k sample ≤ 25 * 2 ^ k)
unfolding transaction_retry_delay
delay-between zero sample h = (omega arith, omega arith)
delay-between (suc zero) sample h = (omega arith, omega arith)
delay-between (suc (suc zero)) sample h = (omega arith, omega arith)
delay-between (suc (suc (suc zero))) sample h = (omega arith, omega arith)
delay-between (suc (suc (suc (suc zero)))) sample h = (omega arith, omega arith)
delay-between (suc (suc (suc (suc (suc k))))) sample h = absurd (omega (arith, h))

retryable_error : (e : DatabaseError) → is_retryable e ≡ true → e ≡ serialization_failure
unfolding is_retryable
retryable_error serialization_failure h = refl
retryable_error statement_error h = cc

module _ {A : Type 0} (body : Body A) (attempts : ℕ → Attempt) where
  -- What an attempt may meet that is worth another one: error 40001, at BEGIN, at a statement of
  -- the body or at COMMIT.
  pub data Conflict (a : Attempt) : Type 0 where
    at_begin : a.begin ≡ begin_failed serialization_failure → Conflict a
    at_statement : a.interruption ≡ statement_fails serialization_failure → Conflict a
    in_body : (t : Tables) → body t ≡ failed (database serialization_failure) → Conflict a
    at_commit : a.commit ≡ commit_refused serialization_failure → Conflict a

  -- The waits from the attempt `k` on: each follows an attempt that met a conflict, and lasts
  -- between the half and the whole of 25 ms doubled per attempt.
  abbrev pub IsBackoff : ℕ → List ℕ → Type 0
  IsBackoff k [] = Unit
  IsBackoff k (d ∷ ds) =
      Conflict (attempts k) × (25 * 2 ^ k / 2 ≤ d) × (d ≤ 25 * 2 ^ k) × IsBackoff (k + 1) ds

  -- A run of at most `left` attempts from the attempt `k` on.
  record IsBounded (left k : ℕ) (run : Run A) : Type 0 where
    checkouts : length run.checkouts ≤ left
    paired : length run.checkouts ≤ length run.delays + 1
    fewer : length run.delays ≤ left - 1
    backoff : IsBackoff k run.delays

  module _ (k left : ℕ) (last : k + suc left ≡ 5) (next : Tables → Run A)
      (later : (t : Tables) → IsBounded left (k + 1) (next t)) where
    abbrev more : Bool
    more = ltb (k + 1) max_transaction_attempts

    stopped : (t : Tables) (d : Disposition) (r : Result A) → IsBounded (suc left) k (stop t d r)
    stopped t d r = record {
      checkouts = omega arith;
      paired = omega arith;
      fewer = omega arith;
      backoff = tt;
    }

    again :
        (d : Disposition) (t : Tables)
        → more ≡ true
        → Conflict (attempts k)
        → IsBounded
            (suc left)
            k
            (retried d (transaction_retry_delay k (attempts k).sample) (next t))
    again d t m conflict =
        let rest = later t in
        let small : k < 5 = omega (arith, last) in
        let (low, high) = delay-between k (attempts k).sample small in
        record {
          checkouts = omega (arith, rest.checkouts);
          paired = omega (arith, rest.paired);
          fewer = ground (arith, rest.fewer, m, last);
          backoff = (conflict, low, high, rest.backoff);
        }

    perhaps_again :
        (e : DatabaseError) (d : Disposition) (t : Tables) (s : Run A)
        → (e ≡ serialization_failure → Conflict (attempts k))
        → IsBounded (suc left) k s
        → IsBounded (suc left) k (
            if is_retryable e && more
            then retried d (transaction_retry_delay k (attempts k).sample) (next t)
            else s)
    perhaps_again e d t s conflict otherwise = elim (Bool-cases (is_retryable e && more)) [
      | inl y ↦
          rw y (again d t (ground (arith, y)) (conflict (retryable_error e (ground (arith, y)))))
      | inr n ↦ rw n otherwise
    ]

    after_failure-IsBounded :
        (t : Tables) (e : TransactionFailure)
        → (e ≡ database serialization_failure → Conflict (attempts k))
        → IsBounded (suc left) k (after_failure body (attempts k) k more next t e)
    after_failure-IsBounded t (store e) conflict = stopped t _ _
    after_failure-IsBounded t (database e) conflict = elim (Bool-cases (attempts k).rolls_back) [
      | inl y ↦
          rw y (perhaps_again e reusable t _ (λ same. conflict (ap database same)) (stopped t _ _))
      | inr n ↦ rw n (elim (Bool-cases (is_retryable e && more)) [
        | inl y ↦ rw y (stopped t _ _)
        | inr m ↦ rw m (stopped t _ _)
      ])
    ]

    after_commit-IsBounded :
        (t t' : Tables) (v : A) (c : CommitOutcome)
        → (attempts k).commit ≡ c
        → IsBounded (suc left) k (after_commit body (attempts k) k more next t t' v c)
    after_commit-IsBounded t t' v committed h = stopped t' _ _
    after_commit-IsBounded t t' v (commit_refused e) h =
        perhaps_again e _ t _ (λ same. at_commit (h ∙ ap commit_refused same)) (stopped t _ _)
    after_commit-IsBounded t t' v (commit_ambiguous b) h = stopped _ _ _
    after_commit-IsBounded t t' v (commit_lost b) h = stopped _ _ _
    after_commit-IsBounded t t' v (commit_timed_out b) h = stopped _ _ _

    after_body-IsBounded :
        (t : Tables) (o : Outcome A)
        → body t ≡ o
        → IsBounded (suc left) k (after_body body (attempts k) k more next t o)
    after_body-IsBounded t (done t' v) h = after_commit-IsBounded t t' v (attempts k).commit refl
    after_body-IsBounded t (failed e) h =
        after_failure-IsBounded t e (λ same. in_body t (h ∙ ap failed same))

    operated-IsBounded :
        (t : Tables) (n : Interruption)
        → (attempts k).interruption ≡ n
        → IsBounded (suc left) k (operated body (attempts k) k more next t n)
    operated-IsBounded t undisturbed h = after_body-IsBounded t (body t) refl
    operated-IsBounded t (statement_fails e) h =
        after_failure-IsBounded t (database e)
          (λ same. at_statement (h ∙ ap statement_fails (database_eq same)))
      where
        database_eq : database e ≡ database serialization_failure → e ≡ serialization_failure
        database_eq q = cc
    operated-IsBounded t operation_timed_out h = stopped t _ _

    after_begin-IsBounded :
        (t : Tables) (b : BeginOutcome)
        → (attempts k).begin ≡ b
        → IsBounded (suc left) k (after_begin body (attempts k) k more next t b)
    after_begin-IsBounded t begun h = operated-IsBounded t (attempts k).interruption refl
    after_begin-IsBounded t (begin_failed e) h =
        perhaps_again e evicted t _ (λ same. at_begin (h ∙ ap begin_failed same)) (stopped t _ _)
    after_begin-IsBounded t begin_timed_out h = stopped t _ _

    tried-IsBounded : (t : Tables) → IsBounded (suc left) k (tried body (attempts k) k more next t)
    tried-IsBounded t = elim (Bool-cases (attempts k).connects) [
      | inl y ↦ rw y (after_begin-IsBounded t (attempts k).begin refl)
      | inr n ↦ rw n (record {
        checkouts = omega arith;
        paired = omega arith;
        fewer = omega arith;
        backoff = tt;
      })
    ]

  attempt_from-IsBounded :
      (left k : ℕ) (t : Tables)
      → k + left ≡ 5
      → IsBounded left k (attempt_from body attempts left k t)
  unfolding attempt_from
  attempt_from-IsBounded zero k t last = record {
    checkouts = omega arith;
    paired = omega arith;
    fewer = omega arith;
    backoff = tt;
  }
  attempt_from-IsBounded (suc left) k t last =
      tried-IsBounded k left last (attempt_from body attempts left (k + 1))
        (λ s. attempt_from-IsBounded left (k + 1) s (omega (arith, last))) ((attempts k).others t)

  -- A transaction ends after at most five checkouts and four waits, with a wait between any two
  -- checkouts. Each wait follows an attempt that met a serialization failure, at BEGIN, at a
  -- statement of the body or at COMMIT, or whose body can fail with one; that after the attempt
  -- `k`, counted from 0, lasts between the half and the whole of 25 * 2 ^ k ms.
  pub transaction-IsBackoff :
      (t : Tables)
      → (length (transaction body attempts t).checkouts ≤ 5)
        × (length (transaction body attempts t).delays ≤ 4)
        × (length (transaction body attempts t).checkouts
            ≤ length (transaction body attempts t).delays + 1)
        × IsBackoff 0 (transaction body attempts t).delays
  unfolding transaction
  transaction-IsBackoff t =
      let b = attempt_from-IsBounded 5 0 t refl in (b.checkouts, b.fewer, b.paired, b.backoff)
