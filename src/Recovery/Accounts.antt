-- ===== src/Recovery/Accounts.antt =====
-- The counters of a recovery cycle (src/application/durable_archive_recovery.rs) against its
-- result.
use pulpitum.Base.{
  ℕ, ◌+◌, suc, ◌≤◌, ◌≡◌, refl, true, false, Option, none, some, List, [], ◌∷◌, length, arith,
}
use pulpitum.Base.Text.{Text}
use pulpitum.Domain.Model.{BucketId, Record}
use pulpitum.Store.State.{
  BucketState, hot, archiving, archived, DurableBucketStoreError, Result, ArchiveSession,
  ArchiveWork, ArchiveScan, cutover, cleanup,
}
use pulpitum.Store.Discovery.{discover_archive_work, length-discover}
use pulpitum.Archive.Port.{StoreResult, ArchiveStore}
use pulpitum.Archive.Coordinator.{Call, World, found, with_buckets}
use pulpitum.Recovery.Config.{
  ArchiveRecoveryConfig, ArchiveRecoveryError, ok, err, ArchiveRecoveryOutcome,
}
use pulpitum.Recovery.Runner.{
  Steps, Out, count_claimed, after_defer, defer_cutover, after_cleanup, finish_cleanup, after_check,
  after_publish, publish_recovered, after_upload, upload_recovered, after_snapshot,
  recover_claimed_cutover, after_claim, recover_cutover, after_claim_cleanup, recover_cleanup,
  recover, go_on, run_items, run_once,
}

-- A claimed item ends completed, or with an error after at most one deferral.
abbrev Settled : {W : Type 0} → ArchiveRecoveryOutcome → Out W → Type 0
Settled o (w, (o', ok u)) =
    (o'.discovered ≡ o.discovered)
    × (o'.claimed ≡ o.claimed)
    × (o'.completed ≡ o.completed + 1)
    × (o'.deferred ≡ o.deferred)
Settled o (w, (o', err e)) =
    (o'.discovered ≡ o.discovered)
    × (o'.claimed ≡ o.claimed)
    × (o'.completed ≡ o.completed)
    × (o'.deferred ≤ o.deferred + 1)

module _ {W : Type 0} (objects : ArchiveStore W) (config : ArchiveRecoveryConfig)
    (steps : Steps) where
  defer-Settled :
      (error : ArchiveRecoveryError) (w : World W) (o : ArchiveRecoveryOutcome)
      (r : Result (Result (Unit {0})))
      → Settled o (after_defer objects config steps error w o r)
  defer-Settled error w o (Result.err e) = (refl, refl, refl, omega arith)
  defer-Settled error w o (Result.ok (Result.err e)) = (refl, refl, refl, omega arith)
  defer-Settled error w o (Result.ok (Result.ok u)) = (refl, refl, refl, omega arith)

  cutover_deferred :
      (session : ArchiveSession) (error : ArchiveRecoveryError) (w : World W)
      (o : ArchiveRecoveryOutcome)
      → Settled o (defer_cutover objects config steps session error w o)
  unfolding defer_cutover
  cutover_deferred session error w o = defer-Settled error _ o _

  cleanup-Settled :
      (session : ArchiveSession) (w : World W) (o : ArchiveRecoveryOutcome)
      (r : Result (Result (Unit {0})))
      → Settled o (after_cleanup objects config steps session w o r)
  cleanup-Settled session w o (Result.err e) = (refl, refl, refl, omega arith)
  cleanup-Settled session w o (Result.ok (Result.ok u)) = (refl, refl, refl, refl)
  cleanup-Settled session w o (Result.ok (Result.err e)) = defer-Settled _ _ o _

  cleanup_finished :
      (session : ArchiveSession) (w : World W) (o : ArchiveRecoveryOutcome)
      → Settled o (finish_cleanup objects config steps session w o)
  unfolding finish_cleanup
  cleanup_finished session w o = cleanup-Settled session _ o _

  check-Settled :
      (session : ArchiveSession) (error : DurableBucketStoreError) (w : World W)
      (o : ArchiveRecoveryOutcome) (r : Result (Result BucketState))
      → Settled o (after_check objects config steps session error w o r)
  check-Settled session error w o (Result.err e) = (refl, refl, refl, omega arith)
  check-Settled session error w o (Result.ok (Result.err e)) = (refl, refl, refl, omega arith)
  check-Settled session error w o (Result.ok (Result.ok hot)) = (refl, refl, refl, omega arith)
  check-Settled session error w o (Result.ok (Result.ok archiving)) = cutover_deferred session _ w o
  check-Settled session error w o (Result.ok (Result.ok (archived key false))) =
      cleanup_finished session w o
  check-Settled session error w o (Result.ok (Result.ok (archived key true))) =
      (refl, refl, refl, omega arith)

  publish-Settled :
      (b : BucketId) (session : ArchiveSession) (w : World W) (o : ArchiveRecoveryOutcome)
      (r : Result (Result (Unit {0})))
      → Settled o (after_publish objects config steps b session w o r)
  publish-Settled b session w o (Result.err e) = (refl, refl, refl, omega arith)
  publish-Settled b session w o (Result.ok (Result.ok u)) = cleanup_finished session w o
  publish-Settled b session w o (Result.ok (Result.err e)) = check-Settled session e _ o _

  upload-Settled :
      (b : BucketId) (session : ArchiveSession) (w : World W) (o : ArchiveRecoveryOutcome)
      (r : Result (StoreResult Text))
      → Settled o (after_upload objects config steps b session w o r)
  unfolding publish_recovered
  upload-Settled b session w o (Result.err e) = (refl, refl, refl, omega arith)
  upload-Settled b session w o (Result.ok (StoreResult.ok key)) = publish-Settled b session _ o _
  upload-Settled b session w o (Result.ok (StoreResult.err e)) = cutover_deferred session _ w o

  snapshot-Settled :
      (b : BucketId) (session : ArchiveSession) (w : World W) (o : ArchiveRecoveryOutcome)
      (r : Result (Result (List Record)))
      → Settled o (after_snapshot objects config steps b session w o r)
  unfolding upload_recovered
  snapshot-Settled b session w o (Result.err e) = (refl, refl, refl, omega arith)
  snapshot-Settled b session w o (Result.ok (Result.err e)) = cutover_deferred session _ w o
  snapshot-Settled b session w o (Result.ok (Result.ok records)) = upload-Settled b session _ o _

-- The counters grew as one item lets them: an item that ends well completed all that it claimed.
abbrev Counted : {W : Type 0} → ArchiveRecoveryOutcome → ℕ → Out W → Type 0
Counted o n (w, (o', ok u)) =
    (o'.discovered ≡ o.discovered)
    × (o'.claimed ≤ o.claimed + n)
    × (o'.completed + o.claimed ≡ o'.claimed + o.completed)
    × (o'.deferred ≡ o.deferred)
Counted o n (w, (o', err e)) =
    (o'.discovered ≡ o.discovered)
    × (o'.claimed ≤ o.claimed + n)
    × (o'.completed + o'.deferred + o.claimed ≤ o'.claimed + o.completed + o.deferred)

Counted-claim :
    {W : Type 0} (o o' : ArchiveRecoveryOutcome) (out : Out W)
    → o'.discovered ≡ o.discovered
    → o'.claimed ≡ o.claimed + 1
    → o'.completed ≡ o.completed
    → o'.deferred ≡ o.deferred
    → Settled o' out
    → Counted o 1 out
Counted-claim o o' (w, (p, ok u)) a b c d s = (omega arith, omega arith, omega arith, omega arith)
Counted-claim o o' (w, (p, err e)) a b c d s = (omega arith, omega arith, omega arith)

module _ {W : Type 0} (objects : ArchiveStore W) (config : ArchiveRecoveryConfig) where
  claim-Counted :
      (steps : Steps) (b : BucketId) (w : World W) (o : ArchiveRecoveryOutcome)
      (r : Result (Option ArchiveSession))
      → Counted o 1 (after_claim objects config steps b w o r)
  unfolding recover_claimed_cutover
  claim-Counted steps b w o (Result.err e) = (refl, omega arith, omega arith)
  claim-Counted steps b w o (Result.ok none) = (refl, omega arith, omega arith, refl)
  claim-Counted steps b w o (Result.ok (some session)) =
      Counted-claim o (count_claimed o)
        (recover_claimed_cutover objects config steps b session w (count_claimed o)) refl refl refl
        refl (snapshot-Settled objects config steps b session _ _ _)

  claim_cleanup-Counted :
      (steps : Steps) (w : World W) (o : ArchiveRecoveryOutcome)
      (r : Result (Option ArchiveSession))
      → Counted o 1 (after_claim_cleanup objects config steps w o r)
  claim_cleanup-Counted steps w o (Result.err e) = (refl, omega arith, omega arith)
  claim_cleanup-Counted steps w o (Result.ok none) = (refl, omega arith, omega arith, refl)
  claim_cleanup-Counted steps w o (Result.ok (some session)) =
      Counted-claim o (count_claimed o)
        (finish_cleanup objects config steps session w (count_claimed o)) refl refl refl refl
        (cleanup_finished objects config steps session _ _)

  item-Counted :
      (steps : Steps) (item : ArchiveWork) (w : World W) (o : ArchiveRecoveryOutcome)
      → Counted o 1 (recover objects config steps item w o)
  unfolding recover recover_cutover recover_cleanup
  item-Counted steps (cutover b) w o = claim-Counted steps b _ o _
  item-Counted steps (cleanup b) w o = claim_cleanup-Counted steps _ o _

  module _ (schedule : ℕ → Steps) where
    later-Counted :
        (o o' : ArchiveRecoveryOutcome) (k : ℕ) (out : Out W)
        → o'.discovered ≡ o.discovered
        → o'.claimed ≤ o.claimed + 1
        → o'.completed + o.claimed ≡ o'.claimed + o.completed
        → o'.deferred ≡ o.deferred
        → Counted o' k out
        → Counted o (suc k) out
    later-Counted o o' k (w, (p, ok u)) a b c d s =
        (omega arith, omega arith, omega arith, omega arith)
    later-Counted o o' k (w, (p, err e)) a b c d s = (omega arith, omega arith, omega arith)

    go_on-Counted :
        (o : ArchiveRecoveryOutcome) (k : ℕ) (out : Out W)
        (next : World W → ArchiveRecoveryOutcome → Out W)
        → Counted o 1 out
        → ((w : World W) (o' : ArchiveRecoveryOutcome) → Counted o' k (next w o'))
        → Counted o (suc k) (go_on objects config schedule out next)
    go_on-Counted o k (w, (o', ok u)) next c f =
        later-Counted o o' k (next w o') c.0 (omega arith) (omega arith) (omega arith) (f w o')
    go_on-Counted o k (w, (o', err e)) next c f = (omega arith, omega arith, omega arith)

    items-Counted :
        (n : ℕ) (work : List ArchiveWork) (w : World W) (o : ArchiveRecoveryOutcome)
        → Counted o (length work) (run_items objects config schedule n work w o)
    unfolding run_items
    items-Counted n [] w o = (refl, omega arith, omega arith, refl)
    items-Counted n (item ∷ work) w o =
        go_on-Counted o (length work) (recover objects config (schedule n) item w o)
          (λ w' o'. run_items objects config schedule (suc n) work w' o')
          (item-Counted (schedule n) item w o) (λ w' o'. items-Counted (suc n) work w' o')

    -- The counters of a cycle.
    abbrev pub Balanced : Out W → Type 0
    Balanced (w, (o, ok u)) =
        (o.discovered ≤ config.scan_limit)
        × (o.claimed ≤ o.discovered)
        × (o.completed ≡ o.claimed)
        × (o.deferred ≡ 0)
    Balanced (w, (o, err e)) =
        (o.discovered ≤ config.scan_limit)
        × (o.claimed ≤ o.discovered)
        × (o.completed + o.deferred ≤ o.claimed)

    balance :
        (o : ArchiveRecoveryOutcome) (n : ℕ) (out : Out W)
        → o.discovered ≡ n
        → o.claimed ≡ 0
        → o.completed ≡ 0
        → o.deferred ≡ 0
        → n ≤ config.scan_limit
        → Counted o n out
        → Balanced out
    balance o n (w, (p, ok u)) a b c d room k = (omega arith, omega arith, omega arith, omega arith)
    balance o n (w, (p, err e)) a b c d room k = (omega arith, omega arith, omega arith)

    -- A cycle discovers at most `scan_limit` items and claims no more than it discovers. If it
    -- succeeds, it completed every item that it claimed and deferred none; if it fails, the items
    -- completed and deferred are no more than those claimed.
    pub run_once-Balanced :
        (scan : Call) (w : World W) → Balanced (run_once objects config schedule scan w)
    unfolding run_once
    run_once-Balanced scan w =
        let s = found scan w in
        let scanned : ArchiveScan = record {
          eligible_before = config.eligible_before;
          limit = config.scan_limit;
        } in
        let work = discover_archive_work scan.env scanned s in
        let start : ArchiveRecoveryOutcome = record {
          discovered = length work;
          claimed = 0;
          completed = 0;
          deferred = 0;
        } in
        balance start (length work)
          (run_items objects config schedule 0 work (with_buckets s w) start) refl refl refl refl
          (length-discover scan.env scanned s) (items-Counted 0 work (with_buckets s w) start)
