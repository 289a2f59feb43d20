-- ===== src/Store/Fencing.antt =====
-- What the fence of src/ports/storage.rs promises over every history of the in-memory store:
-- generations never fall, a published route is final, a snapshot stays the content of the bucket
-- as long as its owner can publish.
use pulpitum.Base.{ℕ, ◌≤◌, ◌≡◌, sym, ap, ◌∙◌, true, false, ◌⊎◌, List, arith}
use pulpitum.Base.Text.{Text}
use pulpitum.Domain.Model.{BucketId, Record}
use pulpitum.Store.State.{archiving, archived, ok, ArchiveSession, Env}
use pulpitum.Store.Memory.{Entry, Store, entry_of, snapshot, publish_archive}
use pulpitum.Store.Lifecycle.{
  Step, leased, appended, claimed, cleanup_claimed, reopened, published, cleaned,
}
use pulpitum.Store.Outcomes.{snapshot_ok, publish_ok}
use pulpitum.Store.History.{Operation, run, run_keeps}

pub Step-generation : (g : ℕ) (e e' : Entry) → Step e e' → g ≤ e.generation → g ≤ e'.generation
Step-generation g e e' (leased s n r) h = omega arith
Step-generation g e e' (appended r s s' n k) h = omega arith
Step-generation g e e' (claimed s s' n r) h = omega arith
Step-generation g e e' (cleanup_claimed k s s' n r) h = omega arith
Step-generation g e e' (reopened s s' n r) h = omega arith
Step-generation g e e' (published k s s' n r) h = omega arith
Step-generation g e e' (cleaned k s s' n r) h = omega arith

-- The fencing generation of a bucket never falls.
pub run_generation :
    (j : BucketId) (ops : List Operation) (s : Store)
    → (entry_of j s).generation ≤ (entry_of j (run ops s)).generation
run_generation j ops s =
    run_keeps (λ e. (entry_of j s).generation ≤ e.generation)
      (Step-generation (entry_of j s).generation) j ops s (omega arith)

-- The bucket routes to the archive object `key`.
abbrev pub RoutesTo : Text → Entry → Type 0
RoutesTo key e = (e.state ≡ archived key false) ⊎ (e.state ≡ archived key true)

pub Step-RoutesTo : (key : Text) (e e' : Entry) → Step e e' → RoutesTo key e → RoutesTo key e'
Step-RoutesTo key e e' (leased s n r) h = ground arith
Step-RoutesTo key e e' (appended r s s' n k) h = ground arith
Step-RoutesTo key e e' (claimed s s' n r) h = ground arith
Step-RoutesTo key e e' (cleanup_claimed k s s' n r) h = ground arith
Step-RoutesTo key e e' (reopened s s' n r) h = ground arith
Step-RoutesTo key e e' (published k s s' n r) h = ground arith
Step-RoutesTo key e e' (cleaned k s s' n r) h = ground arith

-- Once published, the route of a bucket never changes again: same object, never hot.
pub run_route :
    (j : BucketId) (key : Text) (ops : List Operation) (s : Store)
    → RoutesTo key (entry_of j s)
    → RoutesTo key (entry_of j (run ops s))
run_route j key ops s h = run_keeps (RoutesTo key) (Step-RoutesTo key) j ops s h

-- While the bucket is archiving under generation `g` its records are `rs`; it can come back to
-- that generation in no other way.
abbrev pub Frozen : ℕ → List Record → Entry → Type 0
Frozen g rs e = (g ≤ e.generation) × (e.generation ≡ g → e.state ≡ archiving → e.records ≡ rs)

pub Step-Frozen :
    (g : ℕ) (rs : List Record) (e e' : Entry) → Step e e' → Frozen g rs e → Frozen g rs e'
Step-Frozen g rs e e' (leased s n r) h = (omega arith, λ p q. r ∙ h.1 (sym n ∙ p) (sym s ∙ q))
Step-Frozen g rs e e' (appended r s s' n k) h = (omega arith, λ p q. absurd (ground arith))
Step-Frozen g rs e e' (claimed s s' n r) h = (omega arith, λ p q. absurd (omega arith))
Step-Frozen g rs e e' (cleanup_claimed k s s' n r) h = (omega arith, λ p q. absurd (omega arith))
Step-Frozen g rs e e' (reopened s s' n r) h = (omega arith, λ p q. absurd (ground arith))
Step-Frozen g rs e e' (published k s s' n r) h = (omega arith, λ p q. absurd (ground arith))
Step-Frozen g rs e e' (cleaned k s s' n r) h = (omega arith, λ p q. absurd (ground arith))

-- Between a snapshot and a publication under the same session, whatever other clients do, the
-- records of the bucket stay those of the snapshot: what is published is what was read.
pub publish-snapshot :
    (env env' : Env) (session : ArchiveSession) (key : Text) (ops : List Operation) (s : Store)
    (rs : List Record)
    → snapshot env session s ≡ ok rs
    → (publish_archive env' session key (run ops s)).1 ≡ ok tt
    → let e' = entry_of session.bucket (publish_archive env' session key (run ops s)).0 in
      (e'.state ≡ archived key false) × (e'.records ≡ rs)
publish-snapshot env env' session key ops s rs read done =
    let (owned, seen) = snapshot_ok env session s rs read in
    let kept =
      run_keeps (Frozen session.generation rs) (Step-Frozen session.generation rs) session.bucket
        ops s (omega (arith, owned.1), λ p q. seen) in
    let (owner, after) = publish_ok env' session key (run ops s) done in
    (ap (λ e. e.state) after, ap (λ e. e.records) after ∙ kept.1 owner.1 owner.0)
