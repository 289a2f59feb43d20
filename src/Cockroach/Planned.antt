-- ===== src/Cockroach/Planned.antt =====
-- The histories that src/adapters/cockroach_schema.rs accepts, and what it plans for them.
use mathlib.Core.List.{Perm, perm_middle}
use mathlib.Core.List.Perm
use pulpitum.Base.{
  ℕ, ◌≡◌, refl, sym, ap, subst, ◌∙◌, ◌⊎◌, inl, inr, true, false, Option, none, some, List, [], ◌∷◌,
  ◌++◌, ltb, ◌==◌, map, All, arith, Bool-cases, eqb_iff, All-map, append_nil,
}
use pulpitum.Base.Text.{Bytes, text_order}
use pulpitum.Cockroach.Migrations.{
  SchemaMigration, AppliedMigration, CockroachSchemaError, Plan, planned, refused, panicked,
  after_plan, contains, insert_version, or_this, expected_migration, latest, is_unchanged, drift,
  check_one, check_applied, check_prefix, unseen, plan_migrations, migration_checksum,
}
use pulpitum.Cockroach.Planning.{
  IsAscending, versions, insert-IsAscending, insert-All, absent, expected-known, check_prefix-panic,
  prefix_of, unseen-prefix,
}

insert-perm : (v : ℕ) (seen : List ℕ) → Perm (insert_version v seen) (v ∷ seen)
insert-perm v [] = Perm.refl (v ∷ [])
insert-perm v (w ∷ seen) = elim (Bool-cases (ltb v w)) [
  | inl y ↦ rw y (Perm.refl (v ∷ w ∷ seen))
  | inr n ↦ rw n (Perm.trans (Perm.cons w (insert-perm v seen)) (Perm.swap v w seen))
]

after_plan-eq-planned :
    {A B : Type 0} (p : Plan A) (f : A → Plan B) (v : B)
    → after_plan p f ≡ planned v
    → (a : A) × (p ≡ planned a) × (f a ≡ planned v)
after_plan-eq-planned (planned a) f v h = (a, refl, h)
after_plan-eq-planned (refused e) f v h = cc
after_plan-eq-planned panicked f v h = cc

after_plan-eq-panicked :
    {A B : Type 0} (p : Plan A) (f : A → Plan B)
    → after_plan p f ≡ panicked
    → (p ≡ panicked) ⊎ ((a : A) × (p ≡ planned a) × (f a ≡ panicked))
after_plan-eq-panicked (planned a) f h = inr (a, refl, h)
after_plan-eq-panicked (refused e) f h = cc
after_plan-eq-panicked panicked f h = inl refl

abbrev applied_versions : List AppliedMigration → List ℕ
applied_versions applied = map (λ a. a.version) applied

or_this-version :
    (o : Option SchemaMigration) (n m : SchemaMigration) (v : ℕ)
    → ((k : SchemaMigration) → o ≡ some k → k.version ≡ v)
    → or_this o n v ≡ some m
    → m.version ≡ v
or_this-version (some k) n m v ih h = ih m h
or_this-version none n m v ih h = elim (Bool-cases (n.version == v)) [
  | inl y ↦
      let same : n ≡ m = ground (arith, y, h) in ap (λ k. k.version) (sym same) ∙ ground (arith, y)
  | inr x ↦ absurd (ground (arith, x, h))
]

expected-version :
    (ms : List SchemaMigration) (v : ℕ) (m : SchemaMigration)
    → expected_migration ms v ≡ some m
    → m.version ≡ v
expected-version [] v m h = cc
expected-version (n ∷ ms) v m h =
    or_this-version (expected_migration ms v) n m v (expected-version ms v) h

expected_none :
    (ms : List SchemaMigration) (v : ℕ)
    → contains v (versions ms) ≡ false
    → expected_migration ms v ≡ none
expected_none [] v h = refl
expected_none (m ∷ ms) v h =
    let rest : expected_migration ms v ≡ none = expected_none ms v (ground (arith, h)) in
    let other : (m.version == v) ≡ false = ground (arith, h) in rw rest (rw other refl)

expected_self :
    (done pending : List SchemaMigration)
    → IsAscending (versions (done ++ pending))
    → All (λ m. expected_migration (done ++ pending) m.version ≡ some m) done
expected_self [] pending up = tt
expected_self (m ∷ done) pending up =
    let later : expected_migration (done ++ pending) m.version ≡ none =
      expected_none (done ++ pending) m.version
        (absent m.version (versions (done ++ pending)) up.0) in
    let here : (m.version == m.version) ≡ true = ground arith in
    (
      rw later (rw here refl),
      All-map (λ n. expected_migration (done ++ pending) n.version ≡ some n)
          (λ n. expected_migration (m ∷ done ++ pending) n.version ≡ some n)
          (λ n h. ap (λ o. or_this o m n.version) h) done (expected_self done pending up.1),
    )

module _ (digest : Bytes → Bytes) where
  -- The row that `migrate` writes after a migration.
  abbrev pub to_applied : SchemaMigration → AppliedMigration
  to_applied m = record {
    version = m.version;
    name = m.name;
    checksum = migration_checksum digest m.sql;
  }

  abbrev row_of : Option SchemaMigration → ℕ → AppliedMigration
  row_of (some m) v = to_applied m
  row_of none v = record { version = v; name = []; checksum = [] }

  abbrev row_at : List SchemaMigration → ℕ → AppliedMigration
  row_at ms v = row_of (expected_migration ms v) v

  unchanged-row :
      (m : SchemaMigration) (a : AppliedMigration)
      → m.version ≡ a.version
      → is_unchanged digest m a ≡ true
      → to_applied m ≡ a
  unchanged-row m a v h =
      let name : a.name ≡ m.name = (eqb_iff text_order a.name m.name).0 (ground (arith, h)) in
      let sum : a.checksum ≡ migration_checksum digest m.sql =
        (eqb_iff text_order a.checksum (migration_checksum digest m.sql)).0 (ground (arith, h)) in
      rw (v, ← name, ← sum) refl

  drift-row :
      (o : Option SchemaMigration) (ms : List SchemaMigration) (a : AppliedMigration)
      → ((m : SchemaMigration)
          → o ≡ some m
          → (m.version ≡ a.version) × (contains a.version (versions ms) ≡ true))
      → drift digest o ms a ≡ planned tt
      → (contains a.version (versions ms) ≡ true) × (row_of o a.version ≡ a)
  drift-row none ms a found h = absurd (ground (arith, h))
  drift-row (some m) ms a found h =
      ((found m refl).1, unchanged-row m a (found m refl).0 (ground (arith, h)))

  check_one-row :
      (first last : ℕ) (ms : List SchemaMigration) (seen : List ℕ) (a : AppliedMigration)
      → check_one digest first last ms seen a ≡ planned tt
      → (contains a.version seen ≡ false)
        × (contains a.version (versions ms) ≡ true)
        × (row_at ms a.version ≡ a)
  check_one-row first last ms seen a h =
      let (known, row) =
        drift-row (expected_migration ms a.version) ms a
          (λ m e. (expected-version ms a.version m e, expected-known ms a.version m e))
          (ground (arith, h)) in
      (ground (arith, h), known, row)

  -- What the loop over the history keeps.
  abbrev IsChecked : List SchemaMigration → List ℕ → Type 0
  IsChecked ms seen = IsAscending seen × All (λ v. contains v (versions ms) ≡ true) seen

  checked :
      (first last : ℕ) (ms : List SchemaMigration) (applied : List AppliedMigration)
      (seen seen' : List ℕ)
      → IsChecked ms seen
      → check_applied digest first last ms seen applied ≡ planned seen'
      → IsChecked ms seen'
        × Perm seen' (applied_versions applied ++ seen)
        × (map (row_at ms) (applied_versions applied) ≡ applied)
  checked first last ms [] seen seen' inv h =
      let same : seen ≡ seen' = ground (arith, h) in
      (subst (IsChecked ms) same inv, subst (λ l. Perm l seen) same (Perm.refl seen), refl)
  checked first last ms (a ∷ applied) seen seen' inv h =
      let (_, one, rest) =
        after_plan-eq-planned (check_one digest first last ms seen a) _ seen' h in
      let (new, known, row) = check_one-row first last ms seen a one in
      let (after, order, rows) =
        checked first last ms applied (insert_version a.version seen) seen'
          (
            insert-IsAscending a.version seen new inv.0,
            insert-All (λ v. contains v (versions ms) ≡ true) a.version seen known inv.1,
          )
          rest in
      (
        after,
        Perm.trans order (
            Perm.trans (Perm.append_left (applied_versions applied) (insert-perm a.version seen))
              (perm_middle (applied_versions applied) seen)),
        ap (λ r. r ∷ map (row_at ms) (applied_versions applied)) row ∙ ap (λ l. a ∷ l) rows,
      )

  drift-panic :
      (o : Option SchemaMigration) (ms : List SchemaMigration) (a : AppliedMigration)
      → ¬ (drift digest o ms a ≡ panicked)
  drift-panic none ms a h = cc
  drift-panic (some m) ms a h = ground (arith, h)

  check_one-panic :
      (first last : ℕ) (ms : List SchemaMigration) (seen : List ℕ) (a : AppliedMigration)
      → ¬ (check_one digest first last ms seen a ≡ panicked)
  check_one-panic first last ms seen a h =
      drift-panic (expected_migration ms a.version) ms a (ground (arith, h))

  check_applied-panic :
      (first last : ℕ) (ms : List SchemaMigration) (seen : List ℕ) (applied : List AppliedMigration)
      → ¬ (check_applied digest first last ms seen applied ≡ panicked)
  check_applied-panic first last ms seen [] h = cc
  check_applied-panic first last ms seen (a ∷ applied) h =
      elim (after_plan-eq-panicked (check_one digest first last ms seen a) _ h) [
        | inl one ↦ check_one-panic first last ms seen a one
        | inr rest ↦
            check_applied-panic first last ms (insert_version a.version seen) applied rest.2
      ]

  -- The planner does not panic: neither `expect` nor the index of the prefix check fails.
  plan_migrations-panic :
      (m : SchemaMigration) (ms : List SchemaMigration) (applied : List AppliedMigration)
      → IsAscending (versions (m ∷ ms))
      → ¬ (plan_migrations digest (m ∷ ms) applied ≡ panicked)
  unfolding plan_migrations
  plan_migrations-panic m ms applied up h =
      elim (after_plan-eq-panicked
        (check_applied digest m.version (latest m ms) (m ∷ ms) [] applied) _ h) [
          | inl one ↦ check_applied-panic m.version (latest m ms) (m ∷ ms) [] applied one
          | inr rest ↦
              let (seen, found, stop) = rest in
              let (inv, _, _) =
                checked m.version (latest m ms) (m ∷ ms) applied [] seen (tt, tt) found in
              elim (after_plan-eq-panicked (check_prefix seen (m ∷ ms)) _ stop) [
                | inl prefix ↦ check_prefix-panic seen (m ∷ ms) inv.0 up inv.1 prefix
                | inr last ↦ never last.2
              ]
        ]
    where
      never : {A : Type 0} {v : A} → ¬ (planned v ≡ panicked)
      never h = cc

  rows-done :
      (all done : List SchemaMigration)
      → All (λ m. expected_migration all m.version ≡ some m) done
      → map (row_at all) (versions done) ≡ map to_applied done
  rows-done all [] h = refl
  rows-done all (m ∷ done) h =
      ap (λ o. row_of o m.version ∷ map (row_at all) (versions done)) h.0
      ∙ ap (λ l. to_applied m ∷ l) (rows-done all done h.1)

  split_history :
      (all done pending : List SchemaMigration) (applied : List AppliedMigration) (seen : List ℕ)
      → all ≡ done ++ pending
      → IsAscending (versions all)
      → seen ≡ versions done
      → Perm seen (applied_versions applied ++ [])
      → map (row_at all) (applied_versions applied) ≡ applied
      → (unseen seen all ≡ pending) × Perm (map to_applied done) applied
  split_history all done pending applied seen split up same order rows =
      let ups : IsAscending (versions (done ++ pending)) =
        subst (λ l. IsAscending (versions l)) split up in
      let here : All (λ m. expected_migration all m.version ≡ some m) done =
        subst (λ l. All (λ m. expected_migration l m.version ≡ some m) done) (sym split)
          (expected_self done pending ups) in
      (
        ap (unseen seen) split
            ∙ ap (λ vs. unseen vs (done ++ pending)) same
            ∙ unseen-prefix done pending ups,
        subst (λ l. Perm l applied) (ap (map (row_at all)) same ∙ rows-done all done here)
            (subst (Perm (map (row_at all) seen))
              (ap (map (row_at all)) (append_nil (applied_versions applied)) ∙ rows)
              (Perm.map (row_at all) order)),
      )

  plan_migrations-planned :
      (m : SchemaMigration) (ms : List SchemaMigration) (applied : List AppliedMigration)
      (pending : List SchemaMigration)
      → IsAscending (versions (m ∷ ms))
      → plan_migrations digest (m ∷ ms) applied ≡ planned pending
      → (done : List SchemaMigration) × (m ∷ ms ≡ done ++ pending)
        × Perm (map to_applied done) applied
  unfolding plan_migrations
  plan_migrations-planned m ms applied pending up h =
      let (seen, found, rest) =
        after_plan-eq-planned (check_applied digest m.version (latest m ms) (m ∷ ms) [] applied) _
          pending h in
      let (_, prefix, answer) = after_plan-eq-planned (check_prefix seen (m ∷ ms)) _ pending rest in
      let (inv, order, rows) =
        checked m.version (latest m ms) (m ∷ ms) applied [] seen (tt, tt) found in
      let (done, later, split, same) = prefix_of seen (m ∷ ms) prefix in
      let (left, history) =
        split_history (m ∷ ms) done later applied seen split up same order rows in
      let plan : unseen seen (m ∷ ms) ≡ pending = ground (arith, answer) in
      (done, split ∙ ap (λ l. done ++ l) (sym left ∙ plan), history)

  -- Where the versions of the binary's migrations ascend, the planner does not panic: it refuses
  -- the history, or the migrations are some that are done, whose rows are exactly the history in
  -- some order, followed by those that it plans.
  pub plan_migrations_lem :
      (m : SchemaMigration) (ms : List SchemaMigration) (applied : List AppliedMigration)
      → IsAscending (versions (m ∷ ms))
      → ((e : CockroachSchemaError) × (plan_migrations digest (m ∷ ms) applied ≡ refused e))
        ⊎ ((done : List SchemaMigration) × (pending : List SchemaMigration) × (plan_migrations
                digest
                (m ∷ ms)
                applied
              ≡ planned pending)
            × (m ∷ ms ≡ done ++ pending)
            × Perm (map to_applied done) applied)
  plan_migrations_lem m ms applied up = answers (plan_migrations digest (m ∷ ms) applied) refl
    where
      answers :
          (p : Plan (List SchemaMigration))
          → plan_migrations digest (m ∷ ms) applied ≡ p
          → ((e : CockroachSchemaError) × (plan_migrations digest (m ∷ ms) applied ≡ refused e))
            ⊎ ((done : List SchemaMigration) × (pending : List SchemaMigration) × (plan_migrations
                    digest
                    (m ∷ ms)
                    applied
                  ≡ planned pending)
                × (m ∷ ms ≡ done ++ pending)
                × Perm (map to_applied done) applied)
      answers (planned pending) h =
          let (done, split, history) = plan_migrations-planned m ms applied pending up h in
          inr (done, pending, h, split, history)
      answers (refused e) h = inl (e, h)
      answers panicked h = absurd (plan_migrations-panic m ms applied up h)
