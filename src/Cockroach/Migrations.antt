-- ===== src/Cockroach/Migrations.antt =====
-- The plan of the schema migrations, src/adapters/cockroach_schema.rs. `SELECT` answers the
-- history; SHA-256 is a parameter. Versions are natural numbers here.
use pulpitum.Base.{
  ℕ, Bool, ◌&&◌, not, Option, none, some, List, [], ◌∷◌, ltb, ◌==◌, if◌then◌else◌, any, keep,
}
use pulpitum.Base.Text.{Text, Bytes, text_eq}
use pulpitum.Object.Keys.{encode_path_segment}

pub record SchemaMigration : Type 0 where
  pub version : ℕ
  pub name : Text
  pub sql : Text

pub record AppliedMigration : Type 0 where
  pub version : ℕ
  pub name : Text
  pub checksum : Text

pub data CockroachSchemaError : Type 0 where
  database : Text → CockroachSchemaError
  checksum_drift :
      (version : ℕ) (expected_name expected_checksum actual_name actual_checksum : Text)
      → CockroachSchemaError
  unsupported_historical_version : (version first_supported : ℕ) → CockroachSchemaError
  future_version : (version latest_supported : ℕ) → CockroachSchemaError
  migration_gap : (missing present : ℕ) → CockroachSchemaError
  duplicate_version : ℕ → CockroachSchemaError
  pending_migrations : List ℕ → CockroachSchemaError
  missing_column : (table column : Text) → CockroachSchemaError
  primary_key_mismatch : Text → List Text → List Text → CockroachSchemaError

-- What the planner answers; `expect` and an index out of range panic.
pub data Plan (A : Type 0) : Type 0 where
  planned : A → Plan A
  refused : CockroachSchemaError → Plan A
  panicked : Plan A

abbrev pub after_plan : {A B : Type 0} → Plan A → (A → Plan B) → Plan B
after_plan (planned a) f = f a
after_plan (refused e) f = refused e
after_plan panicked f = panicked

abbrev pub contains : ℕ → List ℕ → Bool
contains v seen = any (λ w. w == v) seen

-- `seen.insert`: the keys of the tree are in order.
abbrev pub insert_version : ℕ → List ℕ → List ℕ
insert_version v [] = v ∷ []
insert_version v (w ∷ seen) =
    let rest = insert_version v seen in if ltb v w then v ∷ w ∷ seen else w ∷ rest

abbrev pub or_this : Option SchemaMigration → SchemaMigration → ℕ → Option SchemaMigration
or_this (some n) m v = some n
or_this none m v = if m.version == v then some m else none

-- `expected.get(&version)`: of two migrations of one version the later is in the tree.
abbrev pub expected_migration : List SchemaMigration → ℕ → Option SchemaMigration
expected_migration [] v = none
expected_migration (m ∷ ms) v = or_this (expected_migration ms v) m v

abbrev pub next_version : List SchemaMigration → ℕ → ℕ
next_version [] v = v
next_version (m ∷ ms) v =
    let rest = next_version ms v in if ltb v m.version then m.version else rest

abbrev pub latest : SchemaMigration → List SchemaMigration → ℕ
latest m [] = m.version
latest m (n ∷ ms) = latest n ms

-- `migrations[index].version` of each applied version.
abbrev pub check_prefix : List ℕ → List SchemaMigration → Plan (Unit {0})
check_prefix [] ms = planned tt
check_prefix (v ∷ seen) [] = panicked
check_prefix (v ∷ seen) (m ∷ ms) =
    let rest = check_prefix seen ms in
    if v == m.version then rest else refused (migration_gap m.version v)

abbrev pub unseen : List ℕ → List SchemaMigration → List SchemaMigration
unseen seen ms = keep (λ m. not (contains m.version seen)) ms

module _ (digest : Bytes → Bytes) where
  unfoldable pub migration_checksum : Text → Text
  migration_checksum sql = encode_path_segment (digest sql)

  abbrev pub is_unchanged : SchemaMigration → AppliedMigration → Bool
  is_unchanged m a = text_eq a.name m.name && text_eq a.checksum (migration_checksum m.sql)

  abbrev pub drift :
      Option SchemaMigration → List SchemaMigration → AppliedMigration → Plan (Unit {0})
  drift none ms a = refused (migration_gap (next_version ms a.version) a.version)
  drift (some m) ms a =
      if is_unchanged m a
      then planned tt
      else refused (checksum_drift a.version m.name (migration_checksum m.sql) a.name a.checksum)

  abbrev pub check_one :
      (first last : ℕ) (ms : List SchemaMigration) (seen : List ℕ)
      → AppliedMigration
      → Plan (Unit {0})
  check_one first last ms seen a =
      if contains a.version seen
      then refused (duplicate_version a.version)
      else if ltb a.version first
      then refused (unsupported_historical_version a.version first)
      else if ltb last a.version
      then refused (future_version a.version last)
      else drift (expected_migration ms a.version) ms a

  abbrev pub check_applied :
      (first last : ℕ) (ms : List SchemaMigration) (seen : List ℕ)
      → List AppliedMigration
      → Plan (List ℕ)
  check_applied first last ms seen [] = planned seen
  check_applied first last ms seen (a ∷ applied) =
      after_plan (check_one first last ms seen a)
        (λ _. check_applied first last ms (insert_version a.version seen) applied)

  unfoldable pub plan_migrations :
      List SchemaMigration → List AppliedMigration → Plan (List SchemaMigration)
  plan_migrations [] applied = panicked
  plan_migrations (m ∷ ms) applied =
      after_plan (check_applied m.version (latest m ms) (m ∷ ms) [] applied)
        (λ seen. after_plan (check_prefix seen (m ∷ ms)) (λ _. planned (unseen seen (m ∷ ms))))
