-- ===== src/Tests/Migrations.antt =====
-- Two migrations, of which the first was applied.
use mathlib.Core.List.{Perm}
use pulpitum.Base.{cmp_list, ◌≡◌, ◌⊎◌, refl, List, [], ◌∷◌, ◌++◌, map}
use pulpitum.Base.Text.{Bytes, codes}
use pulpitum.Cockroach.Migrations.{
  SchemaMigration, AppliedMigration, CockroachSchemaError, planned, refused, migration_gap,
  plan_migrations, migration_checksum,
}
use pulpitum.Object.Keys.{encode_path_segment}
use pulpitum.Cockroach.Planned.{to_applied, plan_migrations_lem}

-- A digest for the test: the bytes themselves.
abbrev sha256 : Bytes → Bytes
sha256 bytes = bytes

abbrev first_migration : SchemaMigration
first_migration = record { version = 4; name = codes "first"; sql = codes "a" }

abbrev second_migration : SchemaMigration
second_migration = record { version = 5; name = codes "second"; sql = codes "b" }

abbrev both_migrations : List SchemaMigration
both_migrations = first_migration ∷ second_migration ∷ []

abbrev history : List AppliedMigration
history = to_applied sha256 first_migration ∷ []

second_is_pending : plan_migrations sha256 both_migrations history ≡ planned (second_migration ∷ [])
unfolding plan_migrations migration_checksum encode_path_segment cmp_list
second_is_pending = refl

first_is_missing :
    plan_migrations sha256 both_migrations (to_applied sha256 second_migration ∷ [])
    ≡ refused (migration_gap 4 5)
unfolding plan_migrations migration_checksum encode_path_segment cmp_list
first_is_missing = refl

plan_migrations_lem_example :
    ((e : CockroachSchemaError) × (plan_migrations sha256 both_migrations history ≡ refused e))
    ⊎ ((done : List SchemaMigration) × (pending : List SchemaMigration) × (plan_migrations sha256
            both_migrations history
          ≡ planned pending)
        × (both_migrations ≡ done ++ pending)
        × Perm (map (to_applied sha256) done) history)
plan_migrations_lem_example =
    plan_migrations_lem sha256 first_migration (second_migration ∷ []) history
      ((refl, tt), (tt, tt))
