-- ===== src/Schema.antt =====
-- `Migrate` of internal/schema/schema.go: the embedded files, run one after the other. What the embedded
-- file system holds and what the server makes of a script are given.
use postgres_controller_back.Base.{Option, none, some, List, [], ◌∷◌, Outcome, ok, err}
use postgres_controller_back.Base.Text.{Text, codes}

-- The file at which the migration failed.
pub data MigrateError : Type 0 where
  read_failed apply_failed : Text → MigrateError

abbrev pub migration_files : List Text
migration_files = codes "migrations/001_initial.sql" ∷ []

module _ {D : Type 0} (embedded : Text → Option Text) (exec : Text → D → Option D) where
  unfoldable pub migrate_files : List Text → D → Outcome MigrateError D
  migrate_files [] d = ok d
  migrate_files (f ∷ fs) d = elim (embedded f) [
    | none ↦ err (read_failed f)
    | some sql ↦ elim (exec sql d) [ none ↦ err (apply_failed f) | some d' ↦ migrate_files fs d' ]
  ]

  unfoldable pub migrate : D → Outcome MigrateError D
  unfolding migrate_files
  migrate d = migrate_files migration_files d
