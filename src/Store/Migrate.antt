-- ===== src/Store/Migrate.antt =====
-- internal/store/migrate.go: the steps of the schema, each in a transaction of its own.
pub mod Resume
mod Tests
use razdacha.Prelude.{
  ℕ, zero, suc, ◌+◌, List, [], ◌∷◌, Option, none, some, String, ltb, leb, if◌then◌else◌,
}

-- `migration`.
pub record Migration : Type 0 where
  pub version : ℕ
  pub stmts : String

-- The database: PRAGMA user_version, and what the statements work on.
pub record Database (Schema : Type 0) : Type 0 where
  pub user_version : ℕ
  pub schema : Schema

-- How migrate ends: `too_new` is ErrInvalid, and `failed` is the error of a step.
pub data MigrateOutcome : Type 0 where
  done : MigrateOutcome
  too_new : MigrateOutcome
  failed : ℕ → MigrateOutcome

-- schemaVersion: the version of the last step.
unfoldable pub schema_version : List Migration → ℕ
schema_version [] = 0
schema_version (m ∷ []) = m.version
schema_version (m ∷ (n ∷ steps)) = schema_version (n ∷ steps)

-- `exec` is what SQLite makes of the statements: `none` for an error.
module _ {Schema : Type 0} (exec : String → Schema → Option Schema) where
  -- A transaction of the loop; an error rolls it back.
  unfoldable pub apply_step : Migration → Database Schema → Option (Database Schema)
  apply_step m db = elim (exec m.stmts db.schema) [
    | none ↦ none
    | some schema ↦ some (record { user_version = m.version; schema = schema })
  ]

  -- The loop of migrate; `current` was read before it.
  unfoldable pub run_steps : ℕ → List Migration → Database Schema → MigrateOutcome × Database Schema
  run_steps current [] db = (MigrateOutcome.done, db)
  run_steps current (m ∷ steps) db =
      let skipped = run_steps current steps db in
      if leb m.version current then skipped else elim (apply_step m db) [
        | none ↦ (MigrateOutcome.failed m.version, db)
        | some next ↦ run_steps current steps next
      ]

  unfoldable pub migrate : List Migration → Database Schema → MigrateOutcome × Database Schema
  migrate steps db =
      if ltb (schema_version steps) db.user_version
      then (MigrateOutcome.too_new, db)
      else run_steps db.user_version steps db
