-- ===== src/Store/Migrate/Tests.antt =====
-- The migrations at concrete inputs.
use razdacha.Prelude.{
  ◌≡◌, refl, arith, List, [], ◌∷◌, Option, none, some, String, ◌==◌, if◌then◌else◌,
}
use razdacha.Store.Migrate.{
  Migration, Database, MigrateOutcome, schema_version, apply_step, run_steps, migrate,
}
use razdacha.Store.Migrate.Resume.{migrate-resumes}

abbrev first : Migration
first = record { version = 1; stmts = "a" }

abbrev second : Migration
second = record { version = 2; stmts = "b" }

abbrev third : Migration
third = record { version = 3; stmts = "broken" }

-- A schema is the statements that made it.
abbrev exec : String → List String → Option (List String)
exec stmts schema = if stmts == "broken" then none else some (stmts ∷ schema)

abbrev empty : Database (List String)
empty = record { user_version = 0; schema = [] }

abbrev after_first : Database (List String)
after_first = record { user_version = 1; schema = "a" ∷ [] }

-- The step that fails leaves those before it.
migrate_broken :
    migrate exec (first ∷ second ∷ third ∷ []) empty
    ≡ (MigrateOutcome.failed 3, record { user_version = 2; schema = "b" ∷ "a" ∷ [] })
unfolding migrate run_steps apply_step schema_version
migrate_broken = refl

migrate_too_new :
    migrate exec (first ∷ []) (record { user_version = 9; schema = [] })
    ≡ (MigrateOutcome.too_new, record { user_version = 9; schema = [] })
unfolding migrate schema_version
migrate_too_new = refl

migrate-resumes_example :
    migrate exec (first ∷ second ∷ []) after_first ≡ migrate exec (first ∷ second ∷ []) empty
migrate-resumes_example =
    migrate-resumes exec (first ∷ []) (second ∷ []) empty after_first ((omega arith, tt), (tt, tt))
      (unfold schema_version in omega arith) (unfold run_steps apply_step in refl)
