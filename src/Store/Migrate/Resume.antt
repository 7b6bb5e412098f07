-- ===== src/Store/Migrate/Resume.antt =====
-- internal/store/migrate.go: a migration that was cut short is taken up where it stopped.
use razdacha.Prelude.{
  ℕ, ◌≤◌, ◌<◌, ◌≡◌, ◌⊎◌, refl, sym, ap, ◌∙◌, arith, true, false, List, [], ◌∷◌, ◌++◌, Option, none,
  some, String, ltb, leb, leb_iff, Bool-cases, Option-cases, inl, inr,
}
use razdacha.Store.Migrate.{
  Migration, Database, MigrateOutcome, schema_version, apply_step, run_steps, migrate,
}

-- Every step has a version above v, or none has.
abbrev pub Above : ℕ → List Migration → Type 0
Above v [] = Unit
Above v (m ∷ steps) = (v < m.version) × Above v steps

abbrev pub AtMost : ℕ → List Migration → Type 0
AtMost v [] = Unit
AtMost v (m ∷ steps) = (m.version ≤ v) × AtMost v steps

-- The versions rise.
abbrev pub Ascending : List Migration → Type 0
Ascending [] = Unit
Ascending (m ∷ steps) = Above m.version steps × Ascending steps

Above-le : (u v : ℕ) (steps : List Migration) → u ≤ v → Above v steps → Above u steps
Above-le u v [] h a = tt
Above-le u v (m ∷ steps) h a = (omega (arith, a.0), Above-le u v steps h a.1)

AtMost-le : (u v : ℕ) (steps : List Migration) → u ≤ v → AtMost u steps → AtMost v steps
AtMost-le u v [] h a = tt
AtMost-le u v (m ∷ steps) h a = (omega (arith, a.0), AtMost-le u v steps h a.1)

-- The last version is the greatest.
schema_version-AtMost :
    (steps : List Migration) → Ascending steps → AtMost (schema_version steps) steps
unfolding schema_version
schema_version-AtMost [] a = tt
schema_version-AtMost (m ∷ []) a = (omega arith, tt)
schema_version-AtMost (m ∷ (n ∷ steps)) a =
    let rest : AtMost (schema_version (n ∷ steps)) (n ∷ steps) =
      schema_version-AtMost (n ∷ steps) a.1 in
    (omega (arith, rest.0, a.0.0), rest)

outcomes_apart : (v : ℕ) → MigrateOutcome.failed v ≡ MigrateOutcome.done → ⊥
outcomes_apart v e = cc

module _ {Schema : Type 0} (exec : String → Schema → Option Schema) where
  -- The cases of a round.
  run_skip :
      (c : ℕ) (m : Migration) (steps : List Migration) (db : Database Schema)
      → leb m.version c ≡ true
      → run_steps exec c (m ∷ steps) db ≡ run_steps exec c steps db
  unfolding run_steps
  run_skip c m steps db h = rw h refl

  run_apply :
      (c : ℕ) (m : Migration) (steps : List Migration) (db next : Database Schema)
      → leb m.version c ≡ false
      → apply_step exec m db ≡ some next
      → run_steps exec c (m ∷ steps) db ≡ run_steps exec c steps next
  unfolding run_steps
  run_apply c m steps db next h e = rw (h, e, run_steps) refl

  run_fail :
      (c : ℕ) (m : Migration) (steps : List Migration) (db : Database Schema)
      → leb m.version c ≡ false
      → apply_step exec m db ≡ none
      → run_steps exec c (m ∷ steps) db ≡ (MigrateOutcome.failed m.version, db)
  unfolding run_steps
  run_fail c m steps db h e = rw (h, e, run_steps) refl

  failed_not_done :
      (v : ℕ) (a b : Database Schema) (r : MigrateOutcome × Database Schema)
      → r ≡ (MigrateOutcome.failed v, a)
      → r ≡ (MigrateOutcome.done, b)
      → ⊥
  failed_not_done v a b r e f = outcomes_apart v (ap (λ p. p.0) (sym e ∙ f))

  apply_step-version :
      (m : Migration) (db next : Database Schema)
      → apply_step exec m db ≡ some next
      → next.user_version ≡ m.version
  unfolding apply_step
  apply_step-version m db next h = elim (Option-cases (exec m.stmts db.schema)) [
    | inl broken ↦ ground arith
    | inr (schema, made) ↦ ground arith
  ]

  -- A run that ends well went over its first step in one of two ways.
  run-done :
      (c : ℕ) (m : Migration) (steps : List Migration) (db db1 : Database Schema)
      → run_steps exec c (m ∷ steps) db ≡ (MigrateOutcome.done, db1)
      → ((m.version ≤ c) × (run_steps exec c steps db ≡ (MigrateOutcome.done, db1)))
        ⊎ ((next : Database Schema) × (c < m.version)
            × (apply_step exec m db ≡ some next)
            × (run_steps exec c steps next ≡ (MigrateOutcome.done, db1)))
  run-done c m steps db db1 h = elim (Bool-cases (leb m.version c)) [
    | inl skip ↦ inl ((leb_iff m.version c).0 skip, sym (run_skip c m steps db skip) ∙ h)
    | inr take ↦ elim (Option-cases (apply_step exec m db)) [
      | inl broken ↦
          absurd (failed_not_done m.version db db1 _ (run_fail c m steps db take broken) h)
      | inr (next, applied) ↦
          inr (next, ground arith, applied, sym (run_apply c m steps db next take applied) ∙ h)
    ]
  ]

  run_steps-append :
      (c : ℕ) (before after : List Migration) (db db1 : Database Schema)
      → run_steps exec c before db ≡ (MigrateOutcome.done, db1)
      → run_steps exec c (before ++ after) db ≡ run_steps exec c after db1
  run_steps-append c [] after db db1 h = unfold run_steps in ap (λ p. run_steps exec c after p.1) h
  run_steps-append c (m ∷ before) after db db1 h = elim (run-done c m before db db1 h) [
    | inl (skip, rest) ↦
        run_skip c m (before ++ after) db ((leb_iff m.version c).1 skip)
        ∙ run_steps-append c before after db db1 rest
    | inr (next, take, applied, rest) ↦
        run_apply c m (before ++ after) db next (ground arith) applied
        ∙ run_steps-append c before after next db1 rest
  ]

  -- Steps that the database has are passed over.
  run_steps-AtMost :
      (c : ℕ) (before after : List Migration) (db : Database Schema)
      → AtMost c before
      → run_steps exec c (before ++ after) db ≡ run_steps exec c after db
  run_steps-AtMost c [] after db a = refl
  run_steps-AtMost c (m ∷ before) after db a =
      run_skip c m (before ++ after) db ((leb_iff m.version c).1 a.0)
      ∙ run_steps-AtMost c before after db a.1

  -- Where every step is ahead, it makes no difference what was read.
  run_steps-Above :
      (c d : ℕ) (steps : List Migration) (db : Database Schema)
      → Above c steps
      → Above d steps
      → run_steps exec c steps db ≡ run_steps exec d steps db
  run_steps-Above c d [] db a b = unfold run_steps in refl
  run_steps-Above c d (m ∷ steps) db a b = elim (Option-cases (apply_step exec m db)) [
    | inl broken ↦
        run_fail c m steps db (ground arith) broken
        ∙ sym (run_fail d m steps db (ground arith) broken)
    | inr (next, applied) ↦
        run_apply c m steps db next (ground arith) applied
        ∙ run_steps-Above c d steps next a.1 b.1
        ∙ sym (run_apply d m steps db next (ground arith) applied)
  ]

  -- Where a run that ends well leaves the version: at that of its last step, or where it was.
  record Reached (c top : ℕ) (before after : List Migration) (db db1 : Database Schema)
      : Type 0 where
    grown : db.user_version ≤ db1.user_version
    ahead : (db1.user_version ≡ c) ⊎ Above db1.user_version after
    passed : AtMost db1.user_version before
    bounded : db1.user_version ≤ top

  run-Reached :
      (c top : ℕ) (before after : List Migration) (db db1 : Database Schema)
      → Ascending (before ++ after)
      → AtMost top (before ++ after)
      → c ≤ db.user_version
      → db.user_version ≤ top
      → (db.user_version ≡ c) ⊎ Above db.user_version (before ++ after)
      → run_steps exec c before db ≡ (MigrateOutcome.done, db1)
      → Reached c top before after db db1
  run-Reached c top [] after db db1 asc most low high here h =
      let e : db ≡ db1 = unfold run_steps in ap (λ p. p.1) h in
      rw (← e) (record { grown = omega arith; ahead = here; passed = tt; bounded = high })
  run-Reached c top (m ∷ before) after db db1 asc most low high here h =
      elim (run-done c m before db db1 h) [
        | inl (skip, rest) ↦
            let same : db.user_version ≡ c = elim here [
              | inl e ↦ e
              | inr ahead ↦ absurd (omega (arith, ahead.0))
            ] in
            let r : Reached c top before after db db1 =
              run-Reached c top before after db db1 asc.1 most.1 low high (inl same) rest in
            record {
              grown = r.grown;
              ahead = r.ahead;
              passed = (omega (arith, r.grown), r.passed);
              bounded = r.bounded;
            }
        | inr (next, take, applied, rest) ↦
            let v : next.user_version ≡ m.version = apply_step-version m db next applied in
            let r : Reached c top before after next db1 =
              run-Reached c top before after next db1 asc.1 most.1 (omega arith)
                (omega (arith, most.0)) (inr (rw v asc.0)) rest in
            let up : db.user_version ≤ next.user_version = elim here [
              | inl e ↦ omega arith
              | inr ahead ↦ omega (arith, ahead.0)
            ] in
            record {
              grown = omega (arith, r.grown);
              ahead = r.ahead;
              passed = (omega (arith, r.grown), r.passed);
              bounded = r.bounded;
            }
      ]

  migrate_fits :
      (steps : List Migration) (db : Database Schema)
      → db.user_version ≤ schema_version steps
      → migrate exec steps db ≡ run_steps exec db.user_version steps db
  unfolding migrate
  migrate_fits steps db h =
      let e : ltb (schema_version steps) db.user_version ≡ false = ground arith in
      rw (e, migrate) refl

  same_choices :
      (c top : ℕ) (before after : List Migration) (db db1 : Database Schema)
      → c ≤ db.user_version
      → Reached c top before after db db1
      → run_steps exec db1.user_version after db1 ≡ run_steps exec c after db1
  same_choices c top before after db db1 h r = elim r.ahead [
    | inl e ↦ ap (λ v. run_steps exec v after db1) e
    | inr ahead ↦
        run_steps-Above db1.user_version c after db1 ahead
          (Above-le c db1.user_version after (omega (arith, r.grown)) ahead)
  ]

-- With steps whose versions rise, and a database that is not too new: if migrate stops after some of
-- the steps, none of which failed, then to run it again comes to the same end, with the same
-- database, as to run it once without the stop.
pub migrate-resumes :
    {Schema : Type 0} (exec : String → Schema → Option Schema) (before after : List Migration)
    (db db1 : Database Schema)
    → Ascending (before ++ after)
    → db.user_version ≤ schema_version (before ++ after)
    → run_steps exec db.user_version before db ≡ (MigrateOutcome.done, db1)
    → migrate exec (before ++ after) db1 ≡ migrate exec (before ++ after) db
migrate-resumes exec before after db db1 asc fits h =
    let c : ℕ = db.user_version in
    let top : ℕ = schema_version (before ++ after) in
    let r : Reached exec c top before after db db1 =
      run-Reached exec c top before after db db1 asc (schema_version-AtMost (before ++ after) asc)
        (omega arith) fits (inl refl) h in
    migrate_fits exec (before ++ after) db1 r.bounded
    ∙ run_steps-AtMost exec db1.user_version before after db1 r.passed
    ∙ same_choices exec c top before after db db1 (omega arith) r
    ∙ sym (run_steps-append exec c before after db db1 h)
    ∙ sym (migrate_fits exec (before ++ after) db fits)
