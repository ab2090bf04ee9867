-- ===== src/Migrate/Completion.antt =====
-- Where nothing fails, a run of the migrations ends well.
use go_lang_domain_based_ent.Migrate.{
  Database, Migration, Postgres, is_applied, migration_of, rows_of, rows_read, run_file,
  run_migrations, run_pending, sort_files, versions,
}
use go_lang_domain_based_ent.Migrate.Laws.{
  run_migrations-IsRecorded, run_migrations-cases, started, true_not_false,
}
use go_lang_domain_based_ent.Migrate.Names.{extract_version, fix_create_table_statements}
use go_lang_domain_based_ent.Migrate.Steps.{
  IsRecorded, is_applied-added, run_pending-nil, run_pending-ok, run_pending-skip,
}
use go_lang_domain_based_ent.Prelude.{
  All, Bool-cases, List, String, [], ap, arith, false, inl, inr, none, refl, some, subst, sym, true,
  ℕ, ◌++◌, ◌+◌, ◌==◌, ◌∙◌, ◌∷◌, ◌≡◌, ◌⊎◌,
}
use go_lang_domain_based_ent.World.{Result, ok}

-- No call fails, and what is read is read to its end.
pub record IsSmooth (P : Postgres) : Type 0 where
  pub up : (n : ℕ) → P.fails n ≡ false
  pub whole : (n : ℕ) → P.breaks_off n ≡ none

-- The texts of the files that are not applied go through, each after those before it.
abbrev pub RunThrough : (P : Postgres) → List String → List (String × String) → P.State → Type 0
RunThrough P applied [] state = Unit
RunThrough P applied ((file, text) ∷ files) state =
    ((is_applied (extract_version file) applied ≡ true) × RunThrough P applied files state)
    ⊎ ((is_applied (extract_version file) applied ≡ false)
        × ((after : P.State) × (P.exec (fix_create_table_statements text) state ≡ some after)
            × RunThrough P applied files after))

abbrev DiffersFrom : String × String → String × String → Type 0
DiffersFrom file own = (extract_version file.0 == extract_version own.0) ≡ false

-- No two files have one version.
abbrev pub HasDistinctVersions : List (String × String) → Type 0
HasDistinctVersions [] = Unit
HasDistinctVersions (file ∷ files) = All (DiffersFrom file) files × HasDistinctVersions files

-- The file is applied, or its version is not in the table.
abbrev IsOpen : List String → List Migration → String × String → Type 0
IsOpen applied rows file =
    (is_applied (extract_version file.0) applied ≡ true)
    ⊎ (is_applied (extract_version file.0) (versions rows) ≡ false)

not_recorded :
    (applied : List String) (rows : List Migration) (file : String × String)
    → is_applied (extract_version file.0) applied ≡ false
    → IsOpen applied rows file
    → is_applied (extract_version file.0) (versions rows) ≡ false
not_recorded applied rows file fresh (inl old) = absurd (true_not_false (sym old ∙ fresh))
not_recorded applied rows file fresh (inr new) = new

-- At the start of a run, what is not applied is not in the table.
All-IsOpen :
    (rows : List Migration) (files : List (String × String))
    → All (IsOpen (versions rows) rows) files
All-IsOpen rows [] = tt
All-IsOpen rows (file ∷ files) =
    (Bool-cases (is_applied (extract_version file.0) (versions rows)), All-IsOpen rows files)

module _ {P : Postgres} (smooth : IsSmooth P) where
  run_file-ok :
      (file text : String) (db : Database P) (rows : List Migration) (after : P.State)
      → P.exec (fix_create_table_statements text) db.state ≡ some after
      → db.migrations ≡ some rows
      → is_applied (extract_version file) (versions rows) ≡ false
      → ((run_file file text db).0 ≡ ok tt)
        × ((run_file file text db).1.migrations ≡ some (rows ++ migration_of file db.now ∷ []))
        × ((run_file file text db).1.state ≡ after)
  unfolding run_file
  run_file-ok file text db rows after goes there fresh = ground (
    arith,
    smooth.up db.calls,
    smooth.up (db.calls + 1),
    smooth.up (db.calls + 1 + 1),
    smooth.up (db.calls + 1 + 1 + 1),
    goes,
    there,
    fresh,
  )

  still-IsOpen :
      (applied : List String) (rows : List Migration) (m : Migration) (file : String × String)
      (files : List (String × String))
      → m.version ≡ extract_version file.0
      → All (DiffersFrom file) files
      → All (IsOpen applied rows) files
      → All (IsOpen applied (rows ++ m ∷ [])) files
  still-IsOpen applied rows m file [] e apart all = tt
  still-IsOpen applied rows m file (own ∷ files) e (differs, apart) (inl old, all) =
      (inl old, still-IsOpen applied rows m file files e apart all)
  still-IsOpen applied rows m file (own ∷ files) e (differs, apart) (inr new, all) = (
    inr (is_applied-added (extract_version own.0) rows m ∙ rw (e, new) differs),
    still-IsOpen applied rows m file files e apart all,
  )

  run_pending-ends :
      (applied : List String) (files : List (String × String)) (db : Database P)
      (rows : List Migration)
      → db.migrations ≡ some rows
      → HasDistinctVersions files
      → All (IsOpen applied rows) files
      → RunThrough P applied files db.state
      → (run_pending applied files db).0 ≡ ok tt
  run_pending-ends applied [] db rows there distinct all runs = rw (run_pending-nil applied db) refl
  run_pending-ends applied ((file, text) ∷ files) db rows there (apart, distinct) (open_now, all)
        (inl (old, runs)) =
      rw (run_pending-skip applied file text files db old)
        (run_pending-ends applied files db rows there distinct all runs)
  run_pending-ends applied ((file, text) ∷ files) db rows there (apart, distinct) (open_now, all)
        (inr (fresh, (after, goes, runs))) =
      let new = not_recorded applied rows (file, text) fresh open_now in
      let (done, left, state) = run_file-ok file text db rows after goes there new in
      rw (run_pending-ok applied file text files db fresh done) (
        run_pending-ends applied files (run_file file text db).1 _ left distinct
          (still-IsOpen applied rows (migration_of file db.now) (file, text) files refl apart all)
          (subst (RunThrough P applied files) (sym state) runs))

  -- Where no call fails, the recorded versions are read to their end, PostgreSQL accepts the texts of
  -- the files that are not recorded, one after the other in the order of their names, and the files
  -- have different versions, a run of the migrations returns no error and has every file recorded.
  pub run_completes :
      (files : List (String × String)) (db : Database P)
      → HasDistinctVersions (sort_files files)
      → RunThrough P (versions (rows_of db.migrations)) (sort_files files) db.state
      → ((run_migrations files db).0 ≡ ok tt)
        × All (IsRecorded (versions (rows_of (run_migrations files db).1.migrations))) files
  run_completes files db distinct runs =
      let rows = rows_of db.migrations in
      let ended : (run_migrations files db).0 ≡ ok tt = elim (run_migrations-cases files db) [
        | inl early ↦ absurd (true_not_false (sym early.down ∙ smooth.up early.call))
        | inr loop ↦
            ap (λ (r : Result (Unit {0}) × Database P). r.0)
              (loop
                ∙ ap
                    (λ cut.
                      run_pending (versions (rows_read cut rows)) (sort_files files) (started db))
                    (smooth.whole (db.calls + 1)))
            ∙ run_pending-ends (versions rows) (sort_files files) (started db) rows refl distinct
                (All-IsOpen rows (sort_files files)) runs
      ] in
      (ended, run_migrations-IsRecorded files db ended)
