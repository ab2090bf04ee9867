-- ===== src/Migrate.antt =====
-- internal/database/migrate.go: `RunMigrations` with its table of applied migrations. What
-- PostgreSQL makes of the text of a migration, and which calls fail, are parameters.
use Prim.Native.Nat.{Ordering}
use Prim.Native.String.{compare}
use go_lang_domain_based_ent.Migrate.Names.{
  extract_version, fix_create_table_statements, get_migration_name,
}
use go_lang_domain_based_ent.Prelude.{
  Bool, List, Option, String, [], any, false, if◌then◌else◌, map, none, not, some, take, true, ℕ,
  ◌++◌, ◌+◌, ◌<>◌, ◌==◌, ◌||◌, ◌∷◌,
}
use go_lang_domain_based_ent.World.{Failure, Result, err, ok, query_failed, rewrap, wrapped}
pub mod Names
pub mod Steps
pub mod Laws
pub mod Prefix
pub mod Completion
pub mod Tests

-- The rest of the database, what a text of SQL makes of it, and whether the call of a number fails. A
-- Commit that fails has changed nothing here: one that took effect while its answer was lost is left
-- out.
pub record Postgres : Type 1 where
  pub State : Type 0
  pub exec : String → State → Option State
  pub fails : ℕ → Bool
  -- After how many rows the reading of the query of this number breaks off, if it does.
  pub breaks_off : ℕ → Option ℕ

pub record Migration : Type 0 where
  pub version : String
  pub name : String
  pub applied_at : ℕ

-- `migrations` is the table schema_migrations, which may be missing.
pub record Database (P : Postgres) : Type 0 where
  pub state : P.State
  pub migrations : Option (List Migration)
  pub calls : ℕ
  pub now : ℕ

-- `sort.Strings` on the paths.
abbrev pub is_before : String → String → Bool
is_before a b = elim (compare a b) [ Ordering.gt ↦ false | _ ↦ true ]

abbrev pub insert_file : String × String → List (String × String) → List (String × String)
insert_file file [] = file ∷ []
insert_file file (own ∷ files) =
    let later = insert_file file files in
    if is_before file.0 own.0 then file ∷ own ∷ files else own ∷ later

unfoldable pub sort_files : List (String × String) → List (String × String)
sort_files [] = []
sort_files (file ∷ files) = insert_file file (sort_files files)

abbrev pub Run : Postgres → Type 0 → Type 0
Run P A = Database P → Result A × Database P

abbrev pub rows_of : Option (List Migration) → List Migration
rows_of none = []
rows_of (some rows) = rows

abbrev pub versions : List Migration → List String
versions rows = map (λ m. m.version) rows

-- The loop over `rows.Next` takes an error of the connection for the end of the rows.
abbrev pub rows_read : Option ℕ → List Migration → List Migration
rows_read none rows = rows
rows_read (some n) rows = take n rows

abbrev pub versions_in : Option ℕ → Option (List Migration) → Result (List String)
versions_in cut none = err query_failed
versions_in cut (some rows) = ok (versions (rows_read cut rows))

-- `applied[version]`
abbrev pub is_applied : String → List String → Bool
is_applied version applied = any (λ own. own == version) applied

-- INSERT INTO schema_migrations: the table is there, and its versions are unique.
abbrev pub recorded : Migration → Option (List Migration) → Option (List Migration)
recorded m none = none
recorded m (some rows) =
    if is_applied m.version (versions rows) then none else some (rows ++ m ∷ [])

abbrev pub failed_at : String → String
failed_at file = "migration " <> file <> " failed"

abbrev pub unless_failed : {A : Type 0} → Bool → Option A → Option A
unless_failed down result = if down then none else result

abbrev pub migration_of : String → ℕ → Migration
migration_of file t = record {
  version = extract_version file;
  name = get_migration_name file;
  applied_at = t;
}

module _ {P : Postgres} where
  abbrev pub next_call : Database P → Database P
  next_call db = record db { calls = db.calls + 1 }

  -- CREATE TABLE IF NOT EXISTS schema_migrations
  unfoldable pub create_migrations_table : Run P (Unit {0})
  create_migrations_table db =
      if P.fails db.calls
      then (err query_failed, next_call db)
      else (ok tt, record (next_call db) { migrations = some (rows_of db.migrations) })

  -- The map from versions to `true`, as the list of its keys.
  unfoldable pub get_applied_migrations : Run P (List String)
  get_applied_migrations db =
      if P.fails db.calls
      then (err query_failed, next_call db)
      else (versions_in (P.breaks_off db.calls) db.migrations, next_call db)

  -- From `tx.Exec` of the migration on, with what the migration and its record come to. A transaction
  -- that does not commit leaves nothing.
  abbrev pub close_migration :
      String
      → Option P.State
      → Option (List Migration)
      → Database P
      → Result (Unit {0}) × Database P
  close_migration file none rows db = (err (wrapped (failed_at file) query_failed), next_call db)
  close_migration file (some after) none db = (
    err (wrapped ("failed to record migration " <> extract_version file) query_failed),
    next_call (next_call db),
  )
  close_migration file (some after) (some rows) db =
      let last = next_call (next_call db) in
      if P.fails last.calls
      then (err query_failed, next_call last)
      else (ok tt, record (next_call last) { state = after; migrations = some rows })

  -- The body of the loop, for a file that is not applied.
  unfoldable pub run_file : String → String → Run P (Unit {0})
  run_file file text db =
      if P.fails db.calls
      then (err query_failed, next_call db)
      else (let begun = next_call db in
          close_migration file
            (unless_failed (P.fails begun.calls)
              (P.exec (fix_create_table_statements text) db.state))
            (unless_failed (P.fails (begun.calls + 1))
              (recorded (migration_of file db.now) db.migrations))
            begun)

  -- `return err`, or what comes next.
  abbrev pub and_then :
      Result (Unit {0}) × Database P → Run P (Unit {0}) → Result (Unit {0}) × Database P
  and_then (ok done, db) rest = rest db
  and_then (err e, db) rest = (err e, db)

  -- The loop over the files, each with its text. The applied versions are those of its start.
  unfoldable pub run_pending : List String → List (String × String) → Run P (Unit {0})
  run_pending applied [] db = (ok tt, db)
  run_pending applied ((file, text) ∷ files) db =
      let rest : Run P (Unit {0}) = run_pending applied files in
      if is_applied (extract_version file) applied
      then rest db
      else and_then (run_file file text db) rest

  abbrev pub with_applied :
      List (String × String) → Result (List String) × Database P → Result (Unit {0}) × Database P
  with_applied files (ok applied, db) = run_pending applied files db
  with_applied files (err e, db) = (err (wrapped "failed to get applied migrations" e), db)

  abbrev pub with_table :
      List (String × String) → Result (Unit {0}) × Database P → Result (Unit {0}) × Database P
  with_table files (ok done, db) = with_applied files (get_applied_migrations db)
  with_table files (err e, db) = (err (wrapped "failed to create migrations table" e), db)

  -- The embedded files, in any order.
  unfoldable pub run_migrations : List (String × String) → Run P (Unit {0})
  run_migrations files db = with_table (sort_files files) (create_migrations_table db)
