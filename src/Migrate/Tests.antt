-- ===== src/Migrate/Tests.antt =====
-- Migrations of a database that keeps the texts that it has executed.
use go_lang_domain_based_ent.Migrate.{
  Database, Postgres, rows_of, run_migrations, sort_files, versions,
}
use go_lang_domain_based_ent.Migrate.Completion.{IsSmooth, RunThrough, run_completes}
use go_lang_domain_based_ent.Migrate.Laws.{IsIdle, rerun-IsIdle}
use go_lang_domain_based_ent.Migrate.Names.{
  after_first, begins_upper, contains_upper, extract_version, fix_create_table_statements,
  get_migration_name, split, trim_left, trim_right,
}
use go_lang_domain_based_ent.Migrate.Steps.{IsRecorded}
use go_lang_domain_based_ent.Prelude.{
  All, List, String, [], false, if◌then◌else◌, inr, none, refl, some, string_dec, ◌++◌, ◌==◌, ◌∷◌,
  ◌≡◌,
}
use go_lang_domain_based_ent.World.{ok}

abbrev logging : Postgres
logging = record {
  State = List String;
  exec = λ text done. some (done ++ text ∷ []);
  fails = λ n. false;
  breaks_off = λ n. none;
}

-- The same, with an error in one text.
abbrev picky : Postgres
picky = record logging {
  exec = λ text done. if text == "bad" then none else some (done ++ text ∷ []);
}

abbrev new_database : Database logging
new_database = record { state = []; migrations = none; calls = 0; now = 10 }

abbrev picky_database : Database picky
picky_database = record { state = []; migrations = some []; calls = 0; now = 10 }

abbrev two_files : List (String × String)
two_files =
    ("migrations/000002_create_roles.up.sql", "create roles")
    ∷ ("migrations/000001_create_users.up.sql", "create users")
    ∷ []

abbrev bad_second : List (String × String)
bad_second =
    ("migrations/000001_create_users.up.sql", "create users")
    ∷ ("migrations/000002_create_roles.up.sql", "bad")
    ∷ []

version_of_users : extract_version "migrations/000001_create_users.up.sql" ≡ "000001_create_users"
unfolding extract_version split string_dec
version_of_users = refl

name_of_users : get_migration_name "migrations/000001_create_users.up.sql" ≡ "create_users"
unfolding get_migration_name after_first split string_dec
name_of_users = refl

fixed_statements :
    fix_create_table_statements "SELECT 1;\n CREATE TABLE a (); CREATE TABLE IF NOT EXISTS b ()"
    ≡ "SELECT 1;CREATE TABLE IF NOT EXISTS a (); CREATE TABLE IF NOT EXISTS b ()"
unfolding fix_create_table_statements split trim_left trim_right contains_upper begins_upper
    string_dec
fixed_statements = refl

-- A statement in lower case is found, and not replaced.
lower_statement : fix_create_table_statements "create table a ()" ≡ "create table a ()"
unfolding fix_create_table_statements split trim_left trim_right contains_upper begins_upper
    string_dec
lower_statement = refl

logging-IsSmooth : IsSmooth logging
logging-IsSmooth = record { up = λ n. refl; whole = λ n. refl }

two_files-RunThrough : RunThrough logging [] (sort_files two_files) []
unfolding sort_files
two_files-RunThrough = inr (refl, (_, refl, inr (refl, (_, refl, tt))))

run_completes_example :
    ((run_migrations two_files new_database).0 ≡ ok tt)
    × All
        (IsRecorded (versions (rows_of (run_migrations two_files new_database).1.migrations)))
        two_files
unfolding sort_files extract_version split string_dec
run_completes_example =
    run_completes logging-IsSmooth two_files new_database ((refl, tt), (tt, tt))
      two_files-RunThrough

rerun-IsIdle_example :
    All
      (IsRecorded (versions (rows_of (run_migrations two_files new_database).1.migrations)))
      two_files
    × IsIdle
        (run_migrations two_files new_database).1
        (run_migrations two_files (run_migrations two_files new_database).1)
unfolding sort_files extract_version split string_dec
rerun-IsIdle_example =
    rerun-IsIdle two_files new_database (run_migrations two_files new_database).1
      (run_completes logging-IsSmooth two_files new_database ((refl, tt), (tt, tt))
        two_files-RunThrough).0
      refl
