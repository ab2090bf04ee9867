-- ===== src/Migrate/Steps.antt =====
-- What one migration leaves, whether it is committed or not.
use go_lang_domain_based_ent.Migrate.{
  Database, Migration, Postgres, Run, and_then, close_migration, is_applied, migration_of, recorded,
  run_file, run_pending, unless_failed, versions,
}
use go_lang_domain_based_ent.Migrate.Names.{extract_version}
use go_lang_domain_based_ent.Prelude.{
  Bool, Bool-cases, List, Option, String, [], ap, arith, eq_self, false, if◌then◌else◌, inl, inr,
  none, refl, some, true, ℕ, ◌++◌, ◌+◌, ◌==◌, ◌||◌, ◌∙◌, ◌∷◌, ◌≡◌, ◌⊎◌,
}
use go_lang_domain_based_ent.World.{Failure, Result, err, ok}

-- The version of the file is among these.
abbrev pub IsRecorded : List String → String × String → Type 0
IsRecorded known file = is_applied (extract_version file.0) known ≡ true

is_applied-append :
    (v : String) (known more : List String)
    → is_applied v (known ++ more) ≡ (is_applied v known || is_applied v more)
is_applied-append v [] more = refl
is_applied-append v (own ∷ known) more = ground (arith, is_applied-append v known more)

versions-append :
    (rows : List Migration) (m : Migration)
    → versions (rows ++ m ∷ []) ≡ versions rows ++ m.version ∷ []
versions-append [] m = refl
versions-append (own ∷ rows) m = ap (λ vs. own.version ∷ vs) (versions-append rows m)

-- A version is recorded after a row is added if it was, or is that of the row.
pub is_applied-added :
    (v : String) (rows : List Migration) (m : Migration)
    → is_applied v (versions (rows ++ m ∷ [])) ≡ (is_applied v (versions rows) || m.version == v)
is_applied-added v rows m =
    rw (versions-append rows m)
      (ground (arith, is_applied-append v (versions rows) (m.version ∷ [])))

-- Every version of the first is one of the second.
abbrev pub IsIncluded : List String → List String → Type 0
IsIncluded known more = (v : String) → is_applied v known ≡ true → is_applied v more ≡ true

pub added-IsIncluded :
    (rows : List Migration) (m : Migration) → IsIncluded (versions rows) (versions (rows ++ m ∷ []))
added-IsIncluded rows m v h = is_applied-added v rows m ∙ ground (arith, h)

pub added-recorded :
    (rows : List Migration) (m : Migration)
    → is_applied m.version (versions (rows ++ m ∷ [])) ≡ true
added-recorded rows m = is_applied-added m.version rows m ∙ ground (arith, eq_self m.version)

pub err_not_ok : {e : Failure} → Path (Result (Unit {0})) (err e) (ok tt) → ⊥
err_not_ok h = cc

module _ {P : Postgres} where
  -- A migration that fails leaves nothing.
  pub record IsUndone (db : Database P) (r : Result (Unit {0}) × Database P) : Type 0 where
    pub failure : Failure
    pub failed : r.0 ≡ err failure
    pub state : r.1.state ≡ db.state
    pub migrations : r.1.migrations ≡ db.migrations

  -- One that succeeds is recorded, which it was not before.
  pub record IsDone (file : String) (db : Database P) (r : Result (Unit {0}) × Database P)
      : Type 0 where
    pub rows : List Migration
    pub before : db.migrations ≡ some rows
    pub done : r.0 ≡ ok tt
    pub new : is_applied (extract_version file) (versions rows) ≡ false
    pub after : r.1.migrations ≡ some (rows ++ migration_of file db.now ∷ [])

  undone : (db : Database P) (n : ℕ) (e : Failure) → IsUndone db (err e, record db { calls = n })
  undone db n e = record { failure = e; failed = refl; state = refl; migrations = refl }

  -- The commit.
  committed :
      (file : String) (after : P.State) (rows : List Migration) (down : Bool) (db : Database P)
      (n m : ℕ) (e : Failure)
      → db.migrations ≡ some rows
      → is_applied (extract_version file) (versions rows) ≡ false
      → IsUndone db (
          if down then (err e, record db { calls = n }) else (
            ok tt,
            record db {
              calls = m;
              state = after;
              migrations = some (rows ++ migration_of file db.now ∷ []);
            },
          ))
        ⊎ IsDone file db (
            if down then (err e, record db { calls = n }) else (
              ok tt,
              record db {
                calls = m;
                state = after;
                migrations = some (rows ++ migration_of file db.now ∷ []);
              },
            ))
  committed file after rows true db n m e there fresh = inl (undone db n e)
  committed file after rows false db n m e there fresh =
      inr (record { rows = rows; before = there; done = refl; new = fresh; after = refl })

  closed :
      (file : String) (state : Option P.State) (kept : Option (List Migration)) (down : Bool)
      (db : Database P) (n : ℕ)
      → db.migrations ≡ kept
      → IsUndone db (
          close_migration file state
            (unless_failed down (recorded (migration_of file db.now) kept))
            (record db { calls = n }))
        ⊎ IsDone file db (
            close_migration file state
              (unless_failed down (recorded (migration_of file db.now) kept))
              (record db { calls = n }))
  closed file none kept down db n e = inl (undone db _ _)
  closed file (some after) kept true db n e = inl (undone db _ _)
  closed file (some after) none false db n e = inl (undone db _ _)
  closed file (some after) (some rows) false db n e =
      elim (Bool-cases (is_applied (extract_version file) (versions rows))) [
        | inl old ↦ rw old (inl (undone db _ _))
        | inr fresh ↦ rw fresh (committed file after rows _ db _ _ _ e fresh)
      ]

  pub run_file-cases :
      (file text : String) (db : Database P)
      → IsUndone db (run_file file text db) ⊎ IsDone file db (run_file file text db)
  unfolding run_file
  run_file-cases file text db = elim (Bool-cases (P.fails db.calls)) [
    | inl down ↦ rw down (inl (undone db _ _))
    | inr up ↦ rw up (closed file _ db.migrations _ db (db.calls + 1) refl)
  ]

  and_then-err :
      (r : Result (Unit {0}) × Database P) (rest : Run P (Unit {0})) (e : Failure)
      → r.0 ≡ err e
      → and_then r rest ≡ (err e, r.1)
  and_then-err r rest e h = rw (h, and_then) refl

  and_then-ok :
      (r : Result (Unit {0}) × Database P) (rest : Run P (Unit {0}))
      → r.0 ≡ ok tt
      → and_then r rest ≡ rest r.1
  and_then-ok r rest h = rw (h, and_then) refl

  pub run_pending-nil :
      (applied : List String) (db : Database P) → run_pending applied [] db ≡ (ok tt, db)
  unfolding run_pending
  run_pending-nil applied db = refl

  -- The loop on its first file: it is skipped, it fails, or it is done.
  module _ (applied : List String) (file text : String) (files : List (String × String))
      (db : Database P) where
    pub run_pending-skip :
        is_applied (extract_version file) applied ≡ true
        → run_pending applied ((file, text) ∷ files) db ≡ run_pending applied files db
    unfolding run_pending
    run_pending-skip old = rw old refl

    pub run_pending-err :
        (e : Failure)
        → is_applied (extract_version file) applied ≡ false
        → (run_file file text db).0 ≡ err e
        → run_pending applied ((file, text) ∷ files) db ≡ (err e, (run_file file text db).1)
    unfolding run_pending
    run_pending-err e fresh failed = rw fresh (and_then-err _ _ e failed)

    pub run_pending-ok :
        is_applied (extract_version file) applied ≡ false
        → (run_file file text db).0 ≡ ok tt
        → run_pending applied ((file, text) ∷ files) db
          ≡ run_pending applied files (run_file file text db).1
    unfolding run_pending
    run_pending-ok fresh done = rw fresh (and_then-ok _ _ done)
