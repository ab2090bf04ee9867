-- ===== src/Migrate/Laws.antt =====
-- What a run of the migrations leaves, whether it succeeds or not, and what the next run does.
use go_lang_domain_based_ent.Migrate.{
  Database, Migration, Postgres, create_migrations_table, get_applied_migrations, insert_file,
  is_applied, is_before, migration_of, rows_of, rows_read, run_file, run_migrations, run_pending,
  sort_files, versions,
}
use go_lang_domain_based_ent.Migrate.Names.{extract_version}
use go_lang_domain_based_ent.Migrate.Steps.{
  IsIncluded, IsRecorded, added-IsIncluded, added-recorded, run_file-cases, run_pending-err,
  run_pending-nil, run_pending-ok, run_pending-skip,
}
use go_lang_domain_based_ent.Prelude.{
  All, Bool, Bool-cases, List, Option, String, [], ap, arith, false, inl, inr, none, refl, some,
  subst, suc, sym, take, true, zero, ℕ, ◌++◌, ◌+◌, ◌∙◌, ◌∷◌, ◌≡◌, ◌⊎◌,
}
use go_lang_domain_based_ent.World.{Failure, Result, err, ok}
use go_lang_domain_based_ent.World.Actions.{err_not_ok}

-- Sorting keeps the files.
module _ (Q : String × String → Type 0) where
  All-insert_file :
      (file : String × String) (files : List (String × String))
      → Q file
      → All Q files
      → All Q (insert_file file files)
  All-insert_file file [] h all = (h, tt)
  All-insert_file file (own ∷ files) h (k, all) = elim (Bool-cases (is_before file.0 own.0)) [
    | inl e ↦ rw e (h, (k, all))
    | inr e ↦ rw e (k, All-insert_file file files h all)
  ]

  insert_file-All :
      (file : String × String) (files : List (String × String))
      → All Q (insert_file file files)
      → Q file × All Q files
  insert_file-All file [] all = all
  insert_file-All file (own ∷ files) all = elim (Bool-cases (is_before file.0 own.0)) [
    | inl e ↦ rw e at all
    | inr e ↦
        let (k, rest) : Q own × All Q (insert_file file files) = rw e at all in
        let (h, more) = insert_file-All file files rest in (h, (k, more))
  ]

  All-sort_files : (files : List (String × String)) → All Q files → All Q (sort_files files)
  unfolding sort_files
  All-sort_files [] all = tt
  All-sort_files (file ∷ files) (h, all) = All-insert_file file _ h (All-sort_files files all)

  sort_files-All : (files : List (String × String)) → All Q (sort_files files) → All Q files
  unfolding sort_files
  sort_files-All [] all = tt
  sort_files-All (file ∷ files) all =
      let (h, rest) = insert_file-All file (sort_files files) all in (h, sort_files-All files rest)

pub true_not_false : Path Bool true false → ⊥
true_not_false h = cc

is_applied-take :
    (v : String) (n : ℕ) (rows : List Migration)
    → is_applied v (versions (take n rows)) ≡ true
    → is_applied v (versions rows) ≡ true
is_applied-take v zero rows h = absurd (true_not_false (sym h))
is_applied-take v (suc n) [] h = h
is_applied-take v (suc n) (own ∷ rows) h = ground (arith, h, is_applied-take v n rows)

rows_read-IsIncluded :
    (cut : Option ℕ) (rows : List Migration)
    → IsIncluded (versions (rows_read cut rows)) (versions rows)
rows_read-IsIncluded none rows v h = h
rows_read-IsIncluded (some n) rows v h = is_applied-take v n rows h

module _ {P : Postgres} where
  same_rows :
      (db : Database P) (a b : List Migration)
      → db.migrations ≡ some a
      → db.migrations ≡ some b
      → a ≡ b
  same_rows db a b h k = cc

  -- A loop that ends well has every file recorded, and keeps what was recorded.
  run_pending-IsRecorded :
      (applied : List String) (files : List (String × String)) (db : Database P)
      (rows : List Migration)
      → db.migrations ≡ some rows
      → IsIncluded applied (versions rows)
      → (run_pending applied files db).0 ≡ ok tt
      → (left : List Migration) × ((run_pending applied files db).1.migrations ≡ some left)
        × IsIncluded (versions rows) (versions left)
        × All (IsRecorded (versions left)) files
  run_pending-IsRecorded applied [] db rows there within h =
      rw (run_pending-nil applied db) (rows, there, (λ v e. e), tt)
  run_pending-IsRecorded applied ((file, text) ∷ files) db rows there within h =
      elim (Bool-cases (is_applied (extract_version file) applied)) [
        | inl old ↦
            let same = run_pending-skip applied file text files db old in
            let (left, e, grows, all) =
              run_pending-IsRecorded applied files db rows there within (rw same at h) in
            rw same (left, e, grows, (grows _ (within _ old), all))
        | inr fresh ↦ elim (run_file-cases file text db) [
          | inl undone ↦ absurd (
              err_not_ok (
                ap (λ (r : Result (Unit {0}) × Database P). r.0)
                  (sym
                    (run_pending-err applied file text files db undone.failure fresh undone.failed))
                ∙ h))
          | inr done ↦
              let same = run_pending-ok applied file text files db fresh done.done in
              let own = migration_of file db.now in
              let rows' = done.rows ++ own ∷ [] in
              let wider : IsIncluded (versions rows) (versions rows') =
                subst (λ (known : List Migration). IsIncluded (versions known) (versions rows'))
                  (same_rows db done.rows rows done.before there)
                  (added-IsIncluded done.rows own) in
              let (left, e, grows, all) =
                run_pending-IsRecorded applied files (run_file file text db).1 rows' done.after
                  (λ v k. wider v (within v k)) (rw same at h) in
              rw same (
                left,
                e,
                (λ v k. grows v (wider v k)),
                (grows _ (added-recorded done.rows own), all),
              )
        ]
      ]

  -- A loop over recorded files changes nothing, whatever it takes for applied: a file that it runs
  -- again cannot be recorded twice.
  run_pending-kept :
      (applied : List String) (files : List (String × String)) (db : Database P)
      (rows : List Migration)
      → db.migrations ≡ some rows
      → All (IsRecorded (versions rows)) files
      → ((run_pending applied files db).1.state ≡ db.state)
        × ((run_pending applied files db).1.migrations ≡ db.migrations)
  run_pending-kept applied [] db rows there all = rw (run_pending-nil applied db) (refl, refl)
  run_pending-kept applied ((file, text) ∷ files) db rows there (known, all) =
      elim (Bool-cases (is_applied (extract_version file) applied)) [
        | inl old ↦
            rw (run_pending-skip applied file text files db old)
              (run_pending-kept applied files db rows there all)
        | inr fresh ↦ elim (run_file-cases file text db) [
          | inl undone ↦
              rw (run_pending-err applied file text files db undone.failure fresh undone.failed)
                (undone.state, undone.migrations)
          | inr done ↦ absurd (
              true_not_false (
                sym known
                ∙ ap (λ (l : List Migration). is_applied (extract_version file) (versions l))
                    (same_rows db rows done.rows there done.before)
                ∙ done.new))
        ]
      ]

  -- A loop over recorded files that knows them does nothing.
  run_pending_idle :
      (applied : List String) (files : List (String × String)) (db : Database P)
      → All (IsRecorded applied) files
      → run_pending applied files db ≡ (ok tt, db)
  run_pending_idle applied [] db all = run_pending-nil applied db
  run_pending_idle applied ((file, text) ∷ files) db (old, all) =
      run_pending-skip applied file text files db old ∙ run_pending_idle applied files db all

  -- A run that ends before the loop, by a call that fails.
  pub record IsEarly (db : Database P) (r : Result (Unit {0}) × Database P) : Type 0 where
    pub failure : Failure
    pub failed : r.0 ≡ err failure
    pub state : r.1.state ≡ db.state
    pub rows : rows_of r.1.migrations ≡ rows_of db.migrations
    pub call : ℕ
    pub down : P.fails call ≡ true

  -- The database at the start of the loop.
  abbrev pub started : Database P → Database P
  started db = record db { calls = db.calls + 1 + 1; migrations = some (rows_of db.migrations) }

  -- The versions that the run reads before its loop.
  abbrev pub applied_in : Database P → List String
  applied_in db = versions (rows_read (P.breaks_off (db.calls + 1)) (rows_of db.migrations))

  pub run_migrations-cases :
      (files : List (String × String)) (db : Database P)
      → IsEarly db (run_migrations files db)
        ⊎ (run_migrations files db ≡ run_pending (applied_in db) (sort_files files) (started db))
  unfolding run_migrations create_migrations_table get_applied_migrations
  run_migrations-cases files db = elim (Bool-cases (P.fails db.calls)) [
    | inl down ↦ rw down (
        inl (record {
          failure = _;
          failed = refl;
          state = refl;
          rows = refl;
          call = db.calls;
          down = down;
        }))
    | inr up ↦ elim (Bool-cases (P.fails (db.calls + 1))) [
      | inl down ↦
          rw (up, down)
            (inl (record {
              failure = _;
              failed = refl;
              state = refl;
              rows = refl;
              call = db.calls + 1;
              down = down;
            }))
      | inr up' ↦ rw (up, up') (inr refl)
    ]
  ]

  pub run_migrations-IsRecorded :
      (files : List (String × String)) (db : Database P)
      → (run_migrations files db).0 ≡ ok tt
      → All (IsRecorded (versions (rows_of (run_migrations files db).1.migrations))) files
  run_migrations-IsRecorded files db h = elim (run_migrations-cases files db) [
    | inl early ↦ absurd (err_not_ok (sym early.failed ∙ h))
    | inr loop ↦
        let (rows, left, grows, all) =
          run_pending-IsRecorded (applied_in db) (sort_files files) (started db)
            (rows_of db.migrations) refl (rows_read-IsIncluded _ (rows_of db.migrations))
            (rw loop at h) in
        rw (loop, left) (sort_files-All _ files all)
  ]

  -- A run that changes nothing, and ends well where no call fails and the versions are read to
  -- their end.
  pub record IsIdle (db : Database P) (r : Result (Unit {0}) × Database P) : Type 0 where
    pub state : r.1.state ≡ db.state
    pub rows : rows_of r.1.migrations ≡ rows_of db.migrations
    pub ends : ((n : ℕ) → P.fails n ≡ false) → ((n : ℕ) → P.breaks_off n ≡ none) → r.0 ≡ ok tt

  -- After a run that returns no error, every file is recorded. Another run of the files, whatever
  -- fails in it, and also where it reads a part of the recorded versions only and runs files again,
  -- then changes neither the database nor the record; and it returns no error where no call fails and
  -- the versions are read to their end.
  pub rerun-IsIdle :
      (files : List (String × String)) (db later : Database P)
      → (run_migrations files db).0 ≡ ok tt
      → later.migrations ≡ (run_migrations files db).1.migrations
      → All (IsRecorded (versions (rows_of later.migrations))) files
        × IsIdle later (run_migrations files later)
  rerun-IsIdle files db later h same =
      let all =
        subst (λ o. All (IsRecorded (versions (rows_of o))) files) (sym same)
          (run_migrations-IsRecorded files db h) in
      (
        all,
        elim (run_migrations-cases files later) [
          | inl early ↦ record {
            state = early.state;
            rows = early.rows;
            ends = λ up whole. absurd (true_not_false (sym early.down ∙ up early.call));
          }
          | inr loop ↦
              let sorted = All-sort_files _ files all in
              let kept =
                run_pending-kept (applied_in later) (sort_files files) (started later)
                  (rows_of later.migrations) refl sorted in
              record {
                state = ap (λ (r : Result (Unit {0}) × Database P). r.1.state) loop ∙ kept.0;
                rows =
                    ap (λ (r : Result (Unit {0}) × Database P). rows_of r.1.migrations) loop
                    ∙ ap rows_of kept.1;
                ends = λ up whole.
                    ap (λ (r : Result (Unit {0}) × Database P). r.0)
                      (loop
                        ∙ ap
                            (λ cut.
                              run_pending (versions (rows_read cut (rows_of later.migrations)))
                                (sort_files files) (started later))
                            (whole (later.calls + 1))
                        ∙ run_pending_idle (versions (rows_of later.migrations)) (sort_files files)
                            (started later) sorted);
              }
        ],
      )
