-- ===== src/Logger/Rotation.antt =====
-- Where a log entry goes.
use go_lang_domain_based_ent.Logger.{
  DailyFileWriter, File, LogFiles, after_open, daily_path, open_and_write, write, write_open,
  write_to,
}
use go_lang_domain_based_ent.Prelude.{
  Bool-cases, List, Option, String, [], arith, false, if◌then◌else◌, inl, inr, none, refl, some,
  subst, true, ℕ, ◌++◌, ◌==◌, ◌∙◌, ◌∷◌, ◌≡◌, ◌≢◌,
}
use go_lang_domain_based_ent.World.{Failure, Result, err, ok}

-- The documented behaviour of the files: making directories and opening for appending keeps what is
-- in them, and a write adds to the file alone.
pub record IsLogFiles (L : LogFiles) : Type 1 where
  pub entries : String → L.Files → List String
  pub made :
      (dir path : String) (files : L.Files)
      → entries path (L.mkdir_all dir files) ≡ entries path files
  pub opened :
      (path other : String) (files : L.Files)
      → entries other (L.open_append path files).1 ≡ entries other files
  pub written :
      (path other text : String) (files : L.Files) (n : ℕ)
      → (L.write path text files).0 ≡ ok n
      → entries other (L.write path text files).1
        ≡ (if path == other then entries other files ++ text ∷ [] else entries other files)

err_not_ok : {A : Type 0} {e : Failure} {a : A} → err e ≢ ok a
err_not_ok h = cc

same_name : (a b : String) → (a == b) ≡ true → a ≡ b
same_name a b h = ground arith

module _ (L : LogFiles) (laws : IsLogFiles L) where
  -- The text stands at the end of the file of this path, and the other files are as before.
  pub record IsAppended (path text : String) (before : L.Files) (after : L.Files) : Type 0 where
    pub entry :
        (other : String)
        → laws.entries other after ≡ (
            if path == other
            then laws.entries other before ++ text ∷ []
            else laws.entries other before)

  write_open-IsAppended :
      (text : String) (f : File) (w : DailyFileWriter) (before files : L.Files) (n : ℕ)
      → ((other : String) → laws.entries other files ≡ laws.entries other before)
      → (write_open L text f w files).0 ≡ ok n
      → IsAppended f.name text before (write_open L text f w files).1.1
  write_open-IsAppended text f w before files n same h = elim (Bool-cases f.closed) [
    | inl shut ↦ absurd (err_not_ok (rw shut at h))
    | inr still ↦ rw still (record {
      entry =
          λ other. laws.written f.name other text files n (rw still at h) ∙ rw (same other) refl;
    })
  ]

  after_open-IsAppended :
      (text path : String) (w : DailyFileWriter) (before : L.Files)
      (r : Result (Unit {0}) × L.Files) (n : ℕ)
      → ((other : String) → laws.entries other r.1 ≡ laws.entries other before)
      → (after_open L text path w r).0 ≡ ok n
      → IsAppended path text before (after_open L text path w r).1.1
  after_open-IsAppended text path w before (err e, files) n same h = absurd (err_not_ok h)
  after_open-IsAppended text path w before (ok done, files) n same h =
      let f : File = record { name = path; closed = false } in
      write_open-IsAppended text f (record w { file = some f }) before files n same h

  open_and_write-IsAppended :
      (text path : String) (w : DailyFileWriter) (files : L.Files) (n : ℕ)
      → (open_and_write L text path w files).0 ≡ ok n
      → IsAppended path text files (open_and_write L text path w files).1.1
  open_and_write-IsAppended text path w files n h =
      after_open-IsAppended text path w files (L.open_append path (L.mkdir_all w.dir files)) n
        (λ other. laws.opened path other (L.mkdir_all w.dir files) ∙ laws.made w.dir other files) h

  write_to-IsAppended :
      (text path : String) (file : Option File) (w : DailyFileWriter) (files : L.Files) (n : ℕ)
      → (write_to L text path file w files).0 ≡ ok n
      → IsAppended path text files (write_to L text path file w files).1.1
  write_to-IsAppended text path none w files n h = open_and_write-IsAppended text path w files n h
  write_to-IsAppended text path (some f) w files n h = elim (Bool-cases (f.name == path)) [
    | inl same ↦ rw same (
        subst (λ own. IsAppended own text files (write_open L text f w files).1.1)
          (same_name f.name path same)
          (write_open-IsAppended text f w files files n (λ other. refl) (rw same at h)))
    | inr other ↦ rw other (open_and_write-IsAppended text path _ files n (rw other at h))
  ]

  -- A write that succeeds adds its text to the end of the file of its date and to no other file,
  -- whatever file the writer had open before.
  pub write-IsAppended :
      (date text : String) (w : DailyFileWriter) (files : L.Files) (n : ℕ)
      → (write L date text w files).0 ≡ ok n
      → IsAppended (daily_path L date w) text files (write L date text w files).1.1
  unfolding write
  write-IsAppended date text w files n h =
      write_to-IsAppended text (daily_path L date w) w.file w files n h
