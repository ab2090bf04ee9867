-- ===== src/Logger.antt =====
-- internal/shared/logger/logger.go: the writer that has a file for each day, and the set-up of zap.
-- The files, the paths and the text of the date are parameters.
pub mod Rotation
pub mod Tests
use Prim.Native.String.{len, slice}
use go_lang_domain_based_ent.Prelude.{
  Bool, List, Option, String, [], false, if◌then◌else◌, none, not, some, true, ℕ, ◌-◌, ◌<>◌, ◌==◌,
  ◌∷◌,
}
use go_lang_domain_based_ent.World.{Failure, Result, err, message, ok}

-- The packages os and path/filepath: `open_append` is OpenFile with O_APPEND, O_CREATE and O_WRONLY,
-- and `write` adds a text to the end of an open file.
pub record LogFiles : Type 1 where
  pub Files : Type 0
  pub dir : String → String
  pub base : String → String
  pub ext : String → String
  pub join : String → String → String
  pub mkdir_all : String → Files → Files
  pub open_append : String → Files → Result (Unit {0}) × Files
  pub write : String → String → Files → Result ℕ × Files

-- An *os.File, by its name, which may have been closed.
pub record File : Type 0 where
  pub name : String
  pub closed : Bool

pub record DailyFileWriter : Type 0 where
  pub dir : String
  pub base_name : String
  pub ext : String
  pub file : Option File

module _ (L : LogFiles) where
  unfoldable pub new_daily_file_writer : String → DailyFileWriter
  new_daily_file_writer log_path =
      let base = L.base log_path in
      let ext = L.ext base in
      record {
        dir = L.dir log_path;
        base_name = slice base 0 (len base - len ext);
        ext = ext;
        file = none;
      }

  -- The path of a day, from its date.
  abbrev pub daily_path : String → DailyFileWriter → String
  daily_path date w = L.join w.dir (w.base_name <> "-" <> date <> w.ext)

  abbrev pub Written : Type 0
  Written = Result ℕ × (DailyFileWriter × L.Files)

  -- `w.file.Write(p)`
  abbrev pub write_open : String → File → DailyFileWriter → L.Files → Written
  write_open text f w files =
      if f.closed
      then (err (message "file already closed"), (w, files))
      else (let written = L.write f.name text files in (written.0, (w, written.1)))

  abbrev pub after_open : String → String → DailyFileWriter → Result (Unit {0}) × L.Files → Written
  after_open text path w (err e, files) = (err e, (w, files))
  after_open text path w (ok done, files) =
      let f : File = record { name = path; closed = false } in
      write_open text f (record w { file = some f }) files

  -- From `os.MkdirAll` on, for a file that is not open.
  abbrev pub open_and_write : String → String → DailyFileWriter → L.Files → Written
  open_and_write text path w files =
      after_open text path w (L.open_append path (L.mkdir_all w.dir files))

  -- The first file, the file of a new day, or the one that is open.
  abbrev pub write_to : String → String → Option File → DailyFileWriter → L.Files → Written
  write_to text path none w files = open_and_write text path w files
  write_to text path (some f) w files =
      if not (f.name == path)
      then open_and_write text path (record w { file = some (record f { closed = true }) }) files
      else write_open text f w files

  -- `Write` on a date.
  unfoldable pub write : String → String → DailyFileWriter → L.Files → Written
  write date text w files = write_to text (daily_path date w) w.file w files

pub data Level : Type 0 where
  debug info warn error : Level

unfoldable pub parse_level : String → Level
parse_level lvl =
    if lvl == "debug"
    then debug
    else if lvl == "info"
    then info
    else if lvl == "warn"
    then warn
    else if lvl == "error"
    then error
    else info

-- A core of zap with its level: the console, or a file.
pub data Core : Type 0 where
  console : Level → Core
  daily : DailyFileWriter → Level → Core

unfoldable pub init_cores : LogFiles → String → String → List Core
init_cores L level file_path =
    if not (file_path == "")
    then console (parse_level level)
      ∷ daily (new_daily_file_writer L file_path) (parse_level level)
      ∷ []
    else console (parse_level level) ∷ []
