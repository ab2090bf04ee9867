-- ===== src/Logger/Tests.antt =====
-- A writer over files in memory, each with its entries.
use go_lang_domain_based_ent.Logger.{
  DailyFileWriter, LogFiles, daily_path, new_daily_file_writer, parse_level, warn, write,
}
use go_lang_domain_based_ent.Logger.Rotation.{IsAppended, IsLogFiles, write-IsAppended}
use go_lang_domain_based_ent.Prelude.{
  Bool-cases, Dict, List, Option, String, [], ap, arith, false, if◌then◌else◌, inl, inr, insert,
  lookup, lookup-insert, none, refl, some, string_dec, ◌++◌, ◌<>◌, ◌==◌, ◌∙◌, ◌∷◌, ◌≡◌,
}
use go_lang_domain_based_ent.World.{ok}

abbrev entries_of : Option (List String) → List String
entries_of none = []
entries_of (some entries) = entries

abbrev memory_logs : LogFiles
memory_logs = record {
  Files = Dict (List String);
  dir = λ path. "logs";
  base = λ path. "app.log";
  ext = λ base. ".log";
  join = λ dir name. dir <> "/" <> name;
  mkdir_all = λ dir files. files;
  open_append = λ path files. (ok tt, files);
  write =
      λ path text files. (ok 1, insert path (entries_of (lookup path files) ++ text ∷ []) files);
}

written_lem :
    (path other text : String) (files : Dict (List String))
    → entries_of (lookup other (insert path (entries_of (lookup path files) ++ text ∷ []) files))
      ≡ (if path == other
          then entries_of (lookup other files) ++ text ∷ []
          else entries_of (lookup other files))
written_lem path other text files = elim (Bool-cases (path == other)) [
  | inl same ↦ rw same (ap entries_of (lookup-insert path other _ files) ∙ rw same (ground arith))
  | inr apart ↦ rw apart (ap entries_of (lookup-insert path other _ files) ∙ rw apart refl)
]

memory_logs-IsLogFiles : IsLogFiles memory_logs
memory_logs-IsLogFiles = record {
  entries = λ path files. entries_of (lookup path files);
  made = λ dir path files. refl;
  opened = λ path other files. refl;
  written = λ path other text files n h. written_lem path other text files;
}

-- Yesterday's file is open.
abbrev old_writer : DailyFileWriter
old_writer = record {
  dir = "logs";
  base_name = "app";
  ext = ".log";
  file = some (record { name = "logs/app-2024-01-01.log"; closed = false });
}

level_of_warn : parse_level "warn" ≡ warn
unfolding parse_level string_dec
level_of_warn = refl

new_writer :
    daily_path memory_logs "2024-01-01" (new_daily_file_writer memory_logs "logs/app.log")
    ≡ "logs/app-2024-01-01.log"
unfolding new_daily_file_writer
new_writer = refl

write-IsAppended_example :
    IsAppended memory_logs memory_logs-IsLogFiles "logs/app-2024-01-02.log" "started" []
      (write memory_logs "2024-01-02" "started" old_writer []).1.1
unfolding write string_dec
write-IsAppended_example =
    write-IsAppended memory_logs memory_logs-IsLogFiles "2024-01-02" "started" old_writer [] 1 refl
