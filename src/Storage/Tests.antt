-- ===== src/Storage/Tests.antt =====
-- The two backends over files in memory.
use Prim.Native.String.{len}
use go_lang_domain_based_ent.Config.{Settings, read_settings}
use go_lang_domain_based_ent.Prelude.{
  Dict, Option, String, [], arith, eq_self, erase, if◌then◌else◌, insert, lookup, lookup-erase,
  lookup-insert, none, pos, refl, some, string_dec, true, ℕ, ◌<>◌, ◌==◌, ◌↔◌, ◌∙◌, ◌≡◌, ◌≢◌,
}
use go_lang_domain_based_ent.Storage.{
  FileSystem, Reader, Stat, found, local_storage, new_from_config, not_exist,
}
use go_lang_domain_based_ent.Storage.Contract.{IsFileSystem, IsStorage, new_from_config-IsStorage}
use go_lang_domain_based_ent.World.{Failure, Result, err, message, ok}

abbrev missing_file : Failure
missing_file = message "no such file or directory"

abbrev content_of : Option String → Result String
content_of none = err missing_file
content_of (some content) = ok content

abbrev stat_of : Option String → Stat
stat_of none = not_exist
stat_of (some content) = found

abbrev copied_to : String → Reader → Dict String → Result ℕ × Dict String
copied_to path (ok content) files = (ok (len content), insert path content files)
copied_to path (err e) files = (err e, files)

abbrev removed_from : String → Option String → Dict String → Result (Unit {0}) × Dict String
removed_from path none files = (err missing_file, files)
removed_from path (some content) files = (ok tt, erase path files)

abbrev memory_files : FileSystem
memory_files = record {
  Files = Dict String;
  join = λ base key. base <> "/" <> key;
  dir = λ path. path;
  abs = λ path. "/" <> path;
  mkdir_all = λ path files. (ok tt, files);
  create = λ path files. (ok tt, insert path "" files);
  copy = copied_to;
  open_file = λ path files. content_of (lookup path files);
  remove = λ path files. removed_from path (lookup path files) files;
  stat = λ path files. stat_of (lookup path files);
}

lookup_inserted :
    (path content : String) (files : Dict String)
    → lookup path (insert path content files) ≡ some content
lookup_inserted path content files = lookup-insert path path content files ∙ rw (eq_self path) refl

lookup_erased : (path : String) (files : Dict String) → lookup path (erase path files) ≡ none
lookup_erased path files = lookup-erase path path files ∙ rw (eq_self path) refl

removed_lem :
    (path : String) (o : Option String) (files : Dict String)
    → (removed_from path o files).0 ≡ ok tt
    → stat_of (lookup path (removed_from path o files).1) ≡ not_exist
removed_lem path none files h = cc
removed_lem path (some content) files h = rw (lookup_erased path files) refl

missing_lem :
    (content : String) (o : Option String) → stat_of o ≡ not_exist → content_of o ≢ ok content
missing_lem content none h e = cc
missing_lem content (some own) h e = cc

memory_files-IsFileSystem : IsFileSystem memory_files
memory_files-IsFileSystem = record {
  copied = λ path content files size h h'.
      let kept = lookup_inserted path content (insert path "" files) in
      (ground arith, rw kept refl, rw kept refl);
  removed = λ path files h. removed_lem path (lookup path files) files h;
  missing = λ path content files h. missing_lem content (lookup path files) h;
}

abbrev local_settings : Settings
local_settings = read_settings (record {
  get_string = λ key. if key == "STORAGE_DRIVER" then "local" else "files";
  get_int = λ key. pos 1;
  get_bool = λ key. true;
})

new_from_config-IsStorage_example :
    IsStorage (local_storage memory_files "/files") ↔ (local_settings.storage_driver ≡ "local")
unfolding new_from_config read_settings string_dec
new_from_config-IsStorage_example =
    new_from_config-IsStorage memory_files (λ text. ok text) local_settings []
      (local_storage memory_files "/files") memory_files-IsFileSystem refl
