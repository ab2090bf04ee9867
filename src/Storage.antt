-- ===== src/Storage.antt =====
-- internal/shared/storage: the interface `Storage`, its two backends and their choice. The file
-- system and `url.Parse` are parameters.
pub mod Contract
pub mod Tests
use Prim.Native.String.{len}
use go_lang_domain_based_ent.Config.{Settings}
use go_lang_domain_based_ent.Prelude.{
  Bool, Option, String, false, if◌then◌else◌, none, not, some, true, ℕ, ◌<>◌, ◌==◌, ◌||◌,
}
use go_lang_domain_based_ent.World.{Failure, Result, err, message, ok, wrapped}

pub record FileInfo : Type 0 where
  pub url : String
  pub bucket : String
  pub key : String
  pub size : ℕ
  pub content_type : String

-- An `io.Reader`: what it gives, or the error that it ends with.
abbrev pub Reader : Type 0
Reader = Result String

-- What `os.Stat` says of a path.
pub data Stat : Type 0 where
  found not_exist : Stat
  unknown : Failure → Stat

-- The packages os, io and path/filepath. An operation may change the files even if it fails.
pub record FileSystem : Type 1 where
  pub Files : Type 0
  pub join : String → String → String
  pub dir : String → String
  pub abs : String → String
  pub mkdir_all : String → Files → Result (Unit {0}) × Files
  pub create : String → Files → Result (Unit {0}) × Files
  -- `io.Copy` into a file that was created, with the number of bytes.
  pub copy : String → Reader → Files → Result ℕ × Files
  pub open_file : String → Files → Result String
  pub remove : String → Files → Result (Unit {0}) × Files
  pub stat : String → Files → Stat

-- The interface, over the files.
pub record Storage (F : Type 0) : Type 0 where
  pub upload : String → Reader → String → F → Result FileInfo × F
  pub download : String → F → Result String
  pub delete : String → F → Result (Unit {0}) × F
  pub exists : String → F → Result Bool
  pub url : String → Result String

-- `if err != nil { return nil, fmt.Errorf("text: %w", err) }`, or what comes next.
abbrev pub or_fail :
    {A B F : Type 0} → String → Result A × F → (A → F → Result B × F) → Result B × F
or_fail text (ok a, files) rest = rest a files
or_fail text (err e, files) rest = (err (wrapped text e), files)

abbrev pub exists_by : Stat → Result Bool
exists_by found = ok true
exists_by not_exist = ok false
exists_by (unknown e) = err e

module _ (S : FileSystem) (base_path : String) where
  unfoldable pub local_upload : String → Reader → String → S.Files → Result FileInfo × S.Files
  local_upload key reader content_type files =
      let full_path = S.join base_path key in
      or_fail "creating directory" (S.mkdir_all (S.dir full_path) files) (λ made files₁.
        or_fail "creating file" (S.create full_path files₁) (λ created files₂.
          or_fail "writing file" (S.copy full_path reader files₂) (λ size files₃. (
            ok (record {
              url = full_path;
              bucket = "";
              key = key;
              size = size;
              content_type = content_type;
            }),
            files₃,
          ))))

  unfoldable pub local_storage : Storage S.Files
  unfolding local_upload
  local_storage = record {
    upload = local_upload;
    download = λ key files. S.open_file (S.join base_path key) files;
    delete = λ key files. S.remove (S.join base_path key) files;
    exists = λ key files. exists_by (S.stat (S.join base_path key) files);
    url = λ key. ok (S.join base_path key);
  }

-- `S3CompatibleStorage`, with the keys that no operation uses left out.
pub record S3 : Type 0 where
  pub endpoint : String
  pub region : String
  pub bucket : String
  pub use_ssl : Bool

unfoldable pub get_url : S3 → String → String
get_url s key =
    let scheme = if not s.use_ssl then "http" else "https" in
    if not (s.endpoint == "")
    then scheme <> "://" <> s.endpoint <> "/" <> s.bucket <> "/" <> key
    else scheme <> "://" <> s.bucket <> ".s3." <> s.region <> ".amazonaws.com/" <> key

abbrev pub s3_info : S3 → String → String → String → FileInfo
s3_info s key data_read content_type = record {
  url = get_url s key;
  bucket = s.bucket;
  key = key;
  size = len data_read;
  content_type = content_type;
}

-- What was read goes nowhere.
abbrev pub s3_upload : {F : Type 0} → S3 → String → Reader → String → F → Result FileInfo × F
s3_upload s key (ok data_read) content_type files =
    (ok (s3_info s key data_read content_type), files)
s3_upload s key (err e) content_type files = (err (wrapped "reading data" e), files)

unfoldable pub s3_storage : {F : Type 0} → (String → Result String) → S3 → Storage F
s3_storage parse_url s = record {
  upload = s3_upload s;
  download = λ key files. err (message "S3 download not implemented");
  delete = λ key files. (ok tt, files);
  exists = λ key files. ok true;
  url = λ key. parse_url (get_url s key);
}

abbrev pub s3_of : Settings → S3
s3_of cfg = record {
  endpoint = cfg.storage_s3_endpoint;
  region = cfg.storage_s3_region;
  bucket = cfg.storage_s3_bucket;
  use_ssl = cfg.storage_s3_use_ssl;
}

-- `NewLocalStorage` drops the error of the directory it makes.
unfoldable pub new_from_config :
    (S : FileSystem)
    → (String → Result String)
    → Settings
    → S.Files
    → Result (Storage S.Files) × S.Files
new_from_config S parse_url cfg files =
    if cfg.storage_driver == "local"
    then (let path = S.abs cfg.storage_local_path in
        (ok (local_storage S path), (S.mkdir_all path files).1))
    else if cfg.storage_driver == "s3" || cfg.storage_driver == "r2"
    then (ok (s3_storage parse_url (s3_of cfg)), files)
    else (err (message ("unsupported storage driver: " <> cfg.storage_driver)), files)
