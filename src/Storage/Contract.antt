-- ===== src/Storage/Contract.antt =====
-- What a backend of `Storage` promises, and which backends keep it.
use Prim.Native.String.{len}
use go_lang_domain_based_ent.Config.{Settings}
use go_lang_domain_based_ent.Prelude.{
  Bool-cases, String, ap, arith, false, inl, inr, refl, subst, sym, true, ℕ, ◌==◌, ◌||◌, ◌↔◌, ◌≡◌,
  ◌≢◌,
}
use go_lang_domain_based_ent.Storage.{
  FileInfo, FileSystem, S3, Storage, exists_by, found, local_storage, local_upload, new_from_config,
  not_exist, or_fail, s3_info, s3_of, s3_storage,
}
use go_lang_domain_based_ent.World.{Failure, Result, err, ok, wrapped}
use go_lang_domain_based_ent.World.Actions.{ok_inj}

-- The documented behaviour of os and io: a file that is created and filled holds what was copied and
-- is there, and one that is removed is not there and cannot be opened.
pub record IsFileSystem (S : FileSystem) : Type 0 where
  pub copied :
      (path content : String) (files : S.Files) (size : ℕ)
      → (S.create path files).0 ≡ ok tt
      → (S.copy path (ok content) (S.create path files).1).0 ≡ ok size
      → (size ≡ len content)
        × (S.open_file path (S.copy path (ok content) (S.create path files).1).1 ≡ ok content)
        × (S.stat path (S.copy path (ok content) (S.create path files).1).1 ≡ found)
  pub removed :
      (path : String) (files : S.Files)
      → (S.remove path files).0 ≡ ok tt
      → S.stat path (S.remove path files).1 ≡ not_exist
  pub missing :
      (path content : String) (files : S.Files)
      → S.stat path files ≡ not_exist
      → S.open_file path files ≢ ok content

-- An upload that succeeds describes the file, which can then be downloaded and is there; a file that
-- is deleted is not there and cannot be downloaded.
pub record IsStorage {F : Type 0} (T : Storage F) : Type 0 where
  pub uploaded :
      (key content content_type : String) (files : F) (info : FileInfo)
      → (T.upload key (ok content) content_type files).0 ≡ ok info
      → (info.key ≡ key)
        × (info.content_type ≡ content_type)
        × (info.size ≡ len content)
        × (T.download key (T.upload key (ok content) content_type files).1 ≡ ok content)
        × (T.exists key (T.upload key (ok content) content_type files).1 ≡ ok true)
  pub deleted :
      (key content : String) (files : F)
      → (T.delete key files).0 ≡ ok tt
      → (T.exists key (T.delete key files).1 ≡ ok false)
        × (T.download key (T.delete key files).1 ≢ ok content)

-- What holds of an error, and of all that the rest gives after a success, holds of `or_fail`.
or_fail-elim :
    {A B F : Type 0} (P : Result B × F → Type 0) (text : String) (r : Result A × F)
    (rest : A → F → Result B × F)
    → ((e : Failure) (files : F) → P (err e, files))
    → ((a : A) → r.0 ≡ ok a → P (rest a r.1))
    → P (or_fail text r rest)
or_fail-elim P text (ok a, files) rest fails works = works a refl
or_fail-elim P text (err e, files) rest fails works = fails (wrapped text e) files

err_not_ok : {A : Type 0} {e : Failure} {a : A} → err e ≢ ok a
err_not_ok h = cc

module _ (S : FileSystem) (laws : IsFileSystem S) (base_path : String) where
  abbrev IsUploaded : String → String → String → S.Files → FileInfo → Type 0
  IsUploaded key content content_type files info =
      (info.key ≡ key)
      × (info.content_type ≡ content_type)
      × (info.size ≡ len content)
      × (S.open_file (S.join base_path key) files ≡ ok content)
      × (exists_by (S.stat (S.join base_path key) files) ≡ ok true)

  local_upload-IsUploaded :
      (key content content_type : String) (files : S.Files) (info : FileInfo)
      → (local_upload S base_path key (ok content) content_type files).0 ≡ ok info
      → IsUploaded key content content_type
          (local_upload S base_path key (ok content) content_type files).1
          info
  unfolding local_upload
  local_upload-IsUploaded key content content_type files info =
      let path = S.join base_path key in
      let P : Result FileInfo × S.Files → Type 0 =
        λ r. r.0 ≡ ok info → IsUploaded key content content_type r.1 info in
      let fails : (e : Failure) (left : S.Files) → P (err e, left) =
        λ e left h. absurd (err_not_ok h) in
      or_fail-elim P _ (S.mkdir_all (S.dir path) files) _ fails (λ made e.
        or_fail-elim P _ (S.create path (S.mkdir_all (S.dir path) files).1) _ fails (λ created e'.
          or_fail-elim P _
            (S.copy path (ok content) (S.create path (S.mkdir_all (S.dir path) files).1).1) _ fails
            (λ size e'' h.
              let (all, content_kept, there) = laws.copied path content _ size e' e'' in
              subst
                (λ (own : FileInfo).
                  IsUploaded key content content_type
                    (S.copy path (ok content)
                      (S.create path (S.mkdir_all (S.dir path) files).1).1).1
                    own)
                (ok_inj h) (refl, refl, all, content_kept, ap exists_by there))))

  local_storage-IsStorage : IsStorage (local_storage S base_path)
  unfolding local_storage
  local_storage-IsStorage = record {
    uploaded = local_upload-IsUploaded;
    deleted = λ key content files h.
        let gone = laws.removed (S.join base_path key) files h in
        (ap exists_by gone, laws.missing (S.join base_path key) content _ gone);
  }

s3_storage-not_IsStorage :
    {F : Type 0} (parse_url : String → Result String) (s : S3) (files : F)
    → ¬ IsStorage (s3_storage {F = F} parse_url s)
unfolding s3_storage
s3_storage-not_IsStorage parse_url s files keeps =
    err_not_ok (keeps.uploaded "" "" "" files (s3_info s "" "" "") refl).3

-- A backend that is chosen by the settings keeps the contract of `Storage` if and only if it is the
-- one for "local" files: the other one takes uploads and loses them.
pub new_from_config-IsStorage :
    (S : FileSystem) (parse_url : String → Result String) (cfg : Settings) (files : S.Files)
    (backend : Storage S.Files)
    → IsFileSystem S
    → (new_from_config S parse_url cfg files).0 ≡ ok backend
    → IsStorage backend ↔ (cfg.storage_driver ≡ "local")
unfolding new_from_config
new_from_config-IsStorage S parse_url cfg files backend laws chosen =
    elim (Bool-cases (cfg.storage_driver == "local")) [
      | inl local ↦ (
        λ keeps. ground arith,
        λ same. subst IsStorage (ok_inj (rw local at chosen)) (local_storage-IsStorage S laws _),
      )
      | inr other ↦ elim (Bool-cases (cfg.storage_driver == "s3" || cfg.storage_driver == "r2")) [
        | inl remote ↦ (
          λ keeps. absurd (
              s3_storage-not_IsStorage parse_url (s3_of cfg) files
                (subst IsStorage (sym (ok_inj (rw (other, remote) at chosen))) keeps)),
          λ same. ground arith,
        )
        | inr none_of_them ↦ absurd (err_not_ok (rw (other, none_of_them) at chosen))
      ]
    ]
