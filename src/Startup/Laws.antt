-- ===== src/Startup/Laws.antt =====
-- What holds when the server listens, and what a start that fails leaves.
use go_lang_domain_based_ent.Auth.Keys.{Keys, LoadError}
use go_lang_domain_based_ent.Auth.Keys.Laws.{load_keys-Keys, private_key_at, public_key_at}
use go_lang_domain_based_ent.Config.{Settings, load}
use go_lang_domain_based_ent.Config.Laws.{IsUsable, load-IsUsable}
use go_lang_domain_based_ent.Migrate.{Database, rows_of, run_migrations, versions}
use go_lang_domain_based_ent.Migrate.Laws.{rerun-IsIdle}
use go_lang_domain_based_ent.Migrate.Steps.{IsRecorded}
use go_lang_domain_based_ent.Prelude.{
  All, Option, Option-cases, String, ap, inl, inr, none, refl, some, subst, sym, ◌∙◌, ◌≡◌, ◌≢◌, ◌⊎◌,
}
use go_lang_domain_based_ent.Startup.{
  Outcome, Platform, Process, after_keys, after_load, listening, main, served, server_failed,
}
use go_lang_domain_based_ent.Startup.Connections.{new_postgres_pool}
use go_lang_domain_based_ent.Startup.Stages.{Fault, IsServing, IsStopped, after_pool-cases}
use go_lang_domain_based_ent.World.{Failure, ok}

-- The server listens, or its port failed, with settings that can be used, both keys and every
-- migration.
pub record IsReady (M : Platform) (r : Outcome × Process M) : Type 0 where
  pub cfg : Settings
  pub loaded : load M.viper ≡ some cfg
  pub usable : IsUsable cfg
  pub port :
      ((r.0 ≡ listening cfg.app_port) × (M.listen_and_serve cfg.app_port ≡ none))
      ⊎ ((e : Failure) × (r.0 ≡ server_failed e) × (M.listen_and_serve cfg.app_port ≡ some e))
  pub private_key : String
  pub public_key : String
  pub private_found : private_key_at M.key_parser cfg.jwt_private_key_path ≡ some private_key
  pub public_found : public_key_at M.key_parser cfg.jwt_public_key_path ≡ some public_key
  pub keys : r.1.keys ≡ record { private_key = some private_key; public_key = some public_key }
  pub migrated : All (IsRecorded (versions (rows_of r.1.database.migrations))) M.migration_files

pub data Cause (M : Platform) (s : Process M) : Type 0 where
  no_settings : load M.viper ≡ none → Cause M s
  no_private_key :
      (cfg : Settings)
      → load M.viper ≡ some cfg
      → private_key_at M.key_parser cfg.jwt_private_key_path ≡ none
      → Cause M s
  no_public_key :
      (cfg : Settings)
      → load M.viper ≡ some cfg
      → public_key_at M.key_parser cfg.jwt_public_key_path ≡ none
      → Cause M s
  fault : (cfg : Settings) → load M.viper ≡ some cfg → Fault M cfg s.database s.files → Cause M s

module _ (M : Platform) (s : Process M) where
  abbrev Ends : Outcome × Process M → Type 0
  Ends r = IsReady M r ⊎ IsStopped M s (Cause M s) r

  served-cases :
      (cfg : Settings) (r : Outcome × Process M)
      → r.0 ≡ served M cfg (M.listen_and_serve cfg.app_port)
      → ((r.0 ≡ listening cfg.app_port) × (M.listen_and_serve cfg.app_port ≡ none))
        ⊎ ((e : Failure) × (r.0 ≡ server_failed e) × (M.listen_and_serve cfg.app_port ≡ some e))
  served-cases cfg r h = elim (Option-cases (M.listen_and_serve cfg.app_port)) [
    | inl e ↦ inl (h ∙ ap (served M cfg) e, e)
    | inr (f, e) ↦ inr (f, h ∙ ap (served M cfg) e, e)
  ]

  ready :
      (cfg : Settings) (keys : Option LoadError × Keys)
      → load M.viper ≡ some cfg
      → IsUsable cfg
      → (k q : String) → private_key_at M.key_parser cfg.jwt_private_key_path ≡ some k
      → public_key_at M.key_parser cfg.jwt_public_key_path ≡ some q
      → keys ≡ (none, record { private_key = some k; public_key = some q })
      → (run_migrations M.migration_files s.database).0 ≡ ok tt
      → IsServing M cfg keys.1
          (run_migrations M.migration_files s.database).1
          (after_keys M cfg s keys)
      → IsReady M (after_keys M cfg s keys)
  ready cfg keys loaded usable k q private_at public_at whole up served = record {
    cfg = cfg;
    loaded = loaded;
    usable = usable;
    port = served-cases cfg (after_keys M cfg s keys) served.port;
    private_key = k;
    public_key = q;
    private_found = private_at;
    public_found = public_at;
    keys = served.same_keys ∙ ap (λ (r : Option LoadError × Keys). r.1) whole;
    migrated =
        (rerun-IsIdle M.migration_files s.database (after_keys M cfg s keys).1.database up
          (ap (λ (db : Database M.postgres). db.migrations) served.same_database)).0;
  }

  faulty :
      (cfg : Settings) (keys : Keys) (r : Outcome × Process M)
      → load M.viper ≡ some cfg
      → IsStopped M (record s { keys = keys }) (Fault M cfg s.database s.files) r
      → IsStopped M s (Cause M s) r
  faulty cfg keys r loaded h = record {
    silent = h.silent;
    not_served = h.not_served;
    world = h.world;
    cause = fault cfg loaded h.cause;
  }

  without_keys :
      (cfg : Settings) (keys : Option LoadError × Keys)
      → load M.viper ≡ some cfg
      → (private_key_at M.key_parser cfg.jwt_private_key_path ≡ none)
        ⊎ (public_key_at M.key_parser cfg.jwt_public_key_path ≡ none)
      → keys.0 ≢ none
      → IsStopped M s (Cause M s) (after_keys M cfg s keys)
  without_keys cfg (none, keys) loaded missing failed = absurd (failed refl)
  without_keys cfg (some e, keys) loaded (inl missing) failed = record {
    silent = λ port h. cc;
    not_served = λ f h. cc;
    world = refl;
    cause = no_private_key cfg loaded missing;
  }
  without_keys cfg (some e, keys) loaded (inr missing) failed = record {
    silent = λ port h. cc;
    not_served = λ f h. cc;
    world = refl;
    cause = no_public_key cfg loaded missing;
  }

  with_keys :
      (cfg : Settings) (k q : String)
      → load M.viper ≡ some cfg
      → IsUsable cfg
      → private_key_at M.key_parser cfg.jwt_private_key_path ≡ some k
      → public_key_at M.key_parser cfg.jwt_public_key_path ≡ some q
      → Ends (after_keys M cfg s (none, record { private_key = some k; public_key = some q }))
  with_keys cfg k q loaded usable private_at public_at =
      elim (after_pool-cases M cfg s.database
        (record s { keys = record { private_key = some k; public_key = some q } })
        (new_postgres_pool M.drivers cfg) refl refl) [
          | inl (up, served) ↦
              inl (ready cfg _ loaded usable k q private_at public_at refl up served)
          | inr stopped ↦ inr (faulty cfg _ _ loaded stopped)
        ]

  configured :
      (cfg : Settings) → load M.viper ≡ some cfg → IsUsable cfg → Ends (after_load M s (some cfg))
  configured cfg loaded usable =
      elim (load_keys-Keys M.key_parser cfg.jwt_private_key_path cfg.jwt_public_key_path s.keys) [
        | inl (k, q, private_at, public_at, whole) ↦
            subst (λ keys. Ends (after_keys M cfg s keys)) (sym whole)
              (with_keys cfg k q loaded usable private_at public_at)
        | inr (missing, failed) ↦ inr (without_keys cfg _ loaded missing failed)
      ]

  -- The start ends with a server that listens, or with the failure of its port, and then the settings
  -- are usable, both keys are those of the key files and every migration is recorded. Or the server
  -- is not started and nothing is seeded, and then the settings, a key, the database, a migration,
  -- Redis or the storage failed.
  pub main-IsReady : IsReady M (main M s) ⊎ IsStopped M s (Cause M s) (main M s)
  unfolding main
  main-IsReady = elim (load-IsUsable M.viper) [
    | inl (cfg, loaded, usable) ↦
        subst (λ o. Ends (after_load M s o)) (sym loaded) (configured cfg loaded usable)
    | inr (missing, paths) ↦
        subst (λ o. Ends (after_load M s o)) (sym missing)
          (inr (record {
            silent = λ port h. cc;
            not_served = λ f h. cc;
            world = refl;
            cause = no_settings missing;
          }))
  ]
