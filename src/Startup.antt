-- ===== src/Startup.antt =====
-- cmd/api/main.go: what `main` does until the server listens, over the modelled parts. What the
-- libraries do, and how the tables read that the migrations make, are parameters.
use go_lang_domain_based_ent.Admin.Service.Seed.{AdminConfig, seed_default_admin}
use go_lang_domain_based_ent.Auth.Keys.{KeyParser, Keys, LoadError, load_keys}
use go_lang_domain_based_ent.Config.{Settings, Viper, load}
use go_lang_domain_based_ent.External.{Env}
use go_lang_domain_based_ent.Migrate.{Database, Postgres, run_migrations}
use go_lang_domain_based_ent.Prelude.{List, Option, String, none, some}
use go_lang_domain_based_ent.Schema.{Tables}
use go_lang_domain_based_ent.Startup.Connections.{
  Drivers, PoolConfig, new_postgres_pool, new_redis_client,
}
use go_lang_domain_based_ent.Storage.{FileSystem, Storage, new_from_config}
use go_lang_domain_based_ent.World.{Failure, Result, World, err, ok}
pub mod Connections
pub mod Stages
pub mod Laws
pub mod Tests

-- The libraries, the key files, the embedded migrations and the database.
pub record Platform : Type 1 where
  pub env : Env
  pub postgres : Postgres
  pub drivers : Drivers
  pub file_system : FileSystem
  pub key_parser : KeyParser
  pub viper : Viper
  pub parse_url : String → Result String
  -- How `ListenAndServe` on this port fails, if it does.
  pub listen_and_serve : String → Option Failure
  pub migration_files : List (String × String)
  -- The rows of the tables that the services use.
  pub tables_of : postgres.State → Tables

-- The keys of the package, the database with its record of migrations, the files of the storage, and
-- what the services work on.
pub record Process (M : Platform) : Type 0 where
  pub keys : Keys
  pub database : Database M.postgres
  pub files : M.file_system.Files
  pub world : World M.env

-- How the start ends: `log.Fatalf`, `logger.Fatal`, the panic of the client of Redis, or the server
-- that listens on a port.
pub data Outcome : Type 0 where
  config_failed : Outcome
  keys_failed : LoadError → Outcome
  database_failed migration_failed redis_panicked storage_failed server_failed : Failure → Outcome
  listening : String → Outcome

abbrev pub admin_config_of : Settings → AdminConfig
admin_config_of cfg = record {
  admin_email = cfg.admin_email;
  admin_password = cfg.admin_password;
  admin_name = cfg.admin_name;
}

module _ (M : Platform) where
  -- `SeedDefaultAdmin` on the migrated tables. Its errors are only logged.
  abbrev pub seeded : Settings → Process M → Process M
  seeded cfg s =
      let migrated = record s.world { db = M.tables_of s.database.state } in
      record s { world = (seed_default_admin (admin_config_of cfg) migrated).1 }

  -- The goroutine of the server, whose error ends the program after the seed.
  abbrev pub served : Settings → Option Failure → Outcome
  served cfg none = listening cfg.app_port
  served cfg (some e) = server_failed e

  abbrev pub after_storage :
      Settings
      → Process M
      → Result (Storage M.file_system.Files) × M.file_system.Files
      → Outcome × Process M
  after_storage cfg s (err e, files) = (storage_failed e, record s { files = files })
  after_storage cfg s (ok store, files) =
      (served cfg (M.listen_and_serve cfg.app_port), seeded cfg (record s { files = files }))

  abbrev pub after_redis : Settings → Process M → Result (Unit {0}) → Outcome × Process M
  after_redis cfg s (err e) = (redis_panicked e, s)
  after_redis cfg s (ok tt) =
      after_storage cfg s (new_from_config M.file_system M.parse_url cfg s.files)

  abbrev pub after_migrations :
      Settings → Process M → Result (Unit {0}) × Database M.postgres → Outcome × Process M
  after_migrations cfg s (err e, db) = (migration_failed e, record s { database = db })
  after_migrations cfg s (ok tt, db) =
      after_redis cfg (record s { database = db }) (new_redis_client M.drivers cfg)

  abbrev pub after_pool :
      Settings → Process M → Result (PoolConfig M.drivers.Address) → Outcome × Process M
  after_pool cfg s (err e) = (database_failed e, s)
  after_pool cfg s (ok pool) = after_migrations cfg s (run_migrations M.migration_files s.database)

  abbrev pub after_keys : Settings → Process M → Option LoadError × Keys → Outcome × Process M
  after_keys cfg s (some e, keys) = (keys_failed e, record s { keys = keys })
  after_keys cfg s (none, keys) =
      after_pool cfg (record s { keys = keys }) (new_postgres_pool M.drivers cfg)

  abbrev pub after_load : Process M → Option Settings → Outcome × Process M
  after_load s none = (config_failed, s)
  after_load s (some cfg) =
      after_keys cfg s
        (load_keys M.key_parser cfg.jwt_private_key_path cfg.jwt_public_key_path s.keys)

  unfoldable pub main : Process M → Outcome × Process M
  main s = after_load s (load M.viper)
