-- ===== src/Startup/Tests.antt =====
-- A start on libraries that do not fail.
use go_lang_domain_based_ent.Auth.Keys.{KeyParser, load_keys, rsa}
use go_lang_domain_based_ent.Config.{load, read_settings, with_defaults}
use go_lang_domain_based_ent.External.Example.{example_env, example_world}
use go_lang_domain_based_ent.Migrate.{
  Postgres, create_migrations_table, get_applied_migrations, run_file, run_migrations, run_pending,
  sort_files,
}
use go_lang_domain_based_ent.Prelude.{
  String, [], false, if◌then◌else◌, negsuc, none, pos, refl, some, string_dec, suc, true, ℕ, ◌<>◌,
  ◌==◌, ◌∷◌, ◌≡◌, ◌⊎◌,
}
use go_lang_domain_based_ent.Schema.{empty_tables}
use go_lang_domain_based_ent.Startup.{Platform, Process, listening, main}
use go_lang_domain_based_ent.Startup.Connections.{
  Drivers, int32, new_postgres_pool, new_redis_client,
}
use go_lang_domain_based_ent.Startup.Laws.{Cause, IsReady, main-IsReady}
use go_lang_domain_based_ent.Startup.Stages.{IsStopped}
use go_lang_domain_based_ent.Storage.{FileSystem, found, new_from_config}
use go_lang_domain_based_ent.World.{ok}

abbrev plain_files : FileSystem
plain_files = record {
  Files = ℕ;
  join = λ base key. base <> "/" <> key;
  dir = λ path. path;
  abs = λ path. "/" <> path;
  mkdir_all = λ path files. (ok tt, suc files);
  create = λ path files. (ok tt, files);
  copy = λ path reader files. (ok 0, files);
  open_file = λ path files. ok "";
  remove = λ path files. (ok tt, files);
  stat = λ path files. found;
}

abbrev counting : Postgres
counting = record {
  State = ℕ;
  exec = λ text n. some (suc n);
  fails = λ n. false;
  breaks_off = λ n. none;
}

abbrev willing : Drivers
willing = record {
  Address = String;
  parse_config = λ text. ok text;
  new_with_config = λ pool. ok tt;
  ping = λ pool. ok tt;
  ping_redis = λ options. ok tt;
}

abbrev bare_parser : KeyParser
bare_parser = record {
  read_file = λ path. some path;
  decode_pem = λ bytes. some bytes;
  parse_pkcs8 = λ block. some (rsa block);
  parse_pkcs1 = λ block. none;
  parse_pkix = λ block. some (rsa block);
}

abbrev one_machine : Platform
one_machine = record {
  env = example_env;
  postgres = counting;
  drivers = willing;
  file_system = plain_files;
  key_parser = bare_parser;
  viper = record {
    get_string = λ key. if key == "STORAGE_DRIVER" then "local" else key;
    get_int = λ key. pos 7;
    get_bool = λ key. true;
  };
  parse_url = λ text. ok text;
  listen_and_serve = λ port. none;
  migration_files = ("migrations/000001_create_users.up.sql", "create users") ∷ [];
  tables_of = λ n. empty_tables;
}

abbrev fresh : Process one_machine
fresh = record {
  keys = record { private_key = none; public_key = none };
  database = record { state = 0; migrations = none; calls = 0; now = 10 };
  files = 0;
  world = example_world 0;
}

fresh-listens : (main one_machine fresh).0 ≡ listening "APP_PORT"
unfolding main load string_dec read_settings load_keys new_postgres_pool run_migrations
    create_migrations_table get_applied_migrations run_pending sort_files run_file new_redis_client
    new_from_config with_defaults
fresh-listens = refl

-- Three thousand million connections do not fit 32 bits.
too_many_conns : int32 (pos 3000000000) ≡ negsuc 1294967295
too_many_conns = refl

main-IsReady_example :
    IsReady one_machine (main one_machine fresh)
    ⊎ IsStopped one_machine fresh (Cause one_machine fresh) (main one_machine fresh)
main-IsReady_example = main-IsReady one_machine fresh
