-- ===== src/Config.antt =====
-- internal/config/config.go: the settings, and how they are read and completed.
use go_lang_domain_based_ent.Prelude.{
  Bool, Option, String, if◌then◌else◌, leb, negsuc, none, pos, some, true, ℕ, ℤ, ◌==◌, ◌||◌,
}
pub mod Laws
pub mod Tests

-- What viper reads from the environment or the file .env. A setting that is missing is the zero
-- value of its type.
pub record Viper : Type 0 where
  pub get_string : String → String
  pub get_int : String → ℤ
  pub get_bool : String → Bool

pub record Settings : Type 0 where
  pub app_name : String
  pub app_env : String
  pub app_port : String
  pub app_debug : Bool
  pub db_host : String
  pub db_port : String
  pub db_user : String
  pub db_password : String
  pub db_name : String
  pub db_ssl_mode : String
  pub db_max_open_conns : ℤ
  pub db_max_idle_conns : ℤ
  pub use_pg_bouncer : Bool
  pub pg_bouncer_port : String
  pub redis_host : String
  pub redis_port : String
  pub redis_password : String
  pub redis_db : ℤ
  pub jwt_private_key_path : String
  pub jwt_public_key_path : String
  pub jwt_access_expiry_min : ℤ
  pub jwt_refresh_expiry_days : ℤ
  pub rate_limit_requests : ℤ
  pub rate_limit_duration_sec : ℤ
  pub throttle_burst : ℤ
  pub throttle_rate : ℤ
  pub log_level : String
  pub log_file_path : String
  pub storage_driver : String
  pub storage_local_path : String
  pub storage_s3_endpoint : String
  pub storage_s3_region : String
  pub storage_s3_bucket : String
  pub storage_s3_access_key : String
  pub storage_s3_secret_key : String
  pub storage_s3_use_ssl : Bool
  pub max_active_sessions : ℤ
  pub admin_email : String
  pub admin_password : String
  pub admin_name : String
  pub max_request_body_size : ℤ

-- `n <= 0`
abbrev pub is_unset : ℤ → Bool
is_unset (pos n) = leb n 0
is_unset (negsuc n) = true

-- The settings as they are read.
unfoldable pub read_settings : Viper → Settings
read_settings viper = record {
  app_name = viper.get_string "APP_NAME";
  app_env = viper.get_string "APP_ENV";
  app_port = viper.get_string "APP_PORT";
  app_debug = viper.get_bool "APP_DEBUG";
  db_host = viper.get_string "DB_HOST";
  db_port = viper.get_string "DB_PORT";
  db_user = viper.get_string "DB_USER";
  db_password = viper.get_string "DB_PASSWORD";
  db_name = viper.get_string "DB_NAME";
  db_ssl_mode = viper.get_string "DB_SSLMODE";
  db_max_open_conns = viper.get_int "DB_MAX_OPEN_CONNS";
  db_max_idle_conns = viper.get_int "DB_MAX_IDLE_CONNS";
  use_pg_bouncer = viper.get_bool "USE_PGBOUNCER";
  pg_bouncer_port = viper.get_string "PGBOUNCER_PORT";
  redis_host = viper.get_string "REDIS_HOST";
  redis_port = viper.get_string "REDIS_PORT";
  redis_password = viper.get_string "REDIS_PASSWORD";
  redis_db = viper.get_int "REDIS_DB";
  jwt_private_key_path = viper.get_string "JWT_PRIVATE_KEY_PATH";
  jwt_public_key_path = viper.get_string "JWT_PUBLIC_KEY_PATH";
  jwt_access_expiry_min = viper.get_int "JWT_ACCESS_EXPIRY_MINUTES";
  jwt_refresh_expiry_days = viper.get_int "JWT_REFRESH_EXPIRY_DAYS";
  rate_limit_requests = viper.get_int "RATE_LIMIT_REQUESTS";
  rate_limit_duration_sec = viper.get_int "RATE_LIMIT_DURATION_SECONDS";
  throttle_burst = viper.get_int "THROTTLE_BURST";
  throttle_rate = viper.get_int "THROTTLE_RATE";
  log_level = viper.get_string "LOG_LEVEL";
  log_file_path = viper.get_string "LOG_FILE_PATH";
  storage_driver = viper.get_string "STORAGE_DRIVER";
  storage_local_path = viper.get_string "STORAGE_LOCAL_PATH";
  storage_s3_endpoint = viper.get_string "STORAGE_S3_ENDPOINT";
  storage_s3_region = viper.get_string "STORING_S3_REGION";
  storage_s3_bucket = viper.get_string "STORAGE_S3_BUCKET";
  storage_s3_access_key = viper.get_string "STORAGE_S3_ACCESS_KEY";
  storage_s3_secret_key = viper.get_string "STORAGE_S3_SECRET_KEY";
  storage_s3_use_ssl = viper.get_bool "STORAGE_S3_USE_SSL";
  max_active_sessions = viper.get_int "MAX_ACTIVE_SESSIONS";
  admin_email = viper.get_string "ADMIN_EMAIL";
  admin_password = viper.get_string "ADMIN_PASSWORD";
  admin_name = viper.get_string "ADMIN_NAME";
  max_request_body_size = viper.get_int "MAX_REQUEST_BODY_SIZE";
}

abbrev pub or_default : ℤ → ℕ → ℤ
or_default n default = if is_unset n then pos default else n

-- The defaults, and 10 << 20 for the size of a request body.
unfoldable pub with_defaults : Settings → Settings
with_defaults cfg = record cfg {
  max_active_sessions = or_default cfg.max_active_sessions 2;
  pg_bouncer_port = if cfg.pg_bouncer_port == "" then "6432" else cfg.pg_bouncer_port;
  max_request_body_size = or_default cfg.max_request_body_size 10485760;
}

-- `Load`, with `none` for its error: a path of a JWT key is missing.
unfoldable pub load : Viper → Option Settings
load viper =
    let cfg = read_settings viper in
    if cfg.jwt_private_key_path == "" || cfg.jwt_public_key_path == ""
    then none
    else some (with_defaults cfg)
