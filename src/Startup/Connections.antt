-- ===== src/Startup/Connections.antt =====
-- internal/database/postgres.go and redis.go: how the connections are opened. pgx and go-redis are
-- parameters.
use go_lang_domain_based_ent.Config.{Settings}
use go_lang_domain_based_ent.Prelude.{
  Bool, String, if◌then◌else◌, ltb, negsuc, pos, ℕ, ℤ, ◌%◌, ◌-◌, ◌<>◌,
}
use go_lang_domain_based_ent.World.{Result, err, ok}

-- `int32(n)`, which keeps the low 32 bits.
abbrev pub int32 : ℤ → ℤ
int32 (pos n) =
    let low = n % 4294967296 in if ltb low 2147483648 then pos low else negsuc (4294967295 - low)
int32 (negsuc n) =
    let low = n % 4294967296 in if ltb low 2147483648 then negsuc low else pos (4294967295 - low)

-- `pgxpool.Config`, with the address that pgx has parsed, the times in seconds, and the mode without
-- prepared statements.
pub record PoolConfig (Address : Type 0) : Type 0 where
  pub address : Address
  pub max_conns : ℤ
  pub min_conns : ℤ
  pub max_conn_lifetime : ℕ
  pub max_conn_idle_time : ℕ
  pub health_check_period : ℕ
  pub simple_protocol : Bool

-- `redis.Options`
pub record RedisOptions : Type 0 where
  pub addr : String
  pub password : String
  pub db : ℤ

pub record Drivers : Type 1 where
  pub Address : Type 0
  pub parse_config : String → Result Address
  pub new_with_config : PoolConfig Address → Result (Unit {0})
  pub ping : PoolConfig Address → Result (Unit {0})
  pub ping_redis : RedisOptions → Result (Unit {0})

abbrev pub dsn : Settings → String
dsn cfg =
    let port = if cfg.use_pg_bouncer then cfg.pg_bouncer_port else cfg.db_port in
    "postgres://" <> cfg.db_user <> ":" <> cfg.db_password <> "@" <> cfg.db_host <> ":" <> port
    <> "/" <> cfg.db_name <> "?sslmode=" <> cfg.db_ssl_mode

abbrev pub pool_config : {A : Type 0} → Settings → A → PoolConfig A
pool_config cfg address = record {
  address = address;
  max_conns = int32 cfg.db_max_open_conns;
  min_conns = int32 cfg.db_max_idle_conns;
  max_conn_lifetime = 3600;
  max_conn_idle_time = 1800;
  health_check_period = 60;
  simple_protocol = cfg.use_pg_bouncer;
}

-- The pool is there once the first ping succeeds.
abbrev pub pinged : {A : Type 0} → A → Result (Unit {0}) → Result A
pinged pool (ok tt) = ok pool
pinged pool (err e) = err e

abbrev pub opened : {A : Type 0} → A → Result (Unit {0}) → Result (Unit {0}) → Result A
opened pool (ok tt) ping_result = pinged pool ping_result
opened pool (err e) ping_result = err e

abbrev pub connected : (D : Drivers) → Settings → Result D.Address → Result (PoolConfig D.Address)
connected D cfg (err e) = err e
connected D cfg (ok address) =
    let pool = pool_config cfg address in opened pool (D.new_with_config pool) (D.ping pool)

unfoldable pub new_postgres_pool : (D : Drivers) → Settings → Result (PoolConfig D.Address)
new_postgres_pool D cfg = connected D cfg (D.parse_config (dsn cfg))

abbrev pub redis_options : Settings → RedisOptions
redis_options cfg = record {
  addr = cfg.redis_host <> ":" <> cfg.redis_port;
  password = cfg.redis_password;
  db = cfg.redis_db;
}

-- An error stands for the panic.
unfoldable pub new_redis_client : Drivers → Settings → Result (Unit {0})
new_redis_client D cfg = D.ping_redis (redis_options cfg)
