-- ===== src/Startup/Stages.antt =====
-- How each stage of the start in cmd/api/main.go ends.
use go_lang_domain_based_ent.Auth.Keys.{Keys}
use go_lang_domain_based_ent.Config.{Settings}
use go_lang_domain_based_ent.Migrate.{Database, run_migrations}
use go_lang_domain_based_ent.Prelude.{String, ap, inl, inr, refl, sym, ◌∙◌, ◌≡◌, ◌≢◌, ◌⊎◌}
use go_lang_domain_based_ent.Startup.{
  Outcome, Platform, Process, after_migrations, after_pool, after_redis, after_storage, listening,
  served, server_failed,
}
use go_lang_domain_based_ent.Startup.Connections.{PoolConfig, new_postgres_pool, new_redis_client}
use go_lang_domain_based_ent.Storage.{Storage, new_from_config}
use go_lang_domain_based_ent.World.{Failure, Result, err, ok}

-- What stops a start that has its settings and keys.
pub data Fault (M : Platform) (cfg : Settings) (db : Database M.postgres)
    (files : M.file_system.Files) : Type 0 where
  no_database : (e : Failure) → new_postgres_pool M.drivers cfg ≡ err e → Fault M cfg db files
  no_migrations :
      (e : Failure) → (run_migrations M.migration_files db).0 ≡ err e → Fault M cfg db files
  no_redis : (e : Failure) → new_redis_client M.drivers cfg ≡ err e → Fault M cfg db files
  no_storage :
      (e : Failure)
      → (new_from_config M.file_system M.parse_url cfg files).0 ≡ err e
      → Fault M cfg db files

-- Nothing listens and nothing is seeded, which has a cause.
pub record IsStopped (M : Platform) (s : Process M) (why : Type 0) (r : Outcome × Process M)
    : Type 0 where
  pub silent : (port : String) → r.0 ≢ listening port
  pub not_served : (e : Failure) → r.0 ≢ server_failed e
  pub world : r.1.world ≡ s.world
  pub cause : why

-- The rest of the start, from the settings on.
pub record IsServing (M : Platform) (cfg : Settings) (keys : Keys) (db : Database M.postgres)
    (r : Outcome × Process M) : Type 0 where
  pub port : r.0 ≡ served M cfg (M.listen_and_serve cfg.app_port)
  pub same_keys : r.1.keys ≡ keys
  pub same_database : r.1.database ≡ db

module _ (M : Platform) (cfg : Settings) (start : Database M.postgres) where
  because :
      (s t : Process M) (why : Type 0) (r : Outcome × Process M)
      → t.world ≡ s.world
      → IsStopped M t why r
      → IsStopped M s why r
  because s t why r same h = record {
    silent = h.silent;
    not_served = h.not_served;
    world = h.world ∙ same;
    cause = h.cause;
  }

  after_storage-cases :
      (s : Process M) (r : Result (Storage M.file_system.Files) × M.file_system.Files)
      → new_from_config M.file_system M.parse_url cfg s.files ≡ r
      → IsServing M cfg s.keys s.database (after_storage M cfg s r)
        ⊎ IsStopped M s (Fault M cfg start s.files) (after_storage M cfg s r)
  after_storage-cases s (ok store, files) from =
      inl (record { port = refl; same_keys = refl; same_database = refl })
  after_storage-cases s (err e, files) from = inr (record {
    silent = λ port h. cc;
    not_served = λ f h. cc;
    world = refl;
    cause =
        no_storage e
          (ap (λ (x : Result (Storage M.file_system.Files) × M.file_system.Files). x.0) from);
  })

  after_redis-cases :
      (s : Process M) (r : Result (Unit {0}))
      → new_redis_client M.drivers cfg ≡ r
      → IsServing M cfg s.keys s.database (after_redis M cfg s r)
        ⊎ IsStopped M s (Fault M cfg start s.files) (after_redis M cfg s r)
  after_redis-cases s (ok tt) from =
      after_storage-cases s (new_from_config M.file_system M.parse_url cfg s.files) refl
  after_redis-cases s (err e) from = inr (record {
    silent = λ port h. cc;
    not_served = λ f h. cc;
    world = refl;
    cause = no_redis e from;
  })

  after_migrations-cases :
      (s : Process M) (r : Result (Unit {0}) × Database M.postgres)
      → run_migrations M.migration_files start ≡ r
      → ((r.0 ≡ ok tt) × IsServing M cfg s.keys r.1 (after_migrations M cfg s r))
        ⊎ IsStopped M s (Fault M cfg start s.files) (after_migrations M cfg s r)
  after_migrations-cases s (ok tt, db) from =
      elim (after_redis-cases (record s { database = db }) (new_redis_client M.drivers cfg) refl) [
        | inl served ↦ inl (refl, served)
        | inr stopped ↦ inr (because s (record s { database = db }) _ _ refl stopped)
      ]
  after_migrations-cases s (err e, db) from = inr (record {
    silent = λ port h. cc;
    not_served = λ f h. cc;
    world = refl;
    cause = no_migrations e (ap (λ (x : Result (Unit {0}) × Database M.postgres). x.0) from);
  })

  pub after_pool-cases :
      (s : Process M) (r : Result (PoolConfig M.drivers.Address))
      → new_postgres_pool M.drivers cfg ≡ r
      → s.database ≡ start
      → (((run_migrations M.migration_files s.database).0 ≡ ok tt)
          × IsServing M cfg s.keys
              (run_migrations M.migration_files s.database).1
              (after_pool M cfg s r))
        ⊎ IsStopped M s (Fault M cfg start s.files) (after_pool M cfg s r)
  after_pool-cases s (ok pool) from same =
      after_migrations-cases s (run_migrations M.migration_files s.database)
        (ap (run_migrations M.migration_files) (sym same))
  after_pool-cases s (err e) from same = inr (record {
    silent = λ port h. cc;
    not_served = λ f h. cc;
    world = refl;
    cause = no_database e from;
  })
