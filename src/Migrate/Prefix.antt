-- ===== src/Migrate/Prefix.antt =====
-- What a loop over the migrations leaves when it fails.
use go_lang_domain_based_ent.Migrate.{Database, Postgres, run_pending}
use go_lang_domain_based_ent.Prelude.{List, String, [], ◌++◌, ◌≡◌, ◌≢◌}
use go_lang_domain_based_ent.World.{Result, ok}

module _ {P : Postgres} where
  -- A loop over the first of these files, which ends well and leaves the same.
  pub record IsPrefix (applied : List String) (files : List (String × String)) (db : Database P)
      (r : Result (Unit {0}) × Database P) : Type 0 where
    pub before : List (String × String)
    pub after : List (String × String)
    pub split : files ≡ before ++ after
    pub left : after ≢ []
    pub well : (run_pending applied before db).0 ≡ ok tt
    pub state : r.1.state ≡ (run_pending applied before db).1.state
    pub migrations : r.1.migrations ≡ (run_pending applied before db).1.migrations
