-- ===== src/External/Example.antt =====
-- A concrete environment and a small database, on which the tests evaluate the code.
use go_lang_domain_based_ent.Cache.{new_token_cache}
use go_lang_domain_based_ent.External.{Env, IsReliable}
use go_lang_domain_based_ent.External.Memory.{memory_redis}
use go_lang_domain_based_ent.Prelude.{
  String, [], false, if◌then◌else◌, ltb, none, not, refl, some, true, ℕ, ◌<>◌, ◌==◌, ◌∷◌,
}
use go_lang_domain_based_ent.Schema.{Permission, Role, Tables, User, empty_tables}
use go_lang_domain_based_ent.World.{World}

-- The ids that are drawn, in their order.
abbrev example_uuid : ℕ → String
example_uuid n =
    if ltb n 1
    then "id0"
    else if ltb n 2
    then "id1"
    else if ltb n 3
    then "id2"
    else if ltb n 4
    then "id3"
    else "id4"

abbrev pub example_env : Env
example_env = record {
  redis = memory_redis;
  fails = λ n. false;
  commits = λ n. false;
  uuid = example_uuid;
  inet_ok = λ text. not (text == "");
  varchar_ok = λ n text. true;
  newest_first = λ rows. rows;
  sorted_users = λ rows. rows;
  sorted_roles = λ rows. rows;
  sorted_permissions = λ rows. rows;
  sorted_incidents = λ rows. rows;
  incident_status = λ row. some "open";
  parse_uuid = λ text. some text;
  hash_password = λ salt password. some ("hash of " <> password);
  compare_password = λ hash password. hash == "hash of " <> password;
  sha256_hex = λ text. "sha of " <> text;
  sign_access = λ c. some "access";
  sign_refresh = λ c. some "refresh";
  parse_access = λ leeway now token. none;
}

-- The same, with every call to PostgreSQL and Redis failing.
abbrev pub failing_env : Env
failing_env = record example_env { fails = λ n. true }

abbrev pub example_user : User
example_user = record {
  id = "u1";
  email = "ann@example.com";
  password_hash = "hash of secret";
  full_name = "Ann";
  is_active = true;
  created_at = 10;
  updated_at = 10;
}

abbrev pub example_role : Role
example_role = record {
  id = "r1";
  name = "editor";
  category = "general";
  description = "";
  created_at = 10;
}

abbrev pub example_permission : Permission
example_permission = record {
  id = "p1";
  name = "Read Incident";
  action = "read";
  resource = "incident";
  description = "";
  created_at = 10;
}

abbrev pub example_tables : Tables
example_tables = record empty_tables {
  users = example_user ∷ [];
  roles = example_role ∷ record example_role { id = "r2"; name = "auditor" } ∷ [];
  permissions = example_permission ∷ [];
  role_permissions = record { role_id = "r1"; permission_id = "p1" } ∷ [];
  user_roles = record { user_id = "u1"; role_id = "r1" } ∷ [];
}

-- The world at a time, with nothing in Redis and in the cache.
abbrev pub example_world : ℕ → World example_env
example_world t = record {
  now = t;
  calls = 0;
  draws = 0;
  db = example_tables;
  redis = λ key. none;
  cache = new_token_cache 300 100000;
}

abbrev pub failing_world : World failing_env
failing_world = record {
  now = 1000;
  calls = 0;
  draws = 0;
  db = example_tables;
  redis = λ key. none;
  cache = new_token_cache 300 100000;
}

pub example_env-IsReliable : IsReliable example_env
example_env-IsReliable = record { at = λ n. refl }
