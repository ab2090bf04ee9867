-- ===== src/Http/Tests.antt =====
-- Requests on the example database.
use go_lang_domain_based_ent.Auth.Tokens.{Config}
use go_lang_domain_based_ent.External.Example.{example_env, example_world}
use go_lang_domain_based_ent.Http.{Gin, Request, bound, malformed}
use go_lang_domain_based_ent.Http.Access.{IsAllowed, IsRefused, serve_guarded}
use go_lang_domain_based_ent.Http.Answers.{serve-Answers}
use go_lang_domain_based_ent.Http.BadRequests.{Spares, serve-Spares}
use go_lang_domain_based_ent.Http.Chain.{Serves, engine-Serves}
use go_lang_domain_based_ent.Http.Router.{Limits, Server, engine, matched}
use go_lang_domain_based_ent.Http.Routes.{Route, guards, serve}
use go_lang_domain_based_ent.Http.Statuses.{Answers, statuses}
use go_lang_domain_based_ent.Middleware.Throttler.{Buckets}
use go_lang_domain_based_ent.Prelude.{[], if◌then◌else◌, ltb, none, pos, refl, ℕ, ◌-◌, ◌==◌, ◌⊎◌}
use go_lang_domain_based_ent.WorkerPool.{new_worker_pool}

-- A body is taken as the name of a role, and every other body is malformed.
abbrev example_gin : Gin
example_gin = record {
  atoi = λ text. pos 20;
  bind_register = λ body. malformed "bad";
  bind_login = λ body. malformed "bad";
  bind_refresh = λ body. malformed "bad";
  bind_logout = λ body. "";
  bind_create_user = λ body. malformed "bad";
  bind_role_ids = λ body. malformed "bad";
  bind_create_role = λ body. bound (record { name = body; category = ""; description = "" });
  bind_update_role = λ body. malformed "bad";
  bind_permission_ids = λ body. malformed "bad";
  bind_create_permission = λ body. malformed "bad";
  bind_update_permission = λ body. malformed "bad";
  bind_create_incident = λ body. malformed "bad";
}

abbrev example_config : Config
example_config = record {
  jwt_access_expiry_min = 15;
  jwt_refresh_expiry_days = 7;
  max_active_sessions = 5;
}

abbrev new_role_request : Request
new_role_request = record {
  method = "POST";
  path = "/api/v1/admin/roles";
  header = λ name. if name == "Authorization" then "Bearer token" else "gzip, br";
  query = λ name. none;
  id = "";
  client_ip = "1.2.3.4";
  user_agent = "agent";
  body = "auditor";
}

-- A bucket that counts down and never fills again.
abbrev counting_buckets : Buckets
counting_buckets = record {
  Limiter = ℕ;
  Rate = ℕ;
  new_limiter = λ rate burst. burst;
  allow = λ t left. (ltb 0 left, left - 1);
}

abbrev example_limits : Limits counting_buckets
example_limits = record {
  throttle_burst = 3;
  throttle_rate = 1;
  rate_limit_requests = 10;
  rate_limit_duration_sec = 60;
}

abbrev example_server : Server example_env counting_buckets
example_server = record {
  world = example_world 1000;
  clients = [];
  activities = [];
  audit_worker_pool = new_worker_pool 10 1000;
}

serve_guarded_example :
    IsRefused
      (example_world 1000)
      (serve example_gin example_config Route.create_role new_role_request (example_world 1000))
    ⊎ IsAllowed "manage" "admin" new_role_request (example_world 1000)
unfolding guards
serve_guarded_example =
    serve_guarded example_gin example_config Route.create_role "manage" "admin" new_role_request
      (example_world 1000) refl

serve-Answers_example :
    Answers {E = example_env}
      (statuses Route.create_role)
      (serve example_gin example_config Route.create_role new_role_request)
serve-Answers_example = serve-Answers example_gin example_config new_role_request Route.create_role

serve-Spares_example :
    Spares {E = example_env} (serve example_gin example_config Route.create_user new_role_request)
serve-Spares_example = serve-Spares example_gin example_config new_role_request Route.create_user

engine-Serves_example :
    Serves example_gin example_config (matched Route.create_role) new_role_request example_server (
      engine example_gin example_config example_limits
        (matched Route.create_role)
        new_role_request
        example_server)
engine-Serves_example =
    engine-Serves example_gin example_config example_limits (matched Route.create_role)
      new_role_request example_server
