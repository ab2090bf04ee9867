-- ===== src/Middleware/Tests.antt =====
-- The handlers on the example database.
use text.Mathlib.Text.{starts_with}
use go_lang_domain_based_ent.Auth.Repository.{
  find_user_by_email, insert_refresh_token, refresh_token_fits,
}
use go_lang_domain_based_ent.Auth.Service.{
  LoginRequest, blacklist, check_login_attempts, login, login_found, login_user, logout,
}
use go_lang_domain_based_ent.Auth.Tokens.{
  AuthResponse, Config, access_claims, enforce_session_limit, generate_access_token,
  generate_refresh_token, generate_tokens, store_refresh_token, validate_access_token,
}
use go_lang_domain_based_ent.Cache.{get, get_entry, new_token_cache}
use go_lang_domain_based_ent.External.{AccessClaims, Env, IsJwt, IsReliable}
use go_lang_domain_based_ent.External.Example.{
  example_env, example_env-IsReliable, example_tables, example_world,
}
use go_lang_domain_based_ent.External.Memory.{memory_redis-IsRedis}
use go_lang_domain_based_ent.Middleware.{abort, next, next_as}
use go_lang_domain_based_ent.Middleware.Authentication.{
  auth_required, cache_get, cache_set, check_blacklist, check_cached, check_claims, check_token,
  trim_bearer,
}
use go_lang_domain_based_ent.Middleware.Authentication.Cached.{
  Admits, auth_required-Admits, passes_while_cached,
}
use go_lang_domain_based_ent.Middleware.Authentication.Issued.{login-check_token}
use go_lang_domain_based_ent.Middleware.Authentication.Laws.{auth_after_logout}
use go_lang_domain_based_ent.Middleware.Permission.{require_permission, uuid}
use go_lang_domain_based_ent.Middleware.Permission.Laws.{Grant, require_permission_iff}
use go_lang_domain_based_ent.Middleware.RateLimiter.Bursts.{passed, passed-verdicts}
use go_lang_domain_based_ent.Middleware.RateLimiter.Laws.{described, verdicts, verdicts-described}
use go_lang_domain_based_ent.Prelude.{
  Bool, Bool-cases, [], arith, find?, if◌then◌else◌, inl, inr, leb, lookup, ltb, none, refl, some,
  string_dec, true, ℕ, ◌&&◌, ◌+◌, ◌==◌, ◌↔◌, ◌∷◌, ◌≡◌,
}
use go_lang_domain_based_ent.Schema.{User}
use go_lang_domain_based_ent.World.{World, ok, ◌>>=◌}
use go_lang_domain_based_ent.World.Commands.{del, exists, set_text}

require_permission_iff_example :
    ((require_permission "read" "incident" (uuid "u1") (example_world 1000)).0 ≡ ok next)
    ↔ Grant "u1" "read" "incident" example_tables
require_permission_iff_example =
    require_permission_iff "read" "incident" "u1" (example_world 1000) example_env-IsReliable

verdicts-described_example :
    verdicts 2 60 "1.2.3.4" "d" (1000 ∷ 1059 ∷ 1118 ∷ 1200 ∷ []) (example_world 1000)
    ≡ described 2 60 0 0 (1000 ∷ 1059 ∷ 1118 ∷ 1200 ∷ [])
verdicts-described_example =
    verdicts-described example_env-IsReliable memory_redis-IsRedis 2 60 "1.2.3.4" "d"
      (1000 ∷ 1059 ∷ 1118 ∷ 1200 ∷ []) 0 0 (example_world 1000) (record { at = λ u. refl })

passed-verdicts_example :
    passed (verdicts 2 60 "1.2.3.4" "d" (1000 ∷ 1001 ∷ 1059 ∷ []) (example_world 1000))
    ≡ (if leb 3 2 then 3 else 2)
passed-verdicts_example =
    passed-verdicts example_env-IsReliable memory_redis-IsRedis 2 60 "1.2.3.4" "d" 1000
      (1000 ∷ 1001 ∷ 1059 ∷ []) (example_world 1000)
      ((omega arith, omega arith), ((omega arith, omega arith), ((omega arith, omega arith), tt)))
      (λ u. refl)

-- Tokens

abbrev example_claims : AccessClaims
example_claims = record {
  user_id = "u1";
  email = "ann@example.com";
  expires_at = 1900;
  issued_at = 1000;
  not_before = 970;
  id = "id0";
}

abbrev is_example : AccessClaims → Bool
is_example c =
    c.user_id == "u1"
    && c.email == "ann@example.com"
    && leb c.expires_at 1900
    && leb 1900 c.expires_at
    && leb c.issued_at 1000
    && leb 1000 c.issued_at
    && leb c.not_before 970
    && leb 970 c.not_before
    && c.id == "id0"

-- One token, which carries the claims above.
abbrev jwt_env : Env
jwt_env = record example_env {
  sign_access = λ c. if is_example c then some "token" else none;
  parse_access = λ leeway now token.
      if token == "token" && (leb 970 (now + leeway) && ltb now (1900 + leeway))
      then some example_claims
      else none;
}

abbrev jwt_world : World jwt_env
jwt_world = record {
  now = 1000;
  calls = 0;
  draws = 0;
  db = example_tables;
  redis = λ key. none;
  cache = new_token_cache 300 100000;
}

auth_required-Admits_example :
    (starts_with "Bearer token" "Bearer " ≡ true)
    × Admits (trim_bearer "Bearer token") "u1" "ann@example.com" jwt_world
unfolding auth_required check_token cache_get get get_entry lookup check_cached
    validate_access_token check_claims check_blacklist exists cache_set new_token_cache string_dec
    ◌>>=◌
auth_required-Admits_example =
    auth_required-Admits "Bearer token" "u1" "ann@example.com" jwt_world refl

is_example-eq : (c : AccessClaims) → is_example c ≡ true → c ≡ example_claims
is_example-eq c h = ground arith

jwt_env-IsJwt : IsJwt jwt_env
jwt_env-IsJwt = record {
  parse-sign = λ c token leeway now signed. elim (Bool-cases (is_example c)) [
    | inl e ↦ rw (is_example-eq c e) (ground arith)
    | inr e ↦ ground arith
  ];
}

jwt_env-IsReliable : IsReliable jwt_env
jwt_env-IsReliable = record { at = λ n. refl }

-- The world in which a login's token is used at a time, after a logout at 1100.
abbrev after_logout : ℕ → World jwt_env
after_logout t = record (logout {E = jwt_env} "token" "" (record jwt_world { now = 1100 })).1 {
  now = t;
}

auth_after_logout_example :
    (check_token "token" (after_logout 1910)).0
    ≡ ok (
        if ltb 1910 1900
        then abort 401 "token has been revoked"
        else if ltb 1910 (1900 + 30)
        then next_as "u1" "ann@example.com"
        else abort 401 "invalid or expired token")
unfolding string_dec logout blacklist validate_access_token set_text get get_entry lookup
    new_token_cache ◌>>=◌
auth_after_logout_example =
    auth_after_logout jwt_env-IsReliable memory_redis-IsRedis jwt_env-IsJwt "token" ""
      example_claims (record jwt_world { now = 1100 }) (after_logout 1910) refl (omega arith)
      (omega arith) (omega arith) refl refl

-- The token is used, revoked at 1100 and used again, with the cache of before.
abbrev used : World jwt_env
used = (check_token "token" jwt_world).1

abbrev revoked : World jwt_env
revoked = (logout {E = jwt_env} "token" "" (record used { now = 1100 })).1

passes_while_cached_example :
    (check_token "token" (record revoked { now = 1299 })).0 ≡ ok (next_as "u1" "ann@example.com")
unfolding check_token cache_get get get_entry lookup check_cached validate_access_token check_claims
    check_blacklist exists cache_set new_token_cache string_dec ◌>>=◌
passes_while_cached_example =
    passes_while_cached "token" "" "u1" "ann@example.com" jwt_world (record used { now = 1100 })
      (record revoked { now = 1299 }) refl refl refl refl (omega arith)

abbrev token_config : Config
token_config = record {
  jwt_access_expiry_min = 15;
  jwt_refresh_expiry_days = 7;
  max_active_sessions = 0;
}

abbrev ann : LoginRequest
ann = record { email = "ann@example.com"; password = "secret" }

abbrev ann_tokens : AuthResponse
ann_tokens = record {
  access_token = "token";
  refresh_token = "refresh";
  expires_at = 1900;
  user = record { id = "u1"; email = "ann@example.com"; full_name = "Ann" };
}

login-check_token_example :
    (user : User) × (find? (λ u. u.email == "ann@example.com") example_tables.users ≡ some user)
    × (user.is_active ≡ true)
    × (jwt_env.compare_password user.password_hash "secret" ≡ true)
    × ((check_token "token" (record jwt_world { now = 1500 })).0 ≡ ok (next_as user.id user.email))
unfolding string_dec login ◌>>=◌ check_login_attempts exists login_found find_user_by_email
    login_user generate_tokens generate_access_token access_claims del generate_refresh_token
    store_refresh_token insert_refresh_token refresh_token_fits enforce_session_limit get get_entry
    lookup new_token_cache
login-check_token_example =
    login-check_token token_config ann "d" "1.2.3.4" "ua" jwt_world
      (record jwt_world { now = 1500 }) ann_tokens jwt_env-IsReliable jwt_env-IsJwt refl
      (omega arith) refl refl
