-- ===== src/Auth/Tokens.antt =====
-- internal/shared/utils/jwt.go and `generateTokens` of internal/modules/auth/service.
use go_lang_domain_based_ent.Prelude.{ℕ, ◌+◌, ◌-◌, ◌*◌, String, Option, some, ltb, if◌then◌else◌}
use go_lang_domain_based_ent.Schema.{User}
use go_lang_domain_based_ent.External.{Env, AccessClaims}
use go_lang_domain_based_ent.World.{
  Action, signing_failed, ◌>>=◌, ◌>>◌, pure, attempt, wrap, now, draw, sql, or_throw,
}
use go_lang_domain_based_ent.Auth.Repository.{
  insert_refresh_token, create_session, without_old_sessions, without_orphans,
}

-- The settings of internal/config that the service reads. A negative number is not modelled.
pub record Config : Type 0 where
  pub jwt_access_expiry_min : ℕ
  pub jwt_refresh_expiry_days : ℕ
  pub max_active_sessions : ℕ

pub record UserInfo : Type 0 where
  pub id : String
  pub email : String
  pub full_name : String

pub record AuthResponse : Type 0 where
  pub access_token : String
  pub refresh_token : String
  pub expires_at : ℕ
  pub user : UserInfo

-- 30 seconds, for clocks that differ.
abbrev pub leeway : ℕ
leeway = 30

-- A time before the clock's origin is not modelled: `now - leeway` stops at 0.
unfoldable pub access_claims : String → String → ℕ → ℕ → String → AccessClaims
access_claims user_id email ttl t token_id = record {
  user_id = user_id;
  email = email;
  expires_at = t + ttl;
  issued_at = t;
  not_before = t - leeway;
  id = token_id;
}

unfoldable pub generate_access_token : {E : Env} → String → String → ℕ → Action E (String × ℕ)
generate_access_token {E} user_id email ttl = do
  t ← now
  n ← draw
  token ← or_throw signing_failed (E.sign_access (access_claims user_id email ttl t (E.uuid n)))
  pure (token, t + ttl)

unfoldable pub generate_refresh_token : {E : Env} → String → ℕ → Action E (String × ℕ)
generate_refresh_token {E} user_id ttl = do
  t ← now
  n ← draw
  token ← or_throw signing_failed (
      E.sign_refresh (record {
        user_id = user_id;
        token_id = E.uuid n;
        expires_at = t + ttl;
        not_before = t - leeway;
        id = E.uuid n;
      }))
  pure (token, t + ttl)

unfoldable pub validate_access_token : {E : Env} → String → Action E (Option AccessClaims)
validate_access_token {E} token = do t ← now; pure (E.parse_access leeway t token)

-- INSERT INTO refresh_tokens
unfoldable pub store_refresh_token :
    {E : Env} → String → String → String → String → ℕ → Action E (Unit {0})
store_refresh_token {E} user_id hash device_id ip_address expires_at = do
  n ← draw
  t ← now
  sql (
      insert_refresh_token E (record {
        id = E.uuid n;
        user_id = user_id;
        token_hash = hash;
        device_id = device_id;
        ip_address = ip_address;
        expires_at = expires_at;
        created_at = t;
      }))

-- `enforceSessionLimit`: errors are logged, and the code goes on.
unfoldable pub enforce_session_limit : {E : Env} → Config → String → Action E (Unit {0})
enforce_session_limit {E} cfg user_id =
    if ltb 0 cfg.max_active_sessions
    then (do
      attempt (sql (λ db. some (tt, without_old_sessions E user_id cfg.max_active_sessions db)))
      t ← now
      attempt (sql (λ db. some (tt, without_orphans user_id t db)))
      pure tt)
    else pure tt

-- `generateTokens`: a session that cannot be written is logged, and the code goes on.
unfoldable pub generate_tokens :
    {E : Env} → Config → User → String → String → String → Action E AuthResponse
generate_tokens {E} cfg user device_id ip_address user_agent = do
  access ← generate_access_token user.id user.email (cfg.jwt_access_expiry_min * 60)
  refresh ← generate_refresh_token user.id (cfg.jwt_refresh_expiry_days * 24 * 3600)
  let hashed = E.sha256_hex refresh.0
  wrap "failed to store refresh token"
      (store_refresh_token user.id hashed device_id ip_address refresh.1)
  attempt (
      create_session (record {
        id = "";
        user_id = user.id;
        refresh_token_hash = hashed;
        device_id = device_id;
        ip_address = ip_address;
        user_agent = user_agent;
        last_accessed_at = 0;
        created_at = 0;
      }))
  enforce_session_limit cfg user.id
  pure (record {
    access_token = access.0;
    refresh_token = refresh.0;
    expires_at = access.1;
    user = record { id = user.id; email = user.email; full_name = user.full_name };
  })
