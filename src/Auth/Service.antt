-- ===== src/Auth/Service.antt =====
-- internal/modules/auth/service/auth_service.go: the operations of the service.
use go_lang_domain_based_ent.Auth.Repository.{
  create_user, delete_session_by_refresh_hash, find_refresh_token, find_user_by_email,
  find_user_by_id, without_refresh_hash, without_refresh_id,
}
use go_lang_domain_based_ent.Auth.Tokens.{
  AuthResponse, Config, generate_tokens, validate_access_token,
}
use go_lang_domain_based_ent.External.{AccessClaims, Env}
use go_lang_domain_based_ent.Prelude.{
  Option, String, false, if◌then◌else◌, leb, ltb, none, not, some, ℕ, ◌+◌, ◌-◌, ◌/◌, ◌<>◌, ◌==◌,
}
use go_lang_domain_based_ent.Schema.{RefreshToken, User}
use go_lang_domain_based_ent.World.{
  Action, Result, attempt, draw, err, hashing_failed, locked_for, message, now, ok, or_throw, pure,
  sql, throw, wrap, ◌>>=◌, ◌>>◌,
}
use go_lang_domain_based_ent.World.Commands.{
  del, exists, expire, increment, or_zero, set_text, time_to_live,
}

pub record RegisterRequest : Type 0 where
  pub email : String
  pub password : String
  pub full_name : String

pub record LoginRequest : Type 0 where
  pub email : String
  pub password : String

-- The password is hashed with a salt of its own.
unfoldable pub hash_password : {E : Env} → String → Action E String
hash_password {E} password = do n ← draw; or_throw hashing_failed (E.hash_password n password)

unfoldable pub register : {E : Env} → Config → RegisterRequest → Action E AuthResponse
register cfg req = do
  hash ← hash_password req.password
  user ← wrap "email already exists or db error" (
      create_user (record {
        id = "";
        email = req.email;
        password_hash = hash;
        full_name = req.full_name;
        is_active = false;
        created_at = 0;
        updated_at = 0;
      }))
  generate_tokens cfg user "register_device" "" ""

-- The lockout

abbrev pub lockout_key : String → String
lockout_key email = "login_lockout:" <> email

abbrev pub attempts_key : String → String
attempts_key email = "login_attempts:" <> email

-- 15 minutes
abbrev pub lockout_time : ℕ
lockout_time = 900

unfoldable pub check_login_attempts : {E : Env} → String → Action E (Unit {0})
check_login_attempts email = do
  locked ← attempt (exists (lockout_key email))
  if or_zero false locked
      then (do
        ttl ← attempt (time_to_live (lockout_key email))
        throw (locked_for (or_zero 0 ttl / 60 + 1)))
      else pure tt

unfoldable pub record_failed_attempt : {E : Env} → String → Action E (Unit {0})
record_failed_attempt email = do
  attempts ← attempt (increment (attempts_key email))
  attempt (expire (attempts_key email) lockout_time)
  if leb 5 (or_zero 0 attempts)
      then (do attempt (set_text (lockout_key email) "locked" lockout_time); pure tt)
      else pure tt

-- The end of `Login`, once the account is found: the tests on it, and the tokens.
unfoldable pub login_user :
    {E : Env} → Config → LoginRequest → String → String → String → User → Action E AuthResponse
login_user {E} cfg req device_id ip_address user_agent user =
    if not user.is_active
    then throw (message "account is disabled")
    else if not (E.compare_password user.password_hash req.password)
    then (do record_failed_attempt req.email; throw (message "invalid email or password"))
    else (do
      attempt (del (attempts_key req.email))
      attempt (del (lockout_key req.email))
      generate_tokens cfg user device_id ip_address user_agent)

-- What a query for one row gives, with `nil` for an error too.
abbrev pub row_or_nil : {A : Type 0} → Result (Option A) → Option A
row_or_nil (ok o) = o
row_or_nil (err e) = none

unfoldable pub login_found :
    {E : Env}
    → Config
    → LoginRequest
    → String
    → String
    → String
    → Option User
    → Action E AuthResponse
login_found cfg req device_id ip_address user_agent none = do
  record_failed_attempt req.email
  throw (message "invalid email or password")
login_found cfg req device_id ip_address user_agent (some user) =
    login_user cfg req device_id ip_address user_agent user

unfoldable pub login :
    {E : Env} → Config → LoginRequest → String → String → String → Action E AuthResponse
login cfg req device_id ip_address user_agent = do
  check_login_attempts req.email
  found ← attempt (find_user_by_email req.email)
  login_found cfg req device_id ip_address user_agent (row_or_nil found)

-- Refresh

unfoldable pub refresh_user :
    {E : Env} → Config → String → String → String → Option User → Action E AuthResponse
refresh_user cfg device_id ip_address user_agent none = throw (message "user not found")
refresh_user cfg device_id ip_address user_agent (some user) =
    generate_tokens cfg user device_id ip_address user_agent

unfoldable pub refresh_found :
    {E : Env}
    → Config
    → String
    → String
    → String
    → String
    → Option RefreshToken
    → Action E AuthResponse
refresh_found cfg hashed device_id ip_address user_agent none =
    throw (message "invalid refresh token")
refresh_found cfg hashed device_id ip_address user_agent (some token) = do
  t ← now
  if ltb token.expires_at t
      then (do
        attempt (sql (λ db. some (tt, without_refresh_id token.id db)))
        throw (message "refresh token expired"))
      else (do
        attempt (delete_session_by_refresh_hash hashed)
        attempt (sql (λ db. some (tt, without_refresh_id token.id db)))
        user ← attempt (find_user_by_id token.user_id)
        refresh_user cfg device_id ip_address user_agent (row_or_nil user))

unfoldable pub refresh_token :
    {E : Env} → Config → String → String → String → String → Action E AuthResponse
refresh_token {E} cfg token device_id ip_address user_agent = do
  found ← attempt (find_refresh_token (E.sha256_hex token))
  refresh_found cfg (E.sha256_hex token) device_id ip_address user_agent (row_or_nil found)

-- Logout

abbrev pub blacklist_key : String → String
blacklist_key hash = "blacklist:" <> hash

unfoldable pub blacklist : {E : Env} → String → Option AccessClaims → Action E (Unit {0})
blacklist token none = pure tt
blacklist {E} token (some claims) = do
  t ← now
  if ltb t claims.expires_at
      then (do
        attempt (set_text (blacklist_key (E.sha256_hex token)) "revoked" (claims.expires_at - t))
        pure tt)
      else pure tt

unfoldable pub logout : {E : Env} → String → String → Action E (Unit {0})
logout {E} access_token refresh = do
  claims ← validate_access_token access_token
  blacklist access_token claims
  if refresh == "" then pure tt else (do
    attempt (delete_session_by_refresh_hash (E.sha256_hex refresh))
    attempt (sql (λ db. some (tt, without_refresh_hash (E.sha256_hex refresh) db)))
    pure tt)
