-- ===== src/Middleware/Authentication.antt =====
-- internal/middleware/auth.go: `AuthRequired`, with its cache of validated claims.
use Prim.Native.String.{len, slice}
use text.Mathlib.Text.{starts_with}
use go_lang_domain_based_ent.Auth.Service.{blacklist_key}
use go_lang_domain_based_ent.Auth.Tokens.{validate_access_token}
use go_lang_domain_based_ent.Cache.{TokenCache}
use go_lang_domain_based_ent.External.{AccessClaims, Env}
use go_lang_domain_based_ent.Middleware.{Verdict, abort, next_as}
use go_lang_domain_based_ent.Prelude.{
  Option, String, false, if◌then◌else◌, none, not, some, ◌==◌, ◌||◌,
}
use go_lang_domain_based_ent.World.{Action, attempt, ok, pure, ◌>>=◌, ◌>>◌}
use go_lang_domain_based_ent.World.Commands.{exists, or_zero}
pub mod Laws
pub mod Cached
pub mod Issued
use go_lang_domain_based_ent.Cache

-- `NewTokenCache(5*time.Minute, 100000)`
unfoldable pub token_cache : TokenCache AccessClaims
token_cache = Cache.new_token_cache 300 100000

-- `tokenCache.Get` and `tokenCache.Set` on the shared cache.
unfoldable pub cache_get : {E : Env} → String → Action E (Option AccessClaims)
cache_get key w = let r = Cache.get key w.now w.cache in (ok r.0, record w { cache = r.1 })

unfoldable pub cache_set : {E : Env} → String → AccessClaims → Action E (Unit {0})
cache_set key claims w = (ok tt, record w { cache = Cache.set key claims w.now w.cache })

-- `strings.TrimPrefix(authHeader, "Bearer ")`, of a header that has the prefix.
abbrev pub trim_bearer : String → String
trim_bearer header = slice header 7 (len header)

-- The claims are valid: the blacklist is asked, and an error of Redis counts as not listed.
unfoldable pub check_blacklist : {E : Env} → String → AccessClaims → Action E Verdict
check_blacklist hash claims = do
  revoked ← attempt (exists (blacklist_key hash))
  if or_zero false revoked
      then pure (abort 401 "token has been revoked")
      else (do cache_set hash claims; pure (next_as claims.user_id claims.email))

unfoldable pub check_claims : {E : Env} → String → Option AccessClaims → Action E Verdict
check_claims hash none = pure (abort 401 "invalid or expired token")
check_claims hash (some claims) = check_blacklist hash claims

-- The cache is asked first.
unfoldable pub check_cached : {E : Env} → String → String → Option AccessClaims → Action E Verdict
check_cached token hash (some claims) = pure (next_as claims.user_id claims.email)
check_cached token hash none = do claims ← validate_access_token token; check_claims hash claims

unfoldable pub check_token : {E : Env} → String → Action E Verdict
check_token {E} token = do
  cached ← cache_get (E.sha256_hex token)
  check_cached token (E.sha256_hex token) cached

unfoldable pub auth_required : {E : Env} → String → Action E Verdict
auth_required header =
    if header == "" || not (starts_with header "Bearer ")
    then pure (abort 401 "missing or invalid authorization header")
    else check_token (trim_bearer header)
