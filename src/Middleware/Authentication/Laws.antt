-- ===== src/Middleware/Authentication/Laws.antt =====
-- `AuthRequired` against `Logout`: what a token opens before and after it is revoked.
use go_lang_domain_based_ent.Auth.Repository.{delete_session_by_refresh_hash}
use go_lang_domain_based_ent.Auth.Service.{blacklist, blacklist_key, logout}
use go_lang_domain_based_ent.Auth.Tokens.{leeway, validate_access_token}
use go_lang_domain_based_ent.Cache.{set}
use go_lang_domain_based_ent.External.{
  AccessClaims, Env, IsJwt, IsRedis, IsReliable, Item, live, word,
}
use go_lang_domain_based_ent.Middleware.{Verdict, abort, next_as}
use go_lang_domain_based_ent.Middleware.Authentication.{
  cache_get, cache_set, check_blacklist, check_cached, check_claims, check_token,
}
use go_lang_domain_based_ent.Prelude.{
  Option, String, arith, if◌then◌else◌, ltb, none, refl, some, ℕ, ◌+◌, ◌-◌, ◌<◌, ◌∙◌, ◌≡◌, ◌≤◌,
}
use go_lang_domain_based_ent.World.{World, ok, ◌>>=◌}
use go_lang_domain_based_ent.World.Commands.{exists, is_present, set_text}
use go_lang_domain_based_ent.Cache

-- The entry that `Logout` writes under the key of a token.
abbrev pub revoked_until : ℕ → Item
revoked_until d = record { value = word "revoked"; deadline = some d }

-- What `AuthRequired` says of a token whose claims are not in the cache.
abbrev pub verdict_on : Option AccessClaims → Option Item → Verdict
verdict_on none i = abort 401 "invalid or expired token"
verdict_on (some claims) i =
    if is_present i then abort 401 "token has been revoked" else next_as claims.user_id claims.email

module _ {E : Env} where
  check_claims_lem :
      IsReliable E
      → (hash : String) (claims : Option AccessClaims) (w : World E)
      → (check_claims hash claims w).0
        ≡ ok (verdict_on claims (E.redis.read w.redis w.now (blacklist_key hash)))
  unfolding check_claims check_blacklist exists cache_set ◌>>=◌
  check_claims_lem up hash none w = refl
  check_claims_lem up hash (some claims) w = ground (arith, up.at w.calls)

  pub check_token_uncached :
      IsReliable E
      → (token : String) (w : World E) → (Cache.get (E.sha256_hex token) w.now w.cache).0 ≡ none
      → (check_token token w).0
        ≡ ok (
            verdict_on
              (E.parse_access leeway w.now token)
              (E.redis.read w.redis w.now (blacklist_key (E.sha256_hex token))))
  unfolding check_token cache_get check_cached validate_access_token ◌>>=◌
  check_token_uncached up token w h = rw h (
      check_claims_lem up (E.sha256_hex token) (E.parse_access leeway w.now token)
        (record w { cache = (Cache.get (E.sha256_hex token) w.now w.cache).1 }))

  pub check_token_cached :
      (token : String) (c : AccessClaims) (w : World E)
      → (Cache.get (E.sha256_hex token) w.now w.cache).0 ≡ some c
      → (check_token token w).0 ≡ ok (next_as c.user_id c.email)
  unfolding check_token cache_get check_cached ◌>>=◌
  check_token_cached token c w h = rw h refl

module _ {E : Env} (up : IsReliable E) (R : IsRedis E.redis) where
  logout_writes :
      (token refresh : String) (c : AccessClaims) (w : World E)
      → E.parse_access leeway w.now token ≡ some c
      → w.now < c.expires_at
      → (u : ℕ)
      → E.redis.read (logout token refresh w).1.redis u (blacklist_key (E.sha256_hex token))
        ≡ live u (some (revoked_until c.expires_at))
  unfolding logout blacklist validate_access_token set_text delete_session_by_refresh_hash ◌>>=◌
  logout_writes token refresh c w parsed early u = rw parsed (
      ground (
        arith,
        up.at w.calls,
        R.read-set w.redis w.now u (blacklist_key (E.sha256_hex token))
            (blacklist_key (E.sha256_hex token)) (word "revoked") (c.expires_at - w.now),
      ))

  -- Where no call fails, a signed token is revoked before its expiry. At a later moment at which its
  -- claims are not in the cache, as they can be from a request before, Logout's own one included, and
  -- at which the blacklist entry was not overwritten, `AuthRequired` refuses it as revoked if that
  -- moment is before its expiry, lets it pass if it is in the 30 seconds of leeway after that, and
  -- refuses it as expired if it is later still.
  pub auth_after_logout :
      IsJwt E
      → (token refresh : String) (c : AccessClaims) (w later : World E)
      → E.sign_access c ≡ some token
      → c.not_before ≤ w.now
      → w.now < c.expires_at
      → w.now ≤ later.now
      → E.redis.read later.redis later.now (blacklist_key (E.sha256_hex token))
        ≡ E.redis.read
            (logout token refresh w).1.redis
            later.now
            (blacklist_key (E.sha256_hex token))
      → (Cache.get (E.sha256_hex token) later.now later.cache).0 ≡ none
      → (check_token token later).0
        ≡ ok (
            if ltb later.now c.expires_at
            then abort 401 "token has been revoked"
            else if ltb later.now (c.expires_at + 30)
            then next_as c.user_id c.email
            else abort 401 "invalid or expired token")
  auth_after_logout jwt token refresh c w later signed begun early order kept cold =
      check_token_uncached up token later cold
      ∙ rw kept (
          rw
            (logout_writes token refresh c w
              (jwt.parse-sign c token leeway w.now signed ∙ ground arith) early later.now)
            (rw (jwt.parse-sign c token leeway later.now signed) (ground arith)))
