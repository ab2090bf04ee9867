-- ===== src/Middleware/Authentication/Cached.antt =====
-- What the cache of validated claims does to `AuthRequired`: who passes, and for how long.
use go_lang_domain_based_ent.Auth.Repository.{delete_session_by_refresh_hash}
use go_lang_domain_based_ent.Auth.Service.{blacklist, blacklist_key, logout}
use go_lang_domain_based_ent.Auth.Tokens.{leeway, validate_access_token}
use go_lang_domain_based_ent.Cache.{set}
use go_lang_domain_based_ent.External.{AccessClaims, Env}
use go_lang_domain_based_ent.Middleware.{next_as}
use go_lang_domain_based_ent.Middleware.Authentication.{
  auth_required, cache_get, cache_set, check_blacklist, check_cached, check_claims, check_token, ok,
  starts_with, trim_bearer,
}
use go_lang_domain_based_ent.Middleware.Authentication.Laws.{check_token_cached}
use go_lang_domain_based_ent.Prelude.{
  Bool-cases, Option-cases, String, arith, false, inl, inr, none, refl, some, true, ℕ, ◌+◌, ◌∙◌,
  ◌≡◌, ◌≤◌, ◌⊎◌,
}
use go_lang_domain_based_ent.World.{World, ◌>>=◌}
use go_lang_domain_based_ent.World.Commands.{exists, is_present, set_text}
use go_lang_domain_based_ent.Cache
use go_lang_domain_based_ent.Cache.Reads

get-ttl :
    {P : Type 0} (key : String) (t : ℕ) (c : Cache.TokenCache P) → (Cache.get key t c).1.ttl ≡ c.ttl
unfolding Cache.get
get-ttl key t c = ground arith

-- The claims on which a request passes: cached ones, or those of a valid token that Redis does not
-- list as revoked, or of which Redis cannot say it.
pub record Admits {E : Env} (token user_id email : String) (w : World E) : Type 0 where
  pub claims : AccessClaims
  pub of_user : claims.user_id ≡ user_id
  pub of_email : claims.email ≡ email
  pub grounds :
      ((Cache.get (E.sha256_hex token) w.now w.cache).0 ≡ some claims)
      ⊎ ((E.parse_access leeway w.now token ≡ some claims)
          × ((E.fails w.calls ≡ true)
              ⊎ (is_present (E.redis.read w.redis w.now (blacklist_key (E.sha256_hex token)))
                  ≡ false)))

module _ {E : Env} where
  check_token-Admits :
      (token user_id email : String) (w : World E)
      → (check_token token w).0 ≡ ok (next_as user_id email)
      → Admits token user_id email w
  unfolding check_token cache_get check_cached check_claims check_blacklist exists cache_set
      validate_access_token ◌>>=◌
  check_token-Admits token user_id email w h =
      elim (Option-cases (Cache.get (E.sha256_hex token) w.now w.cache).0) [
        | inr (c, e) ↦ record {
          claims = c;
          of_user = ground arith;
          of_email = ground arith;
          grounds = inl e;
        }
        | inl e ↦ elim (Option-cases (E.parse_access leeway w.now token)) [
          | inl f ↦ ground arith
          | inr (c, f) ↦ record {
            claims = c;
            of_user = ground arith;
            of_email = ground arith;
            grounds = inr (f, ground arith);
          }
        ]
      ]

  -- A request passes `AuthRequired` only with a bearer token whose claims name the identity that
  -- goes into the context, and those claims come from the cache or from a token that is valid at the
  -- time; in that case Redis did not list it as revoked, or the question to Redis failed.
  pub auth_required-Admits :
      (header user_id email : String) (w : World E)
      → (auth_required header w).0 ≡ ok (next_as user_id email)
      → (starts_with header "Bearer " ≡ true) × Admits (trim_bearer header) user_id email w
  unfolding auth_required ◌>>=◌
  auth_required-Admits header user_id email w h = elim (Bool-cases (starts_with header "Bearer ")) [
    | inl e ↦ (e, check_token-Admits (trim_bearer header) user_id email w (ground arith))
    | inr e ↦ ground arith
  ]

  -- A token that passed outside the cache stands in it from then.
  check_token_caches :
      (token user_id email : String) (w : World E)
      → (Cache.get (E.sha256_hex token) w.now w.cache).0 ≡ none
      → (check_token token w).0 ≡ ok (next_as user_id email)
      → (c : AccessClaims) × (c.user_id ≡ user_id)
        × (c.email ≡ email)
        × ((check_token token w).1.cache
            ≡ Cache.set
                (E.sha256_hex token)
                c
                w.now
                (Cache.get (E.sha256_hex token) w.now w.cache).1)
  unfolding check_token cache_get check_cached check_claims check_blacklist exists cache_set
      validate_access_token ◌>>=◌
  check_token_caches token user_id email w cold h =
      elim (Option-cases (E.parse_access leeway w.now token)) [
        | inl f ↦ ground arith
        | inr (c, f) ↦ (c, ground arith, ground arith, ground arith)
      ]

  logout_cache : (token refresh : String) (w : World E) → (logout token refresh w).1.cache ≡ w.cache
  unfolding logout blacklist validate_access_token set_text delete_session_by_refresh_hash ◌>>=◌
  logout_cache token refresh w = elim (Option-cases (E.parse_access leeway w.now token)) [
    | inl f ↦ ground arith
    | inr (c, f) ↦ ground arith
  ]

  -- A token that was validated and put into the cache keeps passing after `Logout` has revoked it,
  -- whatever Redis holds by then, until its cache entry runs out.
  pub passes_while_cached :
      (token refresh user_id email : String) (w logging_out later : World E)
      → (Cache.get (E.sha256_hex token) w.now w.cache).0 ≡ none
      → (check_token token w).0 ≡ ok (next_as user_id email)
      → logging_out.cache ≡ (check_token token w).1.cache
      → later.cache ≡ (logout token refresh logging_out).1.cache
      → later.now ≤ w.now + w.cache.ttl
      → (check_token token later).0 ≡ ok (next_as user_id email)
  passes_while_cached token refresh user_id email w logging_out later cold passed same same' soon =
      let (c, of_user, of_email, stored) = check_token_caches token user_id email w cold passed in
      let held = same' ∙ logout_cache token refresh logging_out ∙ same ∙ stored in
      check_token_cached token c later (
        rw held (
          rw
            (Reads.get-set (E.sha256_hex token) c w.now later.now
              (Cache.get (E.sha256_hex token) w.now w.cache).1)
            (rw (get-ttl (E.sha256_hex token) w.now w.cache) (ground arith))))
      ∙ rw of_user (rw of_email refl)
