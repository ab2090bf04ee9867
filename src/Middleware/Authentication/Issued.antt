-- ===== src/Middleware/Authentication/Issued.antt =====
-- `AuthRequired` on the access token of a `Login`.
use go_lang_domain_based_ent.Auth.Issue.{IsIssued, login-IsLogin}
use go_lang_domain_based_ent.Auth.Service.{LoginRequest, blacklist_key, login}
use go_lang_domain_based_ent.Auth.Tokens.{AuthResponse, Config, access_claims, leeway}
use go_lang_domain_based_ent.External.{Env, IsJwt, IsReliable}
use go_lang_domain_based_ent.Middleware.Authentication.{abort, check_token, next_as}
use go_lang_domain_based_ent.Middleware.Authentication.Laws.{check_token_uncached}
use go_lang_domain_based_ent.Prelude.{
  String, arith, find?, if◌then◌else◌, ltb, none, some, true, ℕ, ◌*◌, ◌+◌, ◌==◌, ◌∙◌, ◌≡◌, ◌≤◌,
}
use go_lang_domain_based_ent.Schema.{User}
use go_lang_domain_based_ent.World.{World, ok}
use go_lang_domain_based_ent.Cache

module _ {E : Env} where
  token_admits :
      (cfg : Config) (user : User) (token : String) (expires_at : ℕ) (later : World E)
      → IsReliable E
      → IsJwt E
      → IsIssued E cfg user token expires_at
      → expires_at ≤ later.now + cfg.jwt_access_expiry_min * 60
      → (Cache.get (E.sha256_hex token) later.now later.cache).0 ≡ none
      → E.redis.read later.redis later.now (blacklist_key (E.sha256_hex token)) ≡ none
      → (check_token token later).0
        ≡ ok (
            if ltb later.now (expires_at + 30)
            then next_as user.id user.email
            else abort 401 "invalid or expired token")
  unfolding access_claims
  token_admits cfg user token expires_at later up jwt issued order cold clear =
      check_token_uncached up token later cold
      ∙ rw clear (
          rw (jwt.parse-sign _ token leeway later.now issued.signed)
            (ground (arith, issued.expiry)))

  -- Where Redis answers, the token of a login that succeeds opens the routes for exactly the account
  -- with the email and password of the login, which was active, until 30 seconds after the expiry that
  -- the login returned, and is refused as expired from then on. The token is not in the cache and not
  -- revoked, and the clock has not gone back.
  pub login-check_token :
      (cfg : Config) (req : LoginRequest) (device_id ip_address user_agent : String)
      (w later : World E) (r : AuthResponse)
      → IsReliable E
      → IsJwt E
      → (login cfg req device_id ip_address user_agent w).0 ≡ ok r
      → r.expires_at ≤ later.now + cfg.jwt_access_expiry_min * 60
      → (Cache.get (E.sha256_hex r.access_token) later.now later.cache).0 ≡ none
      → E.redis.read later.redis later.now (blacklist_key (E.sha256_hex r.access_token)) ≡ none
      → (user : User) × (find? (λ u. u.email == req.email) w.db.users ≡ some user)
        × (user.is_active ≡ true)
        × (E.compare_password user.password_hash req.password ≡ true)
        × ((check_token r.access_token later).0
            ≡ ok (
                if ltb later.now (r.expires_at + 30)
                then next_as user.id user.email
                else abort 401 "invalid or expired token"))
  login-check_token cfg req device_id ip_address user_agent w later r up jwt done order cold clear =
      let l = login-IsLogin cfg req device_id ip_address user_agent w r done in
      (
        l.user,
        l.account,
        l.active,
        l.password,
        token_admits cfg l.user r.access_token r.expires_at later up jwt l.issued order cold clear,
      )
