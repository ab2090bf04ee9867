-- ===== src/Http/Guards.antt =====
-- The guards in front of a handler: what they decide, and that they leave the tables alone.
use go_lang_domain_based_ent.Auth.Tokens.{validate_access_token}
use go_lang_domain_based_ent.External.{AccessClaims, Env}
use go_lang_domain_based_ent.Http.{Request, Response, error_text, ok}
use go_lang_domain_based_ent.Http.Routes.{
  Guard, after_verdict, authenticated, permitted, run_guard, run_guards,
}
use go_lang_domain_based_ent.Middleware.{Verdict, abort, next, next_as}
use go_lang_domain_based_ent.Middleware.Authentication.{
  auth_required, cache_get, cache_set, check_blacklist, check_cached, check_claims, check_token,
}
use go_lang_domain_based_ent.Middleware.Permission.{
  Identity, absent, other, query_permission, require_permission, uuid,
}
use go_lang_domain_based_ent.Prelude.{
  List, Option, String, inl, inr, none, refl, some, ℕ, ◌∷◌, ◌≡◌, ◌⊎◌,
}
use go_lang_domain_based_ent.Schema.{Tables}
use go_lang_domain_based_ent.World.{Action, World, ◌>>=◌}
use go_lang_domain_based_ent.World.Actions.{>>=-of_ok, Keeps, Keeps-sql, keeps_rules}
use go_lang_domain_based_ent.World.Commands.{exists}
use go_lang_domain_based_ent.World.Returns.{
  Returns, Returns-after, Returns-attempt, Returns-if, Returns-pure, returns_rules,
}

-- `AuthRequired` sets an identity or aborts with 401.
abbrev pub IsAuthVerdict : Verdict → Type 0
IsAuthVerdict next = ⊥
IsAuthVerdict (next_as user_id email) = Unit
IsAuthVerdict (abort status text) = status ≡ 401

-- `RequirePermission` lets a known user pass, or aborts with 401 or 403.
abbrev pub IsPermissionVerdict : Verdict → Type 0
IsPermissionVerdict next = Unit
IsPermissionVerdict (next_as user_id email) = ⊥
IsPermissionVerdict (abort status text) = (status ≡ 401) ⊎ (status ≡ 403)

module _ {E : Env} where
  cache_get-Returns : (key : String) → Returns {E = E} (λ c. Unit {0}) (cache_get key)
  unfolding cache_get
  cache_get-Returns key = record { at = λ w. (_, refl, tt) }

  cache_set-Returns :
      (key : String) (claims : AccessClaims)
      → Returns {E = E} (λ c. Unit {0}) (cache_set key claims)
  unfolding cache_set
  cache_set-Returns key claims = record { at = λ w. (tt, refl, tt) }

  check_blacklist-Returns :
      (hash : String) (claims : AccessClaims)
      → Returns {E = E} IsAuthVerdict (check_blacklist hash claims)
  unfolding check_blacklist
  check_blacklist-Returns hash claims = search (returns_rules, cache_set-Returns)

  check_claims-Returns :
      (hash : String) (claims : Option AccessClaims)
      → Returns {E = E} IsAuthVerdict (check_claims hash claims)
  unfolding check_claims
  check_claims-Returns hash none = search returns_rules
  check_claims-Returns hash (some claims) = check_blacklist-Returns hash claims

  validate-Returns :
      (token : String) → Returns {E = E} (λ c. Unit {0}) (validate_access_token token)
  unfolding validate_access_token
  validate-Returns token = search returns_rules

  check_cached-Returns :
      (token hash : String) (cached : Option AccessClaims)
      → Returns {E = E} IsAuthVerdict (check_cached token hash cached)
  unfolding check_cached
  check_cached-Returns token hash none =
      search (returns_rules, validate-Returns, check_claims-Returns)
  check_cached-Returns token hash (some claims) = search returns_rules

  pub auth_required-Returns :
      (header : String) → Returns {E = E} IsAuthVerdict (auth_required header)
  unfolding auth_required check_token
  auth_required-Returns header = search (returns_rules, cache_get-Returns, check_cached-Returns)

  pub require_permission-Returns :
      (action resource : String) (user : Identity)
      → Returns {E = E} IsPermissionVerdict (require_permission action resource user)
  unfolding require_permission
  require_permission-Returns action resource absent = Returns-pure _ (inl refl)
  require_permission-Returns action resource other = Returns-pure _ (inl refl)
  require_permission-Returns action resource (uuid user_id) =
      Returns-after _ _ (Returns-attempt _)
        (λ allowed. Returns-if _ _ _ (Returns-pure next tt) (Returns-pure _ (inr refl)))

  module _ {P : Tables → Type 0} where
    cache_get-Keeps : (key : String) → Keeps {E = E} P (cache_get key)
    unfolding cache_get
    cache_get-Keeps key = record { at = λ w h. h }

    cache_set-Keeps :
        (key : String) (claims : AccessClaims) → Keeps {E = E} P (cache_set key claims)
    unfolding cache_set
    cache_set-Keeps key claims = record { at = λ w h. h }

    exists-Keeps : (key : String) → Keeps {E = E} P (exists key)
    unfolding exists
    exists-Keeps key = search keeps_rules

    validate-Keeps : (token : String) → Keeps {E = E} P (validate_access_token token)
    unfolding validate_access_token
    validate-Keeps token = search keeps_rules

    check_claims-Keeps :
        (hash : String) (claims : Option AccessClaims) → Keeps {E = E} P (check_claims hash claims)
    unfolding check_claims check_blacklist
    check_claims-Keeps hash none = search keeps_rules
    check_claims-Keeps hash (some claims) = search (keeps_rules, cache_set-Keeps, exists-Keeps)

    check_cached-Keeps :
        (token hash : String) (cached : Option AccessClaims)
        → Keeps {E = E} P (check_cached token hash cached)
    unfolding check_cached
    check_cached-Keeps token hash none = search (keeps_rules, validate-Keeps, check_claims-Keeps)
    check_cached-Keeps token hash (some claims) = search keeps_rules

    pub auth_required-Keeps : (header : String) → Keeps {E = E} P (auth_required header)
    unfolding auth_required check_token
    auth_required-Keeps header = search (keeps_rules, cache_get-Keeps, check_cached-Keeps)

    query_permission-Keeps :
        (user_id action resource : String)
        → Keeps {E = E} P (query_permission user_id action resource)
    unfolding query_permission
    query_permission-Keeps user_id action resource = Keeps-sql _ (λ db h. h)

    pub require_permission-Keeps :
        (action resource : String) (user : Identity)
        → Keeps {E = E} P (require_permission action resource user)
    unfolding require_permission
    require_permission-Keeps action resource absent = search keeps_rules
    require_permission-Keeps action resource other = search keeps_rules
    require_permission-Keeps action resource (uuid user_id) =
        search (keeps_rules, query_permission-Keeps)

    pub run_guard-Keeps :
        (g : Guard) (req : Request) (user : Identity) → Keeps {E = E} P (run_guard g req user)
    unfolding run_guard
    run_guard-Keeps authenticated req user = auth_required-Keeps _
    run_guard-Keeps (permitted action resource) req user = require_permission-Keeps _ _ user

  -- What a guard's verdict does to the handlers behind it.
  module _ (g : Guard) (gs : List Guard) (req : Request) (handler : Identity → Action E Response)
      (user : Identity) (w : World E) where
    pub run_guards-abort :
        (status : ℕ) (text : String)
        → (run_guard g req user w).0 ≡ ok (abort status text)
        → run_guards (g ∷ gs) req handler user w
          ≡ (ok (record { status = status; reply = error_text text }), (run_guard g req user w).1)
    unfolding run_guards after_verdict ◌>>=◌
    run_guards-abort status text e = >>=-of_ok (run_guard g req user) _ w e

    pub run_guards-next :
        (run_guard g req user w).0 ≡ ok next
        → run_guards (g ∷ gs) req handler user w
          ≡ run_guards gs req handler user (run_guard g req user w).1
    unfolding run_guards after_verdict
    run_guards-next e = >>=-of_ok (run_guard g req user) _ w e

    pub run_guards-next_as :
        (user_id email : String)
        → (run_guard g req user w).0 ≡ ok (next_as user_id email)
        → run_guards (g ∷ gs) req handler user w
          ≡ run_guards gs req handler (uuid user_id) (run_guard g req user w).1
    unfolding run_guards after_verdict
    run_guards-next_as user_id email e = >>=-of_ok (run_guard g req user) _ w e

    -- A guard changes no table.
    pub run_guard_db : (run_guard g req user w).1.db ≡ w.db
    run_guard_db = (run_guard-Keeps {P = λ db. db ≡ w.db} g req user).at w refl
