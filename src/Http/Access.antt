-- ===== src/Http/Access.antt =====
-- Who reaches a handler that stands behind `AuthRequired` and `RequirePermission`.
use text.Mathlib.Text.{starts_with}
use go_lang_domain_based_ent.Auth.Tokens.{Config}
use go_lang_domain_based_ent.External.{Env}
use go_lang_domain_based_ent.Http.{Gin, Request, Response, error_text}
use go_lang_domain_based_ent.Http.Guards.{
  IsAuthVerdict, IsPermissionVerdict, auth_required-Returns, require_permission-Returns,
  run_guard_db, run_guards-abort, run_guards-next_as,
}
use go_lang_domain_based_ent.Http.Routes.{
  Guard, Route, admin_guards, authenticated, guards, handle, health, pattern, permitted, run_guard,
  run_guards, serve,
}
use go_lang_domain_based_ent.Middleware.{Verdict, abort, next, next_as}
use go_lang_domain_based_ent.Middleware.Authentication.{auth_required, trim_bearer}
use go_lang_domain_based_ent.Middleware.Authentication.Cached.{Admits, auth_required-Admits}
use go_lang_domain_based_ent.Middleware.Permission.{Identity, absent, require_permission, uuid}
use go_lang_domain_based_ent.Middleware.Permission.Laws.{Grant, require_permission-Grant}
use go_lang_domain_based_ent.Middleware.RateLimiter.Bursts.{passed}
use go_lang_domain_based_ent.Prelude.{
  List, String, [], inl, inr, refl, subst, true, ℕ, ◌∙◌, ◌∷◌, ◌≡◌, ◌⊎◌,
}
use go_lang_domain_based_ent.World.{Action, Result, World, ok}

-- An answer 401 or 403, and no table is changed.
pub record IsRefused {E : Env} (w : World E) (r : Result Response × World E) : Type 0 where
  pub response : Response
  pub answered : r.0 ≡ ok response
  pub status : (response.status ≡ 401) ⊎ (response.status ≡ 403)
  pub same : r.1.db ≡ w.db

-- A user whom the token of the request names, and who has a grant.
pub record IsAllowed {E : Env} (action resource : String) (req : Request) (w : World E)
    : Type 0 where
  pub user_id : String
  pub email : String
  pub admits : Admits (trim_bearer (req.header "Authorization")) user_id email w
  pub grant : Grant user_id action resource w.db

module _ {E : Env} (req : Request) where
  refused :
      (g : Guard) (gs : List Guard) (handler : Identity → Action E Response) (user : Identity)
      (w : World E) (status : ℕ) (text : String)
      → (run_guard g req user w).0 ≡ ok (abort status text)
      → (status ≡ 401) ⊎ (status ≡ 403)
      → IsRefused w (run_guards (g ∷ gs) req handler user w)
  refused g gs handler user w status text e h =
      rw (run_guards-abort g gs req handler user w status text e) (record {
        response = record { status = status; reply = error_text text };
        answered = refl;
        status = h;
        same = run_guard_db g gs req handler user w;
      })

  module _ (action resource : String) (handler : Identity → Action E Response) where
    -- The second guard, for the verdict that it returns.
    at_permission :
        (user : Identity) (w : World E) (v : Verdict)
        → (require_permission action resource user w).0 ≡ ok v
        → IsPermissionVerdict v
        → IsRefused w (run_guards (permitted action resource ∷ []) req handler user w)
          ⊎ ((require_permission action resource user w).0 ≡ ok next)
    unfolding run_guard
    at_permission user w next e h = inr e
    at_permission user w (next_as user_id email) e h = absurd h
    at_permission user w (abort status text) e h =
        inl (refused (permitted action resource) [] handler user w status text e h)

    -- The first guard.
    at_authentication :
        (w : World E) (v : Verdict)
        → (auth_required (req.header "Authorization") w).0 ≡ ok v
        → IsAuthVerdict v
        → IsRefused w
            (run_guards (authenticated ∷ permitted action resource ∷ []) req handler absent w)
          ⊎ IsAllowed action resource req w
    unfolding run_guard
    at_authentication w next e h = absurd h
    at_authentication w (abort status text) e h =
        inl (refused authenticated _ handler absent w status text e (inl h))
    at_authentication w (next_as user_id email) e h =
        let w' = (auth_required (req.header "Authorization") w).1 in
        let kept = run_guard_db authenticated [] req handler absent w in
        let (v, e', h') = (require_permission-Returns action resource (uuid user_id)).at w' in
        elim (at_permission (uuid user_id) w' v e' h') [
          | inl r ↦ inl (
              rw
                (run_guards-next_as authenticated (permitted action resource ∷ []) req handler
                  absent w user_id email e)
                (record {
                  response = r.response;
                  answered = r.answered;
                  status = r.status;
                  same = r.same ∙ kept;
                }))
          | inr passed ↦ inr (record {
            user_id = user_id;
            email = email;
            admits = (auth_required-Admits (req.header "Authorization") user_id email w e).1;
            grant =
                subst (Grant user_id action resource) kept
                  (require_permission-Grant action resource user_id w' passed);
          })
        ]

-- A request of a route behind both guards is refused with 401 or 403 before any table changes, or
-- its token names a user who has the permission of the route by the tables of that moment.
pub serve_guarded :
    {E : Env} (G : Gin) (cfg : Config) (route : Route) (action resource : String) (req : Request)
    (w : World E)
    → guards route ≡ authenticated ∷ permitted action resource ∷ []
    → IsRefused w (serve G cfg route req w) ⊎ IsAllowed action resource req w
unfolding serve
serve_guarded G cfg route action resource req w behind =
    let (v, e, h) = (auth_required-Returns (req.header "Authorization")).at w in
    rw behind (at_authentication req action resource (handle G cfg route req) w v e h)

-- The path of the route starts with this text.
abbrev pub IsUnder : String → Route → Type 0
IsUnder prefix route = starts_with (pattern route).1 prefix ≡ true

-- The routes under /api/v1/admin are behind `AuthRequired` and the permission to manage admin, those
-- under /api/v1/incidents behind `AuthRequired` and a permission on incidents, and only the health
-- route and routes under /api/v1/auth have no guard.
guards_of_paths :
    (route : Route)
    → (IsUnder "/api/v1/admin/" route → guards route ≡ admin_guards)
      × (IsUnder "/api/v1/incidents/" route
          → (action : String) × (guards route ≡ authenticated ∷ permitted action "incident" ∷ []))
      × (guards route ≡ [] → (route ≡ health) ⊎ IsUnder "/api/v1/auth/" route)
unfolding guards
guards_of_paths health = (λ h. cc, λ h. cc, λ h. inl refl)
guards_of_paths Route.register = (λ h. cc, λ h. cc, λ h. inr refl)
guards_of_paths Route.login = (λ h. cc, λ h. cc, λ h. inr refl)
guards_of_paths Route.refresh_token = (λ h. cc, λ h. cc, λ h. inr refl)
guards_of_paths Route.logout = (λ h. cc, λ h. cc, λ h. cc)
guards_of_paths Route.list_users = (λ h. refl, λ h. cc, λ h. cc)
guards_of_paths Route.get_user = (λ h. refl, λ h. cc, λ h. cc)
guards_of_paths Route.create_user = (λ h. refl, λ h. cc, λ h. cc)
guards_of_paths Route.assign_roles = (λ h. refl, λ h. cc, λ h. cc)
guards_of_paths Route.list_roles = (λ h. refl, λ h. cc, λ h. cc)
guards_of_paths Route.create_role = (λ h. refl, λ h. cc, λ h. cc)
guards_of_paths Route.update_role = (λ h. refl, λ h. cc, λ h. cc)
guards_of_paths Route.delete_role = (λ h. refl, λ h. cc, λ h. cc)
guards_of_paths Route.assign_permissions = (λ h. refl, λ h. cc, λ h. cc)
guards_of_paths Route.list_permissions = (λ h. refl, λ h. cc, λ h. cc)
guards_of_paths Route.create_permission = (λ h. refl, λ h. cc, λ h. cc)
guards_of_paths Route.update_permission = (λ h. refl, λ h. cc, λ h. cc)
guards_of_paths Route.delete_permission = (λ h. refl, λ h. cc, λ h. cc)
guards_of_paths Route.create_incident = (λ h. cc, λ h. ("create", refl), λ h. cc)
guards_of_paths Route.list_incidents = (λ h. cc, λ h. ("read", refl), λ h. cc)
