-- ===== src/Http/Routes.antt =====
-- internal/modules/*/routes.go and the health route of internal/router/router.go: the routes with
-- the handlers in front of them, and how a request of a route is served.
use go_lang_domain_based_ent.Auth.Tokens.{Config}
use go_lang_domain_based_ent.External.{Env}
use go_lang_domain_based_ent.Http.{Gin, Request, Response, error_text, of_health}
use go_lang_domain_based_ent.Http.AdminHandler.{
  handle_assign_permissions, handle_assign_roles, handle_create_permission, handle_create_role,
  handle_create_user, handle_delete_permission, handle_delete_role, handle_get_user,
  handle_list_permissions, handle_list_roles, handle_list_users, handle_update_permission,
  handle_update_role,
}
use go_lang_domain_based_ent.Http.AuthHandler.{
  handle_login, handle_logout, handle_refresh_token, handle_register,
}
use go_lang_domain_based_ent.Http.IncidentHandler.{handle_create_incident, handle_list_incidents}
use go_lang_domain_based_ent.Middleware.{Verdict, abort, next, next_as}
use go_lang_domain_based_ent.Middleware.Authentication.{auth_required}
use go_lang_domain_based_ent.Middleware.Permission.{Identity, absent, require_permission, uuid}
use go_lang_domain_based_ent.Prelude.{List, String, [], ◌∷◌}
use go_lang_domain_based_ent.World.{Action, pure, ◌>>=◌}

-- A route is named by its handler.
pub data Route : Type 0 where
  health : Route
  register login refresh_token logout : Route
  list_users get_user create_user assign_roles : Route
  list_roles create_role update_role delete_role assign_permissions : Route
  list_permissions create_permission update_permission delete_permission : Route
  create_incident list_incidents : Route

abbrev pub pattern : Route → String × String
pattern health = ("GET", "/health")
pattern register = ("POST", "/api/v1/auth/register")
pattern login = ("POST", "/api/v1/auth/login")
pattern refresh_token = ("POST", "/api/v1/auth/refresh")
pattern logout = ("POST", "/api/v1/auth/logout")
pattern list_users = ("GET", "/api/v1/admin/users")
pattern get_user = ("GET", "/api/v1/admin/users/:id")
pattern create_user = ("POST", "/api/v1/admin/users")
pattern assign_roles = ("PUT", "/api/v1/admin/users/:id/roles")
pattern list_roles = ("GET", "/api/v1/admin/roles")
pattern create_role = ("POST", "/api/v1/admin/roles")
pattern update_role = ("PUT", "/api/v1/admin/roles/:id")
pattern delete_role = ("DELETE", "/api/v1/admin/roles/:id")
pattern assign_permissions = ("PUT", "/api/v1/admin/roles/:id/permissions")
pattern list_permissions = ("GET", "/api/v1/admin/permissions")
pattern create_permission = ("POST", "/api/v1/admin/permissions")
pattern update_permission = ("PUT", "/api/v1/admin/permissions/:id")
pattern delete_permission = ("DELETE", "/api/v1/admin/permissions/:id")
pattern create_incident = ("POST", "/api/v1/incidents/")
pattern list_incidents = ("GET", "/api/v1/incidents/")

-- `AuthRequired`, and `RequirePermission` with an action and a resource.
pub data Guard : Type 0 where
  authenticated : Guard
  permitted : String → String → Guard

abbrev pub admin_guards : List Guard
admin_guards = authenticated ∷ permitted "manage" "admin" ∷ []

unfoldable pub guards : Route → List Guard
guards health = []
guards register = []
guards login = []
guards refresh_token = []
guards logout = authenticated ∷ []
guards create_incident = authenticated ∷ permitted "create" "incident" ∷ []
guards list_incidents = authenticated ∷ permitted "read" "incident" ∷ []
guards _ = admin_guards

module _ {E : Env} where
  unfoldable pub run_guard : Guard → Request → Identity → Action E Verdict
  run_guard authenticated req user = auth_required (req.header "Authorization")
  run_guard (permitted action resource) req user = require_permission action resource user

  -- Whether the request goes on, and with which identity in its context.
  unfoldable pub after_verdict :
      Verdict → Identity → (Identity → Action E Response) → Action E Response
  after_verdict next user rest = rest user
  after_verdict (next_as user_id email) user rest = rest (uuid user_id)
  after_verdict (abort status text) user rest =
      pure (record { status = status; reply = error_text text })

  unfoldable pub run_guards :
      List Guard → Request → (Identity → Action E Response) → Identity → Action E Response
  run_guards [] req handler user = handler user
  run_guards (g ∷ gs) req handler user = do
    verdict ← run_guard g req user
    after_verdict verdict user (run_guards gs req handler)

  unfoldable pub handle : Gin → Config → Route → Request → Identity → Action E Response
  handle G cfg health req user = pure (record { status = 200; reply = of_health })
  handle G cfg register req user = handle_register G cfg req
  handle G cfg login req user = handle_login G cfg req
  handle G cfg refresh_token req user = handle_refresh_token G cfg req
  handle G cfg logout req user = handle_logout G cfg req
  handle G cfg list_users req user = handle_list_users G req
  handle G cfg get_user req user = handle_get_user G req
  handle G cfg create_user req user = handle_create_user G req
  handle G cfg assign_roles req user = handle_assign_roles G req
  handle G cfg list_roles req user = handle_list_roles G req
  handle G cfg create_role req user = handle_create_role G req
  handle G cfg update_role req user = handle_update_role G req
  handle G cfg delete_role req user = handle_delete_role G req
  handle G cfg assign_permissions req user = handle_assign_permissions G req
  handle G cfg list_permissions req user = handle_list_permissions G req
  handle G cfg create_permission req user = handle_create_permission G req
  handle G cfg update_permission req user = handle_update_permission G req
  handle G cfg delete_permission req user = handle_delete_permission G req
  handle G cfg create_incident req user = handle_create_incident G req user
  handle G cfg list_incidents req user = handle_list_incidents G req

  -- A request of a route, from the handlers that its group and the route itself put in front.
  unfoldable pub serve : Gin → Config → Route → Request → Action E Response
  serve G cfg route req = run_guards (guards route) req (handle G cfg route req) absent
