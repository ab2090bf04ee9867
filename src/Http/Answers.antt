-- ===== src/Http/Answers.antt =====
-- Every request of a route is answered, with one of the statuses that its route has.
use go_lang_domain_based_ent.Auth.Tokens.{Config}
use go_lang_domain_based_ent.External.{Env}
use go_lang_domain_based_ent.Http.{Gin, Request}
use go_lang_domain_based_ent.Http.AdminHandler.{
  handle_assign_permissions, handle_assign_roles, handle_create_permission, handle_create_role,
  handle_create_user, handle_delete_permission, handle_delete_role, handle_get_user,
  handle_list_permissions, handle_list_roles, handle_list_users, handle_update_permission,
  handle_update_role,
}
use go_lang_domain_based_ent.Http.AuthHandler.{
  handle_login, handle_logout, handle_refresh_token, handle_register,
}
use go_lang_domain_based_ent.Http.IncidentHandler.{
  handle_create_incident, handle_list_incidents, with_user,
}
use go_lang_domain_based_ent.Http.Routes.{Route, guards, handle, health, serve}
use go_lang_domain_based_ent.Http.Statuses.{
  Answers, Answers-authenticated, Answers-open, answers_rules, behind_permission, statuses,
}
use go_lang_domain_based_ent.Middleware.Permission.{absent, uuid}
use go_lang_domain_based_ent.Prelude.{String, [], refl}
use go_lang_domain_based_ent.World.Returns.{Returns-pure}

module _ {E : Env} where
  module _ (G : Gin) (cfg : Config) (req : Request) where
    -- What the handler of a route answers, to a user.
    handle-Answers :
        (route : Route) (user_id : String)
        → Answers (statuses route) (handle {E = E} G cfg route req (uuid user_id))
    unfolding handle handle_assign_permissions handle_assign_roles handle_create_incident
        handle_create_permission handle_create_role handle_create_user handle_delete_permission
        handle_delete_role handle_get_user handle_list_incidents handle_list_permissions
        handle_list_roles handle_list_users handle_login handle_logout handle_refresh_token
        handle_register handle_update_permission handle_update_role with_user
    handle-Answers health user_id = record { returns = Returns-pure _ refl }
    handle-Answers Route.register user_id = search answers_rules
    handle-Answers Route.login user_id = search answers_rules
    handle-Answers Route.refresh_token user_id = search answers_rules
    handle-Answers Route.logout user_id = search answers_rules
    handle-Answers Route.list_users user_id = search answers_rules
    handle-Answers Route.get_user user_id = search answers_rules
    handle-Answers Route.create_user user_id = search answers_rules
    handle-Answers Route.assign_roles user_id = search answers_rules
    handle-Answers Route.list_roles user_id = search answers_rules
    handle-Answers Route.create_role user_id = search answers_rules
    handle-Answers Route.update_role user_id = search answers_rules
    handle-Answers Route.delete_role user_id = search answers_rules
    handle-Answers Route.assign_permissions user_id = search answers_rules
    handle-Answers Route.list_permissions user_id = search answers_rules
    handle-Answers Route.create_permission user_id = search answers_rules
    handle-Answers Route.update_permission user_id = search answers_rules
    handle-Answers Route.delete_permission user_id = search answers_rules
    handle-Answers Route.create_incident user_id = search answers_rules
    handle-Answers Route.list_incidents user_id = search answers_rules

    -- Every request of a route, in every state, is answered, with a status of the route.
    pub serve-Answers : (route : Route) → Answers (statuses route) (serve {E = E} G cfg route req)
    unfolding serve guards handle
    serve-Answers Route.register = Answers-open req _ absent (handle-Answers Route.register "")
    serve-Answers Route.login = Answers-open req _ absent (handle-Answers Route.login "")
    serve-Answers Route.refresh_token =
        Answers-open req _ absent (handle-Answers Route.refresh_token "")
    serve-Answers Route.logout =
        Answers-authenticated req _ [] absent refl
          (λ user_id. Answers-open req _ (uuid user_id) (handle-Answers Route.logout user_id))
    serve-Answers Route.list_users =
        behind_permission req _ _ _ refl refl (handle-Answers Route.list_users)
    serve-Answers Route.get_user =
        behind_permission req _ _ _ refl refl (handle-Answers Route.get_user)
    serve-Answers Route.create_user =
        behind_permission req _ _ _ refl refl (handle-Answers Route.create_user)
    serve-Answers Route.assign_roles =
        behind_permission req _ _ _ refl refl (handle-Answers Route.assign_roles)
    serve-Answers Route.list_roles =
        behind_permission req _ _ _ refl refl (handle-Answers Route.list_roles)
    serve-Answers Route.create_role =
        behind_permission req _ _ _ refl refl (handle-Answers Route.create_role)
    serve-Answers Route.update_role =
        behind_permission req _ _ _ refl refl (handle-Answers Route.update_role)
    serve-Answers Route.delete_role =
        behind_permission req _ _ _ refl refl (handle-Answers Route.delete_role)
    serve-Answers Route.assign_permissions =
        behind_permission req _ _ _ refl refl (handle-Answers Route.assign_permissions)
    serve-Answers Route.list_permissions =
        behind_permission req _ _ _ refl refl (handle-Answers Route.list_permissions)
    serve-Answers Route.create_permission =
        behind_permission req _ _ _ refl refl (handle-Answers Route.create_permission)
    serve-Answers Route.update_permission =
        behind_permission req _ _ _ refl refl (handle-Answers Route.update_permission)
    serve-Answers Route.delete_permission =
        behind_permission req _ _ _ refl refl (handle-Answers Route.delete_permission)
    serve-Answers Route.create_incident =
        behind_permission req _ _ _ refl refl (handle-Answers Route.create_incident)
    serve-Answers Route.list_incidents =
        behind_permission req _ _ _ refl refl (handle-Answers Route.list_incidents)
    serve-Answers health = Answers-open req _ absent (handle-Answers health "")
