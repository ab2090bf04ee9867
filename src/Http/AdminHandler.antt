-- ===== src/Http/AdminHandler.antt =====
-- internal/modules/admin/handler/admin_handler.go
use go_lang_domain_based_ent.Admin.Service.Permissions.{
  create_permission, delete_permission, list_permissions, update_permission,
}
use go_lang_domain_based_ent.Admin.Service.Roles.{
  assign_permissions, create_role, delete_role, list_roles, update_role,
}
use go_lang_domain_based_ent.Admin.Service.Users.{
  admin_create_user, assign_roles, get_user, list_users,
}
use go_lang_domain_based_ent.External.{Env}
use go_lang_domain_based_ent.Http.{
  Gin, Request, Response, answer, limit_of, note, nothing, of_permission, of_permissions, of_role,
  of_roles, of_user, of_users, offset_of, with_body, with_id,
}
use go_lang_domain_based_ent.World.{Action}

module _ {E : Env} (G : Gin) (req : Request) where
  unfoldable pub handle_list_users : Action E Response
  handle_list_users =
      answer 200 (λ (rows, total). of_users rows total (limit_of G req) (offset_of G req)) 500
        (list_users (limit_of G req) (offset_of G req))

  unfoldable pub handle_get_user : Action E Response
  handle_get_user =
      with_id "invalid user id" (E.parse_uuid req.id) (λ id. answer 200 of_user 404 (get_user id))

  unfoldable pub handle_create_user : Action E Response
  handle_create_user =
      with_body (G.bind_create_user req.body)
        (λ dto. answer 201 of_user 409 (admin_create_user dto))

  unfoldable pub handle_assign_roles : Action E Response
  handle_assign_roles = with_id "invalid user id" (E.parse_uuid req.id) (λ id.
      with_body (G.bind_role_ids req.body)
        (λ role_ids. answer 200 (λ done. note "roles assigned") 500 (assign_roles id role_ids)))

  unfoldable pub handle_list_roles : Action E Response
  handle_list_roles =
      answer 200 (λ (rows, total). of_roles rows total (limit_of G req) (offset_of G req)) 500
        (list_roles (limit_of G req) (offset_of G req))

  unfoldable pub handle_create_role : Action E Response
  handle_create_role =
      with_body (G.bind_create_role req.body) (λ dto. answer 201 of_role 409 (create_role dto))

  unfoldable pub handle_update_role : Action E Response
  handle_update_role = with_id "invalid role id" (E.parse_uuid req.id) (λ id.
      with_body (G.bind_update_role req.body) (λ dto. answer 200 of_role 404 (update_role id dto)))

  unfoldable pub handle_delete_role : Action E Response
  handle_delete_role =
      with_id "invalid role id" (E.parse_uuid req.id)
        (λ id. answer 204 (λ done. nothing) 500 (delete_role id))

  unfoldable pub handle_assign_permissions : Action E Response
  handle_assign_permissions = with_id "invalid role id" (E.parse_uuid req.id) (λ id.
      with_body (G.bind_permission_ids req.body) (λ permission_ids.
        answer 200 (λ done. note "permissions assigned") 500
          (assign_permissions id permission_ids)))

  unfoldable pub handle_list_permissions : Action E Response
  handle_list_permissions =
      answer 200 (λ (rows, total). of_permissions rows total (limit_of G req) (offset_of G req)) 500
        (list_permissions (limit_of G req) (offset_of G req))

  unfoldable pub handle_create_permission : Action E Response
  handle_create_permission =
      with_body (G.bind_create_permission req.body)
        (λ dto. answer 201 of_permission 409 (create_permission dto))

  unfoldable pub handle_update_permission : Action E Response
  handle_update_permission = with_id "invalid permission id" (E.parse_uuid req.id) (λ id.
      with_body (G.bind_update_permission req.body)
        (λ dto. answer 200 of_permission 404 (update_permission id dto)))

  unfoldable pub handle_delete_permission : Action E Response
  handle_delete_permission =
      with_id "invalid permission id" (E.parse_uuid req.id)
        (λ id. answer 204 (λ done. nothing) 500 (delete_permission id))
