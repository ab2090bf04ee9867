-- ===== src/Admin/Service/Roles.antt =====
-- internal/modules/admin/service/admin_service.go, "Role management".
use go_lang_domain_based_ent.Admin.Repository.Roles.{
  count_roles, create_role_row, delete_role_row, find_all_roles, find_role_by_id, get_permissions,
  set_permissions, update_role_row,
}
use go_lang_domain_based_ent.Auth.Service.{row_or_nil}
use go_lang_domain_based_ent.External.{Env}
use go_lang_domain_based_ent.Prelude.{
  List, Option, String, [], if◌then◌else◌, map, none, some, ℕ, ℤ, ◌==◌, ◌∷◌,
}
use go_lang_domain_based_ent.Schema.{Permission, Role}
use go_lang_domain_based_ent.World.{Action, attempt, message, pure, sql, throw, wrap, ◌>>=◌, ◌>>◌}
use go_lang_domain_based_ent.World.Commands.{or_zero}

pub record PermissionInfo : Type 0 where
  pub id : String
  pub name : String
  pub action : String
  pub resource : String
  pub description : String

pub record RoleResponse : Type 0 where
  pub id : String
  pub name : String
  pub category : String
  pub description : String
  pub permissions : List PermissionInfo
  pub created_at : ℕ

-- `CreateRoleRequest` and `UpdateRoleRequest` have the same fields.
pub record RoleRequest : Type 0 where
  pub name : String
  pub category : String
  pub description : String

abbrev pub permission_info : Permission → PermissionInfo
permission_info p = record {
  id = p.id;
  name = p.name;
  action = p.action;
  resource = p.resource;
  description = p.description;
}

abbrev pub role_response : Role → List Permission → RoleResponse
role_response r perms = record {
  id = r.id;
  name = r.name;
  category = r.category;
  description = r.description;
  permissions = map permission_info perms;
  created_at = r.created_at;
}

unfoldable pub roles_with_permissions : {E : Env} → List Role → Action E (List RoleResponse)
roles_with_permissions [] = pure []
roles_with_permissions (r ∷ rs) = do
  perms ← attempt (get_permissions r.id)
  rest ← roles_with_permissions rs
  pure (role_response r (or_zero [] perms) ∷ rest)

unfoldable pub list_roles : {E : Env} → ℤ → ℤ → Action E (List RoleResponse × ℕ)
list_roles limit offset = do
  roles ← find_all_roles limit offset
  total ← count_roles
  resp ← roles_with_permissions roles
  pure (resp, total)

-- The value, or another one where the text is empty.
abbrev pub or_else : String → String → String
or_else text other = if text == "" then other else text

unfoldable pub create_role : {E : Env} → RoleRequest → Action E RoleResponse
create_role req = do
  role ← wrap "failed to create role" (
      create_role_row (record {
        id = "";
        name = req.name;
        category = or_else req.category "general";
        description = req.description;
        created_at = 0;
      }))
  pure (role_response role [])

abbrev pub changed_role : RoleRequest → Role → Role
changed_role req role = record role {
  name = or_else req.name role.name;
  category = or_else req.category role.category;
  description = or_else req.description role.description;
}

unfoldable pub update_found_role :
    {E : Env} → String → RoleRequest → Option Role → Action E RoleResponse
update_found_role id req none = throw (message "role not found")
update_found_role {E} id req (some role) = do
  sql (update_role_row E id (changed_role req role))
  pure (role_response (changed_role req role) [])

unfoldable pub update_role : {E : Env} → String → RoleRequest → Action E RoleResponse
update_role id req = do
  found ← attempt (find_role_by_id id)
  update_found_role id req (row_or_nil found)

unfoldable pub delete_role : {E : Env} → String → Action E (Unit {0})
delete_role id = delete_role_row id

unfoldable pub assign_permissions : {E : Env} → String → List String → Action E (Unit {0})
assign_permissions role_id permission_ids = set_permissions role_id permission_ids
