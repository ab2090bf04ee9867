-- ===== src/Admin/Service/Permissions.antt =====
-- internal/modules/admin/service/admin_service.go, "Permission management". A `PermissionResponse`
-- has the fields of a permission, and is one here.
use go_lang_domain_based_ent.Admin.Repository.Permissions.{
  count_permissions, create_permission_row, delete_permission_row, find_all_permissions,
  find_permission_by_id, update_permission_row,
}
use go_lang_domain_based_ent.Admin.Service.Roles.{or_else}
use go_lang_domain_based_ent.Auth.Service.{row_or_nil}
use go_lang_domain_based_ent.External.{Env}
use go_lang_domain_based_ent.Prelude.{List, Option, String, none, some, ℕ, ℤ}
use go_lang_domain_based_ent.Schema.{Permission}
use go_lang_domain_based_ent.World.{Action, attempt, message, pure, sql, throw, wrap, ◌>>=◌, ◌>>◌}

-- `CreatePermissionRequest` and `UpdatePermissionRequest` have the same fields.
pub record PermissionRequest : Type 0 where
  pub name : String
  pub action : String
  pub resource : String
  pub description : String

unfoldable pub list_permissions : {E : Env} → ℤ → ℤ → Action E (List Permission × ℕ)
list_permissions limit offset = do
  perms ← find_all_permissions limit offset
  total ← count_permissions
  pure (perms, total)

unfoldable pub create_permission : {E : Env} → PermissionRequest → Action E Permission
create_permission req = wrap "failed to create permission" (
    create_permission_row (record {
      id = "";
      name = req.name;
      action = req.action;
      resource = req.resource;
      description = req.description;
      created_at = 0;
    }))

abbrev pub changed_permission : PermissionRequest → Permission → Permission
changed_permission req p = record p {
  name = or_else req.name p.name;
  action = or_else req.action p.action;
  resource = or_else req.resource p.resource;
  description = or_else req.description p.description;
}

unfoldable pub update_found_permission :
    {E : Env} → String → PermissionRequest → Option Permission → Action E Permission
update_found_permission id req none = throw (message "permission not found")
update_found_permission {E} id req (some p) = do
  sql (update_permission_row E id (changed_permission req p))
  pure (changed_permission req p)

unfoldable pub update_permission : {E : Env} → String → PermissionRequest → Action E Permission
update_permission id req = do
  found ← attempt (find_permission_by_id id)
  update_found_permission id req (row_or_nil found)

unfoldable pub delete_permission : {E : Env} → String → Action E (Unit {0})
delete_permission id = delete_permission_row id
