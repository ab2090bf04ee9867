-- ===== src/Admin/Service/Seed.antt =====
-- internal/modules/admin/service/admin_service.go: `SeedDefaultAdmin`. An error is logged and ends
-- the function, which has no result.
use go_lang_domain_based_ent.Admin.Repository.Permissions.{create_permission_row}
use go_lang_domain_based_ent.Admin.Repository.Roles.{
  create_role_row, find_role_by_name, set_permissions,
}
use go_lang_domain_based_ent.Admin.Repository.Users.{assign_role}
use go_lang_domain_based_ent.Admin.Service.Permissions.{PermissionRequest}
use go_lang_domain_based_ent.Admin.Service.Roles.{or_else}
use go_lang_domain_based_ent.Admin.Service.Users.{new_user}
use go_lang_domain_based_ent.Auth.Repository.{create_user, find_user_by_email}
use go_lang_domain_based_ent.Auth.Service.{hash_password}
use go_lang_domain_based_ent.External.{Env}
use go_lang_domain_based_ent.Prelude.{List, Option, String, [], none, some, ◌∷◌}
use go_lang_domain_based_ent.Schema.{Permission, Role, User}
use go_lang_domain_based_ent.World.{Action, Result, attempt, err, ok, pure, ◌>>=◌, ◌>>◌}

pub record AdminConfig : Type 0 where
  pub admin_email : String
  pub admin_password : String
  pub admin_name : String

abbrev pub base_permissions : List PermissionRequest
base_permissions =
    record {
      name = "Admin Access";
      action = "manage";
      resource = "admin";
      description = "Access the admin panel";
    }
    ∷ record {
      name = "Create Incident";
      action = "create";
      resource = "incident";
      description = "Create new incidents";
    }
    ∷ record {
      name = "Read Incident";
      action = "read";
      resource = "incident";
      description = "View incidents";
    }
    ∷ record {
      name = "Update Incident";
      action = "update";
      resource = "incident";
      description = "Update incidents";
    }
    ∷ record {
      name = "Delete Incident";
      action = "delete";
      resource = "incident";
      description = "Delete incidents";
    }
    ∷ record {
      name = "Manage Users";
      action = "manage";
      resource = "users";
      description = "Create and manage users";
    }
    ∷ record {
      name = "Manage Roles";
      action = "manage";
      resource = "roles";
      description = "Create and manage roles";
    }
    ∷ record {
      name = "Manage Permissions";
      action = "manage";
      resource = "permissions";
      description = "Create and manage permissions";
    }
    ∷ []

abbrev pub with_id : Result Permission → List String → List String
with_id (ok p) ids = p.id ∷ ids
with_id (err e) ids = ids

-- The permissions that could be created. One that is there already is passed over.
unfoldable pub create_permissions : {E : Env} → List PermissionRequest → Action E (List String)
create_permissions [] = pure []
create_permissions (bp ∷ rest) = do
  created ← attempt (
      create_permission_row (record {
        id = "";
        name = bp.name;
        action = bp.action;
        resource = bp.resource;
        description = bp.description;
        created_at = 0;
      }))
  ids ← create_permissions rest
  pure (with_id created ids)

unfoldable pub assign_created : {E : Env} → String → List String → Action E (Unit {0})
assign_created role_id [] = pure tt
assign_created role_id (id ∷ ids) = do attempt (set_permissions role_id (id ∷ ids)); pure tt

unfoldable pub seed_permissions : {E : Env} → String → Action E (Unit {0})
seed_permissions admin_role_id = do
  ids ← create_permissions base_permissions
  assign_created admin_role_id ids

unfoldable pub ensure_admin_role : {E : Env} → Option Role → Action E Role
ensure_admin_role (some role) = pure role
ensure_admin_role none = create_role_row (record {
  id = "";
  name = "admin";
  category = "Administration";
  description = "Full system access";
  created_at = 0;
})

unfoldable pub seed_new_admin : {E : Env} → AdminConfig → Action E (Unit {0})
seed_new_admin cfg = do
  found ← find_role_by_name "admin"
  role ← ensure_admin_role found
  seed_permissions role.id
  hash ← hash_password (or_else cfg.admin_password "Admin123!")
  user ← create_user (
      new_user (or_else cfg.admin_email "admin@enterprise.com") hash
        (or_else cfg.admin_name "System Admin"))
  assign_role user.id role.id

unfoldable pub seed_missing : {E : Env} → AdminConfig → Option User → Action E (Unit {0})
seed_missing cfg (some existing) = pure tt
seed_missing cfg none = seed_new_admin cfg

unfoldable pub seed_default_admin : {E : Env} → AdminConfig → Action E (Unit {0})
seed_default_admin cfg = do
  attempt (do
    existing ← find_user_by_email (or_else cfg.admin_email "admin@enterprise.com")
    seed_missing cfg existing)
  pure tt
