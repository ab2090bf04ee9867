-- ===== src/Admin/Revocation.antt =====
-- What deleting a role or a permission takes away.
use go_lang_domain_based_ent.Admin.Repository.Roles.{delete_role_row, without_role}
use go_lang_domain_based_ent.Admin.Service.Roles.{delete_role}
use go_lang_domain_based_ent.Auth.Rows.{In-select, In-select_of}
use go_lang_domain_based_ent.External.{Env}
use go_lang_domain_based_ent.Middleware.Permission.Laws.{Grant}
use go_lang_domain_based_ent.Prelude.{String, arith, not, sym, true, ◌==◌, ◌↔◌, ◌∙◌, ◌≡◌, ◌≢◌}
use go_lang_domain_based_ent.World.{World, ok, ◌>>=◌}

not_same : (a b : String) → not (a == b) ≡ true → a ≢ b
not_same a b h = ground arith

same_not : (a b : String) → a ≢ b → not (a == b) ≡ true
same_not a b h = ground arith

module _ {E : Env} where
  delete_role_db :
      (id : String) (w : World E)
      → (delete_role id w).0 ≡ ok tt
      → (delete_role id w).1.db ≡ without_role id w.db
  unfolding delete_role delete_role_row ◌>>=◌
  delete_role_db id w h = ground arith

  -- After `DeleteRole`, a user holds a permission exactly by the grants of before that do not go
  -- through the deleted role.
  pub delete_role-Grant :
      (id user_id action resource : String) (w : World E)
      → (delete_role id w).0 ≡ ok tt
      → Grant user_id action resource (delete_role id w).1.db
        ↔ ((g : Grant user_id action resource w.db) × (g.user_role.role_id ≢ id))
  unfolding without_role
  delete_role-Grant id user_id action resource w h = rw (delete_role_db id w h) (
    λ g. (
      record {
        user_role = g.user_role;
        role_permission = g.role_permission;
        permission = g.permission;
        has_role = (In-select _ _ w.db.user_roles g.has_role).0;
        has_permission = (In-select _ _ w.db.role_permissions g.has_permission).0;
        exists = g.exists;
        of_user = g.of_user;
        of_role = g.of_role;
        of_permission = g.of_permission;
        of_action = g.of_action;
        of_resource = g.of_resource;
      },
      not_same _ _ (In-select _ _ w.db.user_roles g.has_role).1,
    ),
    λ (g, apart). record {
      user_role = g.user_role;
      role_permission = g.role_permission;
      permission = g.permission;
      has_role = In-select_of _ _ w.db.user_roles g.has_role (same_not _ _ apart);
      has_permission =
          In-select_of _ _ w.db.role_permissions g.has_permission
            (same_not _ _ (λ e. apart (sym g.of_role ∙ e)));
      exists = g.exists;
      of_user = g.of_user;
      of_role = g.of_role;
      of_permission = g.of_permission;
      of_action = g.of_action;
      of_resource = g.of_resource;
    },
  )
