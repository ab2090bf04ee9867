-- ===== src/Admin/Tests.antt =====
-- Roles, permissions and lists on the example database.
use go_lang_domain_based_ent.Admin.Assignments.{assign_roles_atomic, assign_roles_exact, with_roles}
use go_lang_domain_based_ent.Admin.Repository.Roles.{delete_role_row}
use go_lang_domain_based_ent.Admin.Repository.Users.{
  insert_user_role, set_roles, without_user_roles,
}
use go_lang_domain_based_ent.Admin.Revocation.{delete_role-Grant}
use go_lang_domain_based_ent.Admin.Seeding.Base.{CanSeed}
use go_lang_domain_based_ent.Admin.Seeding.NewDatabase.{seed_default_admin-can_manage}
use go_lang_domain_based_ent.Admin.Service.Roles.{delete_role}
use go_lang_domain_based_ent.Admin.Service.Seed.{AdminConfig, seed_default_admin}
use go_lang_domain_based_ent.Admin.Service.Users.{assign_roles}
use go_lang_domain_based_ent.External.Example.{
  example_env, example_env-IsReliable, example_tables, example_world,
}
use go_lang_domain_based_ent.Middleware.{next}
use go_lang_domain_based_ent.Middleware.Permission.{require_permission, uuid}
use go_lang_domain_based_ent.Middleware.Permission.Laws.{Grant}
use go_lang_domain_based_ent.Prelude.{[], refl, string_dec, true, ◌==◌, ◌↔◌, ◌∷◌, ◌≡◌, ◌≢◌, ◌⊎◌}
use go_lang_domain_based_ent.Schema.{User, empty_tables}
use go_lang_domain_based_ent.World.{World, ok, query_failed, ◌>>=◌}
use go_lang_domain_based_ent.World.Transactions.{for_each, transaction}

assign_roles_exact_example :
    (assign_roles "u1" ("r2" ∷ []) (example_world 1000)).1.db
    ≡ with_roles "u1" ("r2" ∷ []) example_tables
unfolding assign_roles set_roles transaction for_each without_user_roles insert_user_role ◌>>=◌
    string_dec
assign_roles_exact_example = assign_roles_exact "u1" ("r2" ∷ []) (example_world 1000) refl

assign_roles_atomic_example :
    ((assign_roles "u1" ("r2" ∷ "r2" ∷ []) (example_world 1000)).1.db ≡ example_tables)
    ⊎ ((assign_roles "u1" ("r2" ∷ "r2" ∷ []) (example_world 1000)).1.db
        ≡ with_roles "u1" ("r2" ∷ "r2" ∷ []) example_tables)
unfolding assign_roles set_roles transaction for_each without_user_roles insert_user_role ◌>>=◌
    string_dec
assign_roles_atomic_example =
    assign_roles_atomic "u1" ("r2" ∷ "r2" ∷ []) (example_world 1000) query_failed refl

delete_role-Grant_example :
    Grant "u1" "read" "incident" (delete_role "r1" (example_world 1000)).1.db
    ↔ ((g : Grant "u1" "read" "incident" example_tables) × (g.user_role.role_id ≢ "r1"))
unfolding delete_role delete_role_row ◌>>=◌ string_dec
delete_role-Grant_example = delete_role-Grant "r1" "u1" "read" "incident" (example_world 1000) refl

abbrev example_config : AdminConfig
example_config = record {
  admin_email = "root@example.com";
  admin_password = "";
  admin_name = "Root";
}

abbrev new_world : World example_env
new_world = record (example_world 1000) { db = empty_tables }

example_config-CanSeed : CanSeed example_env example_config
unfolding string_dec
example_config-CanSeed = record {
  role = refl;
  permission = refl;
  email = refl;
  name = refl;
  hashed = λ n. ("hash of Admin123!", refl, refl, refl);
}

seed_default_admin-can_manage_example :
    let after = (seed_default_admin example_config new_world).1 in
    (user : User) × (after.db.users ≡ user ∷ [])
    × (user.email ≡ "root@example.com")
    × (user.is_active ≡ true)
    × (user.password_hash == "hash of Admin123!" ≡ true)
    × ((require_permission "manage" "admin" (uuid user.id) after).0 ≡ ok next)
unfolding string_dec
seed_default_admin-can_manage_example =
    seed_default_admin-can_manage example_config new_world example_env-IsReliable
      example_config-CanSeed refl refl refl
