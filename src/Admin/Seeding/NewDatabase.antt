-- ===== src/Admin/Seeding/NewDatabase.antt =====
-- admin_service.go: `SeedDefaultAdmin` on a database without accounts, roles and permissions.
use go_lang_domain_based_ent.Admin.Repository.Roles.{
  create_role_row, find_role_by_name, insert_role, role_fits,
}
use go_lang_domain_based_ent.Admin.Repository.Users.{assign_role, has_user_role}
use go_lang_domain_based_ent.Admin.Seeding.Account.{
  HasAdmin, HasAdminRole, assign_role-Achieves, create_user-Achieves, email,
  seed_permissions-Achieves,
}
use go_lang_domain_based_ent.Admin.Seeding.Base.{CanSeed, HasRole, no_rows}
use go_lang_domain_based_ent.Admin.Seeding.Created.{any-last}
use go_lang_domain_based_ent.Admin.Service.Roles.{or_else}
use go_lang_domain_based_ent.Admin.Service.Seed.{
  AdminConfig, ensure_admin_role, seed_default_admin, seed_missing, seed_new_admin,
  seed_permissions,
}
use go_lang_domain_based_ent.Admin.Service.Users.{new_user}
use go_lang_domain_based_ent.Auth.Repository.{create_user, find_user_by_email}
use go_lang_domain_based_ent.Auth.Service.{hash_password}
use go_lang_domain_based_ent.External.{Env, IsReliable}
use go_lang_domain_based_ent.Middleware.{next}
use go_lang_domain_based_ent.Middleware.Permission.{require_permission, uuid}
use go_lang_domain_based_ent.Middleware.Permission.Laws.{Grant, require_permission_iff}
use go_lang_domain_based_ent.Prelude.{
  Bool, List, String, [], any_witness, arith, eq_self, find?, none, refl, some, subst, sym, true,
  ◌&&◌, ◌++◌, ◌==◌, ◌||◌, ◌∷◌, ◌≡◌,
}
use go_lang_domain_based_ent.Schema.{Role, Tables, User}
use go_lang_domain_based_ent.World.{World, ok, ◌>>=◌, ◌>>◌}
use go_lang_domain_based_ent.World.Achieves.{
  Achieves, Achieves-attempt, Achieves-bind, Achieves-draw, Achieves-given, Achieves-now,
  Achieves-or_throw, Achieves-pure, Achieves-sql, Achieves-weaken,
}

-- No account, no role and no permission.
abbrev IsNew : Tables → Type 0
IsNew db = (db.users ≡ []) × (db.roles ≡ []) × (db.permissions ≡ [])

first_role :
    (E : Env) (r : Role) (db : Tables)
    → role_fits E r ≡ true
    → db.roles ≡ []
    → insert_role E r db ≡ some (r, record db { roles = db.roles ++ r ∷ [] })
unfolding insert_role
first_role E r db fits none_there =
    ground (arith, fits, no_rows (λ q. q.id == r.id || q.name == r.name) db.roles none_there)

find?-none : {A : Type 0} (q : A → Bool) (xs : List A) → xs ≡ [] → find? q xs ≡ none
find?-none q xs e = rw e refl

module _ {E : Env} (up : IsReliable E) (cfg : AdminConfig) (can : CanSeed E cfg) where
  abbrev password : String
  password = or_else cfg.admin_password "Admin123!"

  find_role-Achieves :
      Achieves {E = E} IsNew (λ found db. (found ≡ none) × IsNew db) (find_role_by_name "admin")
  unfolding find_role_by_name
  find_role-Achieves = Achieves-sql _ _ up λ db h. (_, _, refl, (find?-none _ db.roles h.1, h))

  find_user-Achieves :
      Achieves {E = E} IsNew
        (λ found db. (found ≡ none) × IsNew db)
        (find_user_by_email (or_else cfg.admin_email "admin@enterprise.com"))
  unfolding find_user_by_email
  find_user-Achieves = Achieves-sql _ _ up λ db h. (_, _, refl, (find?-none _ db.users h.0, h))

  ensure_admin_role-Achieves :
      Achieves {E = E} IsNew
        (λ r db. HasRole r.id db × (db.permissions ≡ []))
        (ensure_admin_role none)
  unfolding ensure_admin_role create_role_row
  ensure_admin_role-Achieves =
      Achieves-bind (λ n. IsNew) _ _ _ Achieves-draw
        λ n.
          Achieves-bind (λ t. IsNew) _ _ _ Achieves-now
            λ t. Achieves-sql _ _ up λ db h. (
              _,
              _,
              first_role E _ db can.role h.1,
              ((h.0, any-last _ db.roles _ (eq_self (E.uuid n))), h.2),
            )

  hash_password-Achieves :
      (role_id : String)
      → Achieves {E = E}
          (HasAdminRole role_id)
          (λ hash db.
            HasAdminRole role_id db
            × (E.compare_password hash password ≡ true)
            × (E.varchar_ok 255 hash ≡ true))
          (hash_password password)
  unfolding hash_password
  hash_password-Achieves role_id =
      Achieves-bind (λ n. HasAdminRole role_id) _ _ _ Achieves-draw
        λ n.
          let (hash, e, accepted, short) = can.hashed n in
          Achieves-or_throw _ _ _ hash e λ db h. (h, accepted, short)

  -- The account and a role that it has.
  abbrev Seeded : Tables → Type 0
  Seeded db =
      (user_id : String) × (role_id : String) × HasAdmin E (email up cfg can) password user_id
        role_id db
      × (has_user_role user_id role_id db ≡ true)

  with_role-Achieves :
      (role_id : String)
      → Achieves {E = E}
          (λ db. HasRole role_id db × (db.permissions ≡ []))
          (λ done. Seeded)
          (do
            seed_permissions role_id
            hash ← hash_password (or_else cfg.admin_password "Admin123!")
            user ← create_user (
                new_user
                  (or_else cfg.admin_email "admin@enterprise.com")
                  hash
                  (or_else cfg.admin_name "System Admin"))
            assign_role user.id role_id)
  with_role-Achieves role_id =
      Achieves-bind _ _ _ _ (seed_permissions-Achieves up cfg can role_id) λ done.
        Achieves-bind _ _ _ _ (hash_password-Achieves role_id) λ hash. record {
          at = λ w h.
              (Achieves-bind _ (λ done. Seeded) _ _
                  (create_user-Achieves up cfg can role_id hash h.1 h.2)
                  λ user.
                    Achieves-weaken _ _ _ (assign_role-Achieves up cfg can password user.id role_id)
                      λ done db k. (user.id, role_id, k.0, k.1)).at
                w h.0;
        }

  seed_new_admin-Achieves : Achieves {E = E} IsNew (λ done. Seeded) (seed_new_admin cfg)
  unfolding seed_new_admin
  seed_new_admin-Achieves = Achieves-bind _ _ _ _ find_role-Achieves λ found.
      Achieves-given _ _ λ e.
        rw e (Achieves-bind _ _ _ _ ensure_admin_role-Achieves λ role. with_role-Achieves role.id)

  seed_default_admin-Achieves : Achieves {E = E} IsNew (λ done. Seeded) (seed_default_admin cfg)
  unfolding seed_default_admin seed_missing
  seed_default_admin-Achieves =
      Achieves-bind _ _ _ _
        (Achieves-attempt _ _ (
          Achieves-bind _ (λ done. Seeded) _ _ find_user-Achieves
            λ found. Achieves-given _ _ λ e. rw e seed_new_admin-Achieves))
        λ r. Achieves-pure _ tt λ db k. k.2

HasAdmin-Grant :
    (E : Env) (mail secret user_id role_id : String) (db : Tables)
    → HasAdmin E mail secret user_id role_id db
    → has_user_role user_id role_id db ≡ true
    → Grant user_id "manage" "admin" db
HasAdmin-Grant E mail secret user_id role_id db h has_role =
    let (ur, in_ur, of_ur) =
      any_witness (λ r. r.user_id == user_id && r.role_id == role_id) db.user_roles has_role in
    let (rp, in_rp, of_rp) =
      any_witness (λ r. r.role_id == role_id && r.permission_id == h.permission_id)
        db.role_permissions h.given in
    record {
      user_role = ur;
      role_permission = rp;
      permission = h.access.permission;
      has_role = in_ur;
      has_permission = in_rp;
      exists = h.access.there;
      of_user = ground arith;
      of_role = ground arith;
      of_permission = ground (arith, h.access.same_id);
      of_action = h.access.manage;
      of_resource = h.access.admin;
    }

-- Without database errors, with texts that fit their columns and a password that is hashed to
-- a text that accepts it, and on tables without users, roles and permissions, seed_default_admin
-- leaves exactly one user: with the email of the configuration or its default, active, its hash
-- accepts the password of the configuration or its default, and it passes the guard of the admin
-- routes.
pub seed_default_admin-can_manage :
    {E : Env} (cfg : AdminConfig) (w : World E)
    → IsReliable E
    → CanSeed E cfg
    → w.db.users ≡ []
    → w.db.roles ≡ []
    → w.db.permissions ≡ []
    → let after = (seed_default_admin cfg w).1 in
      (user : User) × (after.db.users ≡ user ∷ [])
      × (user.email ≡ or_else cfg.admin_email "admin@enterprise.com")
      × (user.is_active ≡ true)
      × (E.compare_password user.password_hash (or_else cfg.admin_password "Admin123!") ≡ true)
      × ((require_permission "manage" "admin" (uuid user.id) after).0 ≡ ok next)
seed_default_admin-can_manage {E} cfg w up can no_users no_roles no_permissions =
    let (done, e, (user_id, role_id, h, has_role)) =
      (seed_default_admin-Achieves up cfg can).at w (no_users, no_roles, no_permissions) in
    let after = (seed_default_admin cfg w).1 in
    (
      h.account,
      h.only,
      h.same_email,
      h.active,
      h.accepted,
      (require_permission_iff "manage" "admin" h.account.id after up).1 (
          subst (λ id. Grant id "manage" "admin" after.db) (sym h.same_id)
            (HasAdmin-Grant E _ _ user_id role_id after.db h has_role)),
    )
