-- ===== src/Admin/Seeding/Account.antt =====
-- admin_service.go, `SeedDefaultAdmin`: the account of the admin and its role.
use go_lang_domain_based_ent.Admin.Repository.Roles.{without_role_permissions}
use go_lang_domain_based_ent.Admin.Repository.Users.{
  assign_role, assign_user_role, has_user_role, with_user_role,
}
use go_lang_domain_based_ent.Admin.Seeding.Base.{
  CanSeed, HasAdminAccess, HasRole, base-Achieves, no_rows,
}
use go_lang_domain_based_ent.Admin.Seeding.Created.{any-last}
use go_lang_domain_based_ent.Admin.Seeding.Given.{IsGiven, assign_created-Achieves}
use go_lang_domain_based_ent.Admin.Service.Roles.{or_else}
use go_lang_domain_based_ent.Admin.Service.Seed.{AdminConfig, seed_permissions}
use go_lang_domain_based_ent.Admin.Service.Users.{new_user}
use go_lang_domain_based_ent.Auth.Repository.{create_user, insert_user, user_fits}
use go_lang_domain_based_ent.External.{Env, IsReliable}
use go_lang_domain_based_ent.Prelude.{
  Bool-cases, In, List, String, [], and_of, any, ap, arith, eq_self, inl, inr, refl, some, subst,
  true, ◌++◌, ◌==◌, ◌||◌, ◌∷◌, ◌≡◌,
}
use go_lang_domain_based_ent.Schema.{Tables, User}
use go_lang_domain_based_ent.World.Achieves.{
  Achieves, Achieves-bind, Achieves-draw, Achieves-now, Achieves-sql, Achieves-weaken,
}

HasAdminAccess-same :
    (id : String) (a b : Tables)
    → a.permissions ≡ b.permissions
    → HasAdminAccess id a
    → HasAdminAccess id b
HasAdminAccess-same id a b same h = record {
  permission = h.permission;
  there = subst (λ l. In h.permission l) same h.there;
  same_id = h.same_id;
  manage = h.manage;
  admin = h.admin;
}

-- No account, and a role with the permission to manage the admin panel.
pub record HasAdminRole (role_id : String) (db : Tables) : Type 0 where
  pub permission_id : String
  pub no_users : db.users ≡ []
  pub role : any (λ r. r.id == role_id) db.roles ≡ true
  pub access : HasAdminAccess permission_id db
  pub given : IsGiven role_id permission_id db

-- One account, active and with the email and password, which has the role.
pub record HasAdmin (E : Env) (email password user_id role_id : String) (db : Tables) : Type 0 where
  pub account : User
  pub permission_id : String
  pub only : db.users ≡ account ∷ []
  pub same_id : account.id ≡ user_id
  pub same_email : account.email ≡ email
  pub active : account.is_active ≡ true
  pub accepted : E.compare_password account.password_hash password ≡ true
  pub role : any (λ r. r.id == role_id) db.roles ≡ true
  pub access : HasAdminAccess permission_id db
  pub given : IsGiven role_id permission_id db

first_account :
    (E : Env) (u : User) (db : Tables)
    → db.users ≡ []
    → E.varchar_ok 255 u.email ≡ true
    → E.varchar_ok 255 u.password_hash ≡ true
    → E.varchar_ok 255 u.full_name ≡ true
    → insert_user E u db
      ≡ some (u, record db { users = db.users ++ record u { is_active = true } ∷ [] })
unfolding insert_user user_fits
first_account E u db none_there e h n =
    ground (arith, no_rows (λ v. v.id == u.id || v.email == u.email) db.users none_there, e, h, n)

-- The account gets the role.
assigned :
    (E : Env) (email password user_id role_id : String) (db : Tables)
    → HasAdmin E email password user_id role_id db
    → (after : Tables) × (assign_user_role user_id role_id db ≡ some (tt, after))
      × HasAdmin E email password user_id role_id after
      × (has_user_role user_id role_id after ≡ true)
unfolding assign_user_role
assigned E email password user_id role_id db h =
    elim (Bool-cases (has_user_role user_id role_id db)) [
      | inl old ↦ (db, rw old refl, h, old)
      | inr new ↦
          let known : any (λ u. u.id == user_id) db.users ≡ true =
            rw h.only (ground (arith, h.same_id, eq_self user_id)) in
          (
            with_user_role user_id role_id db,
            rw (new, known, h.role) refl,
            record {
              account = h.account;
              permission_id = h.permission_id;
              only = h.only;
              same_id = h.same_id;
              same_email = h.same_email;
              active = h.active;
              accepted = h.accepted;
              role = h.role;
              access = HasAdminAccess-same _ db _ refl h.access;
              given = h.given;
            },
            any-last _ db.user_roles _ (and_of (eq_self user_id) (eq_self role_id)),
          )
    ]

module _ {E : Env} (up : IsReliable E) (cfg : AdminConfig) (can : CanSeed E cfg) where
  abbrev pub email : String
  email = or_else cfg.admin_email "admin@enterprise.com"

  pub seed_permissions-Achieves :
      (role_id : String)
      → Achieves {E = E}
          (λ db. HasRole role_id db × (db.permissions ≡ []))
          (λ done. HasAdminRole role_id)
          (seed_permissions role_id)
  unfolding seed_permissions without_role_permissions
  seed_permissions-Achieves role_id =
      Achieves-bind _ _ _ _ (base-Achieves up cfg can role_id) λ ids. record {
        at = λ w h.
            let (id, listed, i, all) = h in
            (Achieves-weaken _ (λ done. HasAdminRole role_id) _
                (assign_created-Achieves up role_id ids id
                  (λ db. HasRole role_id db × HasAdminAccess id db)
                  (record {
                    keeps = λ other db k. (k.0, HasAdminAccess-same id db _ refl k.1);
                    role = λ db k. k.0.1;
                  })
                  listed (λ db k. (k.0, HasAdminAccess-same id db _ refl k.1)))
                λ a db k. record {
                  permission_id = id;
                  no_users = k.0.0.0;
                  role = k.0.0.1;
                  access = k.0.1;
                  given = k.1;
                }).at
              w (i, all);
      }

  pub create_user-Achieves :
      (role_id hash : String)
      → E.compare_password hash (or_else cfg.admin_password "Admin123!") ≡ true
      → E.varchar_ok 255 hash ≡ true
      → Achieves {E = E}
          (HasAdminRole role_id)
          (λ u. HasAdmin E email (or_else cfg.admin_password "Admin123!") u.id role_id)
          (create_user (new_user email hash (or_else cfg.admin_name "System Admin")))
  unfolding create_user
  create_user-Achieves role_id hash accepted short =
      Achieves-bind (λ n. HasAdminRole role_id) _ _ _ Achieves-draw
        λ n.
          Achieves-bind (λ t. HasAdminRole role_id) _ _ _ Achieves-now
            λ t. Achieves-sql _ _ up λ db h.
              let row : User = record {
                id = E.uuid n;
                email = email;
                password_hash = hash;
                full_name = or_else cfg.admin_name "System Admin";
                is_active = true;
                created_at = t;
                updated_at = t;
              } in
              (
                _,
                _,
                first_account E _ db h.no_users can.email short can.name,
                record {
                  account = row;
                  permission_id = h.permission_id;
                  only = ap (λ (l : List User). l ++ row ∷ []) h.no_users;
                  same_id = refl;
                  same_email = refl;
                  active = refl;
                  accepted = accepted;
                  role = h.role;
                  access = HasAdminAccess-same _ db _ refl h.access;
                  given = h.given;
                },
              )

  pub assign_role-Achieves :
      (password user_id role_id : String)
      → Achieves {E = E}
          (HasAdmin E email password user_id role_id)
          (λ done db.
            HasAdmin E email password user_id role_id db
            × (has_user_role user_id role_id db ≡ true))
          (assign_role user_id role_id)
  unfolding assign_role
  assign_role-Achieves password user_id role_id = Achieves-sql _ _ up λ db h.
      let (after, e, admin, role) = assigned E email password user_id role_id db h in
      (tt, after, e, (admin, role))
