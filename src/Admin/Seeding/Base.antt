-- ===== src/Admin/Seeding/Base.antt =====
-- admin_service.go, `seedPermissions`: the permission to manage the admin panel.
use go_lang_domain_based_ent.Admin.Repository.Permissions.{
  create_permission_row, insert_permission, permission_fits,
}
use go_lang_domain_based_ent.Admin.Repository.Roles.{role_fits}
use go_lang_domain_based_ent.Admin.Seeding.Created.{
  AllExist, IsLasting, create_permissions-Achieves,
}
use go_lang_domain_based_ent.Admin.Service.Permissions.{PermissionRequest}
use go_lang_domain_based_ent.Admin.Service.Roles.{or_else}
use go_lang_domain_based_ent.Admin.Service.Seed.{
  AdminConfig, base_permissions, create_permissions, with_id,
}
use go_lang_domain_based_ent.External.{Env, IsReliable}
use go_lang_domain_based_ent.Prelude.{
  Bool, In, List, String, [], any, any_of, arith, eq_self, false, inl, inr, refl, some, subst, sym,
  true, ℕ, ◌++◌, ◌==◌, ◌||◌, ◌∷◌, ◌≡◌,
}
use go_lang_domain_based_ent.Schema.{Permission, Tables}
use go_lang_domain_based_ent.World.{pure, ◌>>=◌}
use go_lang_domain_based_ent.World.Achieves.{
  Achieves, Achieves-attempt, Achieves-bind, Achieves-draw, Achieves-now, Achieves-pure,
  Achieves-sql,
}

-- No account, and the role.
abbrev pub HasRole : String → Tables → Type 0
HasRole role_id db = (db.users ≡ []) × (any (λ r. r.id == role_id) db.roles ≡ true)

-- The permission to manage the admin panel.
pub record HasAdminAccess (permission_id : String) (db : Tables) : Type 0 where
  pub permission : Permission
  pub there : In permission db.permissions
  pub same_id : permission.id ≡ permission_id
  pub manage : permission.action ≡ "manage"
  pub admin : permission.resource ≡ "admin"

In-append : {A : Type 0} (x y : A) (xs : List A) → In x xs → In x (xs ++ y ∷ [])
In-append x y [] h = absurd h
In-append x y (z ∷ xs) (inl e) = inl e
In-append x y (z ∷ xs) (inr h) = inr (In-append x y xs h)

HasAdminAccess-IsLasting :
    (role_id permission_id : String)
    → IsLasting (λ db. HasRole role_id db × HasAdminAccess permission_id db)
HasAdminAccess-IsLasting role_id permission_id = record {
  lasts = λ p db h. (
    h.0,
    record {
      permission = h.1.permission;
      there = In-append h.1.permission p db.permissions h.1.there;
      same_id = h.1.same_id;
      manage = h.1.manage;
      admin = h.1.admin;
    },
  );
}

pub HasAdminAccess-exists :
    (id : String) (db : Tables) → HasAdminAccess id db → any (λ p. p.id == id) db.permissions ≡ true
HasAdminAccess-exists id db h =
    any_of (λ p. p.id == id) h.permission db.permissions h.there
      (ground (arith, h.same_id, eq_self id))

module _ {E : Env} where
  -- A first permission that is surely created, and what lasts of it.
  create_first-Achieves :
      (bp : PermissionRequest) (rest : List PermissionRequest) (P : Tables → Type 0)
      (I : String → Tables → Type 0)
      → ((id : String) → IsLasting (I id))
      → ((id : String) (db : Tables) → I id db → any (λ p. p.id == id) db.permissions ≡ true)
      → Achieves {E = E} P
          (λ p. I p.id)
          (create_permission_row (record {
            id = "";
            name = bp.name;
            action = bp.action;
            resource = bp.resource;
            description = bp.description;
            created_at = 0;
          }))
      → Achieves {E = E} P
          (λ ids db. (id : String) × In id ids × I id db × AllExist ids db)
          (create_permissions (bp ∷ rest))
  unfolding create_permissions
  create_first-Achieves bp rest P I lasting exists first =
      Achieves-bind _ _ _ _ (Achieves-attempt _ _ first) λ created. record {
        at = λ w h.
            let (p, e, i) = h in
            (subst
                (λ c.
                  Achieves {E = E} (I p.id)
                    (λ ids db. (id : String) × In id ids × I id db × AllExist ids db)
                    (do ids ← create_permissions rest; pure (with_id c ids)))
                (sym e)
                (Achieves-bind (λ ids db. I p.id db × AllExist ids db) _ _ _
                  (create_permissions-Achieves rest (I p.id) (lasting p.id))
                  λ ids.
                    Achieves-pure _ _ λ db h. (p.id, inl refl, h.0, (exists p.id db h.0, h.1)))).at
              w i;
      }

-- What the seed needs: that PostgreSQL takes its texts, and that its password is hashed.
pub record CanSeed (E : Env) (cfg : AdminConfig) : Type 0 where
  pub role :
      role_fits E (record {
        id = "";
        name = "admin";
        category = "Administration";
        description = "";
        created_at = 0;
      })
      ≡ true
  pub permission :
      permission_fits E (record {
        id = "";
        name = "Admin Access";
        action = "manage";
        resource = "admin";
        description = "";
        created_at = 0;
      })
      ≡ true
  pub email : E.varchar_ok 255 (or_else cfg.admin_email "admin@enterprise.com") ≡ true
  pub name : E.varchar_ok 255 (or_else cfg.admin_name "System Admin") ≡ true
  pub hashed :
      (n : ℕ)
      → (hash : String) × (E.hash_password n (or_else cfg.admin_password "Admin123!") ≡ some hash)
        × (E.compare_password hash (or_else cfg.admin_password "Admin123!") ≡ true)
        × (E.varchar_ok 255 hash ≡ true)

pub no_rows : {A : Type 0} (q : A → Bool) (xs : List A) → xs ≡ [] → any q xs ≡ false
no_rows q xs e = rw e refl

first_row :
    (E : Env) (p : Permission) (db : Tables)
    → permission_fits E p ≡ true
    → db.permissions ≡ []
    → insert_permission E p db ≡ some (p, record db { permissions = db.permissions ++ p ∷ [] })
unfolding insert_permission
first_row E p db fits none_there =
    ground (arith, fits, no_rows (λ q. q.id == p.id || q.name == p.name) db.permissions none_there)

In-last : {A : Type 0} (x : A) (xs : List A) → In x (xs ++ x ∷ [])
In-last x [] = inl refl
In-last x (y ∷ xs) = inr (In-last x xs)

module _ {E : Env} (up : IsReliable E) (cfg : AdminConfig) (can : CanSeed E cfg) where
  first_permission-Achieves :
      (role_id : String)
      → Achieves {E = E}
          (λ db. HasRole role_id db × (db.permissions ≡ []))
          (λ p db. HasRole role_id db × HasAdminAccess p.id db)
          (create_permission_row (record {
            id = "";
            name = "Admin Access";
            action = "manage";
            resource = "admin";
            description = "Access the admin panel";
            created_at = 0;
          }))
  unfolding create_permission_row insert_permission
  first_permission-Achieves role_id = Achieves-bind _ _ _ _ Achieves-draw λ n.
      Achieves-bind _ _ _ _ Achieves-now λ t. Achieves-sql _ _ up λ db h. (
        _,
        _,
        first_row E _ db can.permission h.1,
        (
          h.0,
          record {
            permission = _;
            there = In-last _ db.permissions;
            same_id = refl;
            manage = refl;
            admin = refl;
          },
        ),
      )

  pub base-Achieves :
      (role_id : String)
      → Achieves {E = E}
          (λ db. HasRole role_id db × (db.permissions ≡ []))
          (λ ids db.
            (id : String) × In id ids
            × (HasRole role_id db × HasAdminAccess id db)
            × AllExist ids db)
          (create_permissions base_permissions)
  base-Achieves role_id =
      create_first-Achieves _ _ _ (λ id db. HasRole role_id db × HasAdminAccess id db)
        (HasAdminAccess-IsLasting role_id) (λ id db h. HasAdminAccess-exists id db h.1)
        (first_permission-Achieves role_id)
