-- ===== src/Admin/Seeding/Given.antt =====
-- admin_service.go, `seedPermissions`: the permissions that the role of the admin gets.
use go_lang_domain_based_ent.Admin.Repository.Roles.{
  has_role_permission, insert_role_permission, set_permissions, with_role_permission,
  without_role_permissions,
}
use go_lang_domain_based_ent.Admin.Seeding.Created.{AllExist, any-append, any-last}
use go_lang_domain_based_ent.Admin.Service.Seed.{assign_created}
use go_lang_domain_based_ent.External.{Env, IsReliable}
use go_lang_domain_based_ent.Prelude.{
  All, Bool-cases, In, List, String, [], and_of, any, eq_self, inl, inr, refl, some, subst, sym,
  true, ◌==◌, ◌∷◌, ◌≡◌,
}
use go_lang_domain_based_ent.Schema.{Permission, Tables}
use go_lang_domain_based_ent.World.{sql}
use go_lang_domain_based_ent.World.Achieves.{
  Achieves, Achieves-attempt, Achieves-bind, Achieves-pure, Achieves-sql, Achieves-transaction,
  Achieves-weaken,
}
use go_lang_domain_based_ent.World.Transactions.{for_each}

-- The role has the permission.
abbrev pub IsGiven : String → String → Tables → Type 0
IsGiven role_id id db = has_role_permission role_id id db ≡ true

-- What an INSERT into role_permissions keeps.
pub record IsSteady (role_id : String) (I : Tables → Type 0) : Type 0 where
  pub keeps : (id : String) (db : Tables) → I db → I (with_role_permission role_id id db)
  pub role : (db : Tables) → I db → any (λ r. r.id == role_id) db.roles ≡ true

has_role_permission-append :
    (role_id id other : String) (db : Tables)
    → IsGiven role_id id db
    → IsGiven role_id id (with_role_permission role_id other db)
has_role_permission-append role_id id other db h = any-append _ db.role_permissions _ h

IsSteady-IsGiven :
    (role_id id : String) (I : Tables → Type 0)
    → IsSteady role_id I
    → IsSteady role_id (λ db. I db × IsGiven role_id id db)
IsSteady-IsGiven role_id id I steady = record {
  keeps =
      λ other db h. (steady.keeps other db h.0, has_role_permission-append role_id id other db h.1);
  role = λ db h. steady.role db h.0;
}

insert_role_permission-Given :
    (role_id id : String) (I : Tables → Type 0) (db : Tables)
    → IsSteady role_id I
    → I db
    → any (λ p. p.id == id) db.permissions ≡ true
    → (after : Tables) × (insert_role_permission role_id id db ≡ some (tt, after))
      × (I after × IsGiven role_id id after)
      × (after.permissions ≡ db.permissions)
unfolding insert_role_permission
insert_role_permission-Given role_id id I db steady h there =
    elim (Bool-cases (has_role_permission role_id id db)) [
      | inl old ↦ (db, rw old refl, (h, old), refl)
      | inr new ↦ (
        with_role_permission role_id id db,
        rw (new, steady.role db h, there) refl,
        (
          steady.keeps id db h,
          any-last _ db.role_permissions _ (and_of (eq_self role_id) (eq_self id)),
        ),
        refl,
      )
    ]

All_at : (P : String → Type 0) (ids : List String) (id : String) → In id ids → All P ids → P id
All_at P [] id h all = absurd h
All_at P (own ∷ ids) id (inl same) all = subst P (sym same) all.0
All_at P (own ∷ ids) id (inr h) all = All_at P ids id h all.1

module _ {E : Env} (up : IsReliable E) (role_id : String) where
  for_each-Achieves :
      (ids : List String) (I : Tables → Type 0)
      → IsSteady role_id I
      → Achieves {E = E}
          (λ db. I db × AllExist ids db)
          (λ done db. I db × All (λ id. IsGiven role_id id db) ids)
          (for_each (λ id. sql (insert_role_permission role_id id)) ids)
  unfolding for_each
  for_each-Achieves [] I steady = Achieves-pure _ tt λ db h. (h.0, tt)
  for_each-Achieves (id ∷ ids) I steady =
      Achieves-bind (λ done db. (I db × IsGiven role_id id db) × AllExist ids db) _ _ _
        (Achieves-sql _ _ up λ db h.
          let (after, e, given, same) =
            insert_role_permission-Given role_id id I db steady h.0 h.1.0 in
          (
            tt,
            after,
            e,
            (
              given,
              subst (λ (l : List Permission). All (λ id. any (λ p. p.id == id) l ≡ true) ids)
                  (sym same) h.1.1,
            ),
          ))
        λ done.
          Achieves-weaken _ _ _
            (for_each-Achieves ids (λ db. I db × IsGiven role_id id db)
              (IsSteady-IsGiven role_id id I steady))
            λ a db h. (h.0.0, (h.0.1, h.1))

  -- The role gets a permission of the list, and what is steady stays.
  pub assign_created-Achieves :
      (ids : List String) (id : String) (I : Tables → Type 0)
      → IsSteady role_id I
      → In id ids
      → ((db : Tables) → I db → I (without_role_permissions role_id db))
      → Achieves {E = E}
          (λ db. I db × AllExist ids db)
          (λ done db. I db × IsGiven role_id id db)
          (assign_created role_id ids)
  unfolding assign_created set_permissions without_role_permissions
  assign_created-Achieves [] id I steady h cleared = absurd h
  assign_created-Achieves (own ∷ rest) id I steady h cleared =
      Achieves-bind (λ a db. I db × IsGiven role_id id db) _ _ _
        (Achieves-weaken _ _ _
          (Achieves-attempt _ _ (
            Achieves-transaction _ _ up (
              Achieves-bind (λ a db. I db × AllExist (own ∷ rest) db) _ _ _
                (Achieves-sql _ _ up λ db k. (tt, _, refl, (cleared db k.0, k.1)))
                λ a. for_each-Achieves (own ∷ rest) I steady)))
          λ a db k. (k.2.0, All_at (λ id. IsGiven role_id id db) (own ∷ rest) id h k.2.1))
        λ a. Achieves-pure _ tt λ db k. k
