-- ===== src/Admin/Seeding/Created.antt =====
-- admin_service.go, `seedPermissions`: what the INSERTs of the permissions leave.
use go_lang_domain_based_ent.Admin.Repository.Permissions.{
  create_permission_row, insert_permission, permission_fits,
}
use go_lang_domain_based_ent.Admin.Service.Permissions.{PermissionRequest}
use go_lang_domain_based_ent.Admin.Service.Seed.{create_permissions, with_id}
use go_lang_domain_based_ent.External.{Env}
use go_lang_domain_based_ent.Prelude.{
  All, Bool, Bool-cases, List, String, [], any, arith, eq_self, inl, inr, not, refl, true, ◌&&◌,
  ◌++◌, ◌+◌, ◌==◌, ◌||◌, ◌∷◌, ◌≡◌,
}
use go_lang_domain_based_ent.Schema.{Permission, Tables}
use go_lang_domain_based_ent.World.{Result, World, attempt, err, ok, sql, ◌>>=◌}
use go_lang_domain_based_ent.World.Achieves.{Achieves, Achieves-bind, Achieves-pure}

-- The permissions of these ids are there.
abbrev pub AllExist : List String → Tables → Type 0
AllExist ids db = All (λ id. any (λ p. p.id == id) db.permissions ≡ true) ids

-- What an INSERT into permissions keeps.
pub record IsLasting (I : Tables → Type 0) : Type 0 where
  pub lasts :
      (p : Permission) (db : Tables)
      → I db
      → I (record db { permissions = db.permissions ++ p ∷ [] })

pub any-append :
    {A : Type 0} (q : A → Bool) (xs : List A) (x : A)
    → any q xs ≡ true
    → any q (xs ++ x ∷ []) ≡ true
any-append q [] x h = cc
any-append q (y ∷ xs) x h = ground (arith, any-append q xs x)

pub any-last :
    {A : Type 0} (q : A → Bool) (xs : List A) (x : A) → q x ≡ true → any q (xs ++ x ∷ []) ≡ true
any-last q [] x h = ground (arith, h)
any-last q (y ∷ xs) x h = ground (arith, any-last q xs x)

-- What an answer for a created permission tells.
abbrev Told : Result Permission → Tables → Type 0
Told (ok p) db = any (λ q. q.id == p.id) db.permissions ≡ true
Told (err e) db = Unit

inserted :
    (E : Env) (I : Tables → Type 0) (p : Permission) (w : World E)
    → IsLasting I
    → I w.db
    → let r = attempt (sql (insert_permission E p)) w in
      (a : Result Permission) × (r.0 ≡ ok a) × (I r.1.db × Told a r.1.db)
unfolding insert_permission ◌>>=◌
inserted E I p w lasting h = elim (Bool-cases (E.fails w.calls)) [
  | inl down ↦ rw down (_, refl, (h, tt))
  | inr up ↦
      rw up
        (elim (Bool-cases (
          permission_fits E p
          && not (any (λ q. q.id == p.id || q.name == p.name) w.db.permissions))) [
            | inl fits ↦
                rw fits
                  (_, refl, (lasting.lasts p w.db h, any-last _ w.db.permissions p (eq_self p.id)))
            | inr bad ↦ rw bad (_, refl, (h, tt))
          ])
]

AllExist-with_id :
    (created : Result Permission) (ids : List String) (db : Tables)
    → Told created db
    → AllExist ids db
    → AllExist (with_id created ids) db
AllExist-with_id (ok p) ids db h all = (h, all)
AllExist-with_id (err e) ids db h all = all

IsLasting-Told :
    (I : Tables → Type 0) (created : Result Permission)
    → IsLasting I
    → IsLasting (λ db. I db × Told created db)
IsLasting-Told I (ok p) lasting = record {
  lasts = λ q db h. (lasting.lasts q db h.0, any-append _ db.permissions q h.1);
}
IsLasting-Told I (err e) lasting = record { lasts = λ q db h. (lasting.lasts q db h.0, tt) }

module _ {E : Env} where
  create_one-Achieves :
      (I : Tables → Type 0) (p : Permission)
      → IsLasting I
      → Achieves {E = E} I (λ r db. I db × Told r db) (attempt (create_permission_row p))
  unfolding create_permission_row ◌>>=◌
  create_one-Achieves I p lasting = record {
    at = λ w h. inserted E I _ (record w { draws = w.draws + 1 }) lasting h;
  }

  -- The permissions that could be created are there, and what lasts stays.
  pub create_permissions-Achieves :
      (ps : List PermissionRequest) (I : Tables → Type 0)
      → IsLasting I
      → Achieves {E = E} I (λ ids db. I db × AllExist ids db) (create_permissions ps)
  unfolding create_permissions
  create_permissions-Achieves [] I lasting = Achieves-pure _ [] λ db h. (h, tt)
  create_permissions-Achieves (bp ∷ rest) I lasting =
      Achieves-bind (λ r db. I db × Told r db) _ _ _ (create_one-Achieves I _ lasting)
        λ created.
          Achieves-bind (λ ids db. (I db × Told created db) × AllExist ids db) _ _ _
            (create_permissions-Achieves rest (λ db. I db × Told created db)
              (IsLasting-Told I created lasting))
            λ ids. Achieves-pure _ _ λ db h. (h.0.0, AllExist-with_id created ids db h.0.1 h.1)
