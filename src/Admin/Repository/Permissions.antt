-- ===== src/Admin/Repository/Permissions.antt =====
-- internal/modules/admin/repository/permission_repo.go
use go_lang_domain_based_ent.Admin.Paging.{page}
use go_lang_domain_based_ent.External.{Env}
use go_lang_domain_based_ent.Prelude.{
  Bool, List, Option, String, [], any, find?, if◌then◌else◌, length, map, none, not, select, some,
  ℕ, ℤ, ◌&&◌, ◌++◌, ◌==◌, ◌||◌, ◌∷◌,
}
use go_lang_domain_based_ent.Schema.{Permission, Tables}
use go_lang_domain_based_ent.World.{Action, draw, now, sql, ◌>>=◌}

abbrev pub permission_fits : Env → Permission → Bool
permission_fits E p =
    E.varchar_ok 100 p.name && E.varchar_ok 100 p.action && E.varchar_ok 100 p.resource

unfoldable pub insert_permission : Env → Permission → Tables → Option (Permission × Tables)
insert_permission E p db =
    if permission_fits E p && not (any (λ q. q.id == p.id || q.name == p.name) db.permissions)
    then some (p, record db { permissions = db.permissions ++ p ∷ [] })
    else none

unfoldable pub create_permission_row : {E : Env} → Permission → Action E Permission
create_permission_row {E} p = do
  n ← draw
  t ← now
  sql (insert_permission E (record p { id = E.uuid n; created_at = t }))

unfoldable pub find_all_permissions : {E : Env} → ℤ → ℤ → Action E (List Permission)
find_all_permissions {E} limit offset =
    sql (λ db. some (page limit offset (E.sorted_permissions db.permissions), db))

unfoldable pub count_permissions : {E : Env} → Action E ℕ
count_permissions = sql (λ db. some (length db.permissions, db))

unfoldable pub find_permission_by_id : {E : Env} → String → Action E (Option Permission)
find_permission_by_id id = sql (λ db. some (find? (λ p. p.id == id) db.permissions, db))

abbrev pub permission_with : Permission → Permission → Permission
permission_with p q = record q {
  name = p.name;
  action = p.action;
  resource = p.resource;
  description = p.description;
}

-- UPDATE permissions SET ... WHERE id. With no such row, nothing is written.
unfoldable pub update_permission_row :
    Env → String → Permission → Tables → Option (Unit {0} × Tables)
update_permission_row E id p db =
    if not (any (λ q. q.id == id) db.permissions)
    then some (tt, db)
    else if permission_fits E p
        && not (any (λ q. not (q.id == id) && q.name == p.name) db.permissions)
    then some (
      tt,
      record db {
        permissions = map (λ q. if q.id == id then permission_with p q else q) db.permissions;
      },
    )
    else none

-- DELETE FROM permissions, with ON DELETE CASCADE of role_permissions.
unfoldable pub without_permission : String → Tables → Tables
without_permission id db = record db {
  permissions = select (λ p. not (p.id == id)) db.permissions;
  role_permissions = select (λ rp. not (rp.permission_id == id)) db.role_permissions;
}

unfoldable pub delete_permission_row : {E : Env} → String → Action E (Unit {0})
delete_permission_row id = sql (λ db. some (tt, without_permission id db))
