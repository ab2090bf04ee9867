-- ===== src/Admin/Repository/Roles.antt =====
-- internal/modules/admin/repository/role_repo.go
use go_lang_domain_based_ent.Admin.Paging.{page}
use go_lang_domain_based_ent.External.{Env}
use go_lang_domain_based_ent.Prelude.{
  Bool, List, Option, String, [], any, find?, if◌then◌else◌, length, map, none, not, select, some,
  ℕ, ℤ, ◌&&◌, ◌++◌, ◌==◌, ◌||◌, ◌∷◌,
}
use go_lang_domain_based_ent.Schema.{Permission, Role, Tables}
use go_lang_domain_based_ent.World.{Action, draw, now, sql, ◌>>=◌, ◌>>◌}
use go_lang_domain_based_ent.World.Transactions.{for_each, transaction}

-- The constraints of the table roles, besides the other rows.
abbrev pub role_fits : Env → Role → Bool
role_fits E r = E.varchar_ok 100 r.name && E.varchar_ok 100 r.category

unfoldable pub insert_role : Env → Role → Tables → Option (Role × Tables)
insert_role E r db =
    if role_fits E r && not (any (λ q. q.id == r.id || q.name == r.name) db.roles)
    then some (r, record db { roles = db.roles ++ r ∷ [] })
    else none

unfoldable pub create_role_row : {E : Env} → Role → Action E Role
create_role_row {E} r = do
  n ← draw
  t ← now
  sql (insert_role E (record r { id = E.uuid n; created_at = t }))

unfoldable pub find_all_roles : {E : Env} → ℤ → ℤ → Action E (List Role)
find_all_roles {E} limit offset = sql (λ db. some (page limit offset (E.sorted_roles db.roles), db))

unfoldable pub count_roles : {E : Env} → Action E ℕ
count_roles = sql (λ db. some (length db.roles, db))

unfoldable pub find_role_by_id : {E : Env} → String → Action E (Option Role)
find_role_by_id id = sql (λ db. some (find? (λ r. r.id == id) db.roles, db))

unfoldable pub find_role_by_name : {E : Env} → String → Action E (Option Role)
find_role_by_name name = sql (λ db. some (find? (λ r. r.name == name) db.roles, db))

-- UPDATE roles SET name, category, description WHERE id. With no such row, nothing is written.
abbrev pub role_with : Role → Role → Role
role_with role r = record r {
  name = role.name;
  category = role.category;
  description = role.description;
}

unfoldable pub update_role_row : Env → String → Role → Tables → Option (Unit {0} × Tables)
update_role_row E id role db =
    if not (any (λ r. r.id == id) db.roles)
    then some (tt, db)
    else if role_fits E role && not (any (λ r. not (r.id == id) && r.name == role.name) db.roles)
    then some
        (tt, record db { roles = map (λ r. if r.id == id then role_with role r else r) db.roles })
    else none

-- DELETE FROM roles, with ON DELETE CASCADE of role_permissions and user_roles.
unfoldable pub without_role : String → Tables → Tables
without_role id db = record db {
  roles = select (λ r. not (r.id == id)) db.roles;
  role_permissions = select (λ rp. not (rp.role_id == id)) db.role_permissions;
  user_roles = select (λ ur. not (ur.role_id == id)) db.user_roles;
}

unfoldable pub delete_role_row : {E : Env} → String → Action E (Unit {0})
delete_role_row id = sql (λ db. some (tt, without_role id db))

unfoldable pub without_role_permissions : String → Tables → Tables
without_role_permissions role_id db = record db {
  role_permissions = select (λ rp. not (rp.role_id == role_id)) db.role_permissions;
}

abbrev pub has_role_permission : String → String → Tables → Bool
has_role_permission role_id permission_id db =
    any (λ rp. rp.role_id == role_id && rp.permission_id == permission_id) db.role_permissions

abbrev pub role_permission_refers : String → String → Tables → Bool
role_permission_refers role_id permission_id db =
    any (λ r. r.id == role_id) db.roles && any (λ p. p.id == permission_id) db.permissions

abbrev pub with_role_permission : String → String → Tables → Tables
with_role_permission role_id permission_id db = record db {
  role_permissions =
      db.role_permissions ++ record { role_id = role_id; permission_id = permission_id } ∷ [];
}

-- INSERT INTO role_permissions ... ON CONFLICT DO NOTHING, with the foreign keys.
unfoldable pub insert_role_permission : String → String → Tables → Option (Unit {0} × Tables)
insert_role_permission role_id permission_id db =
    if has_role_permission role_id permission_id db
    then some (tt, db)
    else if role_permission_refers role_id permission_id db
    then some (tt, with_role_permission role_id permission_id db)
    else none

unfoldable pub set_permissions : {E : Env} → String → List String → Action E (Unit {0})
set_permissions role_id permission_ids = transaction (do
  sql (λ db. some (tt, without_role_permissions role_id db))
  for_each (λ id. sql (insert_role_permission role_id id)) permission_ids)

-- The primary key of role_permissions leaves one row for a permission of a role.
abbrev pub permissions_of : String → Tables → List Permission
permissions_of role_id db = select (λ p. has_role_permission role_id p.id db) db.permissions

unfoldable pub get_permissions : {E : Env} → String → Action E (List Permission)
get_permissions role_id = sql (λ db. some (permissions_of role_id db, db))
