-- ===== src/Admin/Repository/Users.antt =====
-- internal/modules/admin/repository/admin_user_repo.go. `Create`, `FindByEmail` and `FindByID` are
-- the same statements as in the repository of auth, and are taken from there.
use go_lang_domain_based_ent.Admin.Paging.{page}
use go_lang_domain_based_ent.External.{Env}
use go_lang_domain_based_ent.Prelude.{
  Bool, List, Option, String, [], any, if◌then◌else◌, length, map, none, not, select, some, ℕ, ℤ,
  ◌&&◌, ◌++◌, ◌==◌, ◌∷◌,
}
use go_lang_domain_based_ent.Schema.{Role, Tables, User}
use go_lang_domain_based_ent.World.{Action, now, sql, ◌>>=◌, ◌>>◌}
use go_lang_domain_based_ent.World.Transactions.{for_each, transaction}

unfoldable pub find_all_users : {E : Env} → ℤ → ℤ → Action E (List User)
find_all_users {E} limit offset = sql (λ db. some (page limit offset (E.sorted_users db.users), db))

unfoldable pub count_users : {E : Env} → Action E ℕ
count_users = sql (λ db. some (length db.users, db))

-- The foreign keys of user_roles.
abbrev pub user_role_refers : String → String → Tables → Bool
user_role_refers user_id role_id db =
    any (λ u. u.id == user_id) db.users && any (λ r. r.id == role_id) db.roles

abbrev pub has_user_role : String → String → Tables → Bool
has_user_role user_id role_id db =
    any (λ ur. ur.user_id == user_id && ur.role_id == role_id) db.user_roles

abbrev pub with_user_role : String → String → Tables → Tables
with_user_role user_id role_id db = record db {
  user_roles = db.user_roles ++ record { user_id = user_id; role_id = role_id } ∷ [];
}

-- INSERT INTO user_roles ... ON CONFLICT DO NOTHING
unfoldable pub assign_user_role : String → String → Tables → Option (Unit {0} × Tables)
assign_user_role user_id role_id db =
    if has_user_role user_id role_id db
    then some (tt, db)
    else if user_role_refers user_id role_id db
    then some (tt, with_user_role user_id role_id db)
    else none

unfoldable pub assign_role : {E : Env} → String → String → Action E (Unit {0})
assign_role user_id role_id = sql (assign_user_role user_id role_id)

unfoldable pub remove_role : {E : Env} → String → String → Action E (Unit {0})
remove_role user_id role_id = sql (λ db. some (
  tt,
  record db {
    user_roles = select (λ ur. not (ur.user_id == user_id && ur.role_id == role_id)) db.user_roles;
  },
))

-- SELECT ... FROM roles r JOIN user_roles ur ON ur.role_id = r.id WHERE ur.user_id = $1. By its
-- primary key, user_roles has at most one row for a role of a user.
abbrev pub roles_of : String → Tables → List Role
roles_of user_id db = select (λ r. has_user_role user_id r.id db) db.roles

unfoldable pub get_roles : {E : Env} → String → Action E (List Role)
get_roles user_id = sql (λ db. some (roles_of user_id db, db))

unfoldable pub without_user_roles : String → Tables → Tables
without_user_roles user_id db = record db {
  user_roles = select (λ ur. not (ur.user_id == user_id)) db.user_roles;
}

-- INSERT INTO user_roles, with the primary key and the foreign keys.
unfoldable pub insert_user_role : String → String → Tables → Option (Unit {0} × Tables)
insert_user_role user_id role_id db =
    if not (has_user_role user_id role_id db) && user_role_refers user_id role_id db
    then some (tt, with_user_role user_id role_id db)
    else none

unfoldable pub set_roles : {E : Env} → String → List String → Action E (Unit {0})
set_roles user_id role_ids = transaction (do
  sql (λ db. some (tt, without_user_roles user_id db))
  for_each (λ role_id. sql (insert_user_role user_id role_id)) role_ids)

unfoldable pub update_last_login : {E : Env} → String → Action E (Unit {0})
update_last_login user_id = do
  t ← now
  sql (λ db. some (
    tt,
    record db {
      users = map (λ u. if u.id == user_id then record u { updated_at = t } else u) db.users;
    },
  ))
