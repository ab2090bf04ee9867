-- ===== src/Admin/Service/Users.antt =====
-- internal/modules/admin/service/admin_service.go, "User management".
use go_lang_domain_based_ent.Admin.Repository.Users.{
  assign_role, count_users, find_all_users, get_roles, set_roles,
}
use go_lang_domain_based_ent.Auth.Repository.{create_user, find_user_by_email, find_user_by_id}
use go_lang_domain_based_ent.Auth.Service.{hash_password, row_or_nil}
use go_lang_domain_based_ent.External.{Env}
use go_lang_domain_based_ent.Prelude.{
  Bool, List, Option, String, [], false, if◌then◌else◌, map, none, some, true, ℕ, ℤ, ◌∷◌,
}
use go_lang_domain_based_ent.Schema.{Role, User}
use go_lang_domain_based_ent.World.{
  Action, Result, attempt, err, message, ok, pure, throw, wrap, ◌>>=◌, ◌>>◌,
}
use go_lang_domain_based_ent.World.Commands.{or_zero}

pub record RoleInfo : Type 0 where
  pub id : String
  pub name : String
  pub category : String
  pub description : String

pub record UserResponse : Type 0 where
  pub id : String
  pub email : String
  pub full_name : String
  pub is_active : Bool
  pub roles : List RoleInfo
  pub created_at : ℕ

pub record CreateUserRequest : Type 0 where
  pub email : String
  pub password : String
  pub full_name : String
  pub role_ids : List String

abbrev pub role_info : Role → RoleInfo
role_info r = record {
  id = r.id;
  name = r.name;
  category = r.category;
  description = r.description;
}

abbrev pub user_response : User → List Role → UserResponse
user_response u roles = record {
  id = u.id;
  email = u.email;
  full_name = u.full_name;
  is_active = u.is_active;
  roles = map role_info roles;
  created_at = u.created_at;
}

-- A user with the roles, where an error of the query for them is dropped.
unfoldable pub user_with_roles : {E : Env} → User → Action E UserResponse
user_with_roles u = do roles ← attempt (get_roles u.id); pure (user_response u (or_zero [] roles))

unfoldable pub users_with_roles : {E : Env} → List User → Action E (List UserResponse)
users_with_roles [] = pure []
users_with_roles (u ∷ us) = do
  first ← user_with_roles u
  rest ← users_with_roles us
  pure (first ∷ rest)

unfoldable pub list_users : {E : Env} → ℤ → ℤ → Action E (List UserResponse × ℕ)
list_users limit offset = do
  users ← find_all_users limit offset
  total ← count_users
  resp ← users_with_roles users
  pure (resp, total)

-- `FindByEmail` returns a user beside its error too.
abbrev pub is_found : Result (Option User) → Bool
is_found (ok none) = false
is_found (ok (some u)) = true
is_found (err e) = true

-- A text that is no UUID is passed over, and so is an error of the statement.
unfoldable pub assign_parsed : {E : Env} → String → Option String → Action E (Unit {0})
assign_parsed user_id none = pure tt
assign_parsed user_id (some role_id) = do attempt (assign_role user_id role_id); pure tt

unfoldable pub assign_roles_of : {E : Env} → String → List String → Action E (Unit {0})
assign_roles_of user_id [] = pure tt
assign_roles_of {E} user_id (text ∷ texts) = do
  assign_parsed user_id (E.parse_uuid text)
  assign_roles_of user_id texts

-- What `Scan` sets of the user that is created: the id and the times. `IsActive` stays false.
abbrev pub new_user : String → String → String → User
new_user email hash full_name = record {
  id = "";
  email = email;
  password_hash = hash;
  full_name = full_name;
  is_active = false;
  created_at = 0;
  updated_at = 0;
}

unfoldable pub create_new_user : {E : Env} → CreateUserRequest → Action E UserResponse
create_new_user req = do
  hash ← hash_password req.password
  user ← wrap "failed to create user" (create_user (new_user req.email hash req.full_name))
  assign_roles_of user.id req.role_ids
  user_with_roles user

-- `CreateUser` of the service.
unfoldable pub admin_create_user : {E : Env} → CreateUserRequest → Action E UserResponse
admin_create_user req = do
  existing ← attempt (find_user_by_email req.email)
  if is_found existing then throw (message "email already exists") else create_new_user req

unfoldable pub assign_roles : {E : Env} → String → List String → Action E (Unit {0})
assign_roles user_id role_ids = set_roles user_id role_ids

unfoldable pub get_found_user : {E : Env} → Option User → Action E UserResponse
get_found_user none = throw (message "user not found")
get_found_user (some u) = user_with_roles u

unfoldable pub get_user : {E : Env} → String → Action E UserResponse
get_user id = do found ← attempt (find_user_by_id id); get_found_user (row_or_nil found)
