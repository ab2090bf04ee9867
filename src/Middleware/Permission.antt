-- ===== src/Middleware/Permission.antt =====
-- internal/middleware/rbac.go: `RequirePermission`.
use go_lang_domain_based_ent.External.{Env}
use go_lang_domain_based_ent.Middleware.{Verdict, abort, next}
use go_lang_domain_based_ent.Prelude.{
  Bool, String, any, false, if◌then◌else◌, not, some, ◌&&◌, ◌==◌,
}
use go_lang_domain_based_ent.Schema.{Permission, RolePermission, Tables, UserRole}
use go_lang_domain_based_ent.World.{Action, attempt, err, ok, pure, sql, ◌>>=◌, ◌>>◌}
use go_lang_domain_based_ent.World.Commands.{or_zero}
pub mod Laws

-- What the context of a request holds under "userID".
pub data Identity : Type 0 where
  absent : Identity
  uuid : String → Identity
  other : Identity

-- SELECT EXISTS(SELECT 1 FROM user_roles ur JOIN role_permissions rp ON ur.role_id = rp.role_id
-- JOIN permissions p ON p.id = rp.permission_id WHERE ur.user_id = $1 AND p.action = $2
-- AND p.resource = $3), one test for each table.
abbrev pub is_asked : String → String → RolePermission → Permission → Bool
is_asked action resource rp p =
    p.id == rp.permission_id && (p.action == action && p.resource == resource)

abbrev pub role_gives : String → String → Tables → UserRole → RolePermission → Bool
role_gives action resource db ur rp =
    ur.role_id == rp.role_id && any (is_asked action resource rp) db.permissions

abbrev pub user_role_gives : String → String → String → Tables → UserRole → Bool
user_role_gives user_id action resource db ur =
    ur.user_id == user_id && any (role_gives action resource db ur) db.role_permissions

unfoldable pub has_permission : String → String → String → Tables → Bool
has_permission user_id action resource db =
    any (user_role_gives user_id action resource db) db.user_roles

unfoldable pub query_permission : {E : Env} → String → String → String → Action E Bool
query_permission user_id action resource =
    sql (λ db. some (has_permission user_id action resource db, db))

unfoldable pub require_permission : {E : Env} → String → String → Identity → Action E Verdict
require_permission action resource absent = pure (abort 401 "user not authenticated")
require_permission action resource other = pure (abort 401 "invalid user identity")
require_permission action resource (uuid user_id) = do
  allowed ← attempt (query_permission user_id action resource)
  if or_zero false allowed then pure next else pure (abort 403 "insufficient permissions")
