-- ===== src/Middleware/Permission/Laws.antt =====
-- `RequirePermission` lets a request pass exactly for a permission that the roles of the user give.
use go_lang_domain_based_ent.External.{Env, IsReliable}
use go_lang_domain_based_ent.Middleware.{next}
use go_lang_domain_based_ent.Middleware.Permission.{
  Identity, absent, has_permission, is_asked, ok, other, query_permission, require_permission,
  role_gives, user_role_gives, uuid,
}
use go_lang_domain_based_ent.Prelude.{
  In, String, and_of, and_right, any_of, any_witness, arith, refl, true, ◌==◌, ◌↔◌, ◌≡◌, ◌≢◌,
}
use go_lang_domain_based_ent.Schema.{Permission, RolePermission, Tables, UserRole}
use go_lang_domain_based_ent.World.{World, ◌>>=◌}

-- A role of the user, a permission of that role, and the action and the resource of it.
pub record Grant (user_id action resource : String) (db : Tables) : Type 0 where
  pub user_role : UserRole
  pub role_permission : RolePermission
  pub permission : Permission
  pub has_role : In user_role db.user_roles
  pub has_permission : In role_permission db.role_permissions
  pub exists : In permission db.permissions
  pub of_user : user_role.user_id ≡ user_id
  pub of_role : role_permission.role_id ≡ user_role.role_id
  pub of_permission : permission.id ≡ role_permission.permission_id
  pub of_action : permission.action ≡ action
  pub of_resource : permission.resource ≡ resource

has_permission-Grant :
    (user_id action resource : String) (db : Tables)
    → has_permission user_id action resource db ≡ true
    → Grant user_id action resource db
unfolding has_permission
has_permission-Grant user_id action resource db h =
    let (ur, in_ur, e) = any_witness (user_role_gives user_id action resource db) db.user_roles h in
    let (rp, in_rp, f) =
      any_witness (role_gives action resource db ur) db.role_permissions
        (and_right (ur.user_id == user_id) _ e) in
    let (p, in_p, g) =
      any_witness (is_asked action resource rp) db.permissions
        (and_right (ur.role_id == rp.role_id) _ f) in
    record {
      user_role = ur;
      role_permission = rp;
      permission = p;
      has_role = in_ur;
      has_permission = in_rp;
      exists = in_p;
      of_user = ground arith;
      of_role = ground arith;
      of_permission = ground arith;
      of_action = ground arith;
      of_resource = ground arith;
    }

Grant-has_permission :
    (user_id action resource : String) (db : Tables)
    → Grant user_id action resource db
    → has_permission user_id action resource db ≡ true
unfolding has_permission
Grant-has_permission user_id action resource db g = any_of _ g.user_role db.user_roles g.has_role (
    and_of (ground arith) (
      any_of _ g.role_permission db.role_permissions g.has_permission
        (and_of (ground arith) (any_of _ g.permission db.permissions g.exists (ground arith)))))

module _ {E : Env} where
  -- Where the query does not fail, a request of a user passes if and only if a role of the user
  -- has a permission with this action and this resource.
  pub require_permission_iff :
      (action resource user_id : String) (w : World E)
      → IsReliable E
      → ((require_permission action resource (uuid user_id) w).0 ≡ ok next)
        ↔ Grant user_id action resource w.db
  unfolding require_permission query_permission ◌>>=◌
  require_permission_iff action resource user_id w up = (
    λ h. has_permission-Grant user_id action resource w.db (ground (arith, up.at w.calls)),
    λ g. rw (up.at w.calls) (rw (Grant-has_permission user_id action resource w.db g) refl),
  )

  -- Where the query fails, or there is no identity, nobody passes.
  require_permission_closed :
      (action resource : String) (identity : Identity) (w : World E)
      → E.fails w.calls ≡ true
      → (require_permission action resource identity w).0 ≢ ok next
  unfolding require_permission query_permission ◌>>=◌
  require_permission_closed action resource absent w down = ground arith
  require_permission_closed action resource other w down = ground arith
  require_permission_closed action resource (uuid user_id) w down = ground arith

  -- A request passes only with the identity of a user who has a grant.
  pub require_permission-Grant :
      (action resource user_id : String) (w : World E)
      → (require_permission action resource (uuid user_id) w).0 ≡ ok next
      → Grant user_id action resource w.db
  unfolding require_permission query_permission ◌>>=◌
  require_permission-Grant action resource user_id w passed =
      has_permission-Grant user_id action resource w.db (ground arith)
