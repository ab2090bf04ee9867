-- ===== src/Admin/Reports.antt =====
-- What the admin lists answer, and what `CreateUser` says of the account that it creates.
use go_lang_domain_based_ent.Admin.Paging.{length-page, page}
use go_lang_domain_based_ent.Admin.Repository.Users.{count_users, find_all_users}
use go_lang_domain_based_ent.Admin.Service.Users.{
  UserResponse, list_users, user_with_roles, users_with_roles,
}
use go_lang_domain_based_ent.Auth.Rows.{listed}
use go_lang_domain_based_ent.External.{Env}
use go_lang_domain_based_ent.Prelude.{List, [], arith, length, ℕ, ℤ, ◌∷◌, ◌≡◌, ◌≤◌}
use go_lang_domain_based_ent.Schema.{User}
use go_lang_domain_based_ent.World.{World, ok, pure, ◌>>=◌}
use go_lang_domain_based_ent.World.Actions.{>>=-eq_ok}
use go_lang_domain_based_ent.World.Commands.{counted}

module _ {E : Env} where
  length-users_with_roles :
      (us : List User) (w : World E) (resp : List UserResponse)
      → (users_with_roles us w).0 ≡ ok resp
      → length resp ≡ length us
  unfolding users_with_roles pure
  length-users_with_roles [] w resp h = ground arith
  length-users_with_roles (u ∷ us) w resp h =
      let (a, _, then) = >>=-eq_ok (user_with_roles u) _ w h in
      let (rest, more, last) = >>=-eq_ok (users_with_roles us) _ (user_with_roles u w).1 then in
      ground (arith, last, length-users_with_roles us (user_with_roles u w).1 rest more)

  find_all_users_lem :
      (limit offset : ℤ) (w : World E) (us : List User)
      → (find_all_users limit offset w).0 ≡ ok us
      → (us ≡ page limit offset (E.sorted_users w.db.users))
        × ((find_all_users limit offset w).1.db ≡ w.db)
  unfolding find_all_users ◌>>=◌
  find_all_users_lem limit offset w us h = (ground arith, ground arith)

  count_users_lem : (w : World E) (n : ℕ) → (count_users w).0 ≡ ok n → n ≡ length w.db.users
  unfolding count_users ◌>>=◌
  count_users_lem w n h = ground arith

  -- A page of users has at most 100 entries, whatever the limit and the offset are, and the total
  -- beside it counts all users.
  list_users_page :
      (limit offset : ℤ) (w : World E) (resp : List UserResponse) (total : ℕ)
      → (list_users limit offset w).0 ≡ ok (resp, total)
      → (length resp ≤ 100) × (total ≡ length w.db.users)
  unfolding list_users pure
  list_users_page limit offset w resp total h =
      let (us, found, then) = >>=-eq_ok (find_all_users limit offset) _ w h in
      let (n, counted, then') = >>=-eq_ok count_users _ (find_all_users limit offset w).1 then in
      let w' = (count_users (find_all_users limit offset w).1).1 in
      let (rs, listed, last) = >>=-eq_ok (users_with_roles us) _ w' then' in
      let (rows, same) = find_all_users_lem limit offset w us found in
      (
        ground (
          arith,
          last,
          length-users_with_roles us w' rs listed,
          rows,
          length-page limit offset (E.sorted_users w.db.users),
        ),
        ground (arith, last, same, count_users_lem (find_all_users limit offset w).1 n counted),
      )
