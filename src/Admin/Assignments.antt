-- ===== src/Admin/Assignments.antt =====
-- `SetRoles` and `AssignPermissions` replace the assignments of a user or a role as a whole.
use mathlib.Core.List.{append-nil, append_assoc}
use go_lang_domain_based_ent.Admin.Repository.Users.{
  insert_user_role, set_roles, with_user_role, without_user_roles,
}
use go_lang_domain_based_ent.Admin.Service.Users.{assign_roles}
use go_lang_domain_based_ent.External.{Env}
use go_lang_domain_based_ent.Prelude.{
  Bool-cases, List, String, [], ap, arith, inl, inr, map, not, refl, select, some, sym, ◌++◌, ◌+◌,
  ◌==◌, ◌∙◌, ◌∷◌, ◌≡◌, ◌⊎◌,
}
use go_lang_domain_based_ent.Schema.{Tables, UserRole}
use go_lang_domain_based_ent.World.{Action, Failure, Result, World, err, ok, pure, sql, ◌>>=◌, ◌>>◌}
use go_lang_domain_based_ent.World.Actions.{>>=-eq_ok, >>=-of_ok, err_not_ok}
use go_lang_domain_based_ent.World.Transactions.{close_transaction, for_each, transaction}

module _ {E : Env} where
  -- What a transaction that returned an error may have left.
  abbrev LostOr : {A : Type 0} → Tables → Result A × World E → Tables → Type 0
  LostOr {A} db r after = (after ≡ db) ⊎ ((a : A) × (r.0 ≡ ok a) × (after ≡ r.1.db))

  close_transaction-LostOr :
      {A : Type 0} (db : Tables) (r : Result A × World E) (e : Failure)
      → (close_transaction db r).0 ≡ err e
      → LostOr db r (close_transaction db r).1.db
  close_transaction-LostOr db (ok a, w) e h = elim (Bool-cases (E.fails w.calls)) [
    | inl down ↦ elim (Bool-cases (E.commits w.calls)) [
      | inl kept ↦ rw (down, kept) (inr (a, refl, refl))
      | inr lost ↦ rw (down, lost) (inl refl)
    ]
    | inr up ↦ absurd (err_not_ok (sym (rw up at h)))
  ]
  close_transaction-LostOr db (err f, w) e h = inl refl

  close-eq_ok :
      {A : Type 0} (db : Tables) (r : Result A × World E) (a : A)
      → (close_transaction db r).0 ≡ ok a
      → (r.0 ≡ ok a) × ((close_transaction db r).1.db ≡ r.1.db)
  close-eq_ok db (ok b, w) a h = ground arith
  close-eq_ok db (err f, w) a h = ground arith

  transaction-LostOr :
      {A : Type 0} (m : Action E A) (w : World E) (e : Failure)
      → (transaction m w).0 ≡ err e
      → LostOr w.db (m (record w { calls = w.calls + 1 })) (transaction m w).1.db
  unfolding transaction
  transaction-LostOr m w e h = elim (Bool-cases (E.fails w.calls)) [
    | inl down ↦ rw down (inl refl)
    | inr up ↦ rw up (close_transaction-LostOr w.db _ e (rw up at h))
  ]

  transaction-eq_ok :
      {A : Type 0} (m : Action E A) (w : World E) (a : A)
      → (transaction m w).0 ≡ ok a
      → ((m (record w { calls = w.calls + 1 })).0 ≡ ok a)
        × ((transaction m w).1.db ≡ (m (record w { calls = w.calls + 1 })).1.db)
  unfolding transaction
  transaction-eq_ok m w a h =
      ground (arith, close-eq_ok w.db (m (record w { calls = w.calls + 1 })) a)

abbrev pub user_role : String → String → UserRole
user_role user_id role_id = record { user_id = user_id; role_id = role_id }

-- The tables with these roles, and no others, for a user.
abbrev pub with_roles : String → List String → Tables → Tables
with_roles user_id role_ids db = record db {
  user_roles =
      select (λ ur. not (ur.user_id == user_id)) db.user_roles ++ map (user_role user_id) role_ids;
}

abbrev added : String → List String → Tables → Tables
added user_id role_ids db = record db {
  user_roles = db.user_roles ++ map (user_role user_id) role_ids;
}

append_row :
    (db : Tables) (x : UserRole) (xs : List UserRole)
    → ◌≡◌ {A = Tables}
        (record db { user_roles = (db.user_roles ++ x ∷ []) ++ xs })
        (record db { user_roles = db.user_roles ++ x ∷ xs })
append_row db x xs = ap (λ l. record db { user_roles = l }) (append_assoc db.user_roles (x ∷ []) xs)

module _ {E : Env} where
  insert_one :
      (user_id role_id : String) (w : World E)
      → (sql (insert_user_role user_id role_id) w).0 ≡ ok tt
      → (sql (insert_user_role user_id role_id) w).1.db ≡ with_user_role user_id role_id w.db
  unfolding insert_user_role ◌>>=◌
  insert_one user_id role_id w h = ground arith

  clear_all :
      (user_id : String) (w : World E)
      → (sql {E = E} (λ db. some (tt, without_user_roles user_id db)) w).0 ≡ ok tt
      → (sql {E = E} (λ db. some (tt, without_user_roles user_id db)) w).1.db
        ≡ without_user_roles user_id w.db
  unfolding ◌>>=◌
  clear_all user_id w h = ground arith

  insert_all :
      (user_id : String) (role_ids : List String) (w : World E)
      → (for_each (λ role_id. sql (insert_user_role user_id role_id)) role_ids w).0 ≡ ok tt
      → (for_each (λ role_id. sql (insert_user_role user_id role_id)) role_ids w).1.db
        ≡ added user_id role_ids w.db
  unfolding for_each pure
  insert_all user_id [] w h =
      ap (λ l. record w.db { user_roles = l }) (sym (append-nil w.db.user_roles))
  insert_all user_id (r ∷ rs) w h =
      let statement = sql (insert_user_role user_id r) in
      let (u, first, rest) = >>=-eq_ok statement _ w h in
      ap (λ p. p.1.db) (>>=-of_ok statement _ w first)
      ∙ insert_all user_id rs (statement w).1 rest
      ∙ ap (added user_id rs) (insert_one user_id r w first)
      ∙ append_row w.db (user_role user_id r) (map (user_role user_id) rs)

  -- The statements of `SetRoles`, where they succeed.
  statements_exact :
      (user_id : String) (role_ids : List String) (w : World E)
      → ((do
        sql (λ db. some (tt, without_user_roles user_id db))
        for_each (λ role_id. sql (insert_user_role user_id role_id)) role_ids)
          w).0
        ≡ ok tt
      → ((do
        sql (λ db. some (tt, without_user_roles user_id db))
        for_each (λ role_id. sql (insert_user_role user_id role_id)) role_ids)
          w).1.db
        ≡ with_roles user_id role_ids w.db
  unfolding without_user_roles
  statements_exact user_id role_ids w h =
      let statement = sql {E = E} (λ db. some (tt, without_user_roles user_id db)) in
      let (u, first, rest) = >>=-eq_ok statement _ w h in
      ap (λ p. p.1.db) (>>=-of_ok statement _ w first)
      ∙ insert_all user_id role_ids (statement w).1 rest
      ∙ ap (added user_id role_ids) (clear_all user_id w first)

  -- `AssignRoles` that succeeds leaves the user with exactly the roles that it is given, each once
  -- in their order, and changes nothing else.
  pub assign_roles_exact :
      (user_id : String) (role_ids : List String) (w : World E)
      → (assign_roles user_id role_ids w).0 ≡ ok tt
      → (assign_roles user_id role_ids w).1.db ≡ with_roles user_id role_ids w.db
  unfolding assign_roles set_roles without_user_roles
  assign_roles_exact user_id role_ids w h =
      let (done, same) = transaction-eq_ok _ w tt h in
      same ∙ statements_exact user_id role_ids (record w { calls = w.calls + 1 }) done

  -- `AssignRoles` that returns an error leaves the tables as they were, or, where the answer to its
  -- Commit was lost, exactly as it would have left them without the error: the user never has a part
  -- of the roles only.
  pub assign_roles_atomic :
      (user_id : String) (role_ids : List String) (w : World E) (e : Failure)
      → (assign_roles user_id role_ids w).0 ≡ err e
      → ((assign_roles user_id role_ids w).1.db ≡ w.db)
        ⊎ ((assign_roles user_id role_ids w).1.db ≡ with_roles user_id role_ids w.db)
  unfolding assign_roles set_roles
  assign_roles_atomic user_id role_ids w e h = elim (transaction-LostOr _ w e h) [
    | inl same ↦ inl same
    | inr (a, done, same) ↦
        inr (same ∙ statements_exact user_id role_ids (record w { calls = w.calls + 1 }) done)
  ]
