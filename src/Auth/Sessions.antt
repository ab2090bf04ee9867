-- ===== src/Auth/Sessions.antt =====
-- The session limit of `enforceSessionLimit`, on the statement and after issuing tokens.
use mathlib.Core.Logic.{∥∥₁_elim}
use native.Mathlib.Bridge.{le_prop}
use go_lang_domain_based_ent.Auth.Frames.{generate_access_token-Keeps, generate_refresh_token-Keeps}
use go_lang_domain_based_ent.Auth.Repository.{
  create_session, insert_refresh_token, insert_session, newest_ids, session_fits, sessions_of,
  without_old_sessions, without_orphans,
}
use go_lang_domain_based_ent.Auth.Rows.{
  All-select, In-perm, In-select, In-select_of, UniqueIds, any-append_none, eq_of_id, kept_newer,
  length-ids-le, length-le_of_listed, listed, select-UniqueIds,
}
use go_lang_domain_based_ent.Auth.Tokens.{
  AuthResponse, Config, enforce_session_limit, generate_tokens, store_refresh_token,
}
use go_lang_domain_based_ent.External.{Env, IsOrder, IsReliable}
use go_lang_domain_based_ent.Prelude.{
  Bool-cases, In, List, String, [], any, arith, false, inl, inr, length, lt→ltb, not, refl, some,
  true, ℕ, ◌&&◌, ◌++◌, ◌<◌, ◌==◌, ◌||◌, ◌∷◌, ◌≡◌, ◌≤◌, ◌⊎◌,
}
use go_lang_domain_based_ent.Schema.{RefreshToken, Session, Tables, User}
use go_lang_domain_based_ent.World.{World, ok, sql}
use go_lang_domain_based_ent.World.Actions.{
  Ensures, Ensures-rest, Ensures-sql, Ensures-then, Keeps, Keeps-attempt, Keeps-pure, Keeps-sql,
  Keeps-wrap, Leaves-if, keeps_rules,
}
use mathlib.Core.List.Permᴰ as PermD

module _ (E : Env) (u : String) (n : ℕ) (db : Tables) where
  abbrev kept : List String
  kept = newest_ids E u n db

  -- A row of the user that the statement leaves has one of the newest ids.
  kept-listed :
      (s : Session)
      → (s.user_id == u) ≡ true
      → not (s.user_id == u && not (listed kept s)) ≡ true
      → listed kept s ≡ true
  kept-listed s a b = ground arith

  -- The statement leaves the user at most `n` sessions.
  pub length-without_old_sessions :
      UniqueIds db.sessions → length (sessions_of u (without_old_sessions E u n db)) ≤ n
  unfolding without_old_sessions newest_ids
  length-without_old_sessions unique = omega (
    arith,
    length-le_of_listed kept (sessions_of u (without_old_sessions E u n db))
        (select-UniqueIds _ _ (select-UniqueIds _ db.sessions unique))
        (All-select _ _ (listed kept) db.sessions kept-listed),
    length-ids-le n (E.newest_first (sessions_of u db)),
  )

  -- A session of the user that the statement leaves is no older than one that it removes.
  pub without_old_sessions_newest :
      (s d : Session)
      → IsOrder E
      → UniqueIds db.sessions
      → In s (sessions_of u (without_old_sessions E u n db))
      → In d (sessions_of u db)
      → ¬ In d (sessions_of u (without_old_sessions E u n db))
      → d.last_accessed_at ≤ s.last_accessed_at
  unfolding without_old_sessions newest_ids
  without_old_sessions_newest s d order unique hs hd gone =
      ∥∥₁_elim (order.perm (sessions_of u db)) le_prop λ p.
        kept_newer n (E.newest_first (sessions_of u db)) s d (order.descending (sessions_of u db))
          (λ x hx e.
            eq_of_id x s db.sessions unique
              (In-select (λ r. r.user_id == u) x db.sessions (In-perm x p hx)).0 (mine s hs).0 e)
          (In-perm d (PermD.symm p) hd) (kept-listed s (mine s hs).1.0 (mine s hs).1.1)
          (dropped (Bool-cases (listed kept d)))
    where
      mine :
          (x : Session)
          → In x (sessions_of u (without_old_sessions E u n db))
          → In x db.sessions
            × (((x.user_id == u) ≡ true) × (not (x.user_id == u && not (listed kept x)) ≡ true))
      mine x h =
          let a = In-select (λ r. r.user_id == u) x _ h in
          let b = In-select (λ r. not (r.user_id == u && not (listed kept r))) x db.sessions a.0 in
          (b.0, (a.1, b.1))

      dropped : (listed kept d ≡ true) ⊎ (listed kept d ≡ false) → listed kept d ≡ false
      dropped (inr e) = e
      dropped (inl e) =
          let own = In-select (λ r. r.user_id == u) d db.sessions hd in
          absurd
            (gone (In-select_of _ d _ (In-select_of _ d db.sessions own.0 (ground arith)) own.1))

-- The ids of the sessions are unique: the primary key of the table.
abbrev pub HasUniqueIds : Tables → Type 0
HasUniqueIds db = UniqueIds db.sessions

-- The user has at most `n` sessions.
abbrev pub IsWithin : String → ℕ → Tables → Type 0
IsWithin u n db = length (sessions_of u db) ≤ n

append-UniqueIds :
    (s : Session) (l : List Session)
    → any (λ r. r.id == s.id || r.refresh_token_hash == s.refresh_token_hash) l ≡ false
    → UniqueIds l
    → UniqueIds (l ++ s ∷ [])
append-UniqueIds s [] h u = (refl, tt)
append-UniqueIds s (r ∷ l) h (new, u) = (
  any-append_none (λ t. t.id == r.id) l s new (ground arith),
  append-UniqueIds s l (ground arith) u,
)

module _ {E : Env} where
  HasUniqueIds-insert_session :
      (s : Session) → Keeps {E = E} HasUniqueIds (sql (insert_session E s))
  unfolding insert_session session_fits
  HasUniqueIds-insert_session s = Keeps-sql _ λ db h. elim (Bool-cases (session_fits E s db)) [
    | inl fits ↦ rw fits (append-UniqueIds s db.sessions (ground arith) h)
    | inr bad ↦ rw bad tt
  ]

  pub create_session-HasUniqueIds : (s : Session) → Keeps {E = E} HasUniqueIds (create_session s)
  unfolding create_session
  create_session-HasUniqueIds s = search (keeps_rules, HasUniqueIds-insert_session)

  HasUniqueIds-insert_refresh_token :
      (r : RefreshToken) → Keeps {E = E} HasUniqueIds (sql (insert_refresh_token E r))
  unfolding insert_refresh_token
  HasUniqueIds-insert_refresh_token r = Keeps-sql _ λ db h. Leaves-if HasUniqueIds _ _ _ h

  store_refresh_token-HasUniqueIds :
      (u hash device_id ip_address : String) (expires_at : ℕ)
      → Keeps {E = E} HasUniqueIds (store_refresh_token u hash device_id ip_address expires_at)
  unfolding store_refresh_token
  store_refresh_token-HasUniqueIds u hash device_id ip_address expires_at =
      search (keeps_rules, HasUniqueIds-insert_refresh_token)

  IsWithin-orphans :
      (v u : String) (n t : ℕ)
      → Keeps {E = E} (IsWithin v n) (sql (λ db. some (tt, without_orphans u t db)))
  unfolding without_orphans
  IsWithin-orphans v u n t = Keeps-sql _ λ db h. h

  enforce_session_limit-Ensures :
      (cfg : Config) (u : String)
      → IsReliable E
      → 0 < cfg.max_active_sessions
      → Ensures {E = E} HasUniqueIds
          (IsWithin u cfg.max_active_sessions)
          (enforce_session_limit cfg u)
  unfolding enforce_session_limit
  enforce_session_limit-Ensures cfg u up pos = rw (lt→ltb 0 cfg.max_active_sessions pos) (
      Ensures-then _ _
        (Ensures-sql {E = E} (without_old_sessions E u cfg.max_active_sessions) up
          λ db h. length-without_old_sessions E u cfg.max_active_sessions db h)
        λ r. search (keeps_rules, IsWithin-orphans))

  -- Where no call fails and the limit is at least one, a user who is given tokens has at most
  -- the configured number of sessions.
  pub generate_tokens_limit :
      (cfg : Config) (user : User) (device_id ip_address user_agent : String) (w : World E)
      (r : AuthResponse)
      → IsReliable E
      → 0 < cfg.max_active_sessions
      → UniqueIds w.db.sessions
      → (generate_tokens cfg user device_id ip_address user_agent w).0 ≡ ok r
      → length
          (sessions_of user.id (generate_tokens cfg user device_id ip_address user_agent w).1.db)
        ≤ cfg.max_active_sessions
  unfolding generate_tokens
  generate_tokens_limit cfg user device_id ip_address user_agent w r up pos unique done =
      let work : Ensures {E = E} HasUniqueIds (IsWithin user.id cfg.max_active_sessions)
          (generate_tokens cfg user device_id ip_address user_agent) =
        Ensures-rest _ _ (generate_access_token-Keeps _ _ _) λ access.
          Ensures-rest _ _ (generate_refresh_token-Keeps _ _) λ refresh.
            Ensures-rest _ _ (Keeps-wrap _ _ (store_refresh_token-HasUniqueIds _ _ _ _ _)) λ stored.
              Ensures-rest _ _ (Keeps-attempt _ (create_session-HasUniqueIds _)) λ created.
                Ensures-then _ _ (enforce_session_limit-Ensures cfg user.id up pos)
                  λ done. Keeps-pure _ in
      work.at w unique r done
