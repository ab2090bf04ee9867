-- ===== src/Auth/Rotation.antt =====
-- `RefreshToken` uses up the token that it is given.
use go_lang_domain_based_ent.Auth.Frames.{generate_access_token-Keeps, generate_refresh_token-Keeps}
use go_lang_domain_based_ent.Auth.Repository.{
  create_session, delete_session_by_refresh_hash, find_refresh_token, find_user_by_id,
  insert_refresh_token, insert_session, without_old_sessions, without_orphans, without_refresh_id,
  without_session_hash,
}
use go_lang_domain_based_ent.Auth.Rows.{any-append_none, any-select_none}
use go_lang_domain_based_ent.Auth.Service.{refresh_found, refresh_token, refresh_user, row_or_nil}
use go_lang_domain_based_ent.Auth.Tokens.{
  AuthResponse, Config, enforce_session_limit, generate_tokens, store_refresh_token,
}
use go_lang_domain_based_ent.External.{Env, IsReliable}
use go_lang_domain_based_ent.Prelude.{
  Bool-cases, List, Option, String, [], any, arith, eq_self, false, find?, inl, inr, ltb, none, not,
  refl, select, some, subst, sym, ℕ, ◌==◌, ◌∙◌, ◌∷◌, ◌≡◌, ◌≢◌,
}
use go_lang_domain_based_ent.Schema.{RefreshToken, Session, Tables, User}
use go_lang_domain_based_ent.World.{Result, World, err, message, ok, sql, ◌>>=◌}
use go_lang_domain_based_ent.World.Actions.{
  Ensures-sql, Keeps, Keeps-attempt, Keeps-now, Keeps-sql, Keeps-wrap, Leaves-if, keeps_rules,
}
use go_lang_domain_based_ent.World.Yields.{
  Yields, Yields-after, Yields-bind, Yields-of_Ensures, Yields-of_Keeps, Yields-pure, Yields-query,
  Yields-throw, Yields-weaken,
}

-- The hashes of the refresh tokens are unique: a constraint of their table.
abbrev pub UniqueHashes : List RefreshToken → Type 0
UniqueHashes [] = Unit
UniqueHashes (r ∷ rest) = (any (λ q. q.token_hash == r.token_hash) rest ≡ false) × UniqueHashes rest

-- No row has this hash.
abbrev pub IsSpent : String → Tables → Type 0
IsSpent hash db = any (λ r. r.token_hash == hash) db.refresh_tokens ≡ false

-- Without the row that was found under a hash, no row has it.
spent :
    (hash : String) (token : RefreshToken) (l : List RefreshToken)
    → UniqueHashes l
    → find? (λ r. r.token_hash == hash) l ≡ some token
    → any (λ r. r.token_hash == hash) (select (λ r. not (r.id == token.id)) l) ≡ false
spent hash token [] u h = cc
spent hash token (r ∷ l) (new, u) h = elim (Bool-cases (r.token_hash == hash)) [
  | inl e ↦
      let same : some r ≡ some token = rw e at h in
      let here : r.token_hash ≡ hash = ground arith in
      let rest : any (λ q. q.token_hash == hash) l ≡ false = rw here at new in
      ground (
        arith,
        eq_self r.id,
        any-select_none (λ q. q.token_hash == hash) (λ q. not (q.id == token.id)) l rest,
      )
  | inr e ↦
      let later = spent hash token l u (rw e at h) in
      elim (Bool-cases (r.id == token.id)) [
        | inl gone ↦ rw gone later
        | inr kept ↦ rw (kept, e) later
      ]
]

find?-spent :
    (hash : String) (l : List RefreshToken)
    → any (λ r. r.token_hash == hash) l ≡ false
    → find? (λ r. r.token_hash == hash) l ≡ none
find?-spent hash [] h = refl
find?-spent hash (r ∷ l) h = ground (arith, find?-spent hash l)

-- Either the row has the hash, or the hash stays spent.
abbrev SpentUnless : String → String → Tables → Type 0
SpentUnless hash other db = other ≢ hash → IsSpent hash db

-- The row is that of the hash, and no other row has it.
abbrev Found : String → Option RefreshToken → Tables → Type 0
Found hash o db =
    UniqueHashes db.refresh_tokens
    × ((token : RefreshToken)
        → o ≡ some token
        → find? (λ r. r.token_hash == hash) db.refresh_tokens ≡ some token)

module _ {E : Env} (hash : String) where
  SpentUnless-insert_refresh_token :
      (r : RefreshToken)
      → Keeps {E = E} (SpentUnless hash r.token_hash) (sql (insert_refresh_token E r))
  unfolding insert_refresh_token
  SpentUnless-insert_refresh_token r = Keeps-sql _ λ db h.
      Leaves-if (SpentUnless hash r.token_hash) _ tt _ λ apart.
        any-append_none (λ q. q.token_hash == hash) db.refresh_tokens r (h apart) (ground arith)

  store_refresh_token-SpentUnless :
      (u other device_id ip_address : String) (expires_at : ℕ)
      → Keeps {E = E}
          (SpentUnless hash other)
          (store_refresh_token u other device_id ip_address expires_at)
  unfolding store_refresh_token
  store_refresh_token-SpentUnless u other device_id ip_address expires_at =
      search (keeps_rules, SpentUnless-insert_refresh_token)

  create_session-SpentUnless :
      (other : String) (s : Session) → Keeps {E = E} (SpentUnless hash other) (create_session s)
  unfolding create_session insert_session
  create_session-SpentUnless other s = search (keeps_rules, insert)
    where
      insert : (r : Session) → Keeps {E = E} (SpentUnless hash other) (sql (insert_session E r))
      insert r = Keeps-sql _ λ db h. Leaves-if (SpentUnless hash other) _ _ _ h

  enforce_session_limit-SpentUnless :
      (other : String) (cfg : Config) (u : String)
      → Keeps {E = E} (SpentUnless hash other) (enforce_session_limit cfg u)
  unfolding enforce_session_limit without_old_sessions without_orphans
  enforce_session_limit-SpentUnless other cfg u = search (keeps_rules, old, orphans) depth 9
    where
      old :
          (n : ℕ)
          → Keeps {E = E}
              (SpentUnless hash other)
              (sql (λ db. some (tt, without_old_sessions E u n db)))
      old n = Keeps-sql _ λ db h. h

      orphans :
          (t : ℕ)
          → Keeps {E = E} (SpentUnless hash other) (sql (λ db. some (tt, without_orphans u t db)))
      orphans t =
          Keeps-sql _
            λ db h apart. any-select_none (λ q. q.token_hash == hash) _ db.refresh_tokens (h apart)

  -- Issuing tokens leaves the hash spent, unless the new refresh token has it.
  generate_tokens-Yields :
      (cfg : Config) (user : User) (device_id ip_address user_agent : String)
      → Yields {E = E}
          (IsSpent hash)
          (λ r. SpentUnless hash (E.sha256_hex r.refresh_token))
          (generate_tokens cfg user device_id ip_address user_agent)
  unfolding generate_tokens
  generate_tokens-Yields cfg user device_id ip_address user_agent =
      Yields-after _ _ _ (generate_access_token-Keeps _ _ _) λ access.
        Yields-bind (λ refresh. SpentUnless hash (E.sha256_hex refresh.0)) _ _ _
          (Yields-of_Keeps _ _ (generate_refresh_token-Keeps _ _) λ a db h apart. h)
          λ refresh.
            Yields-after _ _ _ (Keeps-wrap _ _ (store_refresh_token-SpentUnless _ _ _ _ _))
              λ stored.
                Yields-after _ _ _ (Keeps-attempt _ (create_session-SpentUnless _ _)) λ created.
                  Yields-after _ _ _ (enforce_session_limit-SpentUnless _ cfg user.id)
                    λ limited. Yields-pure _ _ λ db h. h

  refresh_user-Yields :
      (cfg : Config) (device_id ip_address user_agent : String) (o : Option User)
      → Yields {E = E}
          (IsSpent hash)
          (λ r. SpentUnless hash (E.sha256_hex r.refresh_token))
          (refresh_user cfg device_id ip_address user_agent o)
  unfolding refresh_user
  refresh_user-Yields cfg device_id ip_address user_agent none = Yields-throw _ _
  refresh_user-Yields cfg device_id ip_address user_agent (some user) =
      generate_tokens-Yields cfg user device_id ip_address user_agent

  refresh_found-Yields :
      (cfg : Config) (device_id ip_address user_agent : String) (o : Option RefreshToken)
      → IsReliable E
      → Yields {E = E}
          (Found hash o)
          (λ r. SpentUnless hash (E.sha256_hex r.refresh_token))
          (refresh_found cfg hash device_id ip_address user_agent o)
  unfolding refresh_found delete_session_by_refresh_hash without_session_hash find_user_by_id
      without_refresh_id
  refresh_found-Yields cfg device_id ip_address user_agent none up = Yields-throw _ _
  refresh_found-Yields cfg device_id ip_address user_agent (some token) up =
      Yields-after _ _ _ (Keeps-now _) λ t. elim (Bool-cases (ltb token.expires_at t)) [
        | inl late ↦ rw late (
            Yields-bind (λ a db. Unit {0}) _ _ _ (record { at = λ w h a e. tt })
              λ a. Yields-throw _ _)
        | inr early ↦ rw early (
            Yields-after _ _ _ (Keeps-attempt _ (Keeps-sql _ λ db h. h)) λ a.
              Yields-bind (λ b. IsSpent hash) _ _ _
                (Yields-of_Ensures _ (
                  Ensures-sql _ up λ db h. spent hash token db.refresh_tokens h.0 (h.1 token refl)))
                λ b.
                  Yields-after _ _ _ (Keeps-attempt _ (Keeps-sql _ λ db h. h)) λ user.
                    refresh_user-Yields cfg device_id ip_address user_agent (row_or_nil user))
      ]

Found-row :
    (hash : String) (a : Result (Option RefreshToken)) (db : Tables)
    → UniqueHashes db.refresh_tokens
    → ((o : Option RefreshToken)
        → a ≡ ok o
        → o ≡ find? (λ r. r.token_hash == hash) db.refresh_tokens)
    → Found hash (row_or_nil a) db
Found-row hash (ok o) db u h = (u, λ token e. sym (h o refl) ∙ e)
Found-row hash (err e) db u h = (u, λ token f. cc)

module _ {E : Env} where
  refresh_token-Yields :
      (cfg : Config) (token device_id ip_address user_agent : String)
      → IsReliable E
      → Yields {E = E}
          (λ db. UniqueHashes db.refresh_tokens)
          (λ r. SpentUnless (E.sha256_hex token) (E.sha256_hex r.refresh_token))
          (refresh_token cfg token device_id ip_address user_agent)
  unfolding refresh_token find_refresh_token
  refresh_token-Yields cfg token device_id ip_address user_agent up =
      Yields-bind (λ a. Found (E.sha256_hex token) (row_or_nil a)) _ _ _
        (Yields-weaken _ _ _
          (Yields-query λ db. find? (λ r. r.token_hash == E.sha256_hex token) db.refresh_tokens)
          λ a db h. Found-row (E.sha256_hex token) a db h.0 h.1)
        λ a.
          refresh_found-Yields (E.sha256_hex token) cfg device_id ip_address user_agent
            (row_or_nil a) up

  -- A refresh with a hash that no row has is refused.
  refresh_token_spent :
      (cfg : Config) (token device_id ip_address user_agent : String) (w : World E)
      → IsSpent (E.sha256_hex token) w.db
      → ((refresh_token cfg token device_id ip_address user_agent w).0
          ≡ err (message "invalid refresh token"))
        × ((refresh_token cfg token device_id ip_address user_agent w).1.db ≡ w.db)
  unfolding refresh_token find_refresh_token refresh_found ◌>>=◌
  refresh_token_spent cfg token device_id ip_address user_agent w gone =
      elim (Bool-cases (E.fails w.calls)) [
        | inl down ↦ rw down (refl, refl)
        | inr up ↦ rw (up, find?-spent (E.sha256_hex token) w.db.refresh_tokens gone) (refl, refl)
      ]

  -- Where no call fails, a refresh that succeeds uses its token up: with the tables that it leaves,
  -- every later refresh with the same token is refused as invalid and changes no table. The hashes of
  -- the refresh tokens are unique, and the hash of the new token is not that of the old one.
  pub refresh_token_once :
      (cfg : Config) (token device_id ip_address user_agent : String)
      (again_device_id again_ip_address again_user_agent : String) (w later : World E)
      (r : AuthResponse)
      → IsReliable E
      → UniqueHashes w.db.refresh_tokens
      → (refresh_token cfg token device_id ip_address user_agent w).0 ≡ ok r
      → E.sha256_hex r.refresh_token ≢ E.sha256_hex token
      → later.db ≡ (refresh_token cfg token device_id ip_address user_agent w).1.db
      → ((refresh_token cfg token again_device_id again_ip_address again_user_agent later).0
          ≡ err (message "invalid refresh token"))
        × ((refresh_token cfg token again_device_id again_ip_address again_user_agent later).1.db
            ≡ later.db)
  refresh_token_once cfg token d i a d' i' a' w later r up unique done new same =
      refresh_token_spent cfg token d' i' a' later (
        subst (IsSpent (E.sha256_hex token)) (sym same)
          ((refresh_token-Yields cfg token d i a up).at w unique r done new))
