-- ===== src/Auth/Registration.antt =====
-- What registration comes to: it passes the empty text for the network address.
use go_lang_domain_based_ent.Auth.Frames.{generate_access_token-Keeps, generate_refresh_token-Keeps}
use go_lang_domain_based_ent.Auth.Repository.{
  create_session, create_user, insert_refresh_token, insert_session, insert_user,
  refresh_token_fits, user_fits, without_old_sessions, without_orphans,
}
use go_lang_domain_based_ent.Auth.Service.{RegisterRequest, hash_password, register}
use go_lang_domain_based_ent.Auth.Tokens.{
  AuthResponse, Config, enforce_session_limit, generate_tokens, store_refresh_token,
}
use go_lang_domain_based_ent.External.{Env, IsReliable, RejectsEmptyInet}
use go_lang_domain_based_ent.Prelude.{
  List, String, [], arith, false, none, refl, some, true, ℕ, ◌++◌, ◌+◌, ◌∷◌, ◌≡◌, ◌≢◌,
}
use go_lang_domain_based_ent.Schema.{RefreshToken, Session, Tables, User}
use go_lang_domain_based_ent.World.{World, ok, sql, ◌>>=◌}
use go_lang_domain_based_ent.World.Actions.{
  Fails, Fails-bind_first, Fails-bind_rest, Fails-sql, Fails-wrap, Keeps, Keeps-sql, Leaves-if,
  keeps_rules,
}

-- The tables hold these accounts.
abbrev HasUsers : List User → Tables → Type 0
HasUsers us db = db.users ≡ us

-- The row that is asked for, and the row with what the statement returns.
abbrev pub requested : RegisterRequest → String → User
requested req hash = record {
  id = "";
  email = req.email;
  password_hash = hash;
  full_name = req.full_name;
  is_active = false;
  created_at = 0;
  updated_at = 0;
}

abbrev pub row : Env → User → ℕ → ℕ → User
row E u n t = record u { id = E.uuid n; created_at = t; updated_at = t }

insert_refresh_token-bad_inet :
    (E : Env) (r : RefreshToken) (db : Tables)
    → E.inet_ok r.ip_address ≡ false
    → insert_refresh_token E r db ≡ none
unfolding insert_refresh_token refresh_token_fits
insert_refresh_token-bad_inet E r db h = ground arith

module _ {E : Env} where
  -- A text that PostgreSQL does not take for an address is never stored.
  store_refresh_token-Fails :
      (user_id hash device_id ip_address : String) (expires_at : ℕ)
      → E.inet_ok ip_address ≡ false
      → Fails {E = E} (store_refresh_token user_id hash device_id ip_address expires_at)
  unfolding store_refresh_token
  store_refresh_token-Fails user_id hash device_id ip_address expires_at h =
      Fails-bind_rest _ _
        λ n. Fails-bind_rest _ _ λ t. Fails-sql _ λ db. insert_refresh_token-bad_inet E _ db h

  -- Tokens are issued only for a network address that PostgreSQL takes.
  pub generate_tokens-Fails :
      (cfg : Config) (user : User) (device_id ip_address user_agent : String)
      → E.inet_ok ip_address ≡ false
      → Fails {E = E} (generate_tokens cfg user device_id ip_address user_agent)
  unfolding generate_tokens
  generate_tokens-Fails cfg user device_id ip_address user_agent h = Fails-bind_rest _ _ λ access.
      Fails-bind_rest _ _ λ refresh.
        Fails-bind_first _ _ (Fails-wrap _ _ (store_refresh_token-Fails _ _ _ ip_address _ h))

  -- Registration never succeeds, whatever the request, the state and the failures of the calls.
  pub register-Fails :
      (cfg : Config) (req : RegisterRequest) → RejectsEmptyInet E → Fails {E = E} (register cfg req)
  unfolding register
  register-Fails cfg req h =
      Fails-bind_rest _ _
        λ hash. Fails-bind_rest _ _ λ user. generate_tokens-Fails cfg user "register_device" "" "" h

  module _ {us : List User} where
    HasUsers-insert_refresh_token :
        (r : RefreshToken) → Keeps {E = E} (HasUsers us) (sql (insert_refresh_token E r))
    unfolding insert_refresh_token
    HasUsers-insert_refresh_token r = Keeps-sql _ λ db h. Leaves-if (HasUsers us) _ _ _ h

    HasUsers-insert_session : (s : Session) → Keeps {E = E} (HasUsers us) (sql (insert_session E s))
    unfolding insert_session
    HasUsers-insert_session s = Keeps-sql _ λ db h. Leaves-if (HasUsers us) _ _ _ h

    HasUsers-limit :
        (u : String) (n : ℕ)
        → Keeps {E = E} (HasUsers us) (sql (λ db. some (tt, without_old_sessions E u n db)))
    unfolding without_old_sessions
    HasUsers-limit u n = Keeps-sql _ λ db h. h

    HasUsers-orphans :
        (u : String) (t : ℕ)
        → Keeps {E = E} (HasUsers us) (sql (λ db. some (tt, without_orphans u t db)))
    unfolding without_orphans
    HasUsers-orphans u t = Keeps-sql _ λ db h. h

    ruleset users_rules = (
      keeps_rules, generate_access_token-Keeps, generate_refresh_token-Keeps,
      HasUsers-insert_refresh_token, HasUsers-insert_session, HasUsers-limit, HasUsers-orphans,
    )

    HasUsers-enforce :
        (cfg : Config) (u : String) → Keeps {E = E} (HasUsers us) (enforce_session_limit cfg u)
    unfolding enforce_session_limit
    HasUsers-enforce cfg u = search users_rules depth 9

    HasUsers-store :
        (u hash device_id ip_address : String) (expires_at : ℕ)
        → Keeps {E = E} (HasUsers us) (store_refresh_token u hash device_id ip_address expires_at)
    unfolding store_refresh_token
    HasUsers-store u hash device_id ip_address expires_at = search users_rules

    HasUsers-create : (s : Session) → Keeps {E = E} (HasUsers us) (create_session s)
    unfolding create_session
    HasUsers-create s = search users_rules

    -- Issuing tokens changes no account.
    pub HasUsers-generate_tokens :
        (cfg : Config) (user : User) (device_id ip_address user_agent : String)
        → Keeps {E = E} (HasUsers us) (generate_tokens cfg user device_id ip_address user_agent)
    unfolding generate_tokens
    HasUsers-generate_tokens cfg user device_id ip_address user_agent =
        search (users_rules, HasUsers-enforce, HasUsers-store, HasUsers-create) depth 9

  create_user_lem :
      (u : User) (w : World E)
      → IsReliable E
      → user_fits E (row E u w.draws w.now) w.db ≡ true
      → create_user u w ≡ (
        ok (row E u w.draws w.now),
        record w {
          draws = w.draws + 1;
          calls = w.calls + 1;
          db = record w.db {
            users = w.db.users ++ record (row E u w.draws w.now) { is_active = true } ∷ [];
          };
        },
      )
  unfolding create_user insert_user ◌>>=◌
  create_user_lem u w up fits = ground (arith, up.at w.calls)

  -- Where no call fails and the table takes the new row, registration returns an error although
  -- the account has been created, and it stays.
  pub register_strands_account :
      (cfg : Config) (req : RegisterRequest) (hash : String) (w : World E) (r : AuthResponse)
      → RejectsEmptyInet E
      → IsReliable E
      → E.hash_password w.draws req.password ≡ some hash
      → user_fits E (row E (requested req hash) (w.draws + 1) w.now) w.db ≡ true
      → ((register cfg req w).0 ≢ ok r)
        × ((register cfg req w).1.db.users
            ≡ w.db.users
              ++ record (row E (requested req hash) (w.draws + 1) w.now) { is_active = true } ∷ [])
  unfolding register hash_password ◌>>=◌
  register_strands_account cfg req hash w r bad up hashed fits = (
    (register-Fails cfg req bad).at w r,
    rw hashed (
        rw (create_user_lem (requested req hash) (record w { draws = w.draws + 1 }) up fits)
          ((HasUsers-generate_tokens cfg _ "register_device" "" "").at _ refl)),
  )
