-- ===== src/Auth/Frames.antt =====
-- What the operations of the service leave alone, whichever calls fail.
use go_lang_domain_based_ent.Auth.Repository.{
  create_session, find_user_by_email, insert_refresh_token, insert_session, without_old_sessions,
  without_orphans,
}
use go_lang_domain_based_ent.Auth.Service.{check_login_attempts, record_failed_attempt}
use go_lang_domain_based_ent.Auth.Tokens.{
  Config, enforce_session_limit, generate_access_token, generate_refresh_token, generate_tokens,
  store_refresh_token,
}
use go_lang_domain_based_ent.External.{Env}
use go_lang_domain_based_ent.Prelude.{
  Bool, List, String, [], ap, arith, false, refl, select, some, true, ℕ, ◌++◌, ◌==◌, ◌∙◌, ◌∷◌, ◌≡◌,
  ◌≢◌,
}
use go_lang_domain_based_ent.Schema.{RefreshToken, Session, Tables, User}
use go_lang_domain_based_ent.World.{World, sql}
use go_lang_domain_based_ent.World.Actions.{Keeps, Keeps-sql, Leaves-if, keeps_rules}
use go_lang_domain_based_ent.World.Commands.{del, exists, expire, increment, set_text, time_to_live}

module _ {A : Type 0} where
  -- A new row that does not pass the test.
  select-append_other :
      (p : A → Bool) (xs : List A) (x : A) → p x ≡ false → select p (xs ++ x ∷ []) ≡ select p xs
  select-append_other p [] x h = rw h
  select-append_other p (y ∷ xs) x h = ground (arith, select-append_other p xs x h)

  -- A selection after one that drops none of its rows.
  select-select :
      (p q : A → Bool) (xs : List A)
      → ((x : A) → p x ≡ true → q x ≡ true)
      → select p (select q xs) ≡ select p xs
  select-select p q [] h = refl
  select-select p q (x ∷ xs) h = ground (arith, select-select p q xs h, h x)

-- The rows of one user in the three tables of accounts.
pub record Account : Type 0 where
  pub users : List User
  pub sessions : List Session
  pub refresh_tokens : List RefreshToken

abbrev pub account_of : String → Tables → Account
account_of v db = record {
  users = db.users;
  sessions = select (λ s. s.user_id == v) db.sessions;
  refresh_tokens = select (λ r. r.user_id == v) db.refresh_tokens;
}

-- The tables hold this for the user `v`.
abbrev pub Holds : String → Account → Tables → Type 0
Holds v a db = account_of v db ≡ a

other : (v u : String) → u ≢ v → (j : String) → j ≡ u → (j == v) ≡ false
other v u apart j e = ground arith

module _ {E : Env} {v : String} {a : Account} (u : String) (apart : u ≢ v) where
  Keeps-insert_refresh_token :
      (r : RefreshToken)
      → r.user_id ≡ u
      → Keeps {E = E} (Holds v a) (sql (insert_refresh_token E r))
  unfolding insert_refresh_token
  Keeps-insert_refresh_token r owner = Keeps-sql _ λ db h. Leaves-if (Holds v a) _ _ _ (
      ap (λ (l : List RefreshToken). record (account_of v db) { refresh_tokens = l })
        (select-append_other (λ r. r.user_id == v) db.refresh_tokens r
          (other v u apart r.user_id owner))
      ∙ h)

  Keeps-insert_session :
      (s : Session) → s.user_id ≡ u → Keeps {E = E} (Holds v a) (sql (insert_session E s))
  unfolding insert_session
  Keeps-insert_session r owner = Keeps-sql _ λ db h. Leaves-if (Holds v a) _ _ _ (
      ap (λ (l : List Session). record (account_of v db) { sessions = l })
        (select-append_other (λ s. s.user_id == v) db.sessions r (other v u apart r.user_id owner))
      ∙ h)

  Keeps-without_old_sessions :
      (n : ℕ) → Keeps {E = E} (Holds v a) (sql (λ db. some (tt, without_old_sessions E u n db)))
  unfolding without_old_sessions
  Keeps-without_old_sessions n = Keeps-sql _ λ db h.
      ap (λ (l : List Session). record (account_of v db) { sessions = l })
        (select-select (λ s. s.user_id == v) _ db.sessions (λ s e. ground arith))
      ∙ h

  Keeps-without_orphans :
      (t : ℕ) → Keeps {E = E} (Holds v a) (sql (λ db. some (tt, without_orphans u t db)))
  unfolding without_orphans
  Keeps-without_orphans t = Keeps-sql _ λ db h.
      ap (λ (l : List RefreshToken). record (account_of v db) { refresh_tokens = l })
        (select-select (λ r. r.user_id == v) _ db.refresh_tokens (λ s e. ground arith))
      ∙ h

  enforce_session_limit-Keeps :
      (cfg : Config) → Keeps {E = E} (Holds v a) (enforce_session_limit cfg u)
  unfolding enforce_session_limit
  enforce_session_limit-Keeps cfg =
      search (keeps_rules, Keeps-without_old_sessions, Keeps-without_orphans) depth 9

  store_refresh_token-Keeps :
      (hash device_id ip_address : String) (expires_at : ℕ)
      → Keeps {E = E} (Holds v a) (store_refresh_token u hash device_id ip_address expires_at)
  unfolding store_refresh_token
  store_refresh_token-Keeps hash device_id ip_address expires_at =
      search (keeps_rules, Keeps-insert_refresh_token)

  create_session-Keeps :
      (s : Session) → s.user_id ≡ u → Keeps {E = E} (Holds v a) (create_session s)
  unfolding create_session
  create_session-Keeps s e = search (keeps_rules, Keeps-insert_session)

module _ {E : Env} {P : Tables → Type 0} where
  pub generate_access_token-Keeps :
      (user_id email : String) (ttl : ℕ) → Keeps {E = E} P (generate_access_token user_id email ttl)
  unfolding generate_access_token
  generate_access_token-Keeps user_id email ttl = search keeps_rules

  pub generate_refresh_token-Keeps :
      (user_id : String) (ttl : ℕ) → Keeps {E = E} P (generate_refresh_token user_id ttl)
  unfolding generate_refresh_token
  generate_refresh_token-Keeps user_id ttl = search keeps_rules

  pub check_login_attempts-Keeps : (email : String) → Keeps {E = E} P (check_login_attempts email)
  unfolding check_login_attempts exists time_to_live
  check_login_attempts-Keeps email = search keeps_rules depth 9

  pub record_failed_attempt-Keeps : (email : String) → Keeps {E = E} P (record_failed_attempt email)
  unfolding record_failed_attempt increment expire set_text
  record_failed_attempt-Keeps email = search keeps_rules depth 9

  pub del-Keeps : (key : String) → Keeps {E = E} P (del key)
  unfolding del
  del-Keeps key = search keeps_rules

  pub find_user_by_email-Keeps : (email : String) → Keeps {E = E} P (find_user_by_email email)
  unfolding find_user_by_email
  find_user_by_email-Keeps email = Keeps-sql _ λ db h. h

module _ {E : Env} {v : String} {a : Account} where
  pub generate_tokens-Keeps :
      (cfg : Config) (user : User) (device_id ip_address user_agent : String)
      → user.id ≢ v
      → Keeps {E = E} (Holds v a) (generate_tokens cfg user device_id ip_address user_agent)
  unfolding generate_tokens
  generate_tokens-Keeps cfg user device_id ip_address user_agent apart =
      search
        (
          keeps_rules,
          generate_access_token-Keeps,
          generate_refresh_token-Keeps,
          store_refresh_token-Keeps user.id apart,
          create_session-Keeps user.id apart,
          enforce_session_limit-Keeps user.id apart,
        )
        depth 9

module _ {E : Env} where
  -- Issuing tokens to one user changes no row of another in users, sessions and refresh_tokens,
  -- whichever calls fail.
  pub generate_tokens_isolated :
      (cfg : Config) (user : User) (device_id ip_address user_agent v : String) (w : World E)
      → user.id ≢ v
      → account_of v (generate_tokens cfg user device_id ip_address user_agent w).1.db
        ≡ account_of v w.db
  generate_tokens_isolated cfg user device_id ip_address user_agent v w apart =
      (generate_tokens-Keeps cfg user device_id ip_address user_agent apart).at w refl
