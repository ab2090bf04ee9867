-- ===== src/Auth/Repository.antt =====
-- internal/modules/auth/repository, and the statements of the service on refresh_tokens: each SQL
-- text as a function on the tables, with the constraints that the migrations declare. `none` is a
-- violated constraint or a failed cast.
use mathlib.Core.List.{reverse, head?}
use go_lang_domain_based_ent.Prelude.{
  ℕ, String, Bool, true, not, ◌&&◌, ◌||◌, Option, none, some, List, [], ◌∷◌, ◌++◌, map, select, any,
  find?, take, length, ltb, ◌==◌, if◌then◌else◌,
}
use go_lang_domain_based_ent.Schema.{User, RefreshToken, Session, Tables}
use go_lang_domain_based_ent.External.{Env}
use go_lang_domain_based_ent.World.{Action, ◌>>=◌, sql, draw, now}

-- users

-- The constraints of INSERT INTO users: the primary key, UNIQUE on the email, and the widths.
unfoldable pub user_fits : Env → User → Tables → Bool
user_fits E u db =
    not (any (λ v. v.id == u.id || v.email == u.email) db.users)
    && E.varchar_ok 255 u.email
    && E.varchar_ok 255 u.password_hash
    && E.varchar_ok 255 u.full_name

-- INSERT INTO users (...) RETURNING id, created_at, updated_at. The row is active by its default.
unfoldable pub insert_user : Env → User → Tables → Option (User × Tables)
insert_user E u db =
    if user_fits E u db
    then some (u, record db { users = db.users ++ record u { is_active = true } ∷ [] })
    else none

unfoldable pub create_user : {E : Env} → User → Action E User
create_user {E} u = do
  n ← draw
  t ← now
  sql (insert_user E (record u { id = E.uuid n; created_at = t; updated_at = t }))

unfoldable pub find_user_by_email : {E : Env} → String → Action E (Option User)
find_user_by_email email = sql (λ db. some (find? (λ u. u.email == email) db.users, db))

unfoldable pub find_user_by_id : {E : Env} → String → Action E (Option User)
find_user_by_id id = sql (λ db. some (find? (λ u. u.id == id) db.users, db))

-- sessions

unfoldable pub session_fits : Env → Session → Tables → Bool
session_fits E s db =
    E.inet_ok s.ip_address
    && E.varchar_ok 255 s.refresh_token_hash
    && E.varchar_ok 255 s.device_id
    && any (λ u. u.id == s.user_id) db.users
    && not (any (λ r. r.id == s.id || r.refresh_token_hash == s.refresh_token_hash) db.sessions)

unfoldable pub insert_session : Env → Session → Tables → Option (Session × Tables)
insert_session E s db =
    if session_fits E s db then some (s, record db { sessions = db.sessions ++ s ∷ [] }) else none

unfoldable pub create_session : {E : Env} → Session → Action E Session
create_session {E} s = do
  n ← draw
  t ← now
  sql (insert_session E (record s { id = E.uuid n; last_accessed_at = t; created_at = t }))

unfoldable pub delete_session_by_id : {E : Env} → String → Action E (Unit {0})
delete_session_by_id id =
    sql (λ db. some (tt, record db { sessions = select (λ s. not (s.id == id)) db.sessions }))

unfoldable pub without_session_hash : String → Tables → Tables
without_session_hash hash db = record db {
  sessions = select (λ s. not (s.refresh_token_hash == hash)) db.sessions;
}

unfoldable pub delete_session_by_refresh_hash : {E : Env} → String → Action E (Unit {0})
delete_session_by_refresh_hash hash = sql (λ db. some (tt, without_session_hash hash db))

abbrev pub sessions_of : String → Tables → List Session
sessions_of user_id db = select (λ s. s.user_id == user_id) db.sessions

unfoldable pub count_sessions : {E : Env} → String → Action E ℕ
count_sessions user_id = sql (λ db. some (length (sessions_of user_id db), db))

unfoldable pub find_oldest_session : {E : Env} → String → Action E (Option Session)
find_oldest_session {E} user_id =
    sql (λ db. some (head? (reverse (E.newest_first (sessions_of user_id db))), db))

unfoldable pub update_last_accessed : {E : Env} → String → Action E (Unit {0})
update_last_accessed id = do
  t ← now
  sql (λ db. some (
    tt,
    record db {
      sessions = map (λ s. if s.id == id then record s { last_accessed_at = t } else s) db.sessions;
    },
  ))

-- DELETE FROM sessions ... NOT IN (SELECT id ... ORDER BY last_accessed_at DESC LIMIT n)
unfoldable pub newest_ids : Env → String → ℕ → Tables → List String
newest_ids E user_id n db = map (λ s. s.id) (take n (E.newest_first (sessions_of user_id db)))

unfoldable pub without_old_sessions : Env → String → ℕ → Tables → Tables
without_old_sessions E user_id n db =
    let kept = newest_ids E user_id n db in
    record db {
      sessions =
          select (λ s. not (s.user_id == user_id && not (any (λ id. s.id == id) kept))) db.sessions;
    }

-- refresh_tokens

unfoldable pub refresh_token_fits : Env → RefreshToken → Tables → Bool
refresh_token_fits E r db =
    E.inet_ok r.ip_address
    && E.varchar_ok 255 r.token_hash
    && E.varchar_ok 255 r.device_id
    && any (λ u. u.id == r.user_id) db.users
    && not (any (λ q. q.id == r.id || q.token_hash == r.token_hash) db.refresh_tokens)

unfoldable pub insert_refresh_token : Env → RefreshToken → Tables → Option (Unit {0} × Tables)
insert_refresh_token E r db =
    if refresh_token_fits E r db
    then some (tt, record db { refresh_tokens = db.refresh_tokens ++ r ∷ [] })
    else none

unfoldable pub find_refresh_token : {E : Env} → String → Action E (Option RefreshToken)
find_refresh_token hash = sql (λ db. some (find? (λ r. r.token_hash == hash) db.refresh_tokens, db))

unfoldable pub without_refresh_id : String → Tables → Tables
without_refresh_id id db = record db {
  refresh_tokens = select (λ r. not (r.id == id)) db.refresh_tokens;
}

unfoldable pub without_refresh_hash : String → Tables → Tables
without_refresh_hash hash db = record db {
  refresh_tokens = select (λ r. not (r.token_hash == hash)) db.refresh_tokens;
}

-- DELETE FROM refresh_tokens ... token_hash NOT IN (SELECT ...) AND expires_at > now()
unfoldable pub without_orphans : String → ℕ → Tables → Tables
without_orphans user_id t db = record db {
  refresh_tokens =
      select
        (λ r. not (
          r.user_id == user_id
          && not (any (λ s. s.refresh_token_hash == r.token_hash) (sessions_of user_id db))
          && ltb t r.expires_at))
        db.refresh_tokens;
}
