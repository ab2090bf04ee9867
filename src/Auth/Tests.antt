-- ===== src/Auth/Tests.antt =====
-- Logins, tokens and registration on the example database.
use text.Mathlib.TextEquality.{eq_iff}
use go_lang_domain_based_ent.Auth.Frames.{account_of, generate_tokens_isolated}
use go_lang_domain_based_ent.Auth.Keys.{KeyParser, Keys, load_keys, rsa}
use go_lang_domain_based_ent.Auth.Lockout.{after_failure, login_refused}
use go_lang_domain_based_ent.Auth.Lockout.Counting.{AllWrong, five_failures, logins, run_out}
use go_lang_domain_based_ent.Auth.Registration.{register_strands_account, requested, row}
use go_lang_domain_based_ent.Auth.Repository.{
  create_session, delete_session_by_refresh_hash, find_refresh_token, find_user_by_id,
  insert_refresh_token, insert_session, newest_ids, refresh_token_fits, session_fits, sessions_of,
  user_fits, without_old_sessions, without_orphans, without_refresh_id, without_session_hash,
}
use go_lang_domain_based_ent.Auth.Rotation.{refresh_token_once}
use go_lang_domain_based_ent.Auth.Service.{
  LoginRequest, RegisterRequest, login, refresh_found, refresh_token, refresh_user, register,
}
use go_lang_domain_based_ent.Auth.Sessions.{generate_tokens_limit}
use go_lang_domain_based_ent.Auth.Tokens.{
  AuthResponse, Config, access_claims, enforce_session_limit, generate_access_token,
  generate_refresh_token, generate_tokens, store_refresh_token,
}
use go_lang_domain_based_ent.External.Example.{
  example_env, example_env-IsReliable, example_tables, example_user, example_world,
}
use go_lang_domain_based_ent.External.Memory.{memory_redis-IsRedis}
use go_lang_domain_based_ent.Prelude.{
  List, [], arith, inr, length, none, refl, some, string_dec, true, ℕ, ◌+◌, ◌-◌, ◌/◌, ◌<>◌, ◌∷◌,
  ◌≡◌, ◌≢◌, ◌≤◌,
}
use go_lang_domain_based_ent.Schema.{Session}
use go_lang_domain_based_ent.World.{World, err, locked_for, message, ok, ◌>>=◌}

abbrev cfg : Config
cfg = record { jwt_access_expiry_min = 15; jwt_refresh_expiry_days = 7; max_active_sessions = 1 }

abbrev wrong_login : LoginRequest
wrong_login = record { email = "ann@example.com"; password = "guess" }

abbrev right_login : LoginRequest
right_login = record { email = "ann@example.com"; password = "secret" }

abbrev guesses : List (ℕ × LoginRequest)
guesses =
    (1000, wrong_login)
    ∷ (1100, wrong_login)
    ∷ (1200, wrong_login)
    ∷ (1300, wrong_login)
    ∷ (1400, wrong_login)
    ∷ []

all_wrong : AllWrong example_env "ann@example.com" example_tables guesses
unfolding string_dec
all_wrong = (
  refl,
  (refl, refl),
  (refl, (refl, refl), (refl, (refl, refl), (refl, (refl, refl), (refl, (refl, refl), tt)))),
)

five_failures_example :
    (login cfg right_login "d" "1.2.3.4" "ua"
      (record (logins cfg "d" "1.2.3.4" "ua" guesses (example_world 0)) { now = 1500 })).0
    ≡ err (locked_for ((run_out 1001 guesses - 1500) / 60 + 1))
unfolding string_dec
five_failures_example =
    five_failures example_env-IsReliable memory_redis-IsRedis cfg "d" "1.2.3.4" "ua"
      "ann@example.com" guesses 1001 1500 (example_world 0) right_login
      (record { count = λ u. refl; lockout = λ u. refl })
      (omega arith, (omega arith, (omega arith, (omega arith, (omega arith, tt))))) all_wrong refl
      refl (omega arith)

login_refused_example :
    ((login cfg wrong_login "d" "1.2.3.4" "ua" (example_world 1000)).0
      ≡ err (message "invalid email or password"))
    × ((login cfg wrong_login "d" "1.2.3.4" "ua" (example_world 1000)).1.db ≡ example_tables)
    × ((login cfg wrong_login "d" "1.2.3.4" "ua" (example_world 1000)).1.redis
        ≡ after_failure example_env 1000 "ann@example.com" (example_world 1000).redis)
unfolding string_dec
login_refused_example =
    login_refused example_env-IsReliable cfg "d" "1.2.3.4" "ua" wrong_login (example_world 1000)
      refl (inr refl)

abbrev old_session : Session
old_session = record {
  id = "s0";
  user_id = "u1";
  refresh_token_hash = "h0";
  device_id = "d";
  ip_address = "1.2.3.4";
  user_agent = "ua";
  last_accessed_at = 10;
  created_at = 10;
}

abbrev one_session : World example_env
one_session = record (example_world 1000) {
  db = record example_tables { sessions = old_session ∷ [] };
}

abbrev issued : AuthResponse
issued = record {
  access_token = "access";
  refresh_token = "refresh";
  expires_at = 1900;
  user = record { id = "u1"; email = "ann@example.com"; full_name = "Ann" };
}

generate_tokens_limit_example :
    length (sessions_of "u1" (generate_tokens cfg example_user "d" "1.2.3.4" "ua" one_session).1.db)
    ≤ 1
unfolding generate_tokens generate_access_token generate_refresh_token store_refresh_token
    insert_refresh_token refresh_token_fits access_claims create_session insert_session session_fits
    enforce_session_limit without_old_sessions without_orphans newest_ids ◌>>=◌ string_dec
generate_tokens_limit_example =
    generate_tokens_limit cfg example_user "d" "1.2.3.4" "ua" one_session issued
      example_env-IsReliable (omega arith) (refl, tt) refl

generate_tokens_isolated_example :
    account_of "u2" (generate_tokens cfg example_user "d" "1.2.3.4" "ua" one_session).1.db
    ≡ account_of "u2" one_session.db
generate_tokens_isolated_example =
    generate_tokens_isolated cfg example_user "d" "1.2.3.4" "ua" "u2" one_session
      (λ e. cc ((eq_iff "u1" "u2").1 e))

abbrev new_account : RegisterRequest
new_account = record { email = "bob@example.com"; password = "password"; full_name = "Bob" }

register_strands_account_example :
    ((register cfg new_account (example_world 1000)).0 ≢ ok issued)
    × ((register cfg new_account (example_world 1000)).1.db.users
        ≡ example_user
          ∷ record (row example_env (requested new_account "hash of password") 1 1000) {
            is_active = true;
          }
          ∷ [])
unfolding user_fits string_dec
register_strands_account_example =
    register_strands_account cfg new_account "hash of password" (example_world 1000) issued refl
      example_env-IsReliable refl refl

-- Files in which every text is a key, and private ones are in PKCS #1.
abbrev example_parser : KeyParser
example_parser = record {
  read_file = λ path. some ("bytes of " <> path);
  decode_pem = λ bytes. some bytes;
  parse_pkcs8 = λ block. none;
  parse_pkcs1 = λ block. some block;
  parse_pkix = λ block. some (rsa block);
}

abbrev no_keys : Keys
no_keys = record { private_key = none; public_key = none }

both_keys_set :
    load_keys example_parser "private" "public" no_keys
    ≡ (none, record { private_key = some "bytes of private"; public_key = some "bytes of public" })
unfolding load_keys
both_keys_set = refl

abbrev one_refresh_token : World example_env
one_refresh_token = record (example_world 1000) {
  db = record example_tables {
    refresh_tokens =
        record {
          id = "t0";
          user_id = "u1";
          token_hash = "sha of old";
          device_id = "d";
          ip_address = "1.2.3.4";
          expires_at = 2000;
          created_at = 10;
        }
        ∷ [];
  };
}

abbrev refreshed : World example_env
refreshed = (refresh_token cfg "old" "d" "1.2.3.4" "ua" one_refresh_token).1

refresh_token_once_example :
    ((refresh_token cfg "old" "e" "5.6.7.8" "ub" (record refreshed { now = 1001 })).0
      ≡ err (message "invalid refresh token"))
    × ((refresh_token cfg "old" "e" "5.6.7.8" "ub" (record refreshed { now = 1001 })).1.db
        ≡ refreshed.db)
unfolding string_dec refresh_token ◌>>=◌ refresh_found find_refresh_token refresh_user
    find_user_by_id without_refresh_id delete_session_by_refresh_hash without_session_hash
    generate_tokens generate_access_token generate_refresh_token store_refresh_token
    insert_refresh_token refresh_token_fits enforce_session_limit
refresh_token_once_example =
    refresh_token_once cfg "old" "d" "1.2.3.4" "ua" "e" "5.6.7.8" "ub" one_refresh_token
      (record refreshed { now = 1001 }) issued example_env-IsReliable (refl, tt) refl
      (λ h. cc ((eq_iff "sha of refresh" "sha of old").1 h)) refl
