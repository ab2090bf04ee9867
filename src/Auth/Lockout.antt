-- ===== src/Auth/Lockout.antt =====
-- The lockout after failed logins: a login on a locked account, and a failed one.
use native.Mathlib.Nat.{add-zero}
use native.Mathlib.Numerals.{add-one}
use text.Mathlib.TextEquality.{eq_iff}
use text.Mathlib.TextLemmas.{append_assoc as text_assoc}
use go_lang_domain_based_ent.Auth.Repository.{find_user_by_email}
use go_lang_domain_based_ent.Auth.Service.{
  LoginRequest, attempts_key, check_login_attempts, lockout_key, lockout_time, login, login_found,
  login_user, record_failed_attempt,
}
use go_lang_domain_based_ent.Auth.Tokens.{AuthResponse, Config}
use go_lang_domain_based_ent.External.{
  Env, IsRedis, IsReliable, Item, incremented, live, number, word,
}
use go_lang_domain_based_ent.Prelude.{
  Bool, Bool-cases, List, Option, String, [], ap, arith, false, find?, if◌then◌else◌, inl, inr, leb,
  length, none, prefixes_differ, refl, some, subst, suc, sym, true, zero, ℕ, ◌+◌, ◌-◌, ◌/◌, ◌<>◌,
  ◌<◌, ◌==◌, ◌∙◌, ◌∷◌, ◌≡◌, ◌≢◌, ◌≤◌, ◌⊎◌,
}
use go_lang_domain_based_ent.Schema.{Tables, User}
use go_lang_domain_based_ent.World.{Failure, Result, World, err, locked_for, message, ok, ◌>>=◌}
use go_lang_domain_based_ent.World.Commands.{
  counted, exists, expire, increment, remaining, set_text, time_to_live,
}
use go_lang_domain_based_ent.World.Counters.{bump}
pub mod Counting

module _ (E : Env) where
  -- What a failed attempt leaves in Redis, where no command fails.
  pub after_failure : ℕ → String → E.redis.State → E.redis.State
  after_failure t email s =
      let s' = bump E.redis (attempts_key email) lockout_time t s in
      if leb 5 (counted (incremented (E.redis.read s t (attempts_key email))))
      then E.redis.set s' t (lockout_key email) (word "locked") lockout_time
      else s'

module _ {E : Env} (up : IsReliable E) where
  record_failed_attempt_lem :
      (email : String) (w : World E)
      → ((record_failed_attempt email w).0 ≡ ok tt)
        × ((record_failed_attempt email w).1.db ≡ w.db)
        × ((record_failed_attempt email w).1.redis ≡ after_failure E w.now email w.redis)
  unfolding record_failed_attempt increment expire set_text after_failure bump ◌>>=◌
  record_failed_attempt_lem email w =
      ground (arith, up.at w.calls, up.at (w.calls + 1), up.at (w.calls + 1 + 1))

-- The request names no account, or an active one with another password.
abbrev pub WrongFor : Env → LoginRequest → Option User → Type 0
WrongFor E req none = Unit
WrongFor E req (some u) =
    (u.is_active ≡ true) × (E.compare_password u.password_hash req.password ≡ false)

abbrev pub IsWrong : Env → LoginRequest → Tables → Type 0
IsWrong E req db = WrongFor E req (find? (λ u. u.email == req.email) db.users)

-- The request names no account, or one that is disabled or has another password.
abbrev pub RefusedFor : Env → LoginRequest → Option User → Type 0
RefusedFor E req none = Unit
RefusedFor E req (some u) =
    (u.is_active ≡ false) ⊎ (E.compare_password u.password_hash req.password ≡ false)

-- The error of a refused login, and what it leaves in Redis.
abbrev pub refused_error : Option User → String
refused_error none = "invalid email or password"
refused_error (some u) = if u.is_active then "invalid email or password" else "account is disabled"

abbrev pub refused_redis : (E : Env) → ℕ → String → Option User → E.redis.State → E.redis.State
refused_redis E t email none s = after_failure E t email s
refused_redis E t email (some u) s = if u.is_active then after_failure E t email s else s

module _ {E : Env} (up : IsReliable E) (cfg : Config)
    (device_id ip_address user_agent : String) where
  -- While the account is locked, a login is refused before the account is read, whatever the
  -- password is, with the minutes that are left, and nothing changes.
  pub login_locked :
      (req : LoginRequest) (w : World E) (i : Item)
      → E.redis.read w.redis w.now (lockout_key req.email) ≡ some i
      → ((login cfg req device_id ip_address user_agent w).0
          ≡ err (locked_for (remaining w.now (some i) / 60 + 1)))
        × ((login cfg req device_id ip_address user_agent w).1.db ≡ w.db)
        × ((login cfg req device_id ip_address user_agent w).1.redis ≡ w.redis)
  unfolding login check_login_attempts exists time_to_live remaining ◌>>=◌
  login_locked req w i locked = ground (arith, up.at w.calls, up.at (w.calls + 1), locked)

  check_unlocked :
      (email : String) (w : World E)
      → E.redis.read w.redis w.now (lockout_key email) ≡ none
      → check_login_attempts email w ≡ (ok tt, record w { calls = w.calls + 1 })
  unfolding check_login_attempts exists ◌>>=◌
  check_unlocked email w free = ground (arith, up.at w.calls, free)

  found_wrong :
      (req : LoginRequest) (o : Option User) (w : World E)
      → WrongFor E req o
      → ((login_found cfg req device_id ip_address user_agent o w).0
          ≡ err (message "invalid email or password"))
        × ((login_found cfg req device_id ip_address user_agent o w).1
            ≡ (record_failed_attempt req.email w).1)
  unfolding login_found login_user ◌>>=◌
  found_wrong req none w h = rw ((record_failed_attempt_lem up req.email w).0) (refl, refl)
  found_wrong req (some u) w (active, other) =
      rw (active, other) (rw ((record_failed_attempt_lem up req.email w).0) (refl, refl))

  -- A login without an active account or with a wrong password.
  pub login_wrong :
      (req : LoginRequest) (w : World E)
      → E.redis.read w.redis w.now (lockout_key req.email) ≡ none
      → IsWrong E req w.db
      → ((login cfg req device_id ip_address user_agent w).0
          ≡ err (message "invalid email or password"))
        × ((login cfg req device_id ip_address user_agent w).1.db ≡ w.db)
        × ((login cfg req device_id ip_address user_agent w).1.redis
            ≡ after_failure E w.now req.email w.redis)
  unfolding login find_user_by_email ◌>>=◌
  login_wrong req w free wrong =
      let w' = record w { calls = w.calls + 1 + 1 } in
      let found = find? (λ u. u.email == req.email) w.db.users in
      let f = found_wrong req found w' wrong in
      let r = record_failed_attempt_lem up req.email w' in
      rw (check_unlocked req.email w free) (
        rw (up.at (w.calls + 1))
          (f.0, ap (λ (v : World E). v.db) f.1 ∙ r.1, ap (λ (v : World E). v.redis) f.1 ∙ r.2))

  found_refused :
      (req : LoginRequest) (o : Option User) (w : World E)
      → RefusedFor E req o
      → ((login_found cfg req device_id ip_address user_agent o w).0
          ≡ err (message (refused_error o)))
        × ((login_found cfg req device_id ip_address user_agent o w).1.db ≡ w.db)
        × ((login_found cfg req device_id ip_address user_agent o w).1.redis
            ≡ refused_redis E w.now req.email o w.redis)
  unfolding login_found login_user ◌>>=◌
  found_refused req none w h =
      let r = record_failed_attempt_lem up req.email w in rw (r.0) (refl, r.1, r.2)
  found_refused req (some u) w h =
      let r = record_failed_attempt_lem up req.email w in
      elim (Bool-cases u.is_active) [
        | inr disabled ↦ rw disabled (refl, refl, refl)
        | inl active ↦
            let other : E.compare_password u.password_hash req.password ≡ false =
              ground (arith, h, active) in
            rw (active, other) (rw (r.0) (refl, r.1, r.2))
      ]

  -- Where no call fails and no lockout is in force for the email: a login with an unknown email, with
  -- a disabled account, or with a wrong password changes no table. It returns "account is disabled"
  -- and counts nothing for a disabled account, whatever the password is, and in the other cases
  -- returns one and the same error and counts one more failure.
  pub login_refused :
      (req : LoginRequest) (w : World E)
      → let found = find? (λ u. u.email == req.email) w.db.users in
        E.redis.read w.redis w.now (lockout_key req.email) ≡ none
        → RefusedFor E req found
        → ((login cfg req device_id ip_address user_agent w).0
            ≡ err (message (refused_error found)))
          × ((login cfg req device_id ip_address user_agent w).1.db ≡ w.db)
          × ((login cfg req device_id ip_address user_agent w).1.redis
              ≡ refused_redis E w.now req.email found w.redis)
  unfolding login find_user_by_email ◌>>=◌
  login_refused req w free refused =
      let w' = record w { calls = w.calls + 1 + 1 } in
      let found = find? (λ u. u.email == req.email) w.db.users in
      rw (check_unlocked req.email w free)
        (rw (up.at (w.calls + 1)) (found_refused req found w' refused))
