-- ===== src/Auth/Lockout/Counting.antt =====
-- How failed logins count up to the lock.
use native.Mathlib.Nat.{add-zero}
use native.Mathlib.Numerals.{add-one}
use text.Mathlib.TextEquality.{eq_iff}
use text.Mathlib.TextLemmas.{append_assoc as text_assoc}
use go_lang_domain_based_ent.Auth.Lockout.{IsWrong, after_failure, login_locked, login_wrong}
use go_lang_domain_based_ent.Auth.Service.{
  LoginRequest, attempts_key, lockout_key, lockout_time, login,
}
use go_lang_domain_based_ent.Auth.Tokens.{AuthResponse, Config}
use go_lang_domain_based_ent.External.{Env, IsRedis, IsReliable, Item, live, word}
use go_lang_domain_based_ent.Prelude.{
  Bool, Bool-cases, List, Option, String, [], arith, false, inl, inr, leb, length, none,
  prefixes_differ, refl, some, subst, suc, sym, true, ℕ, ◌+◌, ◌-◌, ◌/◌, ◌<>◌, ◌<◌, ◌∙◌, ◌∷◌, ◌≡◌,
  ◌≢◌, ◌≤◌,
}
use go_lang_domain_based_ent.Schema.{Tables}
use go_lang_domain_based_ent.World.{Failure, Result, World, err, locked_for}
use go_lang_domain_based_ent.World.Commands.{remaining}
use go_lang_domain_based_ent.World.Counters.{
  bump, counted_next, counter, read-bump, read-bump_other,
}

-- The two keys of an email are different.
attempts_key-ne-lockout_key : (email : String) → attempts_key email ≢ lockout_key email
attempts_key-ne-lockout_key email h =
    prefixes_differ "login_a" "login_l" ("ttempts:" <> email) ("ockout:" <> email) refl
      (λ e. cc ((eq_iff "login_a" "login_l").1 e))
      (sym (text_assoc "login_a" "ttempts:" email) ∙ h ∙ text_assoc "login_l" "ockout:" email)

-- The lock, if there is one.
abbrev lock : Bool → ℕ → Option Item
lock false d = none
lock true d = some (record { value = word "locked"; deadline = some d })

pub record Attempts (E : Env) (email : String) (k d : ℕ) (locked : Bool) (s : E.redis.State)
    : Type 0 where
  pub count : (u : ℕ) → E.redis.read s u (attempts_key email) ≡ live u (counter k d)
  pub lockout : (u : ℕ) → E.redis.read s u (lockout_key email) ≡ live u (lock locked d)

module _ (E : Env) (laws : IsRedis E.redis) (email : String) where
  -- One more failure, before the count runs out: the count goes up and lasts 15 minutes from then,
  -- and from the fifth on the account is locked as long.
  after_failure-Attempts :
      (k d t : ℕ) (s : E.redis.State)
      → t < d
      → Attempts E email k d false s
      → Attempts E email (suc k) (t + lockout_time) (leb 5 (suc k)) (after_failure E t email s)
  unfolding after_failure
  after_failure-Attempts k d t s early a = record {
    count = λ u.
        rw (counted_next (E.redis.read s t (attempts_key email)) k d t early (a.count t))
          (elim (Bool-cases (leb 5 (suc k))) [
            | inl five ↦ rw five (
                ground (
                  arith,
                  laws.read-set (bump E.redis (attempts_key email) lockout_time t s) t u
                      (lockout_key email) (attempts_key email) (word "locked") lockout_time,
                  attempts_key-ne-lockout_key email,
                  read-bump laws (attempts_key email) lockout_time k d t s u early (a.count t),
                ))
            | inr few ↦
                rw few
                  (read-bump laws (attempts_key email) lockout_time k d t s u early (a.count t))
          ]);
    lockout = λ u.
        rw (counted_next (E.redis.read s t (attempts_key email)) k d t early (a.count t))
          (elim (Bool-cases (leb 5 (suc k))) [
            | inl five ↦ rw five (
                ground (
                  arith,
                  laws.read-set (bump E.redis (attempts_key email) lockout_time t s) t u
                      (lockout_key email) (lockout_key email) (word "locked") lockout_time,
                ))
            | inr few ↦ rw few (
                read-bump_other laws (attempts_key email) (lockout_key email) lockout_time t s u
                  (attempts_key-ne-lockout_key email)
                ∙ a.lockout u)
          ]);
  }

module _ {E : Env} (cfg : Config) (device_id ip_address user_agent : String) where
  -- Logins in turn, each at its time.
  unfoldable pub logins : List (ℕ × LoginRequest) → World E → World E
  logins [] w = w
  logins ((t, req) ∷ rest) w =
      logins rest (login cfg req device_id ip_address user_agent (record w { now = t })).1

-- Each login comes before the count of the earlier ones runs out at `d`.
abbrev pub Spaced : ℕ → List (ℕ × LoginRequest) → Type 0
Spaced d [] = Unit
Spaced d ((t, req) ∷ rest) = (t < d) × Spaced (t + lockout_time) rest

-- When the count runs out after them.
abbrev pub run_out : ℕ → List (ℕ × LoginRequest) → ℕ
run_out d [] = d
run_out d ((t, req) ∷ rest) = run_out (t + lockout_time) rest

-- All are wrong, for one email.
abbrev pub AllWrong : Env → String → Tables → List (ℕ × LoginRequest) → Type 0
AllWrong E email db [] = Unit
AllWrong E email db ((t, req) ∷ rest) =
    (req.email ≡ email) × IsWrong E req db × AllWrong E email db rest

shift : (k n : ℕ) → k + suc n ≡ suc k + n
shift k n = omega arith

live_locked :
    (n d u : ℕ)
    → n ≡ 5
    → u < d
    → live u (lock (leb 5 (0 + n)) d) ≡ some (record { value = word "locked"; deadline = some d })
live_locked n d u five early = ground arith

abbrev err_response : Failure → Result AuthResponse
err_response e = err e

left_over :
    (u d : ℕ)
    → err_response (
        locked_for
          (remaining u (some (record { value = word "locked"; deadline = some d })) / 60 + 1))
      ≡ err_response (locked_for ((d - u) / 60 + 1))
unfolding remaining
left_over u d = refl

few_left : (k : ℕ) → k < 5 → leb 5 k ≡ false
few_left k h = ground arith

module _ {E : Env} (up : IsReliable E) (laws : IsRedis E.redis) (cfg : Config)
    (device_id ip_address user_agent email : String) where
  one_more :
      (t : ℕ) (req : LoginRequest) (k d : ℕ) (w : World E)
      → Attempts E email k d false w.redis
      → t < d
      → req.email ≡ email
      → IsWrong E req w.db
      → Attempts E email
          (suc k)
          (t + lockout_time)
          (leb 5 (suc k))
          (login cfg req device_id ip_address user_agent (record w { now = t })).1.redis
  one_more t req k d w a early same bad =
      let free : E.redis.read w.redis t (lockout_key req.email) ≡ none = rw same (a.lockout t) in
      let step =
        login_wrong up cfg device_id ip_address user_agent req (record w { now = t }) free bad in
      rw (step.2, same) (after_failure-Attempts E laws email k d t w.redis early a)

  logins_count :
      (xs : List (ℕ × LoginRequest)) (k d : ℕ) (w : World E)
      → k + length xs ≤ 5
      → k < 5
      → Attempts E email k d false w.redis
      → Spaced d xs
      → AllWrong E email w.db xs
      → Attempts E email
          (k + length xs)
          (run_out d xs)
          (leb 5 (k + length xs))
          (logins cfg device_id ip_address user_agent xs w).redis
  unfolding logins
  logins_count [] k d w few less a near wrong = rw (add-zero k) (rw (few_left k less) a)
  logins_count ((t, req) ∷ []) k d w few less a (early, near) (same, bad, wrong) =
      rw (add-one k) (one_more t req k d w a early same bad)
  logins_count ((t, req) ∷ x ∷ rest) k d w few less a (early, near) (same, bad, wrong) =
      let w' = (login cfg req device_id ip_address user_agent (record w { now = t })).1 in
      let free : E.redis.read w.redis t (lockout_key req.email) ≡ none = rw same (a.lockout t) in
      let step =
        login_wrong up cfg device_id ip_address user_agent req (record w { now = t }) free bad in
      let more : suc k < 5 = omega arith in
      let next : Attempts E email (suc k) (t + lockout_time) false w'.redis =
        rw (few_left (suc k) more) at (one_more t req k d w a early same bad) in
      rw (shift k (length (x ∷ rest))) (
        logins_count (x ∷ rest) (suc k) (t + lockout_time) w' (omega arith) more next near
          (subst (λ db. AllWrong E email db (x ∷ rest)) (sym step.1) wrong))

  -- After five wrong logins for an email, each within the time for which the earlier ones count,
  -- any further login for it is refused, the right password included, until 15 minutes after the
  -- fifth. The message has the minutes that are left.
  pub five_failures :
      (xs : List (ℕ × LoginRequest)) (d u : ℕ) (w : World E) (req : LoginRequest)
      → Attempts E email 0 d false w.redis
      → Spaced d xs
      → AllWrong E email w.db xs
      → length xs ≡ 5
      → req.email ≡ email
      → u < run_out d xs
      → (login cfg req device_id ip_address user_agent
          (record (logins cfg device_id ip_address user_agent xs w) { now = u })).0
        ≡ err (locked_for ((run_out d xs - u) / 60 + 1))
  five_failures xs d u w req clean near wrong five same early =
      let w' = logins cfg device_id ip_address user_agent xs w in
      let counted = logins_count xs 0 d w (omega arith) (omega arith) clean near wrong in
      let locked : E.redis.read w'.redis u (lockout_key req.email)
          ≡ some (record { value = word "locked"; deadline = some (run_out d xs) }) =
        rw same (counted.lockout u ∙ live_locked (length xs) (run_out d xs) u five early) in
      (login_locked up cfg device_id ip_address user_agent req (record w' { now = u }) _ locked).0
      ∙ left_over u (run_out d xs)
