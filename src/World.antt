-- ===== src/World.antt =====
-- The state that a request works on, and the actions of the services: code that calls PostgreSQL
-- and Redis, changes the state and returns a value or a Go error. What was done before an error
-- stays done, so the state comes back beside the error too. The clock stands still in a request.
pub mod Actions
pub mod Commands
pub mod Counters
pub mod Returns
pub mod Yields
pub mod Achieves
pub mod Transactions
use go_lang_domain_based_ent.Prelude.{ℕ, ◌+◌, String, Bool, Option, none, some, if◌then◌else◌}
use go_lang_domain_based_ent.Schema.{Tables}
use go_lang_domain_based_ent.Cache.{TokenCache}
use go_lang_domain_based_ent.External.{AccessClaims, Redis, Env}

-- The errors of the services: what pgx, go-redis and the other libraries return, and the texts of
-- `fmt.Errorf`, plain or around another error (`%w`).
pub data Failure : Type 0 where
  query_failed redis_failed signing_failed hashing_failed : Failure
  message : String → Failure
  wrapped : String → Failure → Failure
  -- "account locked. Try again in %d minutes"
  locked_for : ℕ → Failure

pub data Result {ℓ} (A : Type ℓ) : Type ℓ where
  ok : A → Result A
  err : Failure → Result A

-- `calls` counts the calls to PostgreSQL and Redis, and `draws` the UUIDs and salts drawn.
pub record World (E : Env) : Type 0 where
  pub now : ℕ
  pub calls : ℕ
  pub draws : ℕ
  pub db : Tables
  pub redis : E.redis.State
  pub cache : TokenCache AccessClaims

abbrev pub Action : Env → Type 0 → Type 0
Action E A = World E → Result A × World E

abbrev pub rewrap : {A : Type 0} → String → Result A → Result A
rewrap text (ok a) = ok a
rewrap text (err e) = err (wrapped text e)

module _ {E : Env} where
  unfoldable pub pure : {A : Type 0} → A → Action E A
  pure a w = (ok a, w)

  unfoldable pub throw : {A : Type 0} → Failure → Action E A
  throw e w = (err e, w)

  abbrev pub continue : {A B : Type 0} → Result A → (A → Action E B) → Action E B
  continue (ok a) f w = f a w
  continue (err e) f w = (err e, w)

  -- A call whose error the code goes on from: the result as a value.
  unfoldable pub attempt : {A : Type 0} → Action E A → Action E (Result A)
  attempt m w = let r = m w in (ok r.0, r.1)

  -- `fmt.Errorf("text: %w", err)` on the error of a call.
  unfoldable pub wrap : {A : Type 0} → String → Action E A → Action E A
  wrap text m w = let r = m w in (rewrap text r.0, r.1)

  unfoldable pub now : Action E ℕ
  now w = (ok w.now, w)

  -- The value of a library call, or its error.
  unfoldable pub or_throw : {A : Type 0} → Failure → Option A → Action E A
  or_throw e none w = (err e, w)
  or_throw e (some a) w = (ok a, w)

  -- A random UUID or salt.
  unfoldable pub draw : Action E ℕ
  draw w = (ok w.draws, record w { draws = w.draws + 1 })

  abbrev pub answered : {A : Type 0} → Option (A × Tables) → Action E A
  answered none w = (err query_failed, w)
  answered (some (a, db)) w = (ok a, record w { db = db })

  -- One SQL statement. It fails as a whole, by the connection or by a constraint of a table.
  unfoldable pub sql : {A : Type 0} → (Tables → Option (A × Tables)) → Action E A
  sql f w =
      let w' = record w { calls = w.calls + 1 } in
      if E.fails w.calls then (err query_failed, w') else answered (f w.db) w'

  -- One Redis command, which sees the clock.
  unfoldable pub redis : {A : Type 0} → (ℕ → E.redis.State → A × E.redis.State) → Action E A
  redis f w =
      let w' = record w { calls = w.calls + 1 } in
      if E.fails w.calls
      then (err redis_failed, w')
      else let r = f w.now w.redis in (ok r.0, record w' { redis = r.1 })

  infixl 5 ◌>>=◌ ◌>>◌
  -- To open this opens every action of this file.
  unfoldable pub ◌>>=◌ : {A B : Type 0} → Action E A → (A → Action E B) → Action E B
  unfolding pure throw attempt wrap or_throw now draw sql redis
  ◌>>=◌ m f w = let r = m w in continue r.0 f r.1

  abbrev pub ◌>>◌ : {A B : Type 0} → Action E A → Action E B → Action E B
  m >> k = m >>= λ _. k
