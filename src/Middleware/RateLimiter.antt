-- ===== src/Middleware/RateLimiter.antt =====
-- internal/middleware/rate_limiter.go: `RateLimiter`.
use go_lang_domain_based_ent.External.{Env, Item, number, word}
use go_lang_domain_based_ent.Middleware.{Verdict, abort, next}
use go_lang_domain_based_ent.Prelude.{Option, String, if◌then◌else◌, leb, none, some, ℕ, ◌<>◌}
use go_lang_domain_based_ent.World.{Action, Result, attempt, err, ok, pure, redis, ◌>>=◌, ◌>>◌}
use go_lang_domain_based_ent.World.Counters.{bump}
pub mod Laws
pub mod Bursts
pub mod Races

-- fmt.Sprintf("rate_limit:%s:%s", ip, deviceID)
abbrev pub rate_limit_key : String → String → String
rate_limit_key ip device_id = "rate_limit:" <> ip <> ":" <> device_id

-- `Get(ctx, key).Int()`: 0 for a missing key, and no number for a text that is none.
abbrev pub int_of : Option Item → Option ℕ
int_of none = some 0
int_of (some i) = elim i.value [ number n ↦ some n | word s ↦ none ]

unfoldable pub get_int : {E : Env} → String → Action E (Option ℕ)
get_int {E} key = redis (λ t s. (int_of (E.redis.read s t key), s))

-- The transaction pipeline with INCR and EXPIRE.
unfoldable pub bump_pipeline : {E : Env} → String → ℕ → Action E (Unit {0})
bump_pipeline {E} key window = redis (λ t s. (tt, bump E.redis key window t s))

abbrev pub limiter_error : Verdict
limiter_error = abort 500 "rate limiter error"

abbrev pub counted_verdict : Result (Unit {0}) → Verdict
counted_verdict (ok a) = next
counted_verdict (err e) = limiter_error

unfoldable pub limit_count : {E : Env} → String → ℕ → ℕ → Result (Option ℕ) → Action E Verdict
limit_count key max_reqs window (ok (some val)) =
    if leb max_reqs val
    then pure (abort 429 "too many requests")
    else (do sent ← attempt (bump_pipeline key window); pure (counted_verdict sent))
limit_count key max_reqs window (ok none) = pure limiter_error
limit_count key max_reqs window (err e) = pure limiter_error

unfoldable pub rate_limiter : {E : Env} → ℕ → ℕ → String → String → Action E Verdict
rate_limiter max_reqs window ip device_id = do
  val ← attempt (get_int (rate_limit_key ip device_id))
  limit_count (rate_limit_key ip device_id) max_reqs window val
