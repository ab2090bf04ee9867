-- ===== src/Middleware/RateLimiter/Laws.antt =====
-- `RateLimiter` against a description of it that knows no Redis: a count and the time it lasts until.
use go_lang_domain_based_ent.External.{Env, IsRedis, IsReliable, live}
use go_lang_domain_based_ent.Middleware.{Verdict, abort, next}
use go_lang_domain_based_ent.Middleware.RateLimiter.{
  bump_pipeline, err, get_int, int_of, limit_count, ok, rate_limit_key, rate_limiter,
}
use go_lang_domain_based_ent.Prelude.{
  Bool-cases, List, String, [], ap, arith, false, if◌then◌else◌, inl, inr, leb, ltb, ltb→lt, refl,
  some, suc, zero, ℕ, ◌+◌, ◌∙◌, ◌∷◌, ◌≡◌,
}
use go_lang_domain_based_ent.World.{Result, World, ◌>>=◌}
use go_lang_domain_based_ent.World.Counters.{bump, counter, read-bump}

-- The count that a request meets at a time, of a count that lasts until `d`.
abbrev pub met : ℕ → ℕ → ℕ → ℕ
met t k d = if ltb t d then k else 0

-- The verdicts on requests at these times, where `k` requests were let pass before and count until
-- `d`: one that meets fewer than the most allowed passes, and makes the count last a window from it.
abbrev pub described : ℕ → ℕ → ℕ → ℕ → List ℕ → List Verdict
described max_reqs window k d [] = []
described max_reqs window k d (t ∷ ts) =
    let refused = described max_reqs window k d ts in
    let passed = described max_reqs window (suc (met t k d)) (t + window) ts in
    if leb max_reqs (met t k d) then abort 429 "too many requests" ∷ refused else next ∷ passed

abbrev verdict_of : Result Verdict → Verdict
verdict_of (ok v) = v
verdict_of (err e) = abort 500 ""

module _ {E : Env} (max_reqs window : ℕ) (ip device_id : String) where
  -- The verdicts on requests of one client that come at these times.
  unfoldable pub verdicts : List ℕ → World E → List Verdict
  verdicts [] w = []
  verdicts (t ∷ ts) w =
      let r = rate_limiter max_reqs window ip device_id (record w { now = t }) in
      verdict_of r.0 ∷ verdicts ts r.1

-- The key of the client holds the count `k` until `d`.
pub record Counts (E : Env) (key : String) (k d : ℕ) (s : E.redis.State) : Type 0 where
  pub at : (u : ℕ) → E.redis.read s u key ≡ live u (counter k d)

pub int_of-counter : (t k d : ℕ) → int_of (live t (counter k d)) ≡ some (met t k d)
int_of-counter t zero d = ground arith
int_of-counter t (suc k) d = ground arith

run_out : (t k d : ℕ) → ltb t d ≡ false → live t (counter k d) ≡ live t (counter 0 (suc t))
run_out t zero d e = ground arith
run_out t (suc k) d e = ground arith

module _ {E : Env} (laws : IsRedis E.redis) (window : ℕ) (key : String) where
  pub bump-Counts :
      (t k d : ℕ) (s : E.redis.State)
      → Counts E key k d s
      → Counts E key (suc (met t k d)) (t + window) (bump E.redis key window t s)
  bump-Counts t k d s c = elim (Bool-cases (ltb t d)) [
    | inl early ↦ record {
      at = λ u. rw early (read-bump laws key window k d t s u (ltb→lt t d early) (c.at t));
    }
    | inr late ↦ record {
      at = λ u.
          rw late
            (read-bump laws key window 0 (suc t) t s u (omega arith) (c.at t ∙ run_out t k d late));
    }
  ]

module _ {E : Env} (up : IsReliable E) (laws : IsRedis E.redis) (max_reqs window : ℕ)
    (ip device_id : String) where
  one_request :
      (t k d : ℕ) (w : World E)
      → Counts E (rate_limit_key ip device_id) k d w.redis
      → let r = rate_limiter max_reqs window ip device_id (record w { now = t }) in
        if leb max_reqs (met t k d)
        then (r.0 ≡ ok (abort 429 "too many requests")) × (r.1.redis ≡ w.redis)
        else (r.0 ≡ ok next)
          × (r.1.redis ≡ bump E.redis (rate_limit_key ip device_id) window t w.redis)
  unfolding rate_limiter get_int limit_count bump_pipeline ◌>>=◌
  one_request t k d w c =
      ground (arith, up.at w.calls, up.at (w.calls + 1), c.at t, int_of-counter t k d)

  -- Where no call fails, the verdicts on any requests of a client are those of the description.
  pub verdicts-described :
      (ts : List ℕ) (k d : ℕ) (w : World E)
      → Counts E (rate_limit_key ip device_id) k d w.redis
      → verdicts max_reqs window ip device_id ts w ≡ described max_reqs window k d ts
  unfolding verdicts
  verdicts-described [] k d w c = refl
  verdicts-described (t ∷ ts) k d w c =
      let r = rate_limiter max_reqs window ip device_id (record w { now = t }) in
      let step = one_request t k d w c in
      elim (Bool-cases (leb max_reqs (met t k d))) [
        | inl full ↦
            let (said, same) = rw full at step in
            rw (full, said)
              (ap (λ vs. abort 429 "too many requests" ∷ vs)
                (verdicts-described ts k d r.1 (rw same c)))
        | inr room ↦
            let (said, bumped) = rw room at step in
            rw (room, said)
              (ap (λ vs. next ∷ vs)
                (verdicts-described ts (suc (met t k d)) (t + window) r.1 (
                  rw bumped
                    (bump-Counts laws window (rate_limit_key ip device_id) t k d w.redis c))))
      ]
