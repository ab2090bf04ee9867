-- ===== src/Middleware/RateLimiter/Bursts.antt =====
-- How many of the requests of a client `RateLimiter` lets pass within one window.
use go_lang_domain_based_ent.External.{Env, IsRedis, IsReliable}
use go_lang_domain_based_ent.Middleware.{Verdict, abort, next, next_as}
use go_lang_domain_based_ent.Middleware.RateLimiter.{rate_limit_key}
use go_lang_domain_based_ent.Middleware.RateLimiter.Laws.{described, verdicts, verdicts-described}
use go_lang_domain_based_ent.Prelude.{
  All, List, String, [], arith, if◌then◌else◌, leb, length, none, suc, ℕ, ◌+◌, ◌<◌, ◌∷◌, ◌≡◌, ◌≤◌,
}
use go_lang_domain_based_ent.World.{World}

-- The number of requests that pass.
abbrev pub passed : List Verdict → ℕ
passed [] = 0
passed (next ∷ vs) = suc (passed vs)
passed (next_as u e ∷ vs) = passed vs
passed (abort code text ∷ vs) = passed vs

abbrev pub WithinWindow : ℕ → ℕ → List ℕ → Type 0
WithinWindow a window ts = All (λ t. (a ≤ t) × (t < a + window)) ts

passed-described :
    (max_reqs window a : ℕ) (ts : List ℕ) (k d : ℕ)
    → WithinWindow a window ts
    → a + window ≤ d
    → k ≤ max_reqs
    → k + passed (described max_reqs window k d ts)
      ≡ (if leb (k + length ts) max_reqs then k + length ts else max_reqs)
passed-described max_reqs window a [] k d near late few = ground arith
passed-described max_reqs window a (t ∷ ts) k d ((from, to), near) late few = ground (
  arith,
  passed-described max_reqs window a ts k d near late,
  passed-described max_reqs window a ts (suc k) (t + window) near,
)

module _ {E : Env} (up : IsReliable E) (laws : IsRedis E.redis) (max_reqs window : ℕ)
    (ip device_id : String) where
  -- Of the requests that a client without a count sends within one window, as many pass as there
  -- are, and at most the most allowed.
  pub passed-verdicts :
      (a : ℕ) (ts : List ℕ) (w : World E)
      → WithinWindow a window ts
      → ((u : ℕ) → E.redis.read w.redis u (rate_limit_key ip device_id) ≡ none)
      → passed (verdicts max_reqs window ip device_id ts w)
        ≡ (if leb (length ts) max_reqs then length ts else max_reqs)
  passed-verdicts a ts w near clean =
      rw
        (verdicts-described up laws max_reqs window ip device_id ts 0 (a + window) w
          (record { at = clean }))
        (ground (arith, passed-described max_reqs window a ts 0 (a + window) near))
