-- ===== src/Middleware/RateLimiter/Races.antt =====
-- `RateLimiter` where requests of one client overlap: between the GET of a request and its pipeline,
-- other requests may read the same count.
pub mod Bounds
pub mod Reached
pub mod Tests
use go_lang_domain_based_ent.External.{Env, IsRedis}
use go_lang_domain_based_ent.Middleware.RateLimiter.{bump_pipeline, get_int, int_of}
use go_lang_domain_based_ent.Middleware.RateLimiter.Laws.{Counts, bump-Counts, int_of-counter, met}
use go_lang_domain_based_ent.Prelude.{
  Bool-cases, Option, String, ap, arith, false, inl, inr, leb, ltb, lt→ltb, none, refl, some, subst,
  suc, sym, true, ℕ, ◌+◌, ◌<◌, ◌∙◌, ◌≡◌, ◌≢◌, ◌≤◌, ◌⊎◌,
}
use go_lang_domain_based_ent.World.{Failure, World, err, ok, ◌>>=◌}
use go_lang_domain_based_ent.World.Actions.{err_not_ok, ok_inj}
use go_lang_domain_based_ent.World.Counters.{bump}

-- The requests of the client: those that have read a count below the maximum and not yet sent their
-- pipeline, those that passed, and those that were refused with 429 or 500.
pub record Traffic (E : Env) : Type 0 where
  pub world : World E
  pub waiting : ℕ
  pub passed : ℕ
  pub refused : ℕ

abbrev pub no_traffic : {E : Env} → World E → Traffic E
no_traffic w = record { world = w; waiting = 0; passed = 0; refused = 0 }

module _ {E : Env} (max_reqs window : ℕ) (key : String) where
  -- What one request does next, where at most `together` requests of the client are handled at once,
  -- or the clock going on, to a time before `until`.
  pub data Move (together until : ℕ) : Traffic E → Traffic E → Type 0 where
    clock :
        (t : ℕ) (s : Traffic E)
        → s.world.now ≤ t
        → t < until
        → Move together until s (record s { world = record s.world { now = t } })
    reads :
        (val : ℕ) (s : Traffic E)
        → (get_int key s.world).0 ≡ ok (some val)
        → leb max_reqs val ≡ false
        → s.waiting < together
        → Move together until s
            (record s { world = (get_int key s.world).1; waiting = suc s.waiting })
    too_many :
        (val : ℕ) (s : Traffic E)
        → (get_int key s.world).0 ≡ ok (some val)
        → leb max_reqs val ≡ true
        → Move together until s
            (record s { world = (get_int key s.world).1; refused = suc s.refused })
    read_fails :
        (s : Traffic E)
        → ((val : ℕ) → (get_int key s.world).0 ≢ ok (some val))
        → Move together until s
            (record s { world = (get_int key s.world).1; refused = suc s.refused })
    counts :
        (n : ℕ) (s : Traffic E)
        → s.waiting ≡ suc n
        → (bump_pipeline key window s.world).0 ≡ ok tt
        → Move together until s (record s {
          world = (bump_pipeline key window s.world).1;
          waiting = n;
          passed = suc s.passed;
        })
    count_fails :
        (n : ℕ) (e : Failure) (s : Traffic E)
        → s.waiting ≡ suc n
        → (bump_pipeline key window s.world).0 ≡ err e
        → Move together until s (record s {
          world = (bump_pipeline key window s.world).1;
          waiting = n;
          refused = suc s.refused;
        })

  pub data Leads (together until : ℕ) : Traffic E → Traffic E → Type 0 where
    here : (s : Traffic E) → Leads together until s s
    there :
        (a b c : Traffic E)
        → Leads together until a b
        → Move together until b c
        → Leads together until a c
