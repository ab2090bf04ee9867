-- ===== src/Middleware/RateLimiter/Races/Tests.antt =====
-- Three requests at once, of a client with a maximum of two.
use go_lang_domain_based_ent.External.Example.{example_env, example_env-IsReliable, example_world}
use go_lang_domain_based_ent.External.Memory.{memory_redis-IsRedis}
use go_lang_domain_based_ent.Middleware.RateLimiter.{get_int}
use go_lang_domain_based_ent.Middleware.RateLimiter.Races.{
  Leads, Traffic, here, no_traffic, reads, there,
}
use go_lang_domain_based_ent.Middleware.RateLimiter.Races.Reached.{passed-Leads}
use go_lang_domain_based_ent.Prelude.{arith, refl, ◌+◌, ◌<◌, ◌≡◌}
use go_lang_domain_based_ent.World.{◌>>=◌}

abbrev one_read : Traffic example_env
one_read = record {
  world = (get_int "rate_limit:1.2.3.4:d" (example_world 1000)).1;
  waiting = 1;
  passed = 0;
  refused = 0;
}

passed-Leads_example :
    (one_read.passed < 2 + 3)
    × ((most : Traffic example_env) × Leads 2 60 "rate_limit:1.2.3.4:d" 3
          (1000 + 60)
          (no_traffic (example_world 1000))
          most
        × (most.passed + 1 ≡ 2 + 3))
unfolding get_int ◌>>=◌
passed-Leads_example =
    passed-Leads memory_redis-IsRedis "rate_limit:1.2.3.4:d" 2 3 60 (example_world 1000) one_read
      example_env-IsReliable (omega arith) (omega arith) (omega arith) (λ u. refl)
      (there _ _ _ (here _) (reads 0 _ refl refl (omega arith)))
