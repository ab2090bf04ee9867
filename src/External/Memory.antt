-- ===== src/External/Memory.antt =====
-- A Redis that keeps its items in a function, and that it meets the laws.
use go_lang_domain_based_ent.Prelude.{◌+◌, String, Option, none, some, arith, ◌==◌, if◌then◌else◌}
use go_lang_domain_based_ent.External.{Item, Redis, IsRedis, live, incremented, with_deadline}

abbrev update : (String → Option Item) → String → Option Item → String → Option Item
update f k o j = if k == j then o else f j

abbrev pub memory_redis : Redis
memory_redis = record {
  State = String → Option Item;
  read = λ s t k. live t (s k);
  set = λ s t k v ttl. update s k (some (record { value = v; deadline = some (t + ttl) }));
  incr = λ s t k. update s k (some (incremented (live t (s k))));
  expire = λ s t k ttl. update s k (with_deadline (t + ttl) (live t (s k)));
  del = λ s t k. update s k none;
}

-- The laws of `IsRedis` can be met.
pub memory_redis-IsRedis : IsRedis memory_redis
memory_redis-IsRedis = record {
  read-set = λ s t u k j v ttl. ground arith;
  read-incr = λ s t u k j. ground arith;
  read-expire = λ s t u k j ttl. ground arith;
  read-del = λ s t u k j. ground arith;
}
