-- ===== src/World/Counters.antt =====
-- Counters in Redis: INCR and EXPIRE on one key, as the lockout and the rate limiter send them.
use go_lang_domain_based_ent.External.{IsRedis, Item, Redis, incremented, live, number}
use go_lang_domain_based_ent.Prelude.{
  Option, String, arith, none, some, suc, zero, ℕ, ◌+◌, ◌<◌, ◌≡◌, ◌≢◌,
}
use go_lang_domain_based_ent.World.Commands.{counted}

-- A count of `k` that lasts until `d`, and no item for `k` = 0.
abbrev pub counter : ℕ → ℕ → Option Item
counter zero d = none
counter (suc k) d = some (record { value = number (suc k); deadline = some d })

module _ (R : Redis) where
  -- The state after INCR and EXPIRE.
  unfoldable pub bump : String → ℕ → ℕ → R.State → R.State
  bump key ttl t s = R.expire (R.incr s t key) t key ttl

module _ {R : Redis} (laws : IsRedis R) where
  -- Before the count runs out, it goes up by one and lasts from then.
  pub read-bump :
      (key : String) (ttl k d t : ℕ) (s : R.State) (u : ℕ)
      → t < d
      → R.read s t key ≡ live t (counter k d)
      → R.read (bump R key ttl t s) u key ≡ live u (counter (suc k) (t + ttl))
  unfolding bump
  read-bump key ttl zero d t s u early a =
      ground
        (arith, laws.read-expire (R.incr s t key) t u key key ttl, laws.read-incr s t t key key)
  read-bump key ttl (suc k) d t s u early a =
      ground
        (arith, laws.read-expire (R.incr s t key) t u key key ttl, laws.read-incr s t t key key)

  pub read-bump_other :
      (key j : String) (ttl t : ℕ) (s : R.State) (u : ℕ)
      → key ≢ j
      → R.read (bump R key ttl t s) u j ≡ R.read s u j
  unfolding bump
  read-bump_other key j ttl t s u apart =
      ground (arith, laws.read-expire (R.incr s t key) t u key j ttl, laws.read-incr s t u key j)

-- What INCR returns.
pub counted_next :
    (o : Option Item) (k d t : ℕ)
    → t < d
    → o ≡ live t (counter k d)
    → counted (incremented o) ≡ suc k
counted_next o zero d t early a = ground arith
counted_next o (suc k) d t early a = ground arith
