-- ===== src/World/Commands.antt =====
-- The Redis commands that the code sends, as actions.
use go_lang_domain_based_ent.External.{Env, Item, incremented, number, word}
use go_lang_domain_based_ent.Prelude.{Bool, Option, String, false, none, some, true, ℕ, ◌-◌}
use go_lang_domain_based_ent.World.{Action, Result, err, ok, redis}

-- EXISTS counts the keys that are there.
abbrev pub is_present : Option Item → Bool
is_present none = false
is_present (some i) = true

unfoldable pub exists : {E : Env} → String → Action E Bool
exists {E} key = redis (λ t s. (is_present (E.redis.read s t key), s))

-- The time left, and a negative number where there is none, which rounds to 0 minutes here.
unfoldable pub remaining : ℕ → Option Item → ℕ
remaining t none = 0
remaining t (some i) = elim i.deadline [ none ↦ 0 | some d ↦ d - t ]

unfoldable pub time_to_live : {E : Env} → String → Action E ℕ
unfolding remaining
time_to_live {E} key = redis (λ t s. (remaining t (E.redis.read s t key), s))

-- A result whose error is dropped: `x, _ :=`.
abbrev pub or_zero : {A : Type 0} → A → Result A → A
or_zero zero_value (ok a) = a
or_zero zero_value (err e) = zero_value

abbrev pub counted : Item → ℕ
counted i = elim i.value [ number n ↦ n | word s ↦ 0 ]

-- INCR returns what it leaves, and an error on a word, which is read as 0 attempts too.
unfoldable pub increment : {E : Env} → String → Action E ℕ
increment {E} key =
    redis (λ t s. (counted (incremented (E.redis.read s t key)), E.redis.incr s t key))

unfoldable pub expire : {E : Env} → String → ℕ → Action E (Unit {0})
expire {E} key ttl = redis (λ t s. (tt, E.redis.expire s t key ttl))

unfoldable pub set_text : {E : Env} → String → String → ℕ → Action E (Unit {0})
set_text {E} key value ttl = redis (λ t s. (tt, E.redis.set s t key (word value) ttl))

unfoldable pub del : {E : Env} → String → Action E (Unit {0})
del {E} key = redis (λ t s. (tt, E.redis.del s t key))
