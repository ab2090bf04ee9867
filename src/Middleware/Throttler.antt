-- ===== src/Middleware/Throttler.antt =====
-- internal/middleware/throttler.go: a limiter for each client, and the removal of idle ones. The
-- token bucket of golang.org/x/time/rate is a parameter.
use go_lang_domain_based_ent.Middleware.{Verdict, abort, next}
use go_lang_domain_based_ent.Prelude.{
  Bool, Dict, Option, String, if◌then◌else◌, insert, lookup, ltb, none, not, select, some, ℕ, ◌-◌,
  ◌<>◌, ◌==◌,
}
pub mod Laws
pub mod Idle
pub mod Tests

pub record Buckets : Type 1 where
  pub Limiter : Type 0
  pub Rate : Type 0
  pub new_limiter : Rate → ℕ → Limiter
  -- `Allow` at a time, with what it leaves of the limiter.
  pub allow : ℕ → Limiter → Bool × Limiter

pub record IpLimiter (B : Buckets) : Type 0 where
  pub limiter : B.Limiter
  pub last_seen : ℕ

-- The `sync.Map` of the clients.
abbrev pub Clients : Buckets → Type 0
Clients B = Dict (IpLimiter B)

abbrev pub key_for_request : String → String → String
key_for_request ip device_id = ip <> ":" <> (if device_id == "" then "unknown" else device_id)

-- The entry that LoadOrStore returns.
abbrev pub loaded : (B : Buckets) → B.Limiter → ℕ → Option (IpLimiter B) → IpLimiter B
loaded B new t none = record { limiter = new; last_seen = t }
loaded B new t (some entry) = entry

module _ {B : Buckets} (burst : ℕ) (r : B.Rate) where
  -- The limiter of the client, and the map with the entry, which is stamped.
  unfoldable pub get_limiter : String → ℕ → Clients B → B.Limiter × Clients B
  get_limiter key t clients =
      let entry = loaded B (B.new_limiter r burst) t (lookup key clients) in
      (entry.limiter, insert key (record entry { last_seen = t }) clients)

  -- The entry is shared by a pointer, so `Allow` changes it in the map.
  unfoldable pub throttle : String → ℕ → Clients B → Verdict × Clients B
  unfolding get_limiter
  throttle key t clients =
      let found = get_limiter key t clients in
      let asked = B.allow t found.0 in
      (
        if asked.0 then next else abort 429 "server busy, please retry",
        insert key (record { limiter = asked.1; last_seen = t }) found.1,
      )

-- One round of the cleanup.
unfoldable pub cleanup_idle : {B : Buckets} → ℕ → Clients B → Clients B
cleanup_idle t clients = select (λ (key, entry). not (ltb 600 (t - entry.last_seen))) clients
