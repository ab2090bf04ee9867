-- ===== src/Cache.antt =====
-- internal/shared/utils/cache.go: the in-memory cache of validated claims. Each method is a
-- function on the cache; `now` is what `time.Now()` returns in the call. The entries stand in the
-- order in which a `range` loop over the map meets them, and that order is arbitrary.
pub mod Bounds
pub mod Reads
pub mod Eviction
pub mod Tests
use go_lang_domain_based_ent.Prelude.{
  ℕ, ◌+◌, String, Bool, ◌||◌, Option, none, some, List, [], ◌∷◌, Dict, lookup, insert, erase,
  select, length, ltb, leb, ◌==◌, not, if◌then◌else◌,
}

pub record CacheEntry (P : Type 0) : Type 0 where
  pub payload : P
  pub expires_at : ℕ

pub record TokenCache (P : Type 0) : Type 0 where
  pub entries : Dict (CacheEntry P)
  pub ttl : ℕ
  pub max_size : ℕ

module _ {P : Type 0} where
  unfoldable pub new_token_cache : ℕ → ℕ → TokenCache P
  new_token_cache ttl max_size = record { entries = []; ttl = ttl; max_size = max_size }

  -- `now.After(v.expiresAt)`
  unfoldable pub is_stale : ℕ → CacheEntry P → Bool
  is_stale now e = ltb e.expires_at now

  -- One round of the background cleanup.
  unfoldable pub cleanup : ℕ → TokenCache P → TokenCache P
  unfolding is_stale
  cleanup now c = record c { entries = select (λ (_, e). not (is_stale now e)) c.entries }

  unfoldable pub delete : String → TokenCache P → TokenCache P
  delete key c = record c { entries = erase key c.entries }

  -- What `Get` does with the entry that it read under the read lock.
  unfoldable pub get_entry :
      String → ℕ → Option (CacheEntry P) → TokenCache P → Option P × TokenCache P
  unfolding is_stale delete
  get_entry key now none c = (none, c)
  get_entry key now (some e) c =
      if is_stale now e then (none, delete key c) else (some e.payload, c)

  unfoldable pub get : String → ℕ → TokenCache P → Option P × TokenCache P
  unfolding get_entry
  get key now c = get_entry key now (lookup key c.entries) c

  -- The loop over the entries, with `oldestKey` and `oldestTime`.
  unfoldable pub oldest : Dict (CacheEntry P) → String → ℕ → String × ℕ
  oldest [] oldest_key oldest_time = (oldest_key, oldest_time)
  oldest ((k, v) ∷ rest) oldest_key oldest_time =
      let older = oldest_key == "" || ltb v.expires_at oldest_time in
      oldest rest (if older then k else oldest_key) (if older then v.expires_at else oldest_time)

  -- The entries that `Set` keeps beside the new one.
  unfoldable pub evict : TokenCache P → Dict (CacheEntry P)
  unfolding oldest
  evict c =
      if leb c.max_size (length c.entries)
      then erase (oldest c.entries "" 0).0 c.entries
      else c.entries

  unfoldable pub set : String → P → ℕ → TokenCache P → TokenCache P
  unfolding evict
  set key x now c = record c {
    entries = insert key (record { payload = x; expires_at = now + c.ttl }) (evict c);
  }
