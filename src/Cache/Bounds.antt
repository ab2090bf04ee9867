-- ===== src/Cache/Bounds.antt =====
-- The size bound of the cache, and that it is kept by every method.
use go_lang_domain_based_ent.Cache.{
  CacheEntry, TokenCache, cleanup, delete, evict, get, get_entry, is_stale, new_token_cache, oldest,
  set,
}
use go_lang_domain_based_ent.Prelude.{
  Bool, Bool-cases, Dict, List, NodupKeys, Option, String, [], arith, erase-NodupKeys,
  if◌then◌else◌, inl, inr, insert-NodupKeys, leb, leb→le, length, length-erase-le, length-erase-lt,
  length-insert-le, length-select-le, lookup, ltb, none, not, refl, select, some, ℕ, ◌+◌, ◌<◌, ◌==◌,
  ◌||◌, ◌∷◌, ◌≡◌, ◌≢◌, ◌≤◌, ◌⊎◌,
}

module _ {P : Type 0} where
  -- One entry for a key, and at most `maxSize` entries.
  pub record IsBounded (c : TokenCache P) : Type 0 where
    pub nodup : NodupKeys c.entries
    pub fits : length c.entries ≤ c.max_size

  -- The loop ends with the key that it began with, or with the key of an entry.
  pub oldest_found :
      (m : Dict (CacheEntry P)) (k : String) (t : ℕ)
      → ((oldest m k t).0 ≡ k) ⊎ (lookup (oldest m k t).0 m ≢ none)
  unfolding oldest lookup
  oldest_found [] k t = inl refl
  oldest_found ((j, e) ∷ m) k t = ground (
    arith,
    oldest_found m (if k == "" || ltb e.expires_at t then j else k)
        (if k == "" || ltb e.expires_at t then e.expires_at else t),
  )

  -- So from the empty key it ends with the key of an entry, unless the map is empty.
  pub lookup-oldest : (m : Dict (CacheEntry P)) → m ≢ [] → lookup (oldest m "" 0).0 m ≢ none
  unfolding oldest lookup
  lookup-oldest [] h = absurd (h refl)
  lookup-oldest ((j, e) ∷ m) h = ground (arith, oldest_found m j e.expires_at)

  evict-NodupKeys : (c : TokenCache P) → NodupKeys c.entries → NodupKeys (evict c)
  unfolding evict
  evict-NodupKeys c u = ground (arith, erase-NodupKeys (oldest c.entries "" 0).0 c.entries u)

  -- After an eviction there is room for one more entry.
  pub length-evict :
      (c : TokenCache P)
      → 0 < c.max_size
      → length c.entries ≤ c.max_size
      → length (evict c) < c.max_size
  unfolding evict
  length-evict c pos fits = elim (Bool-cases (leb c.max_size (length c.entries))) [
    | inl full ↦ rw full (
        omega (
          arith,
          length-erase-lt (oldest c.entries "" 0).0 c.entries
              (lookup-oldest c.entries (nonempty c.entries (leb→le _ _ full))),
        ))
    | inr room ↦ rw room (ground arith)
  ]
    where
      nonempty : (m : Dict (CacheEntry P)) → c.max_size ≤ length m → m ≢ []
      nonempty [] h = absurd (omega arith)
      nonempty (x ∷ m) h = λ e. cc

  -- `Set` keeps the bound of a cache that may hold an entry at all.
  pub set-IsBounded :
      (key : String) (x : P) (now : ℕ) (c : TokenCache P)
      → 0 < c.max_size
      → IsBounded c
      → IsBounded (set key x now c)
  unfolding set
  set-IsBounded key x now c pos b = record {
    nodup = insert-NodupKeys key _ (evict c) (evict-NodupKeys c b.nodup);
    fits = omega (
      arith,
      length-insert-le key (record { payload = x; expires_at = now + c.ttl }) (evict c),
      length-evict c pos b.fits,
    );
  }

-- The methods as calls, each at the time at which it is made.
pub data Call (P : Type 0) : Type 0 where
  read : String → Call P
  write : String → P → Call P
  remove : String → Call P
  clean : Call P

module _ {P : Type 0} where
  unfoldable pub perform : ℕ → Call P → TokenCache P → TokenCache P
  perform now (read key) c = (get key now c).1
  perform now (write key x) c = set key x now c
  perform now (remove key) c = delete key c
  perform now clean c = cleanup now c

  -- The calls that are made on one cache, in the order in which its lock admits them.
  unfoldable pub run : List (ℕ × Call P) → TokenCache P → TokenCache P
  unfolding perform
  run [] c = c
  run ((now, call) ∷ calls) c = run calls (perform now call c)

  lookup-select-none :
      (p : String × CacheEntry P → Bool) (m : Dict (CacheEntry P)) (k : String)
      → lookup k m ≡ none
      → lookup k (select p m) ≡ none
  unfolding lookup
  lookup-select-none p [] k h = refl
  lookup-select-none p ((j, e) ∷ m) k h = ground (arith, lookup-select-none p m k)

  select-NodupKeys :
      (p : String × CacheEntry P → Bool) (m : Dict (CacheEntry P))
      → NodupKeys m
      → NodupKeys (select p m)
  unfolding lookup
  select-NodupKeys p [] u = tt
  select-NodupKeys p ((j, e) ∷ m) (new, u) =
      ground (arith, select-NodupKeys p m u, lookup-select-none p m j new)

  delete-IsBounded : (key : String) (c : TokenCache P) → IsBounded c → IsBounded (delete key c)
  unfolding delete
  delete-IsBounded key c b = record {
    nodup = erase-NodupKeys key c.entries b.nodup;
    fits = omega (arith, length-erase-le key c.entries, b.fits);
  }

  max_size-perform :
      (now : ℕ) (call : Call P) (c : TokenCache P) → (perform now call c).max_size ≡ c.max_size
  unfolding perform get set delete cleanup
  max_size-perform now (read key) c = ground arith
  max_size-perform now _ c = refl

  pub perform-IsBounded :
      (now : ℕ) (call : Call P) (c : TokenCache P)
      → 0 < c.max_size
      → IsBounded c
      → IsBounded (perform now call c)
  unfolding perform get_entry get cleanup
  perform-IsBounded now (read key) c pos b = keep (lookup key c.entries)
    where
      keep : (o : Option (CacheEntry P)) → IsBounded (get_entry key now o c).1
      keep none = b
      keep (some e) = elim (Bool-cases (is_stale now e)) [
        | inl old ↦ rw old (delete-IsBounded key c b)
        | inr new ↦ rw new b
      ]
  perform-IsBounded now (write key x) c pos b = set-IsBounded key x now c pos b
  perform-IsBounded now (remove key) c pos b = delete-IsBounded key c b
  perform-IsBounded now clean c pos b = record {
    nodup = select-NodupKeys _ c.entries b.nodup;
    fits = omega (arith, length-select-le (λ (_, e). not (is_stale now e)) c.entries, b.fits);
  }

  run-IsBounded' :
      (calls : List (ℕ × Call P)) (c : TokenCache P)
      → 0 < c.max_size
      → IsBounded c
      → IsBounded (run calls c)
  unfolding run
  run-IsBounded' [] c pos b = b
  run-IsBounded' ((now, call) ∷ calls) c pos b =
      run-IsBounded' calls (perform now call c) (rw max_size-perform pos)
        (perform-IsBounded now call c pos b)

  -- Whatever calls are made, in whatever order, a new cache with room for an entry keeps at most
  -- one entry for a key and at most `maxSize` entries.
  pub run-IsBounded :
      (calls : List (ℕ × Call P)) (ttl max_size : ℕ)
      → 0 < max_size
      → IsBounded (run calls (new_token_cache ttl max_size))
  unfolding new_token_cache
  run-IsBounded calls ttl max_size pos =
      run-IsBounded' calls (new_token_cache ttl max_size) pos
        (record { nodup = tt; fits = omega arith })
