-- ===== src/Cache/Eviction.antt =====
-- Which entry `Set` gives up when the cache is full.
use go_lang_domain_based_ent.Prelude.{
  ℕ, ◌+◌, ◌≤◌, ◌<◌, String, ◌≡◌, ◌≢◌, refl, Option, none, some, [], ◌∷◌, ◌⊎◌, inl, arith, Dict,
  lookup, NodupKeys, length, ◌==◌, if◌then◌else◌, lookup-insert, lookup-erase,
}
use go_lang_domain_based_ent.Cache.{CacheEntry, TokenCache, oldest, evict, set}

module _ {P : Type 0} where
  -- The loop variables after the loop: no later than any entry's time.
  oldest-le :
      (m : Dict (CacheEntry P)) (k : String) (t : ℕ) (j : String) (e : CacheEntry P)
      → k ≢ ""
      → lookup "" m ≡ none
      → ((oldest m k t).1 ≤ t) × (lookup j m ≡ some e → (oldest m k t).1 ≤ e.expires_at)
  unfolding oldest lookup
  oldest-le [] k t j e h u = ground arith
  oldest-le ((i, f) ∷ m) k t j e h u =
      ground (arith, oldest-le m i f.expires_at j e, oldest-le m k t j e)

  abbrev pub time_at : String → Dict (CacheEntry P) → Option ℕ
  time_at k m = elim (lookup k m) [ none ↦ none | some e ↦ some e.expires_at ]

  -- They are the ones it began with, or the key and the time of an entry.
  oldest_entry :
      (m : Dict (CacheEntry P)) (k : String) (t : ℕ)
      → NodupKeys m
      → (((oldest m k t).0 ≡ k) × ((oldest m k t).1 ≡ t))
        ⊎ (time_at (oldest m k t).0 m ≡ some (oldest m k t).1)
  unfolding oldest lookup
  oldest_entry [] k t u = inl (refl, refl)
  oldest_entry ((j, e) ∷ m) k t (new, u) =
      ground (arith, oldest_entry m j e.expires_at u, oldest_entry m k t u)

  oldest_first :
      (m : Dict (CacheEntry P)) (j : String) (e : CacheEntry P)
      → NodupKeys m
      → lookup "" m ≡ none
      → lookup j m ≡ some e
      → (time_at (oldest m "" 0).0 m ≡ some (oldest m "" 0).1) × ((oldest m "" 0).1 ≤ e.expires_at)
  unfolding oldest lookup
  oldest_first [] j e u named found = cc
  oldest_first ((i, f) ∷ m) j e (new, u) named found =
      ground (arith, oldest_entry m i f.expires_at u, oldest-le m i f.expires_at j e)

  -- `Set` on a full cache, seen at any key `j` that had an entry: the evicted entry is one of
  -- those that expire first, and every other key but the one that is set keeps its entry. No key
  -- may be empty, as the keys are hash values.
  pub set_full :
      (key : String) (x : P) (now : ℕ) (c : TokenCache P) (j : String) (e : CacheEntry P)
      → NodupKeys c.entries
      → lookup "" c.entries ≡ none
      → c.max_size ≤ length c.entries
      → lookup j c.entries ≡ some e
      → (time_at (oldest c.entries "" 0).0 c.entries ≡ some (oldest c.entries "" 0).1)
        × ((oldest c.entries "" 0).1 ≤ e.expires_at)
        × (lookup j (set key x now c).entries ≡ (
            if key == j
            then some (record { payload = x; expires_at = now + c.ttl })
            else if (oldest c.entries "" 0).0 == j
            then none
            else some e))
  unfolding set
  set_full key x now c j e u named full found =
      let first = oldest_first c.entries j e u named found in
      (
        first.0,
        first.1,
        ground (
          arith,
          lookup-insert key j (record { payload = x; expires_at = now + c.ttl }) (evict c),
          lookup-erase (oldest c.entries "" 0).0 j c.entries,
        ),
      )

  -- `Set` on a cache with room keeps every other entry.
  pub set_room :
      (key : String) (x : P) (now : ℕ) (c : TokenCache P) (j : String)
      → length c.entries < c.max_size
      → lookup j (set key x now c).entries ≡ (
          if key == j
          then some (record { payload = x; expires_at = now + c.ttl })
          else lookup j c.entries)
  unfolding set
  set_room key x now c j room =
      ground
        (arith, lookup-insert key j (record { payload = x; expires_at = now + c.ttl }) (evict c))
