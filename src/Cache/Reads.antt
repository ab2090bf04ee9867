-- ===== src/Cache/Reads.antt =====
-- What `Get` returns, and which calls it cannot tell apart.
use go_lang_domain_based_ent.Prelude.{
  ℕ, ◌+◌, ◌≤◌, String, ◌≡◌, refl, Option, none, some, [], ◌∷◌, arith, Dict, lookup, NodupKeys, ltb,
  select, not, if◌then◌else◌, lookup-insert, lookup-erase,
}
use go_lang_domain_based_ent.Cache.{CacheEntry, TokenCache, is_stale, cleanup, get, evict, set}

module _ {P : Type 0} where
  -- The payload that a lookup hands on at a time, if its entry is not past its time.
  abbrev pub fresh : ℕ → Option (CacheEntry P) → Option P
  fresh now none = none
  fresh now (some e) = if ltb e.expires_at now then none else some e.payload

  -- What a reader sees of a cache at a time.
  abbrev pub view : ℕ → TokenCache P → String → Option P
  view now c key = fresh now (lookup key c.entries)

  pub get-view : (key : String) (now : ℕ) (c : TokenCache P) → (get key now c).0 ≡ view now c key
  unfolding get
  get-view key now c = ground arith

  -- A read that drops a stale entry drops nothing that a reader can still see.
  pub view-get :
      (key j : String) (now later : ℕ) (c : TokenCache P)
      → now ≤ later
      → view later (get key now c).1 j ≡ view later c j
  unfolding get
  view-get key j now later c h = ground (arith, lookup-erase key j c.entries)

  -- `Get` after `Set` of the same key: the payload through the time to live, and nothing after it.
  pub get-set :
      (key : String) (x : P) (now later : ℕ) (c : TokenCache P)
      → (get key later (set key x now c)).0 ≡ (if ltb (now + c.ttl) later then none else some x)
  unfolding get set
  get-set key x now later c =
      ground
        (arith, lookup-insert key key (record { payload = x; expires_at = now + c.ttl }) (evict c))

  lookup-select_stale :
      (now : ℕ) (m : Dict (CacheEntry P)) (key : String)
      → NodupKeys m
      → lookup key (select (λ (_, e). not (is_stale now e)) m)
        ≡ elim (lookup key m) [ none ↦ none | some e ↦ if is_stale now e then none else some e ]
  unfolding lookup
  lookup-select_stale now [] key u = refl
  lookup-select_stale now ((j, e) ∷ m) key (new, u) =
      ground (arith, lookup-select_stale now m key u)

  -- The background cleanup changes nothing that a reader can see from then on.
  pub view-cleanup :
      (now later : ℕ) (c : TokenCache P) (key : String)
      → NodupKeys c.entries
      → now ≤ later
      → view later (cleanup now c) key ≡ view later c key
  unfolding cleanup
  view-cleanup now later c key u h = ground (arith, lookup-select_stale now c.entries key u)
