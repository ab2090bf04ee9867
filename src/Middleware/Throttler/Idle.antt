-- ===== src/Middleware/Throttler/Idle.antt =====
-- The rounds of the throttler's cleanup between requests.
use go_lang_domain_based_ent.Middleware.{Verdict, abort, next}
use go_lang_domain_based_ent.Middleware.Throttler.{
  Buckets, Clients, IpLimiter, cleanup_idle, loaded, throttle,
}
use go_lang_domain_based_ent.Middleware.Throttler.Laws.{
  alone, limiter_of, of_client, same_limiter, throttle_lem,
}
use go_lang_domain_based_ent.Prelude.{
  Bool-cases, List, NodupKeys, Option, String, [], ap, arith, eq_self, if◌then◌else◌, inl, inr,
  insert, insert-NodupKeys, lookup, lookup-insert, ltb, none, not, refl, some, subst, sym, ℕ, ◌-◌,
  ◌<◌, ◌==◌, ◌∙◌, ◌∷◌, ◌≡◌, ◌≤◌,
}

-- A request of a client, or a round of the cleanup, at a time.
pub data Event : Type 0 where
  asks : String → ℕ → Event
  sweeps : ℕ → Event

-- The requests among the events.
abbrev pub requests_of : List Event → List (String × ℕ)
requests_of [] = []
requests_of (asks key t ∷ rest) = (key, t) ∷ requests_of rest
requests_of (sweeps t ∷ rest) = requests_of rest

-- The times of the events do not run back.
abbrev pub IsAscending : ℕ → List Event → Type 0
IsAscending now [] = Unit
IsAscending now (asks key t ∷ rest) = (now ≤ t) × IsAscending t rest
IsAscending now (sweeps t ∷ rest) = (now ≤ t) × IsAscending t rest

-- What a round of the cleanup leaves of an entry.
abbrev swept : {B : Buckets} → ℕ → Option (IpLimiter B) → Option (IpLimiter B)
swept t none = none
swept t (some entry) = if not (ltb 600 (t - entry.last_seen)) then some entry else none

lookup-cleanup_idle :
    {B : Buckets} (t : ℕ) (key : String) (clients : Clients B)
    → NodupKeys clients
    → lookup key (cleanup_idle t clients) ≡ swept t (lookup key clients)
unfolding cleanup_idle lookup
lookup-cleanup_idle t key [] once = refl
lookup-cleanup_idle t key ((own, entry) ∷ rest) (new, once) =
    ground (arith, lookup-cleanup_idle t key rest once)

cleanup_idle-NodupKeys :
    {B : Buckets} (t : ℕ) (clients : Clients B)
    → NodupKeys clients
    → NodupKeys (cleanup_idle t clients)
unfolding cleanup_idle
cleanup_idle-NodupKeys t [] once = tt
cleanup_idle-NodupKeys t ((own, entry) ∷ rest) (new, once) =
    let gone : lookup own (cleanup_idle t rest) ≡ none =
      lookup-cleanup_idle t own rest once ∙ ap (swept t) new in
    ground (arith, gone, cleanup_idle-NodupKeys t rest once)

module _ (B : Buckets) (burst : ℕ) (r : B.Rate) where
  -- A limiter that was last asked at a time.
  pub data LastAsked : B.Limiter → ℕ → Type 0 where
    first : (t : ℕ) → LastAsked (B.allow t (B.new_limiter r burst)).1 t
    again :
        (limiter : B.Limiter) (s t : ℕ) → LastAsked limiter s → LastAsked (B.allow t limiter).1 t

  -- golang.org/x/time/rate: in ten minutes without a request the bucket fills up.
  pub record Refills : Type 0 where
    pub at :
        (limiter : B.Limiter) (s t : ℕ)
        → LastAsked limiter s
        → 600 < t - s
        → B.allow t limiter ≡ B.allow t (B.new_limiter r burst)

  -- The verdicts on the requests among the events.
  unfoldable pub throttle_events : List Event → Clients B → List (String × Verdict)
  throttle_events [] clients = []
  throttle_events (asks key t ∷ rest) clients =
      let answer = throttle {B = B} burst r key t clients in
      (key, answer.0) ∷ throttle_events rest answer.1
  throttle_events (sweeps t ∷ rest) clients = throttle_events rest (cleanup_idle t clients)

  -- From this time, a client with this entry gets what the limiter gives.
  abbrev Matches : ℕ → B.Limiter → Option (IpLimiter B) → Type 0
  Matches now limiter none =
      (t : ℕ) → now ≤ t → B.allow t (B.new_limiter r burst) ≡ B.allow t limiter
  Matches now limiter (some entry) = (entry.limiter ≡ limiter) × LastAsked limiter entry.last_seen

  Matches-later :
      (now t : ℕ) (limiter : B.Limiter) (o : Option (IpLimiter B))
      → now ≤ t
      → Matches now limiter o
      → Matches t limiter o
  Matches-later now t limiter none h m = λ u k. m u (omega arith)
  Matches-later now t limiter (some entry) h m = m

  Matches-swept :
      (now t : ℕ) (limiter : B.Limiter) (o : Option (IpLimiter B))
      → Refills
      → now ≤ t
      → Matches now limiter o
      → Matches t limiter (swept t o)
  Matches-swept now t limiter none refills h m = λ u k. m u (omega arith)
  Matches-swept now t limiter (some entry) refills h (e, asked) =
      elim (Bool-cases (ltb 600 (t - entry.last_seen))) [
        | inl idle ↦
            rw idle (λ u k. sym (refills.at limiter entry.last_seen u asked (ground arith)))
        | inr used ↦ rw used (e, asked)
      ]

  -- The entry that a request of the client leaves.
  abbrev asked_entry : ℕ → B.Limiter → Option (IpLimiter B)
  asked_entry t limiter = some (record { limiter = (B.allow t limiter).1; last_seen = t })

  Matches-asked :
      (now t : ℕ) (limiter : B.Limiter) (o : Option (IpLimiter B))
      → now ≤ t
      → Matches now limiter o
      → let found = (loaded B (B.new_limiter r burst) 0 o).limiter in
        (B.allow t found ≡ B.allow t limiter)
        × Matches t (B.allow t limiter).1 (asked_entry t found)
  Matches-asked now t limiter none h m =
      let same = m t h in
      (same, (ap (λ a. a.1) same, subst (λ l. LastAsked l t) (ap (λ a. a.1) same) (first t)))
  Matches-asked now t limiter (some entry) h (e, asked) =
      (ap (B.allow t) e, (ap (λ l. (B.allow t l).1) e, again limiter entry.last_seen t asked))

  lookup-throttle :
      (client key : String) (t : ℕ) (clients : Clients B)
      → lookup key (throttle {B = B} burst r client t clients).1 ≡ (
          if client == key
          then asked_entry t (limiter_of B burst r client clients)
          else lookup key clients)
  unfolding throttle
  lookup-throttle client key t clients =
      let entry = loaded B (B.new_limiter r burst) t (lookup client clients) in
      let stamped : IpLimiter B = record entry { last_seen = t } in
      let left : IpLimiter B = record { limiter = (B.allow t entry.limiter).1; last_seen = t } in
      rw (lookup-insert client key left (insert client stamped clients)) (
        rw (lookup-insert client key stamped clients) (
          rw (same_limiter B burst r (B.new_limiter r burst) t (lookup client clients))
            (elim (Bool-cases (client == key)) [ inl e ↦ rw e refl | inr e ↦ rw e refl ])))

  throttle-NodupKeys :
      (client : String) (t : ℕ) (clients : Clients B)
      → NodupKeys clients
      → NodupKeys (throttle {B = B} burst r client t clients).1
  unfolding throttle
  throttle-NodupKeys client t clients once =
      insert-NodupKeys client _ _ (insert-NodupKeys client _ clients once)

  -- A request of the client gets the verdict of the limiter.
  throttle-Matches :
      (key : String) (now t : ℕ) (clients : Clients B) (limiter : B.Limiter)
      → now ≤ t
      → Matches now limiter (lookup key clients)
      → let answer = throttle {B = B} burst r key t clients in
        (answer.0 ≡ (if (B.allow t limiter).0 then next else abort 429 "server busy, please retry"))
        × Matches t (B.allow t limiter).1 (lookup key answer.1)
  throttle-Matches key now t clients limiter h m =
      let (same, kept) = Matches-asked now t limiter (lookup key clients) h m in
      let left = rw (eq_self key) at (lookup-throttle key key t clients) in
      (
        throttle_lem B burst r key t clients
            ∙ ap (λ a. if a.0 then next else abort 429 "server busy, please retry") same,
        subst (Matches t (B.allow t limiter).1) (sym left) kept,
      )

  events-alone :
      (key : String) (events : List Event) (now : ℕ) (clients : Clients B) (limiter : B.Limiter)
      → Refills
      → IsAscending now events
      → NodupKeys clients
      → Matches now limiter (lookup key clients)
      → of_client key (throttle_events events clients)
        ≡ alone B burst r limiter (of_client key (requests_of events))
  unfolding throttle_events
  events-alone key [] now clients limiter refills later once m = refl
  events-alone key (sweeps t ∷ rest) now clients limiter refills (h, later) once m =
      events-alone key rest t (cleanup_idle t clients) limiter refills later
        (cleanup_idle-NodupKeys t clients once)
        (subst (Matches t limiter) (sym (lookup-cleanup_idle t key clients once))
          (Matches-swept now t limiter (lookup key clients) refills h m))
  events-alone key (asks client t ∷ rest) now clients limiter refills (h, later) once m =
      let answer = throttle {B = B} burst r client t clients in
      let once' = throttle-NodupKeys client t clients once in
      elim (Bool-cases (client == key)) [
        | inl e ↦
            let same : key ≡ client = ground arith in
            let own = subst (λ k. Matches now limiter (lookup k clients)) same m in
            let (verdict, kept) = throttle-Matches client now t clients limiter h own in
            rw (e, verdict)
              (ap
                (λ vs.
                  (if (B.allow t limiter).0 then next else abort 429 "server busy, please retry")
                  ∷ vs)
                (events-alone key rest t answer.1 (B.allow t limiter).1 refills later once' (
                  subst (λ k. Matches t (B.allow t limiter).1 (lookup k answer.1)) (sym same)
                    kept)))
        | inr e ↦
            let other = rw e at (lookup-throttle client key t clients) in
            rw e (
              events-alone key rest t answer.1 limiter refills later once' (
                Matches-later now t limiter (lookup key answer.1) h
                  (subst (Matches now limiter) (sym other) m)))
      ]

  -- With buckets that fill up in ten minutes, a client of a new throttler gets the verdicts that a
  -- limiter of its own would give on its requests alone, whatever other clients send and whenever
  -- the cleanup removes idle limiters, as long as time does not run back.
  pub of_client-throttle_events :
      (key : String) (events : List Event)
      → Refills
      → IsAscending 0 events
      → of_client key (throttle_events events [])
        ≡ alone B burst r (B.new_limiter r burst) (of_client key (requests_of events))
  unfolding lookup
  of_client-throttle_events key events refills ascending =
      events-alone key events 0 [] (B.new_limiter r burst) refills ascending tt λ t h. refl
