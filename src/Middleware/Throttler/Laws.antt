-- ===== src/Middleware/Throttler/Laws.antt =====
-- The clients of the throttler do not disturb each other.
use go_lang_domain_based_ent.Middleware.{Verdict, abort, next}
use go_lang_domain_based_ent.Middleware.Throttler.{Buckets, Clients, IpLimiter, loaded, throttle}
use go_lang_domain_based_ent.Prelude.{
  Bool-cases, List, Option, String, [], ap, arith, if◌then◌else◌, inl, inr, insert, lookup,
  lookup-insert, none, refl, some, ℕ, ◌==◌, ◌∙◌, ◌∷◌, ◌≡◌,
}

-- The rows of one client, of rows that each name a client.
abbrev pub of_client : {A : Type 0} → String → List (String × A) → List A
of_client key [] = []
of_client key ((client, a) ∷ rest) =
    let others = of_client key rest in if client == key then a ∷ others else others

module _ (B : Buckets) (burst : ℕ) (r : B.Rate) where
  -- The verdicts on requests, each of a client at a time, with the client beside each.
  unfoldable throttle_all : List (String × ℕ) → Clients B → List (String × Verdict)
  throttle_all [] clients = []
  throttle_all ((key, t) ∷ rest) clients =
      let answer = throttle {B = B} burst r key t clients in
      (key, answer.0) ∷ throttle_all rest answer.1

  -- The verdicts of one limiter on requests at these times.
  abbrev pub alone : B.Limiter → List ℕ → List Verdict
  alone limiter [] = []
  alone limiter (t ∷ rest) =
      let asked = B.allow t limiter in
      (if asked.0 then next else abort 429 "server busy, please retry") ∷ alone asked.1 rest

  -- The limiter that a client has or would get.
  abbrev pub limiter_of : String → Clients B → B.Limiter
  limiter_of key clients = (loaded B (B.new_limiter r burst) 0 (lookup key clients)).limiter

  pub same_limiter :
      (limiter : B.Limiter) (t : ℕ) (o : Option (IpLimiter B))
      → (loaded B limiter t o).limiter ≡ (loaded B limiter 0 o).limiter
  same_limiter limiter t none = refl
  same_limiter limiter t (some entry) = refl

  pub throttle_lem :
      (key : String) (t : ℕ) (clients : Clients B)
      → (throttle {B = B} burst r key t clients).0 ≡ (
          if (B.allow t (limiter_of key clients)).0
          then next
          else abort 429 "server busy, please retry")
  unfolding throttle
  throttle_lem key t clients = rw (same_limiter (B.new_limiter r burst) t (lookup key clients)) refl

  limiter_of-throttle :
      (key client : String) (t : ℕ) (clients : Clients B)
      → limiter_of client (throttle {B = B} burst r key t clients).1 ≡ (
          if key == client
          then (B.allow t (limiter_of key clients)).1
          else limiter_of client clients)
  unfolding throttle
  limiter_of-throttle key client t clients =
      let entry = loaded B (B.new_limiter r burst) t (lookup key clients) in
      let stamped : IpLimiter B = record entry { last_seen = t } in
      let left : IpLimiter B = record { limiter = (B.allow t entry.limiter).1; last_seen = t } in
      let same = same_limiter (B.new_limiter r burst) t (lookup key clients) in
      rw (limiter_of, lookup-insert key client left (insert key stamped clients))
        (rw (lookup-insert key client stamped clients) (elim (Bool-cases (key == client)) [
          | inl e ↦ rw e (ap (λ l. (B.allow t l).1) same)
          | inr e ↦ rw e refl
        ]))

  -- A client gets the verdicts that a limiter of its own would give on its requests alone, whatever
  -- other clients send in between, as long as no idle limiter is removed.
  of_client-throttle_all :
      (key : String) (requests : List (String × ℕ)) (clients : Clients B)
      → of_client key (throttle_all requests clients)
        ≡ alone (limiter_of key clients) (of_client key requests)
  unfolding throttle_all
  of_client-throttle_all key [] clients = refl
  of_client-throttle_all key ((client, t) ∷ rest) clients =
      let answer = throttle {B = B} burst r client t clients in
      let later = of_client-throttle_all key rest answer.1 in
      let kept = limiter_of-throttle client key t clients in
      elim (Bool-cases (client == key)) [
        | inl e ↦
            let same : client ≡ key = ground arith in
            let head : Verdict =
              if (B.allow t (limiter_of client clients)).0
              then next
              else abort 429 "server busy, please retry" in
            let kept' = rw e at kept in
            rw (e, throttle_lem client t clients)
              (ap (λ vs. head ∷ vs) (later ∙ ap (λ l. alone l (of_client key rest)) kept')
                ∙ rw same refl)
        | inr e ↦
            let kept' = rw e at kept in rw e (later ∙ ap (λ l. alone l (of_client key rest)) kept')
      ]
