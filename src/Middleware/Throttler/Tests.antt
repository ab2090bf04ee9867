-- ===== src/Middleware/Throttler/Tests.antt =====
-- The throttler with a token bucket that refills.
use go_lang_domain_based_ent.Middleware.{abort, next}
use go_lang_domain_based_ent.Middleware.Throttler.{Buckets}
use go_lang_domain_based_ent.Middleware.Throttler.Idle.{
  Event, LastAsked, Refills, again, asks, first, of_client-throttle_events, sweeps, throttle_events,
}
use go_lang_domain_based_ent.Middleware.Throttler.Laws.{of_client}
use go_lang_domain_based_ent.Prelude.{
  List, [], arith, ltb, min, refl, string_dec, sym, true, ℕ, ◌*◌, ◌+◌, ◌-◌, ◌<◌, ◌∙◌, ◌∷◌, ◌≡◌,
}

record Bucket : Type 0 where
  burst : ℕ
  rate : ℕ
  tokens : ℕ
  last : ℕ

abbrev refilled : ℕ → Bucket → ℕ
refilled t b = min b.burst (b.tokens + b.rate * (t - b.last))

abbrev token_buckets : Buckets
token_buckets = record {
  Limiter = Bucket;
  Rate = ℕ;
  new_limiter = λ rate burst. record { burst = burst; rate = rate; tokens = burst; last = 0 };
  allow = λ t b. (ltb 0 (refilled t b), record b { tokens = refilled t b - 1; last = t });
}

LastAsked-Bucket :
    (b : Bucket) (s : ℕ)
    → LastAsked token_buckets 2 1 b s
    → (b.burst ≡ 2) × (b.rate ≡ 1) × (b.last ≡ s)
LastAsked-Bucket _ _ (first t) = (refl, refl, refl)
LastAsked-Bucket _ _ (again b s t h) = let k = LastAsked-Bucket b s h in (k.0, k.1, refl)

full_bucket :
    (b : Bucket) (t : ℕ)
    → b.burst ≡ 2
    → b.rate ≡ 1
    → 1 < b.tokens + (t - b.last)
    → (token_buckets.allow t b ≡ (true, record { burst = 2; rate = 1; tokens = 1; last = t }))
full_bucket b t e f h =
    let full : refilled t b ≡ 2 = rw (e, f) (omega arith) in rw (full, e, f) refl

token_buckets-Refills : Refills token_buckets 2 1
token_buckets-Refills = record {
  at = λ b s t asked h.
      let (e, f, g) = LastAsked-Bucket b s asked in
      full_bucket b t e f (omega (arith, g)) ∙ sym (full_bucket _ t refl refl (omega arith));
}

-- The limiter of "a" is removed between its requests.
abbrev sweep_between : List Event
sweep_between =
    asks "a" 1
    ∷ asks "b" 1
    ∷ asks "a" 1
    ∷ asks "a" 1
    ∷ sweeps 700
    ∷ asks "b" 701
    ∷ asks "a" 702
    ∷ []

of_client-throttle_events_example :
    of_client "a" (throttle_events token_buckets 2 1 sweep_between [])
    ≡ next ∷ next ∷ abort 429 "server busy, please retry" ∷ next ∷ []
unfolding string_dec
of_client-throttle_events_example =
    of_client-throttle_events token_buckets 2 1 "a" sweep_between token_buckets-Refills
      (omega arith)
