-- ===== src/Middleware/RateLimiter/Races/Reached.antt =====
-- Overlapping requests that go past the maximum of `RateLimiter`.
use go_lang_domain_based_ent.External.{Env, IsRedis, IsReliable}
use go_lang_domain_based_ent.Middleware.RateLimiter.{bump_pipeline, get_int, int_of}
use go_lang_domain_based_ent.Middleware.RateLimiter.Laws.{Counts, bump-Counts, int_of-counter, met}
use go_lang_domain_based_ent.Middleware.RateLimiter.Races.{
  Leads, Traffic, counts, here, no_traffic, reads, there,
}
use go_lang_domain_based_ent.Middleware.RateLimiter.Races.Bounds.{
  Leads-Counted, bump_pipeline-eq_ok, get_int-keeps, met_lem,
}
use go_lang_domain_based_ent.Prelude.{
  String, ap, arith, inl, inr, none, refl, some, subst, suc, zero, ℕ, ◌+◌, ◌<◌, ◌∙◌, ◌≡◌, ◌≤◌, ◌⊎◌,
}
use go_lang_domain_based_ent.World.{World, ok, ◌>>=◌}
use go_lang_domain_based_ent.World.Counters.{bump}

module _ {E : Env} (up : IsReliable E) (laws : IsRedis E.redis) (key : String)
    (max_reqs together window : ℕ) (w : World E) where
  -- From no traffic, so many requests passed and so many wait, at the first moment.
  record Stage (passed waiting : ℕ) : Type 0 where
    traffic : Traffic E
    leads : Leads max_reqs window key together (w.now + window) (no_traffic w) traffic
    same_now : traffic.world.now ≡ w.now
    same_passed : traffic.passed ≡ passed
    same_waiting : traffic.waiting ≡ waiting
    deadline : ℕ
    count : Counts E key passed deadline traffic.world.redis
    lasts : (passed ≡ 0) ⊎ (w.now + window ≤ deadline)

  reads_count :
      (v : World E) (k d : ℕ)
      → Counts E key k d v.redis
      → met v.now k d ≡ k
      → (get_int key v).0 ≡ ok (some k)
  unfolding get_int ◌>>=◌
  reads_count v k d c e =
      rw (up.at v.calls) (ap ok (ap int_of (c.at v.now) ∙ int_of-counter v.now k d ∙ ap some e))

  sends : (v : World E) → (bump_pipeline key window v).0 ≡ ok tt
  unfolding bump_pipeline ◌>>=◌
  sends v = rw (up.at v.calls) refl

  read_one : (k j : ℕ) → 0 < window → k < max_reqs → j < together → Stage k j → Stage k (suc j)
  read_one k j pos room free p =
      let (same, now_same) = get_int-keeps key p.traffic.world in
      record {
        traffic = _;
        leads = there _ p.traffic _ p.leads (
            reads k p.traffic
              (reads_count p.traffic.world k p.deadline p.count (
                met_lem p.traffic.world.now k p.deadline (w.now + window)
                  (omega (arith, p.same_now, pos)) p.lasts))
              (ground (arith, room)) (omega (arith, p.same_waiting, free)));
        same_now = now_same ∙ p.same_now;
        same_passed = p.same_passed;
        same_waiting = ap suc p.same_waiting;
        deadline = p.deadline;
        count = rw same p.count;
        lasts = p.lasts;
      }

  count_one : (k j : ℕ) → 0 < window → Stage k (suc j) → Stage (suc k) j
  count_one k j pos p =
      let (bumped, now_same) =
        bump_pipeline-eq_ok key window p.traffic.world (sends p.traffic.world) in
      record {
        traffic = _;
        leads = there _ p.traffic _ p.leads (counts j p.traffic p.same_waiting (sends _));
        same_now = now_same ∙ p.same_now;
        same_passed = ap suc p.same_passed;
        same_waiting = refl;
        deadline = p.traffic.world.now + window;
        count = rw bumped (
            subst
              (λ k.
                Counts E key (suc k) (p.traffic.world.now + window)
                  (bump E.redis key window p.traffic.world.now p.traffic.world.redis))
              (met_lem p.traffic.world.now k p.deadline (w.now + window)
                (omega (arith, p.same_now, pos)) p.lasts)
              (bump-Counts laws window key p.traffic.world.now k p.deadline p.traffic.world.redis
                p.count));
        lasts = inr (omega (arith, p.same_now));
      }

  -- One request after the other.
  in_turn : (n : ℕ) → 0 < window → 0 < together → n ≤ max_reqs → Stage 0 0 → Stage n 0
  in_turn zero pos some_room fits p = p
  in_turn (suc n) pos some_room fits p =
      count_one n 0 pos
        (read_one n 0 pos fits some_room (in_turn n pos some_room (omega (arith, fits)) p))

  -- Many that read the same count.
  read_all : (k n : ℕ) → 0 < window → k < max_reqs → n ≤ together → Stage k 0 → Stage k n
  read_all k zero pos room fits p = p
  read_all k (suc n) pos room fits p =
      read_one k n pos room fits (read_all k n pos room (omega (arith, fits)) p)

  count_all : (k n : ℕ) → 0 < window → Stage k n → Stage (n + k) 0
  count_all k zero pos p = subst (λ m. Stage m 0) (omega arith) p
  count_all k (suc n) pos p =
      subst (λ m. Stage m 0) (omega arith) (count_all (suc k) n pos (count_one k n pos p))

-- Where at most so many requests of a client are handled at once and no call fails, the requests of
-- a new client that pass within a window of the first moment are fewer than the maximum and those
-- handled at once together, and all of that number but one can pass: requests that overlap exceed the
-- maximum.
pub passed-Leads :
    {E : Env} (laws : IsRedis E.redis) (key : String) (max_reqs together window : ℕ) (w : World E)
    (s : Traffic E)
    → IsReliable E
    → 0 < max_reqs
    → 0 < together
    → 0 < window
    → ((u : ℕ) → E.redis.read w.redis u key ≡ none)
    → Leads max_reqs window key together (w.now + window) (no_traffic w) s
    → (s.passed < max_reqs + together)
      × ((most : Traffic E) × Leads max_reqs window key together
            (w.now + window)
            (no_traffic w)
            most
          × (most.passed + 1 ≡ max_reqs + together))
passed-Leads laws key zero together window w s up some_allowed some_room pos new leads =
    absurd (omega (arith, some_allowed))
passed-Leads laws key (suc most) together window w s up some_allowed some_room pos new leads =
    let h = Leads-Counted laws key (suc most) together w.now window w s leads (record {
      begun = omega arith;
      early = omega (arith, pos);
      deadline = 0;
      count = record { at = λ u. new u };
      lasts = inl refl;
      bound = omega (arith, some_room);
    }) in
    let last = count_all up laws key (suc most) together window w most together pos (
      read_all up laws key (suc most) together window w most together pos (omega arith)
        (omega arith)
        (in_turn up laws key (suc most) together window w most pos some_room (omega arith) (record {
          traffic = no_traffic w;
          leads = here _;
          same_now = refl;
          same_passed = refl;
          same_waiting = refl;
          deadline = 0;
          count = record { at = λ u. new u };
          lasts = inl refl;
        }))) in
    (omega (arith, h.bound), (last.traffic, last.leads, omega (arith, last.same_passed)))
