-- ===== src/Middleware/RateLimiter/Races/Bounds.antt =====
-- How many overlapping requests `RateLimiter` can let pass in a window.
use go_lang_domain_based_ent.External.{Env, IsRedis}
use go_lang_domain_based_ent.Middleware.RateLimiter.{bump_pipeline, get_int, int_of}
use go_lang_domain_based_ent.Middleware.RateLimiter.Laws.{Counts, bump-Counts, int_of-counter, met}
use go_lang_domain_based_ent.Middleware.RateLimiter.Races.{
  Leads, Move, Traffic, clock, count_fails, counts, here, no_traffic, read_fails, reads, there,
  too_many,
}
use go_lang_domain_based_ent.Prelude.{
  Bool-cases, Option, String, ap, arith, inl, inr, lt→ltb, refl, some, subst, suc, sym, ℕ, ◌+◌, ◌<◌,
  ◌∙◌, ◌≡◌, ◌≤◌, ◌⊎◌,
}
use go_lang_domain_based_ent.World.{Failure, World, err, ok, ◌>>=◌}
use go_lang_domain_based_ent.World.Actions.{err_not_ok, ok_inj}
use go_lang_domain_based_ent.World.Counters.{bump}

module _ {E : Env} where
  pub get_int-keeps :
      (key : String) (w : World E)
      → ((get_int key w).1.redis ≡ w.redis) × ((get_int key w).1.now ≡ w.now)
  unfolding get_int ◌>>=◌
  get_int-keeps key w = elim (Bool-cases (E.fails w.calls)) [
    | inl down ↦ rw down (refl, refl)
    | inr up ↦ rw up (refl, refl)
  ]

  get_int-eq_ok :
      (key : String) (w : World E) (o : Option ℕ)
      → (get_int key w).0 ≡ ok o
      → o ≡ int_of (E.redis.read w.redis w.now key)
  unfolding get_int ◌>>=◌
  get_int-eq_ok key w o h = elim (Bool-cases (E.fails w.calls)) [
    | inl down ↦ absurd (err_not_ok (rw down at h))
    | inr up ↦ sym (ok_inj (rw up at h))
  ]

  pub bump_pipeline-eq_ok :
      (key : String) (window : ℕ) (w : World E)
      → (bump_pipeline key window w).0 ≡ ok tt
      → ((bump_pipeline key window w).1.redis ≡ bump E.redis key window w.now w.redis)
        × ((bump_pipeline key window w).1.now ≡ w.now)
  unfolding bump_pipeline ◌>>=◌
  bump_pipeline-eq_ok key window w h = elim (Bool-cases (E.fails w.calls)) [
    | inl down ↦ absurd (err_not_ok (rw down at h))
    | inr up ↦ rw up (refl, refl)
  ]

  bump_pipeline-eq_err :
      (key : String) (window : ℕ) (e : Failure) (w : World E)
      → (bump_pipeline key window w).0 ≡ err e
      → ((bump_pipeline key window w).1.redis ≡ w.redis)
        × ((bump_pipeline key window w).1.now ≡ w.now)
  unfolding bump_pipeline ◌>>=◌
  bump_pipeline-eq_err key window e w h = elim (Bool-cases (E.fails w.calls)) [
    | inl down ↦ rw down (refl, refl)
    | inr up ↦ absurd (err_not_ok (sym (rw up at h)))
  ]

-- The count that Redis holds is that of the requests that passed, which lasts, and those that wait
-- read less than the maximum while fewer than all waited beside them.
pub record IsCounted (E : Env) (key : String) (max_reqs together start window : ℕ) (s : Traffic E)
    : Type 0 where
  pub begun : start ≤ s.world.now
  pub early : s.world.now < start + window
  pub deadline : ℕ
  pub count : Counts E key s.passed deadline s.world.redis
  pub lasts : (s.passed ≡ 0) ⊎ (start + window ≤ deadline)
  pub bound : s.passed + s.waiting < max_reqs + together

some_inj : {n m : ℕ} → some n ≡ some m → n ≡ m
some_inj h = cc

pub met_lem : (t k d until : ℕ) → t < until → (k ≡ 0) ⊎ (until ≤ d) → met t k d ≡ k
met_lem t k d until early (inl zero_count) = ground (arith, zero_count)
met_lem t k d until early (inr lasts) = ground (arith, lt→ltb t d (omega arith))

module _ {E : Env} (laws : IsRedis E.redis) (key : String)
    (max_reqs together start window : ℕ) where
  abbrev Counted : Traffic E → Type 0
  Counted s = IsCounted E key max_reqs together start window s

  val_lem :
      (s : Traffic E) (val : ℕ)
      → Counted s
      → (get_int key s.world).0 ≡ ok (some val)
      → val ≡ s.passed
  val_lem s val h e =
      let read : some val ≡ some (met s.world.now s.passed h.deadline) =
        get_int-eq_ok key s.world (some val) e
        ∙ ap int_of (h.count.at s.world.now)
        ∙ int_of-counter s.world.now s.passed h.deadline in
      some_inj read ∙ met_lem s.world.now s.passed h.deadline (start + window) h.early h.lasts

  Move-Counted :
      (x y : Traffic E)
      → Move max_reqs window key together (start + window) x y
      → Counted x
      → Counted y
  Move-Counted x y (clock t s after before) h = record {
    begun = omega (arith, h.begun, after);
    early = before;
    deadline = h.deadline;
    count = h.count;
    lasts = h.lasts;
    bound = h.bound;
  }
  Move-Counted x y (reads val s e room free) h =
      let (same, now_same) = get_int-keeps key s.world in
      record {
        begun = rw now_same h.begun;
        early = rw now_same h.early;
        deadline = h.deadline;
        count = rw same h.count;
        lasts = h.lasts;
        bound = ground (arith, h.bound, val_lem s val h e, room, free);
      }
  Move-Counted x y (too_many val s e full) h =
      let (same, now_same) = get_int-keeps key s.world in
      record {
        begun = rw now_same h.begun;
        early = rw now_same h.early;
        deadline = h.deadline;
        count = rw same h.count;
        lasts = h.lasts;
        bound = h.bound;
      }
  Move-Counted x y (read_fails s e) h =
      let (same, now_same) = get_int-keeps key s.world in
      record {
        begun = rw now_same h.begun;
        early = rw now_same h.early;
        deadline = h.deadline;
        count = rw same h.count;
        lasts = h.lasts;
        bound = h.bound;
      }
  Move-Counted x y (counts n s e sent) h =
      let (bumped, now_same) = bump_pipeline-eq_ok key window s.world sent in
      record {
        begun = rw now_same h.begun;
        early = rw now_same h.early;
        deadline = s.world.now + window;
        count = rw bumped (
            subst
              (λ k.
                Counts E key (suc k) (s.world.now + window)
                  (bump E.redis key window s.world.now s.world.redis))
              (met_lem s.world.now s.passed h.deadline (start + window) h.early h.lasts)
              (bump-Counts laws window key s.world.now s.passed h.deadline s.world.redis h.count));
        lasts = inr (omega (arith, h.begun));
        bound = omega (arith, h.bound, e);
      }
  Move-Counted x y (count_fails n f s e sent) h =
      let (same, now_same) = bump_pipeline-eq_err key window f s.world sent in
      record {
        begun = rw now_same h.begun;
        early = rw now_same h.early;
        deadline = h.deadline;
        count = rw same h.count;
        lasts = h.lasts;
        bound = omega (arith, h.bound, e);
      }

  pub Leads-Counted :
      (w : World E) (s : Traffic E)
      → Leads max_reqs window key together (start + window) (no_traffic w) s
      → Counted (no_traffic w)
      → Counted s
  Leads-Counted w s (here _) h = h
  Leads-Counted w s (there _ b _ before step) h = Move-Counted b s step (Leads-Counted w b before h)
