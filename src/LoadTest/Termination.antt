-- ===== src/LoadTest/Termination.antt =====
-- Each worker of the load test ends, within a number of rounds that its duration bounds.
use go_lang_domain_based_ent.LoadTest.Client.{
  Client, Network, ScenarioConfig, Worker, do_request, get_token, login_field, login_url,
  new_client, record_answer, sleep,
}
use go_lang_domain_based_ent.LoadTest.Ends.{Ends, loop-Ends, loop-Ends_total}
use go_lang_domain_based_ent.LoadTest.Mixed.{MixedWorker, mixed_client, mixed_worker}
use go_lang_domain_based_ent.LoadTest.Rounds.{
  admin_round-lasts, health_round-lasts, login_field-some, mixed_round-Advances,
  mixed_round_refused, warmup_round-lasts,
}
use go_lang_domain_based_ent.LoadTest.Workers.{
  admin_login, admin_loop, admin_round, admin_worker, health_worker, milliseconds, panicked,
  retry_login, returned, unless_panicked, warmup_worker,
}
use go_lang_domain_based_ent.Prelude.{
  Bool-cases, String, [], ap, arith, false, inl, inr, refl, some, suc, true, ℕ, ◌*◌, ◌+◌, ◌<>◌,
  ◌==◌, ◌∙◌, ◌∷◌, ◌≡◌, ◌≤◌, ◌⊎◌,
}

module _ {N : Network} (cfg : ScenarioConfig) (n : ℕ) (w : Worker N) where
  abbrev client : Client
  client = new_client cfg.base_url

  admin_loop-returns :
      (uid : ℕ) (got : String × Worker N)
      → cfg.duration ≤ n * 50000
      → (after : Worker N) × (admin_loop client cfg uid (suc n) got ≡ returned after)
  unfolding admin_loop
  admin_loop-returns uid got h = elim (Bool-cases (got.0 == "")) [
    | inl e ↦ rw e (got.1, refl)
    | inr e ↦
        let r =
          loop-Ends_total (λ (s : Worker N). s.clock) got.1.clock cfg.duration 200000
            (admin_round client uid got.0) n got.1 (admin_round-lasts client uid got.0)
            (omega arith) (omega (arith, h)) in
        rw e (r.after, r.ended)
  ]

  admin_login-some :
      N.accepts (login_url client) ≡ true
      → (got : String × Worker N) × (admin_login client cfg w ≡ some got)
  unfolding admin_login retry_login get_token
  admin_login-some known =
      let (first, same, _) =
        login_field-some N.access_token_of client cfg.admin_email cfg.admin_password w known in
      elim (Bool-cases (first.0 == "")) [
        | inr e ↦ rw (same, e) (first, refl)
        | inl e ↦
            let (again, same', _) =
              login_field-some N.access_token_of client cfg.admin_email cfg.admin_password
                (sleep (milliseconds 2000) (
                  record_answer (
                    do_request client "POST" "/api/v1/auth/register"
                      (some (
                        ("email", cfg.admin_email)
                        ∷ ("password", cfg.admin_password)
                        ∷ ("full_name", "Load Test Admin")
                        ∷ []))
                      "" first.1)))
                known in
            rw (same, e, same') (again, refl)
      ]

  -- The worker of the admin returns, or its first login panics.
  abbrev pub AdminEnds : ℕ → Type 0
  AdminEnds uid =
      ((N.accepts (login_url client) ≡ true)
        × ((after : Worker N) × (admin_worker cfg uid (suc n) w ≡ returned after)))
      ⊎ ((N.accepts (login_url client) ≡ false) × (admin_worker cfg uid (suc n) w ≡ panicked))

  admin_worker-AdminEnds : (uid : ℕ) → cfg.duration ≤ n * 50000 → AdminEnds uid
  unfolding admin_worker admin_login get_token login_field
  admin_worker-AdminEnds uid h = elim (Bool-cases (N.accepts (login_url client))) [
    | inr refused ↦ inr (refused, rw refused refl)
    | inl known ↦
        let (got, same) = admin_login-some known in
        let (after, ended) = admin_loop-returns uid got h in
        inl (
          known,
          (after, ap (λ o. unless_panicked o (admin_loop client cfg uid (suc n))) same ∙ ended),
        )
  ]

  -- A round of the mixed worker, whose client has another header and the same URL.
  mixed_worker-Ends :
      (uid : ℕ)
      → cfg.duration ≤ n * 50000
      → Ends
          (λ (m : MixedWorker N). m.worker.clock)
          (w.clock + cfg.duration)
          (mixed_worker cfg uid (suc n) w)
  unfolding mixed_worker
  mixed_worker-Ends uid h =
      let own = mixed_client cfg.base_url ("device-" <> N.show uid) in
      elim (Bool-cases (N.accepts (login_url client))) [
        | inl known ↦
            loop-Ends _ _ w.clock cfg.duration 100000 _ n _
              (λ m i. mixed_round-Advances own uid _ w.clock cfg.duration m known) tt (omega arith)
              (omega (arith, h))
        | inr refused ↦
            loop-Ends _ _ w.clock cfg.duration 100000 _ n _
              (λ m i. mixed_round_refused own uid _ w.clock cfg.duration m refused i) refl
              (omega arith) (omega (arith, h))
      ]

  -- With one round more than the 50 milliseconds that fit into its duration, each worker ends,
  -- whatever the server answers: the ones of the health endpoint, of the warmup and of the mixed
  -- workload return when their time is over, and that of the admin returns then or where it gets no
  -- token, if the URL of the login is one that http.NewRequest accepts, and panics otherwise.
  pub workers-Ends :
      (id uid : ℕ)
      → cfg.duration ≤ n * 50000
      → cfg.warmup_duration ≤ n * 50000
      → Ends (λ (s : Worker N). s.clock) (w.clock + cfg.duration) (health_worker cfg id (suc n) w)
        × Ends
            (λ (s : Worker N). s.clock)
            (w.clock + cfg.warmup_duration)
            (warmup_worker cfg id (suc n) w)
        × Ends
            (λ (m : MixedWorker N). m.worker.clock)
            (w.clock + cfg.duration)
            (mixed_worker cfg uid (suc n) w)
        × AdminEnds uid
  unfolding health_worker warmup_worker
  workers-Ends id uid h h' = (
    loop-Ends_total (λ s. s.clock) w.clock cfg.duration 50000 _ n w (health_round-lasts client id)
        (omega arith) (omega (arith, h)),
    loop-Ends_total (λ s. s.clock) w.clock cfg.warmup_duration 50000 _ n w
        (warmup_round-lasts client id) (omega arith) (omega (arith, h')),
    mixed_worker-Ends uid h,
    admin_worker-AdminEnds uid h,
  )
