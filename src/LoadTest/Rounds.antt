-- ===== src/LoadTest/Rounds.antt =====
-- How long a round of each worker of the load test takes, and that it goes on.
use native.Mathlib.Nat.{le_trans}
use go_lang_domain_based_ent.LoadTest.Client.{
  Client, HttpAnswer, Network, Worker, credentials, do_request, get_refresh_token, get_token,
  is_status, login_answer, login_field, login_url, record_answer, record_in, send_request, sleep,
}
use go_lang_domain_based_ent.LoadTest.Ends.{Advances}
use go_lang_domain_based_ent.LoadTest.Mixed.{
  MixedWorker, after_fetch, authenticated_round, call_endpoint, endpoint, fetch_token, login_round,
  mixed_password, mixed_round, refresh_in_time, refresh_with, register_worker,
}
use go_lang_domain_based_ent.LoadTest.Workers.{
  admin_round, health_round, milliseconds, record_success, warmup_round,
}
use go_lang_domain_based_ent.Prelude.{
  Bool-cases, Dict, Option, Option-cases, String, arith, false, inl, inr, ltb, none, refl, some,
  string_dec, subst, true, ℕ, ◌%◌, ◌&&◌, ◌*◌, ◌+◌, ◌-◌, ◌/◌, ◌<>◌, ◌==◌, ◌≡◌, ◌≤◌,
}

module _ {N : Network} where
  clock-record_answer : (a : HttpAnswer × Worker N) → (record_answer a).clock ≡ a.1.clock
  unfolding record_answer record_in
  clock-record_answer (answer, w) = elim (Option-cases answer.status) [
    | inl e ↦ rw e refl
    | inr (code, e) ↦ rw e refl
  ]

  clock-record_success : (a : HttpAnswer × Worker N) → (record_success a).clock ≡ a.1.clock
  unfolding record_in
  clock-record_success (answer, w) = elim (Option-cases answer.status) [
    | inl e ↦ rw e refl
    | inr (code, e) ↦ rw e refl
  ]

  clock-do_request :
      (client : Client) (method path : String) (body : Option (Dict String)) (token : String)
      (w : Worker N)
      → w.clock ≤ (do_request client method path body token w).1.clock
  unfolding do_request send_request
  clock-do_request client method path body token w =
      elim (Bool-cases (N.accepts (client.base_url <> path))) [
        | inl e ↦ rw e (omega arith)
        | inr e ↦ rw e (omega arith)
      ]

  -- A URL that is not accepted is not answered.
  do_request_refused :
      (client : Client) (method path : String) (body : Option (Dict String)) (token : String)
      (w : Worker N)
      → N.accepts (client.base_url <> path) ≡ false
      → (do_request client method path body token w).0.status ≡ none
  unfolding do_request
  do_request_refused client method path body token w e = rw e refl

  -- A login on an accepted URL.
  pub login_field-some :
      (field : String → String) (client : Client) (email password : String) (w : Worker N)
      → N.accepts (login_url client) ≡ true
      → (got : String × Worker N) × (login_field field client email password w ≡ some got)
        × (w.clock ≤ got.1.clock)
  unfolding login_field login_answer send_request
  login_field-some field client email password w e = rw e (_, refl, omega arith)

  clock-called :
      (client : Client) (method path : String) (body : Option (Dict String)) (token : String)
      (w : Worker N)
      → w.clock ≤ (record_answer (do_request client method path body token w)).clock
  clock-called client method path body token w = omega (
    arith,
    clock-do_request client method path body token w,
    clock-record_answer (do_request client method path body token w),
  )

  clock-succeeded :
      (client : Client) (method path : String) (body : Option (Dict String)) (token : String)
      (w : Worker N)
      → w.clock ≤ (record_success (do_request client method path body token w)).clock
  clock-succeeded client method path body token w = omega (
    arith,
    clock-do_request client method path body token w,
    clock-record_success (do_request client method path body token w),
  )

  -- A sleep of at least `least` milliseconds at the end of a round.
  sleep-lasts :
      (least more : ℕ) (w after : Worker N)
      → w.clock ≤ after.clock
      → w.clock + 1000 * least ≤ (sleep (milliseconds (least + more)) after).clock
  unfolding sleep
  sleep-lasts least more w after h = omega (arith, h)

  pub health_round-lasts :
      (client : Client) (id : ℕ) (w : Worker N) → w.clock + 50000 ≤ (health_round client id w).clock
  unfolding health_round
  health_round-lasts client id w =
      sleep-lasts 50 (id % 50) w _ (clock-called client "GET" "/health" none "" w)

  pub warmup_round-lasts :
      (client : Client) (id : ℕ) (w : Worker N) → w.clock + 50000 ≤ (warmup_round client id w).clock
  unfolding warmup_round
  warmup_round-lasts client id w =
      sleep-lasts 50 (id % 50) w _ (clock-succeeded client "GET" "/health" none "" w)

  pub admin_round-lasts :
      (client : Client) (uid : ℕ) (token : String) (w : Worker N)
      → w.clock + 200000 ≤ (admin_round client uid token w).clock
  unfolding admin_round
  admin_round-lasts client uid token w = sleep-lasts 200 (uid % 100) w _ (
      le_trans (clock-called client "POST" "/api/v1/admin/users" _ token w) (
        le_trans (clock-called client "GET" "/api/v1/admin/users?limit=20" none token _)
          (clock-called client "GET" "/api/v1/admin/roles?limit=20" none token _)))

  clock-refresh_with :
      (client : Client) (got : String × Worker N) → got.1.clock ≤ (refresh_with client got).clock
  unfolding refresh_with
  clock-refresh_with client (refresh, w) = elim (Bool-cases (refresh == "")) [
    | inl e ↦ rw e (omega arith)
    | inr e ↦ rw e (clock-succeeded client "POST" "/api/v1/auth/refresh" _ "" w)
  ]

  module _ (client : Client) (known : N.accepts (login_url client) ≡ true) where
    refresh_in_time-some :
        (email : String) (elapsed duration : ℕ) (w : Worker N)
        → (after : Worker N) × (refresh_in_time client email elapsed duration w ≡ some after)
          × (w.clock ≤ after.clock)
    unfolding refresh_in_time get_refresh_token
    refresh_in_time-some email elapsed duration w =
        elim (Bool-cases
          (ltb (30 * duration) (100 * elapsed) && ltb (100 * elapsed) (35 * duration))) [
            | inl e ↦
                let (got, same, later) =
                  login_field-some N.refresh_token_of client email mixed_password w known in
                rw (e, same)
                  (refresh_with client got, refl, le_trans later (clock-refresh_with client got))
            | inr e ↦ rw e (w, refl, omega arith)
          ]

    authenticated_round-Advances :
        (uid : ℕ) (email : String) (elapsed duration : ℕ) (m : MixedWorker N)
        → Advances
            (λ (m : MixedWorker N). Unit)
            (λ m. m.worker.clock)
            (m.worker.clock + 100000)
            (authenticated_round client uid email elapsed duration m)
    unfolding authenticated_round call_endpoint
    authenticated_round-Advances uid email elapsed duration m =
        let call = endpoint (100 * elapsed / duration % 6) (N.show uid) m.access_token in
        let called =
          record_answer
            (do_request client call.method call.path call.body call.auth_token m.worker) in
        let (after, same, later) = refresh_in_time-some email elapsed duration called in
        rw same (record {
          next = _;
          goes_on = refl;
          keeps = tt;
          late =
              sleep-lasts 100 (uid % 200) m.worker after
                (le_trans (clock-called client _ _ _ _ m.worker) later);
        })

    after_fetch-Advances :
        (uid : ℕ) (email : String) (elapsed duration t : ℕ) (m : MixedWorker N)
        → t ≤ m.worker.clock
        → Advances
            (λ (m : MixedWorker N). Unit)
            (λ m. m.worker.clock)
            (t + 100000)
            (after_fetch client uid email elapsed duration (some m))
    after_fetch-Advances uid email elapsed duration t m h =
        elim (Bool-cases (m.access_token == "")) [
          | inl e ↦ rw e (record {
            next = _;
            goes_on = refl;
            keeps = tt;
            late = omega (arith, h, sleep-lasts 100 100 m.worker m.worker (omega arith));
          })
          | inr e ↦
              let a = authenticated_round-Advances uid email elapsed duration m in
              rw e (record {
                next = a.next;
                goes_on = a.goes_on;
                keeps = tt;
                late = omega (arith, h, a.late);
              })
        ]

    fetch_token-some :
        (email : String) (a : HttpAnswer × Worker N)
        → (m : MixedWorker N) × (fetch_token client email a ≡ some m) × (a.1.clock ≤ m.worker.clock)
    unfolding fetch_token get_token
    fetch_token-some email a =
        let (got, same, later) =
          login_field-some N.access_token_of client email mixed_password (record_answer a) known in
        rw same (
          record { worker = got.1; access_token = got.0 },
          refl,
          subst (λ c. c ≤ got.1.clock) (clock-record_answer a) later,
        )

  register_worker-lasts :
      (client : Client) (uid email : String) (a : HttpAnswer × Worker N)
      → a.1.clock + 100000 ≤ (register_worker client uid email a).clock
  unfolding register_worker record_in
  register_worker-lasts client uid email (answer, w) =
      sleep-lasts 100 100 w _ (clock-called client "POST" "/api/v1/auth/register" _ "" _)

  -- A round with an accepted URL, and one without, which never gets a token.
  pub mixed_round-Advances :
      (client : Client) (uid : ℕ) (email : String) (start duration : ℕ) (m : MixedWorker N)
      → N.accepts (login_url client) ≡ true
      → Advances
          (λ (m : MixedWorker N). Unit)
          (λ m. m.worker.clock)
          (m.worker.clock + 100000)
          (mixed_round client uid email start duration m)
  unfolding mixed_round login_round
  mixed_round-Advances client uid email start duration m known =
      let w = m.worker in
      let body = some (credentials email mixed_password) in
      let sent = do_request client "POST" "/api/v1/auth/login" body "" w in
      let asked = clock-do_request client "POST" "/api/v1/auth/login" body "" w in
      let elapsed = w.clock - start in
      elim (Bool-cases (m.access_token == "")) [
        | inr e ↦ rw e (authenticated_round-Advances client known uid email elapsed duration m)
        | inl e ↦ elim (Bool-cases (is_status 200 sent.0.status)) [
          | inr f ↦
              rw (e, f)
                (record {
                  next = _;
                  goes_on = refl;
                  keeps = tt;
                  late = omega (arith, asked, register_worker-lasts client (N.show uid) email sent);
                })
          | inl f ↦
              let (got, same, later) = fetch_token-some client known email sent in
              rw (e, f, same)
                (after_fetch-Advances client known uid email elapsed duration w.clock got
                  (le_trans asked later))
        ]
      ]

  pub mixed_round_refused :
      (client : Client) (uid : ℕ) (email : String) (start duration : ℕ) (m : MixedWorker N)
      → N.accepts (login_url client) ≡ false
      → m.access_token ≡ ""
      → Advances
          (λ (m : MixedWorker N). m.access_token ≡ "")
          (λ m. m.worker.clock)
          (m.worker.clock + 100000)
          (mixed_round client uid email start duration m)
  unfolding mixed_round login_round string_dec register_worker
  mixed_round_refused client uid email start duration m refused none_yet =
      let w = m.worker in
      let body = some (credentials email mixed_password) in
      let sent = do_request client "POST" "/api/v1/auth/login" body "" w in
      let asked = clock-do_request client "POST" "/api/v1/auth/login" body "" w in
      rw (none_yet, do_request_refused client "POST" "/api/v1/auth/login" body "" w refused)
        (record {
          next = _;
          goes_on = refl;
          keeps = refl;
          late = omega (arith, asked, register_worker-lasts client (N.show uid) email sent);
        })
