-- ===== src/LoadTest/Workers.antt =====
-- cmd/loadtest/main.go: the workers of the scenarios, each a loop until its time is over. The fuel
-- bounds the rounds.
use go_lang_domain_based_ent.LoadTest.Client.{
  Client, HttpAnswer, Network, ScenarioConfig, Worker, do_request, get_token, new_client,
  record_answer, record_in, sleep,
}
use go_lang_domain_based_ent.Prelude.{
  Option, String, [], if◌then◌else◌, leb, none, some, suc, zero, ℕ, ◌%◌, ◌*◌, ◌+◌, ◌-◌, ◌<>◌, ◌==◌,
  ◌∷◌,
}

abbrev pub milliseconds : ℕ → ℕ
milliseconds n = 1000 * n

-- How a worker ends: it returns, it panics, or it has not ended within its fuel.
pub data Ending (S : Type 0) : Type 0 where
  returned : S → Ending S
  panicked : Ending S
  unfinished : Ending S

-- What comes after a step, unless it panicked.
abbrev pub unless_panicked : {S T : Type 0} → Option S → (S → Ending T) → Ending T
unless_panicked none rest = panicked
unless_panicked (some s) rest = rest s

-- `for { if time.Since(start) >= duration { return } ... }`, of a state with a clock.
unfoldable pub loop : {S : Type 0} → (S → ℕ) → ℕ → ℕ → (S → Option S) → ℕ → S → Ending S
loop clock start duration round zero s = unfinished
loop clock start duration round (suc fuel) s =
    let rest = unless_panicked (round s) (loop clock start duration round fuel) in
    if leb duration (clock s - start) then returned s else rest

module _ {N : Network} where
  unfoldable pub health_round : Client → ℕ → Worker N → Worker N
  health_round client id w =
      sleep (milliseconds (50 + id % 50))
        (record_answer (do_request client "GET" "/health" none "" w))

  unfoldable pub health_worker : ScenarioConfig → ℕ → ℕ → Worker N → Ending (Worker N)
  health_worker cfg id fuel w =
      loop (λ s. s.clock) w.clock cfg.duration
        (λ s. some (health_round (new_client cfg.base_url) id s)) fuel w

  -- A request of the warmup that fails is not recorded.
  abbrev pub record_success : HttpAnswer × Worker N → Worker N
  record_success (answer, w) = elim answer.status [
    | none ↦ w
    | some status ↦ record_in answer.duration status w
  ]

  unfoldable pub warmup_round : Client → ℕ → Worker N → Worker N
  warmup_round client id w =
      sleep (milliseconds (50 + id % 50))
        (record_success (do_request client "GET" "/health" none "" w))

  -- The channel `stop` is closed when the duration of the warmup is over, too.
  unfoldable pub warmup_worker : ScenarioConfig → ℕ → ℕ → Worker N → Ending (Worker N)
  warmup_worker cfg id fuel w =
      loop (λ s. s.clock) w.clock cfg.warmup_duration
        (λ s. some (warmup_round (new_client cfg.base_url) id s)) fuel w

  -- The admin worker

  unfoldable pub admin_round : Client → ℕ → String → Worker N → Worker N
  admin_round client uid access_token w =
      let created = record_answer (
        do_request client "POST" "/api/v1/admin/users"
          (some (
            ("email", "created_" <> N.show uid <> "_" <> N.show (1000 * w.clock) <> "@test.com")
            ∷ ("password", "CreatedPass123!")
            ∷ ("full_name", "Created User " <> N.show uid)
            ∷ []))
          access_token w) in
      let users =
        record_answer
          (do_request client "GET" "/api/v1/admin/users?limit=20" none access_token created) in
      let roles =
        record_answer
          (do_request client "GET" "/api/v1/admin/roles?limit=20" none access_token users) in
      sleep (milliseconds (200 + uid % 100)) roles

  -- Without a token, the admin is registered and logs in again.
  unfoldable pub retry_login :
      Client → ScenarioConfig → String × Worker N → Option (String × Worker N)
  retry_login client cfg first =
      let registered = record_answer (
        do_request client "POST" "/api/v1/auth/register"
          (some (
            ("email", cfg.admin_email)
            ∷ ("password", cfg.admin_password)
            ∷ ("full_name", "Load Test Admin")
            ∷ []))
          "" first.1) in
      let again =
        get_token client cfg.admin_email cfg.admin_password
          (sleep (milliseconds 2000) registered) in
      if first.0 == "" then again else some first

  abbrev pub after_login :
      Client → ScenarioConfig → Option (String × Worker N) → Option (String × Worker N)
  after_login client cfg none = none
  after_login client cfg (some first) = retry_login client cfg first

  unfoldable pub admin_login : Client → ScenarioConfig → Worker N → Option (String × Worker N)
  admin_login client cfg w =
      after_login client cfg (get_token client cfg.admin_email cfg.admin_password w)

  unfoldable pub admin_loop :
      Client → ScenarioConfig → ℕ → ℕ → String × Worker N → Ending (Worker N)
  admin_loop client cfg uid fuel (access_token, ready) =
      let rounds =
        loop (λ s. s.clock) ready.clock cfg.duration
          (λ s. some (admin_round client uid access_token s)) fuel ready in
      if access_token == "" then returned ready else rounds

  unfoldable pub admin_worker : ScenarioConfig → ℕ → ℕ → Worker N → Ending (Worker N)
  admin_worker cfg uid fuel w =
      let client = new_client cfg.base_url in
      unless_panicked (admin_login client cfg w) (admin_loop client cfg uid fuel)
