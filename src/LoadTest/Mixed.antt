-- ===== src/LoadTest/Mixed.antt =====
-- cmd/loadtest/main.go: the worker of the mixed workload.
use go_lang_domain_based_ent.LoadTest.Client.{
  Client, HttpAnswer, Network, ScenarioConfig, Worker, credentials, do_request, get_refresh_token,
  get_token, is_status, new_client, record_answer, record_in, sleep,
}
use go_lang_domain_based_ent.LoadTest.Workers.{Ending, loop, milliseconds, record_success}
use go_lang_domain_based_ent.Prelude.{
  Dict, Option, String, [], if◌then◌else◌, insert, leb, ltb, none, not, some, ℕ, ◌%◌, ◌&&◌, ◌*◌,
  ◌+◌, ◌-◌, ◌/◌, ◌<>◌, ◌==◌, ◌∷◌,
}

-- A worker with the access token that it has, or the empty text.
pub record MixedWorker (N : Network) : Type 0 where
  pub worker : Worker N
  pub access_token : String

-- `client.headers["X-Device-ID"]` is set for the worker.
abbrev pub mixed_client : String → String → Client
mixed_client base_url device_id =
    let client = new_client base_url in
    record client { headers = insert "X-Device-ID" device_id client.headers }

abbrev pub mixed_password : String
mixed_password = "LoadTestPass123!"

-- A request with its method, path, body and token.
pub record Endpoint : Type 0 where
  pub method : String
  pub path : String
  pub body : Option (Dict String)
  pub auth_token : String

abbrev pub get_endpoint : String → String → Endpoint
get_endpoint path auth_token = record {
  method = "GET";
  path = path;
  body = none;
  auth_token = auth_token;
}

-- The endpoints in rotation, at `int(step * 100) % 6`.
unfoldable pub endpoint : ℕ → String → String → Endpoint
endpoint turn uid access_token =
    if leb turn 0
    then get_endpoint "/api/v1/admin/users?limit=10" access_token
    else if leb turn 1
    then get_endpoint "/api/v1/admin/roles?limit=10" access_token
    else if leb turn 2
    then get_endpoint "/api/v1/admin/permissions?limit=10" access_token
    else if leb turn 3
    then get_endpoint "/api/v1/incidents/?limit=10" access_token
    else if leb turn 4
    then get_endpoint "/health" ""
    else record {
      method = "POST";
      path = "/api/v1/incidents/";
      body = some (
          ("title", "Load test incident " <> uid)
          ∷ ("description", "Generated during load test")
          ∷ ("severity", "low")
          ∷ []);
      auth_token = access_token;
    }

module _ {N : Network} where
  unfoldable pub call_endpoint : Client → Endpoint → Worker N → HttpAnswer × Worker N
  call_endpoint client call w = do_request client call.method call.path call.body call.auth_token w

  -- `Record` with 0 on a login that did not answer 200, and the registration.
  unfoldable pub register_worker : Client → String → String → HttpAnswer × Worker N → Worker N
  register_worker client uid email (answer, w) = sleep (milliseconds 200) (
      record_answer (
        do_request client "POST" "/api/v1/auth/register"
          (some (
            ("email", email)
            ∷ ("password", mixed_password)
            ∷ ("full_name", "Load User " <> uid)
            ∷ []))
          "" (record_in answer.duration 0 w)))

  abbrev pub with_access : Option (String × Worker N) → Option (MixedWorker N)
  with_access none = none
  with_access (some got) = some (record { worker = got.1; access_token = got.0 })

  -- The token of a second login, after one that answered 200.
  unfoldable pub fetch_token : Client → String → HttpAnswer × Worker N → Option (MixedWorker N)
  fetch_token client email sent =
      with_access (get_token client email mixed_password (record_answer sent))

  -- Between 0.3 and 0.35 of the duration, exclusively: a refresh, of which only an answer is recorded.
  unfoldable pub refresh_with : Client → String × Worker N → Worker N
  refresh_with client (refresh, w) =
      let sent =
        do_request client "POST" "/api/v1/auth/refresh" (some (("refresh_token", refresh) ∷ [])) ""
          w in
      if refresh == "" then w else record_success sent

  abbrev pub after_refresh_token : Client → Option (String × Worker N) → Option (Worker N)
  after_refresh_token client none = none
  after_refresh_token client (some got) = some (refresh_with client got)

  unfoldable pub refresh_in_time : Client → String → ℕ → ℕ → Worker N → Option (Worker N)
  refresh_in_time client email elapsed duration w =
      let refreshed =
        after_refresh_token client (get_refresh_token client email mixed_password w) in
      if ltb (30 * duration) (100 * elapsed) && ltb (100 * elapsed) (35 * duration)
      then refreshed
      else some w

  -- The sleep at the end of a round.
  abbrev pub end_round : ℕ → MixedWorker N → Option (Worker N) → Option (MixedWorker N)
  end_round uid m none = none
  end_round uid m (some w) = some (record m { worker = sleep (milliseconds (100 + uid % 200)) w })

  -- The part of a round that has a token, at the time that had elapsed when the round began.
  unfoldable pub authenticated_round :
      Client → ℕ → String → ℕ → ℕ → MixedWorker N → Option (MixedWorker N)
  authenticated_round client uid email elapsed duration m =
      let call = endpoint (100 * elapsed / duration % 6) (N.show uid) m.access_token in
      let called = record_answer (call_endpoint client call m.worker) in
      end_round uid m (refresh_in_time client email elapsed duration called)

  -- A round that gets no token ends with a sleep.
  abbrev pub after_fetch :
      Client → ℕ → String → ℕ → ℕ → Option (MixedWorker N) → Option (MixedWorker N)
  after_fetch client uid email elapsed duration none = none
  after_fetch client uid email elapsed duration (some fetched) =
      let going_on = authenticated_round client uid email elapsed duration fetched in
      if fetched.access_token == ""
      then some (record fetched { worker = sleep (milliseconds 200) fetched.worker })
      else going_on

  -- A round without a token.
  unfoldable pub login_round : Client → ℕ → String → ℕ → ℕ → Worker N → Option (MixedWorker N)
  login_round client uid email elapsed duration w =
      let sent =
        do_request client "POST" "/api/v1/auth/login" (some (credentials email mixed_password)) ""
          w in
      let going_on =
        after_fetch client uid email elapsed duration (fetch_token client email sent) in
      if not (is_status 200 sent.0.status)
      then some
          (record { worker = register_worker client (N.show uid) email sent; access_token = "" })
      else going_on

  unfoldable pub mixed_round : Client → ℕ → String → ℕ → ℕ → MixedWorker N → Option (MixedWorker N)
  mixed_round client uid email start duration m =
      let elapsed = m.worker.clock - start in
      if m.access_token == ""
      then login_round client uid email elapsed duration m.worker
      else authenticated_round client uid email elapsed duration m

  unfoldable pub mixed_worker : ScenarioConfig → ℕ → ℕ → Worker N → Ending (MixedWorker N)
  mixed_worker cfg uid fuel w =
      let email = "load_" <> N.show uid <> "_" <> N.show (1000 * w.clock) <> "@test.com" in
      let client = mixed_client cfg.base_url ("device-" <> N.show uid) in
      loop (λ m. m.worker.clock) w.clock cfg.duration
        (mixed_round client uid email w.clock cfg.duration) fuel
        (record { worker = w; access_token = "" })
