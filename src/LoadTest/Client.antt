-- ===== src/LoadTest/Client.antt =====
-- cmd/loadtest/main.go: the client and the state of a worker. The network with the server behind it,
-- `fmt` on numbers and the reading of JSON are parameters.
use go_lang_domain_based_ent.LoadTest.{Metrics, record_request, same_status}
use go_lang_domain_based_ent.Prelude.{
  Bool, Dict, Option, String, [], false, if◌then◌else◌, insert, none, some, ℕ, ◌+◌, ◌<>◌, ◌==◌, ◌∷◌,
}

pub record HttpRequest : Type 0 where
  pub method : String
  pub url : String
  pub headers : Dict String
  pub body : Option (Dict String)

-- The status, or nothing for an error, with the time to the answer and the time to read its body.
pub record HttpAnswer : Type 0 where
  pub status : Option ℕ
  pub duration : ℕ
  pub body : String
  pub read_time : ℕ

pub record Network : Type 1 where
  pub State : Type 0
  pub send : HttpRequest → State → HttpAnswer × State
  pub show : ℕ → String
  -- Whether `http.NewRequest` accepts the URL.
  pub accepts : String → Bool
  -- The fields access_token and refresh_token, empty where they are missing.
  pub access_token_of : String → String
  pub refresh_token_of : String → String

pub record Client : Type 0 where
  pub base_url : String
  pub headers : Dict String

abbrev pub new_client : String → Client
new_client base_url = record {
  base_url = base_url;
  headers = ("Content-Type", "application/json") ∷ ("X-Device-ID", "loadtest") ∷ [];
}

-- `ScenarioConfig`, with times in microseconds. The concurrency is the number of workers.
pub record ScenarioConfig : Type 0 where
  pub duration : ℕ
  pub base_url : String
  pub admin_email : String
  pub admin_password : String
  pub warmup_duration : ℕ

-- A worker at a time, in microseconds, with what it has recorded.
pub record Worker (N : Network) : Type 0 where
  pub network : N.State
  pub clock : ℕ
  pub metrics : Metrics

abbrev pub with_token : String → Dict String → Dict String
with_token auth_token headers =
    if auth_token == "" then headers else insert "Authorization" ("Bearer " <> auth_token) headers

abbrev pub is_status : ℕ → Option ℕ → Bool
is_status code none = false
is_status code (some status) = same_status status code

abbrev pub credentials : String → String → Dict String
credentials email password = ("email", email) ∷ ("password", password) ∷ []

abbrev pub login_url : Client → String
login_url client = client.base_url <> "/api/v1/auth/login"

module _ {N : Network} where
  unfoldable pub sleep : ℕ → Worker N → Worker N
  sleep time w = record w { clock = w.clock + time }

  unfoldable pub record_in : ℕ → ℕ → Worker N → Worker N
  record_in duration status w = record w { metrics = record_request duration status w.metrics }

  -- A request over the network, which takes its time.
  unfoldable pub send_request : HttpRequest → Worker N → HttpAnswer × Worker N
  send_request req w =
      let sent = N.send req w.network in
      (sent.0, record w { network = sent.1; clock = w.clock + sent.0.duration + sent.0.read_time })

  -- `Do`, with no answer and no time taken for a URL that is not accepted.
  unfoldable pub do_request :
      Client → String → String → Option (Dict String) → String → Worker N → HttpAnswer × Worker N
  do_request client method path body auth_token w =
      let sent =
        send_request
          (record {
            method = method;
            url = client.base_url <> path;
            headers = with_token auth_token client.headers;
            body = body;
          })
          w in
      if N.accepts (client.base_url <> path)
      then sent
      else (record { status = none; duration = 0; body = ""; read_time = 0 }, w)

  -- `Record`, with the status 0 for an error.
  unfoldable pub record_answer : HttpAnswer × Worker N → Worker N
  record_answer (answer, w) = elim answer.status [
    | none ↦ record_in answer.duration 0 w
    | some status ↦ record_in answer.duration status w
  ]

  -- `getToken` and `getRefreshToken`, which record nothing, once the request is made.
  unfoldable pub login_answer :
      (String → String) → Client → String → String → Worker N → String × Worker N
  login_answer field client email password w =
      let sent =
        send_request
          (record {
            method = "POST";
            url = login_url client;
            headers = client.headers;
            body = some (credentials email password);
          })
          w in
      (if is_status 200 sent.0.status then field sent.0.body else "", sent.1)

  -- The error of `http.NewRequest` is not looked at: where the URL is not accepted, setting a header
  -- of the nil request panics, which is `none`.
  unfoldable pub login_field :
      (String → String) → Client → String → String → Worker N → Option (String × Worker N)
  login_field field client email password w =
      let answered = login_answer field client email password w in
      if N.accepts (login_url client) then some answered else none

  unfoldable pub get_token : Client → String → String → Worker N → Option (String × Worker N)
  get_token = login_field N.access_token_of

  unfoldable pub get_refresh_token :
      Client → String → String → Worker N → Option (String × Worker N)
  get_refresh_token = login_field N.refresh_token_of
