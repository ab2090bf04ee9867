-- ===== src/Http/Router.antt =====
-- internal/router/router.go: the handlers that every request passes, of internal/middleware
-- security.go, cors.go, compress.go, throttler.go, rate_limiter.go and logger.go. Handlers of gin
-- set headers, and call the handlers behind them or abort.
use text.Mathlib.Text.{find?}
use go_lang_domain_based_ent.Auth.Tokens.{Config}
use go_lang_domain_based_ent.External.{Env}
use go_lang_domain_based_ent.Http.{Gin, Request, Response, error_text, nothing}
use go_lang_domain_based_ent.Http.Routes.{Guard, Route, authenticated, guards, permitted, serve}
use go_lang_domain_based_ent.Middleware.{Verdict, abort, next, next_as}
use go_lang_domain_based_ent.Middleware.Authentication.{auth_required}
use go_lang_domain_based_ent.Middleware.RateLimiter.{rate_limiter}
use go_lang_domain_based_ent.Middleware.Throttler.{Buckets, Clients, key_for_request, throttle}
use go_lang_domain_based_ent.Prelude.{
  Bool, Dict, List, Option, String, [], false, if◌then◌else◌, insert, length, none, some, true, ℕ,
  ◌++◌, ◌<>◌, ◌==◌, ◌∷◌,
}
use go_lang_domain_based_ent.WorkerPool.{WorkerPool, submit}
use go_lang_domain_based_ent.World.{Result, World, err, ok}

-- The row that `ActivityLogger` hands to the pool.
pub record Activity : Type 0 where
  pub user_id : Option String
  pub action : String
  pub resource : String
  pub ip_address : String
  pub user_agent : String
  pub device_id : String

-- The state of the process: what the services work on, the clients of the throttler, the pool of the
-- audit log, and the activities handed to it. A task is the place of its activity in that list.
pub record Server (E : Env) (B : Buckets) : Type 0 where
  pub world : World E
  pub clients : Clients B
  pub activities : List Activity
  pub audit_worker_pool : WorkerPool

-- `ThrottleBurst`, `ThrottleRate`, `RateLimitRequests` and `RateLimitDurationSec`.
pub record Limits (B : Buckets) : Type 0 where
  pub throttle_burst : ℕ
  pub throttle_rate : B.Rate
  pub rate_limit_requests : ℕ
  pub rate_limit_duration_sec : ℕ

-- What gin makes of a path: its own redirect, with the place and the answer, before any handler
-- runs, where the path differs from that of a route by a slash at its end; no route; or a route.
pub data Match : Type 0 where
  redirected : String → Response → Match
  missing : Match
  matched : Route → Match

-- The headers and the answer.
pub record Answer : Type 0 where
  pub headers : Dict String
  pub response : Result Response

abbrev pub Handler : Env → Buckets → Type 0
Handler E B = Dict String → Server E B → Answer × Server E B

abbrev pub set_headers : List (String × String) → Dict String → Dict String
set_headers [] headers = headers
set_headers ((name, value) ∷ rest) headers = set_headers rest (insert name value headers)

abbrev pub security_header_list : List (String × String)
security_header_list =
    ("X-Content-Type-Options", "nosniff")
    ∷ ("X-Frame-Options", "DENY")
    ∷ ("X-XSS-Protection", "1; mode=block")
    ∷ ("Strict-Transport-Security", "max-age=31536000; includeSubDomains")
    ∷ ("Referrer-Policy", "strict-origin-when-cross-origin")
    ∷ ("Permissions-Policy", "geolocation=(), microphone=(), camera=()")
    ∷ []

abbrev pub cors_header_list : List (String × String)
cors_header_list =
    ("Access-Control-Allow-Origin", "*")
    ∷ ("Access-Control-Allow-Methods", "GET, POST, PUT, DELETE, OPTIONS")
    ∷ ("Access-Control-Allow-Headers", "Content-Type, Authorization, X-Device-ID")
    ∷ []

-- `strings.Contains`
abbrev pub contains : String → String → Bool
contains s part = elim (find? s part) [ none ↦ false | some i ↦ true ]

abbrev pub refusal : ℕ → String → Result Response
refusal status text = ok (record { status = status; reply = error_text text })

-- The user id that `AuthRequired` leaves in the context, where it is the first guard of the route.
abbrev pub user_of : Result Verdict → Option String
user_of (ok (next_as user_id email)) = some user_id
user_of (ok next) = none
user_of (ok (abort status text)) = none
user_of (err e) = none

abbrev pub set_by : {E : Env} → List Guard → Request → World E → Option String
set_by [] req w = none
set_by (permitted action resource ∷ gs) req w = none
set_by (authenticated ∷ gs) req w = user_of (auth_required (req.header "Authorization") w).0

abbrev pub context_user : {E : Env} → Option Route → Request → World E → Option String
context_user none req w = none
context_user (some route) req w = set_by (guards route) req w

abbrev pub activity : Option String → Request → Activity
activity user_id req = record {
  user_id = user_id;
  action = req.method <> " " <> req.path;
  resource = req.path;
  ip_address = req.client_ip;
  user_agent = req.user_agent;
  device_id = req.header "X-Device-ID";
}

module _ {E : Env} {B : Buckets} where
  unfoldable pub security_headers : Handler E B → Handler E B
  security_headers rest headers s = rest (set_headers security_header_list headers) s

  unfoldable pub cors : Request → Handler E B → Handler E B
  cors req rest headers s =
      let own = set_headers cors_header_list headers in
      if req.method == "OPTIONS"
      then (record { headers = own; response = ok (record { status = 204; reply = nothing }) }, s)
      else rest own s

  -- The body is compressed on its way, which changes no answer of the model.
  unfoldable pub gzip : Request → Handler E B → Handler E B
  gzip req rest headers s =
      if contains (req.header "Accept-Encoding") "gzip"
      then rest (insert "Vary" "Accept-Encoding" (insert "Content-Encoding" "gzip" headers)) s
      else rest headers s

  -- What a verdict makes of the handlers behind.
  unfoldable pub on_verdict : Result Verdict → Handler E B → Handler E B
  on_verdict (ok (abort status text)) rest headers s =
      (record { headers = headers; response = refusal status text }, s)
  on_verdict (ok next) rest headers s = rest headers s
  on_verdict (ok (next_as user_id email)) rest headers s = rest headers s
  on_verdict (err e) rest headers s = (record { headers = headers; response = err e }, s)

  unfoldable pub throttled : Limits B → Request → Handler E B → Handler E B
  throttled limits req rest headers s =
      let asked =
        throttle limits.throttle_burst limits.throttle_rate
          (key_for_request req.client_ip (req.header "X-Device-ID")) s.world.now s.clients in
      on_verdict (ok asked.0) rest headers (record s { clients = asked.1 })

  unfoldable pub rate_limited : Limits B → Request → Handler E B → Handler E B
  rate_limited limits req rest headers s =
      let asked =
        rate_limiter limits.rate_limit_requests limits.rate_limit_duration_sec req.client_ip
          (req.header "X-Device-ID") s.world in
      on_verdict asked.0 rest headers (record s { world = asked.1 })

  -- `auditWorkerPool.Submit`
  unfoldable pub record_activity : Activity → Server E B → Server E B
  record_activity a s = record s {
    activities = s.activities ++ a ∷ [];
    audit_worker_pool = submit (length s.activities) s.audit_worker_pool;
  }

  -- The handlers behind run first.
  unfoldable pub activity_logger : Option Route → Request → Handler E B → Handler E B
  activity_logger route req rest headers s =
      let served = rest headers s in
      (served.0, record_activity (activity (context_user route req s.world) req) served.1)

  -- The route that gin has found, or its answer where there is none.
  unfoldable pub dispatch : Gin → Config → Option Route → Request → Handler E B
  dispatch G cfg none req headers s =
      (record { headers = headers; response = refusal 404 "404 page not found" }, s)
  dispatch G cfg (some route) req headers s =
      let served = serve G cfg route req s.world in
      (record { headers = headers; response = served.0 }, record s { world = served.1 })

  -- The handlers that `Setup` puts before every route, and before the answer where there is none.
  unfoldable pub use_handlers :
      Gin → Config → Limits B → Option Route → Request → Server E B → Answer × Server E B
  use_handlers G cfg limits route req =
      security_headers
        (cors req (
          gzip req (
            throttled limits req
              (rate_limited limits req (activity_logger route req (dispatch G cfg route req))))))
        []

  -- The engine that `Setup` builds.
  unfoldable pub engine :
      Gin → Config → Limits B → Match → Request → Server E B → Answer × Server E B
  engine G cfg limits (redirected location answer) req s =
      (record { headers = ("Location", location) ∷ []; response = ok answer }, s)
  engine G cfg limits missing req s = use_handlers G cfg limits none req s
  engine G cfg limits (matched route) req s = use_handlers G cfg limits (some route) req s
