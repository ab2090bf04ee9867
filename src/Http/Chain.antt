-- ===== src/Http/Chain.antt =====
-- The handlers that every request passes: what they let through, and what they log.
use go_lang_domain_based_ent.Auth.Tokens.{Config}
use go_lang_domain_based_ent.External.{Env}
use go_lang_domain_based_ent.Http.{Gin, Request, Response, error_text, nothing}
use go_lang_domain_based_ent.Http.Router.{
  Answer, Handler, Limits, Match, Server, activity, activity_logger, context_user, cors, dispatch,
  engine, gzip, matched, missing, on_verdict, rate_limited, record_activity, redirected, refusal,
  security_headers, throttled, use_handlers,
}
use go_lang_domain_based_ent.Http.Routes.{Route, serve}
use go_lang_domain_based_ent.Middleware.{Verdict, abort, next, next_as}
use go_lang_domain_based_ent.Middleware.RateLimiter.{
  bump_pipeline, counted_verdict, get_int, limit_count, rate_limiter,
}
use go_lang_domain_based_ent.Middleware.Throttler.{Buckets, get_limiter, throttle}
use go_lang_domain_based_ent.Prelude.{
  Bool, Dict, Option, String, [], ap, false, if◌then◌else◌, inl, inr, length, none, refl, some,
  true, ℕ, ◌++◌, ◌==◌, ◌∙◌, ◌∷◌, ◌≡◌, ◌⊎◌,
}
use go_lang_domain_based_ent.Schema.{Tables}
use go_lang_domain_based_ent.WorkerPool.{submit}
use go_lang_domain_based_ent.World.{Result, World, err, ok}
use go_lang_domain_based_ent.World.Actions.{Keeps, keeps_rules}
use go_lang_domain_based_ent.World.Returns.{
  Returns, Returns-after, Returns-attempt, Returns-if, Returns-pure, returns_rules,
}

-- The rate limiter lets pass or aborts with 429 or 500.
abbrev IsLimit : Verdict → Type 0
IsLimit next = Unit
IsLimit (next_as user_id email) = ⊥
IsLimit (abort status text) = (status ≡ 429) ⊎ (status ≡ 500)

counted_verdict-IsLimit : (sent : Result (Unit {0})) → IsLimit (counted_verdict sent)
counted_verdict-IsLimit (ok done) = tt
counted_verdict-IsLimit (err e) = inr refl

module _ {E : Env} where
  limit_count-Returns :
      (key : String) (max_reqs window : ℕ) (val : Result (Option ℕ))
      → Returns {E = E} IsLimit (limit_count key max_reqs window val)
  unfolding limit_count
  limit_count-Returns key max_reqs window (ok none) = Returns-pure _ (inr refl)
  limit_count-Returns key max_reqs window (err e) = Returns-pure _ (inr refl)
  limit_count-Returns key max_reqs window (ok (some val)) =
      Returns-if _ _ _ (Returns-pure _ (inl refl)) (
        Returns-after _ _ (Returns-attempt _)
          (λ sent. Returns-pure _ (counted_verdict-IsLimit sent)))

  rate_limiter-Returns :
      (max_reqs window : ℕ) (ip device_id : String)
      → Returns {E = E} IsLimit (rate_limiter max_reqs window ip device_id)
  unfolding rate_limiter
  rate_limiter-Returns max_reqs window ip device_id = search (returns_rules, limit_count-Returns)

  limit_count-Keeps :
      {P : Tables → Type 0} (key : String) (max_reqs window : ℕ) (val : Result (Option ℕ))
      → Keeps {E = E} P (limit_count key max_reqs window val)
  unfolding limit_count bump_pipeline
  limit_count-Keeps key max_reqs window (ok (some val)) = search keeps_rules
  limit_count-Keeps key max_reqs window (ok none) = search keeps_rules
  limit_count-Keeps key max_reqs window (err e) = search keeps_rules

  rate_limiter-Keeps :
      {P : Tables → Type 0} (max_reqs window : ℕ) (ip device_id : String)
      → Keeps {E = E} P (rate_limiter max_reqs window ip device_id)
  unfolding rate_limiter get_int
  rate_limiter-Keeps max_reqs window ip device_id = search (keeps_rules, limit_count-Keeps)

-- An answer 204, 429 or 500, with no table changed and nothing logged.
pub record IsShed {E : Env} {B : Buckets} (s : Server E B) (r : Answer × Server E B) : Type 0 where
  pub response : Response
  pub answered : r.0.response ≡ ok response
  pub status : (response.status ≡ 204) ⊎ ((response.status ≡ 429) ⊎ (response.status ≡ 500))
  pub db : r.1.world.db ≡ s.world.db
  pub activities : r.1.activities ≡ s.activities
  pub audit : r.1.audit_worker_pool ≡ s.audit_worker_pool

-- What the route makes of the request, in a state of the services.
abbrev pub outcome :
    {E : Env} → Gin → Config → Option Route → Request → World E → Result Response × World E
outcome G cfg none req w = (refusal 404 "404 page not found", w)
outcome G cfg (some route) req w = serve G cfg route req w

-- The route has served the request on the tables that were there, and one activity is logged.
pub record IsLogged {E : Env} {B : Buckets} (G : Gin) (cfg : Config) (route : Option Route)
    (req : Request) (s : Server E B) (r : Answer × Server E B) : Type 0 where
  pub before : World E
  pub same : before.db ≡ s.world.db
  pub answered : r.0.response ≡ (outcome G cfg route req before).0
  pub after : r.1.world ≡ (outcome G cfg route req before).1
  pub logged : r.1.activities ≡ s.activities ++ activity (context_user route req before) req ∷ []
  pub audit : r.1.audit_worker_pool ≡ submit (length s.activities) s.audit_worker_pool

dispatch-outcome :
    {E : Env} {B : Buckets} (G : Gin) (cfg : Config) (route : Option Route) (req : Request)
    (headers : Dict String) (t : Server E B)
    → ((dispatch G cfg route req headers t).0.response ≡ (outcome G cfg route req t.world).0)
      × ((dispatch G cfg route req headers t).1.world ≡ (outcome G cfg route req t.world).1)
      × ((dispatch G cfg route req headers t).1.activities ≡ t.activities)
      × ((dispatch G cfg route req headers t).1.audit_worker_pool ≡ t.audit_worker_pool)
unfolding dispatch
dispatch-outcome G cfg none req headers t = (refl, refl, refl, refl)
dispatch-outcome G cfg (some own) req headers t = (refl, refl, refl, refl)

-- A state that differs from another in what the throttler and the rate limiter keep.
record IsNear {E : Env} {B : Buckets} (s t : Server E B) : Type 0 where
  pub db : t.world.db ≡ s.world.db
  pub activities : t.activities ≡ s.activities
  pub audit : t.audit_worker_pool ≡ s.audit_worker_pool

pub if_elim :
    {A : Type 0} (P : A → Type 0) {x y : A} (b : Bool) → P x → P y → P (if b then x else y)
if_elim P true h k = h
if_elim P false h k = k

module _ {E : Env} {B : Buckets} (G : Gin) (cfg : Config) (limits : Limits B) (route : Option Route)
    (req : Request) where
  abbrev Either : Server E B → Answer × Server E B → Type 0
  Either s r = IsShed s r ⊎ IsLogged G cfg route req s r

  abbrev behind : Handler E B
  behind = activity_logger route req (dispatch G cfg route req)

  behind-IsLogged :
      (headers : Dict String) (s t : Server E B)
      → IsNear s t
      → IsLogged G cfg route req s (behind headers t)
  unfolding activity_logger record_activity
  behind-IsLogged headers s t near =
      let (answered, after, logged, queued) = dispatch-outcome G cfg route req headers t in
      record {
        before = t.world;
        same = near.db;
        answered = answered;
        after = after;
        logged =
            ap (λ l. l ++ activity (context_user route req t.world) req ∷ [])
              (logged ∙ near.activities);
        audit =
            ap (λ l. submit (length l) (dispatch G cfg route req headers t).1.audit_worker_pool)
              (logged ∙ near.activities)
            ∙ ap (submit (length s.activities)) (queued ∙ near.audit);
      }

  shed :
      (headers : Dict String) (s t : Server E B) (status : ℕ) (text : String)
      → (status ≡ 204) ⊎ ((status ≡ 429) ⊎ (status ≡ 500))
      → IsNear s t
      → IsShed s (record { headers = headers; response = refusal status text }, t)
  shed headers s t status text h near = record {
    response = record { status = status; reply = error_text text };
    answered = refl;
    status = h;
    db = near.db;
    activities = near.activities;
    audit = near.audit;
  }

  decided :
      (headers : Dict String) (s t : Server E B) (v : Verdict)
      → IsLimit v
      → IsNear s t
      → IsShed s (on_verdict (ok v) behind headers t)
        ⊎ IsLogged G cfg route req s (on_verdict (ok v) behind headers t)
  unfolding on_verdict
  decided headers s t next h near = inr (behind-IsLogged headers s t near)
  decided headers s t (next_as user_id email) h near = absurd h
  decided headers s t (abort status text) h near = inl (shed headers s t status text (inr h) near)

  limited :
      (headers : Dict String) (s t : Server E B)
      → IsNear s t
      → IsShed s (rate_limited limits req behind headers t)
        ⊎ IsLogged G cfg route req s (rate_limited limits req behind headers t)
  unfolding rate_limited
  limited headers s t near =
      let reqs = limits.rate_limit_requests in
      let window = limits.rate_limit_duration_sec in
      let device_id = req.header "X-Device-ID" in
      let (v, e, h) = (rate_limiter-Returns reqs window req.client_ip device_id).at t.world in
      rw e (
        decided headers s
          (record t { world = (rate_limiter reqs window req.client_ip device_id t.world).1 }) v h
          (record {
            db =
                (rate_limiter-Keeps {P = λ db. db ≡ s.world.db} reqs window req.client_ip
                    device_id).at
                  t.world near.db;
            activities = near.activities;
            audit = near.audit;
          }))

  screened_by :
      (allowed : Bool) (headers : Dict String) (s t : Server E B)
      → IsNear s t
      → Either s (
          on_verdict
            (ok (if allowed then next else abort 429 "server busy, please retry"))
            (rate_limited limits req behind)
            headers
            t)
  unfolding on_verdict
  screened_by true headers s t near = limited headers s t near
  screened_by false headers s t near = inl (shed headers s t 429 _ (inr (inl refl)) near)

  -- The verdict of the throttler comes first, and it touches the clients only.
  screened :
      (headers : Dict String) (s : Server E B)
      → IsShed s (throttled limits req (rate_limited limits req behind) headers s)
        ⊎ IsLogged G cfg route req s
            (throttled limits req (rate_limited limits req behind) headers s)
  unfolding throttled throttle get_limiter
  screened headers s =
      screened_by _ headers s _ (record { db = refl; activities = refl; audit = refl })

  use_handlers-Either :
      (s : Server E B)
      → IsShed s (use_handlers G cfg limits route req s)
        ⊎ IsLogged G cfg route req s (use_handlers G cfg limits route req s)
  unfolding use_handlers security_headers cors gzip
  use_handlers-Either s =
      if_elim (Either s) (req.method == "OPTIONS")
        (inl (record {
          response = record { status = 204; reply = nothing };
          answered = refl;
          status = inl refl;
          db = refl;
          activities = refl;
          audit = refl;
        }))
        (if_elim (Either s) _ (screened _ s) (screened _ s))

-- How a request ends, by what gin has made of its path.
abbrev pub Serves :
    {E : Env} {B : Buckets}
    → Gin
    → Config
    → Match
    → Request
    → Server E B
    → Answer × Server E B
    → Type 0
Serves G cfg (redirected location answer) req s r =
    r ≡ (record { headers = ("Location", location) ∷ []; response = ok answer }, s)
Serves G cfg missing req s r = IsShed s r ⊎ IsLogged G cfg none req s r
Serves G cfg (matched route) req s r = IsShed s r ⊎ IsLogged G cfg (some route) req s r

-- A request that gin redirects gets its answer, and nothing changes or is logged. Every other one is
-- either turned away with 204, 429 or 500, and then no table is changed and nothing is logged, or it
-- is answered by its route, or with 404 where there is none, on the tables that were there, and
-- exactly one activity is logged and handed to the pool.
pub engine-Serves :
    {E : Env} {B : Buckets} (G : Gin) (cfg : Config) (limits : Limits B) (found : Match)
    (req : Request) (s : Server E B)
    → Serves G cfg found req s (engine G cfg limits found req s)
unfolding engine
engine-Serves G cfg limits (redirected location answer) req s = refl
engine-Serves G cfg limits missing req s = use_handlers-Either G cfg limits none req s
engine-Serves G cfg limits (matched route) req s =
    use_handlers-Either G cfg limits (some route) req s
