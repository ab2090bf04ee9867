-- ===== src/Http/Headers.antt =====
-- The headers of an answer.
use go_lang_domain_based_ent.Auth.Tokens.{Config}
use go_lang_domain_based_ent.External.{Env}
use go_lang_domain_based_ent.Http.{Gin, Request}
use go_lang_domain_based_ent.Http.Chain.{if_elim}
use go_lang_domain_based_ent.Http.Router.{
  Answer, Handler, Limits, Server, activity_logger, contains, cors, cors_header_list, dispatch,
  gzip, on_verdict, rate_limited, security_header_list, security_headers, set_headers, throttled,
  use_handlers,
}
use go_lang_domain_based_ent.Http.Routes.{Route}
use go_lang_domain_based_ent.Middleware.{Verdict, abort, next, next_as}
use go_lang_domain_based_ent.Middleware.Throttler.{Buckets}
use go_lang_domain_based_ent.Prelude.{
  All, Bool, Dict, List, Option, String, [], false, if◌then◌else◌, insert, lookup, none, refl, some,
  string_dec, true, ◌++◌, ◌==◌, ◌≡◌,
}
use go_lang_domain_based_ent.World.{Result, err, ok}

abbrev pub fixed_headers : List (String × String)
fixed_headers = security_header_list ++ cors_header_list

abbrev base_headers : Dict String
base_headers = set_headers cors_header_list (set_headers security_header_list [])

abbrev gzip_headers : Dict String
gzip_headers = insert "Vary" "Accept-Encoding" (insert "Content-Encoding" "gzip" base_headers)

-- The headers of `SecurityHeaders` and of `CORS`.
abbrev pub HasFixed : Dict String → Type 0
HasFixed headers = All (λ (name, value). lookup name headers ≡ some value) fixed_headers

base-HasFixed : HasFixed base_headers
unfolding lookup insert string_dec
base-HasFixed = (refl, (refl, (refl, (refl, (refl, (refl, (refl, (refl, (refl, tt)))))))))

gzip-HasFixed : HasFixed gzip_headers
unfolding lookup insert string_dec
gzip-HasFixed = (refl, (refl, (refl, (refl, (refl, (refl, (refl, (refl, (refl, tt)))))))))

abbrev HasEncoding : Dict String → Option String → Type 0
HasEncoding headers encoding = lookup "Content-Encoding" headers ≡ encoding

base_encoding : HasEncoding base_headers none
unfolding lookup insert string_dec
base_encoding = refl

gzip_encoding : HasEncoding gzip_headers (some "gzip")
unfolding lookup insert string_dec
gzip_encoding = refl

if_related :
    {A C : Type 0} (R : A → C → Type 0) {x y : A} {u v : C} (b : Bool)
    → R x u
    → R y v
    → R (if b then x else y) (if b then u else v)
if_related R true h k = h
if_related R false h k = k

module _ {E : Env} {B : Buckets} (G : Gin) (cfg : Config) (limits : Limits B) (route : Option Route)
    (req : Request) where
  verdict_headers :
      (r : Result Verdict) (rest : Handler E B) (headers : Dict String) (s : Server E B)
      → ((rest headers s).0.headers ≡ headers)
      → (on_verdict r rest headers s).0.headers ≡ headers
  unfolding on_verdict
  verdict_headers (ok next) rest headers s h = h
  verdict_headers (ok (next_as user_id email)) rest headers s h = h
  verdict_headers (ok (abort status text)) rest headers s h = refl
  verdict_headers (err e) rest headers s h = refl

  dispatch_headers :
      (own : Option Route) (headers : Dict String) (s : Server E B)
      → (dispatch G cfg own req headers s).0.headers ≡ headers
  unfolding dispatch
  dispatch_headers none headers s = refl
  dispatch_headers (some found) headers s = refl

  behind_headers :
      (headers : Dict String) (s : Server E B)
      → (throttled limits req
          (rate_limited limits req (activity_logger route req (dispatch G cfg route req)))
          headers
          s).0.headers
        ≡ headers
  unfolding throttled rate_limited activity_logger
  behind_headers headers s =
      verdict_headers _ _ headers _
        (verdict_headers _ _ headers _ (dispatch_headers route headers _))

  engine_base :
      (s : Server E B)
      → (use_handlers G cfg limits route req s).0.headers ≡ (
          if req.method == "OPTIONS"
          then base_headers
          else if contains (req.header "Accept-Encoding") "gzip"
          then gzip_headers
          else base_headers)
  unfolding use_handlers security_headers cors gzip
  engine_base s =
      if_related (λ (r : Answer × Server E B) headers. r.0.headers ≡ headers)
        (req.method == "OPTIONS") refl
        (if_related (λ (r : Answer × Server E B) headers. r.0.headers ≡ headers)
          (contains (req.header "Accept-Encoding") "gzip") (behind_headers gzip_headers s)
          (behind_headers base_headers s))

  -- Every answer has the headers of `SecurityHeaders` and of `CORS`, and is marked as gzip exactly
  -- where the request takes gzip and is no OPTIONS request.
  engine_headers :
      (s : Server E B)
      → HasFixed (use_handlers G cfg limits route req s).0.headers
        × (lookup "Content-Encoding" (use_handlers G cfg limits route req s).0.headers ≡ (
            if req.method == "OPTIONS"
            then none
            else if contains (req.header "Accept-Encoding") "gzip"
            then some "gzip"
            else none))
  engine_headers s =
      let options = req.method == "OPTIONS" in
      let zipped = contains (req.header "Accept-Encoding") "gzip" in
      rw (engine_base s) (
        if_elim HasFixed options base-HasFixed
            (if_elim HasFixed zipped gzip-HasFixed base-HasFixed),
        if_related HasEncoding options base_encoding
            (if_related HasEncoding zipped gzip_encoding base_encoding),
      )
