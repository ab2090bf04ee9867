-- ===== src/Http/AuthHandler.antt =====
-- internal/modules/auth/handler/auth_handler.go
use Prim.Native.String.{len, slice}
use go_lang_domain_based_ent.Auth.Service.{login, logout, refresh_token, register}
use go_lang_domain_based_ent.Auth.Tokens.{Config}
use go_lang_domain_based_ent.External.{Env}
use go_lang_domain_based_ent.Http.{Gin, Request, Response, answer, note, of_auth, with_body}
use go_lang_domain_based_ent.Prelude.{String, if◌then◌else◌, ltb}
use go_lang_domain_based_ent.World.{Action}

-- `if len(authHeader) > 7 { accessToken = authHeader[7:] }`
abbrev pub token_after_scheme : String → String
token_after_scheme header = if ltb 7 (len header) then slice header 7 (len header) else ""

module _ {E : Env} (G : Gin) (cfg : Config) (req : Request) where
  unfoldable pub handle_register : Action E Response
  handle_register =
      with_body (G.bind_register req.body) (λ dto. answer 201 of_auth 409 (register cfg dto))

  unfoldable pub handle_login : Action E Response
  handle_login = with_body (G.bind_login req.body) (λ dto.
      answer 200 of_auth 401
        (login cfg dto (req.header "X-Device-ID") req.client_ip req.user_agent))

  unfoldable pub handle_refresh_token : Action E Response
  handle_refresh_token = with_body (G.bind_refresh req.body) (λ token.
      answer 200 of_auth 401
        (refresh_token cfg token (req.header "X-Device-ID") req.client_ip req.user_agent))

  unfoldable pub handle_logout : Action E Response
  handle_logout =
      answer 200 (λ done. note "logged out") 500
        (logout (token_after_scheme (req.header "Authorization")) (G.bind_logout req.body))
