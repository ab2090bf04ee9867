-- ===== src/Http/IncidentHandler.antt =====
-- internal/modules/incident/handler/incident_handler.go
use go_lang_domain_based_ent.External.{Env}
use go_lang_domain_based_ent.Http.{
  Gin, Request, Response, answer, limit_of, of_incident, of_incidents, offset_of, panicked,
  with_body,
}
use go_lang_domain_based_ent.Incident.{create_incident, list_incidents}
use go_lang_domain_based_ent.Middleware.Permission.{Identity, absent, other, uuid}
use go_lang_domain_based_ent.Prelude.{String}
use go_lang_domain_based_ent.World.{Action, pure}

module _ {E : Env} where
  -- `c.MustGet("userID").(uuid.UUID)` panics where the context holds no such value.
  unfoldable pub with_user : Identity → (String → Action E Response) → Action E Response
  with_user absent rest = pure (record { status = 0; reply = panicked })
  with_user other rest = pure (record { status = 0; reply = panicked })
  with_user (uuid user_id) rest = rest user_id

  unfoldable pub handle_create_incident : Gin → Request → Identity → Action E Response
  handle_create_incident G req user =
      with_body (G.bind_create_incident req.body) (λ dto.
        with_user user (λ user_id. answer 201 of_incident 500 (create_incident dto user_id)))

  unfoldable pub handle_list_incidents : Gin → Request → Action E Response
  handle_list_incidents G req =
      answer 200 (λ (rows, total). of_incidents rows total (limit_of G req) (offset_of G req)) 500
        (list_incidents (limit_of G req) (offset_of G req))
