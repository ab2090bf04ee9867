-- ===== src/Http.antt =====
-- The HTTP layer: internal/modules/*/handler and routes.go, and internal/router. What gin, its
-- validator and strconv do is a parameter.
pub mod AuthHandler
pub mod AdminHandler
pub mod IncidentHandler
pub mod Routes
pub mod Guards
pub mod Headers
pub mod Router
pub mod Access
pub mod Statuses
pub mod Answers
pub mod BadRequests
pub mod Chain
pub mod Tests
use go_lang_domain_based_ent.Admin.Service.Permissions.{PermissionRequest}
use go_lang_domain_based_ent.Admin.Service.Roles.{RoleRequest, RoleResponse}
use go_lang_domain_based_ent.Admin.Service.Users.{CreateUserRequest, UserResponse}
use go_lang_domain_based_ent.Auth.Service.{LoginRequest, RegisterRequest}
use go_lang_domain_based_ent.Auth.Tokens.{AuthResponse}
use go_lang_domain_based_ent.External.{Env}
use go_lang_domain_based_ent.Incident.{CreateIncidentRequest}
use go_lang_domain_based_ent.Prelude.{List, Option, String, none, some, ℕ, ℤ}
use go_lang_domain_based_ent.Schema.{Incident, Permission}
use go_lang_domain_based_ent.World.{Action, Failure, Result, attempt, err, ok, pure, ◌>>=◌}

-- What the handlers read of a request: headers, the parameters of the query, the `id` of the path,
-- the address and the agent of the client, and the body.
pub record Request : Type 0 where
  pub method : String
  pub path : String
  pub header : String → String
  pub query : String → Option String
  pub id : String
  pub client_ip : String
  pub user_agent : String
  pub body : String

-- What `ShouldBindJSON` makes of a body: an error with its text, or the bound struct.
pub data Bound (A : Type 0) : Type 0 where
  malformed : String → Bound A
  bound : A → Bound A

pub record Gin : Type 0 where
  -- The number that `strconv.Atoi` returns, beside an error too.
  pub atoi : String → ℤ
  pub bind_register : String → Bound RegisterRequest
  pub bind_login : String → Bound LoginRequest
  -- `RefreshRequest` has one field.
  pub bind_refresh : String → Bound String
  -- What stands in the field of the request of `Logout` after the call, which may fail.
  pub bind_logout : String → String
  pub bind_create_user : String → Bound CreateUserRequest
  pub bind_role_ids : String → Bound (List String)
  pub bind_create_role : String → Bound RoleRequest
  pub bind_update_role : String → Bound RoleRequest
  pub bind_permission_ids : String → Bound (List String)
  pub bind_create_permission : String → Bound PermissionRequest
  pub bind_update_permission : String → Bound PermissionRequest
  pub bind_create_incident : String → Bound CreateIncidentRequest

-- The body of an answer, before it is encoded.
pub data Reply : Type 0 where
  nothing : Reply
  -- `gin.H{"error": ...}` with a text, and with `err.Error()`.
  error_text : String → Reply
  error_of : Failure → Reply
  -- `gin.H{"message": ...}`
  note : String → Reply
  of_auth : AuthResponse → Reply
  of_user : UserResponse → Reply
  of_role : RoleResponse → Reply
  of_permission : Permission → Reply
  of_incident : Incident → Reply
  -- `gin.H{"data": ..., "total": ..., "limit": ..., "offset": ...}`
  of_users : List UserResponse → ℕ → ℤ → ℤ → Reply
  of_roles : List RoleResponse → ℕ → ℤ → ℤ → Reply
  of_permissions : List Permission → ℕ → ℤ → ℤ → Reply
  of_incidents : List Incident → ℕ → ℤ → ℤ → Reply
  of_health : Reply
  -- The handler panicked, and the connection is closed without an answer.
  panicked : Reply

pub record Response : Type 0 where
  pub status : ℕ
  pub reply : Reply

-- `c.DefaultQuery`
abbrev pub or_default_text : String → Option String → String
or_default_text text none = text
or_default_text text (some own) = own

abbrev pub limit_of : Gin → Request → ℤ
limit_of G req = G.atoi (or_default_text "20" (req.query "limit"))

abbrev pub offset_of : Gin → Request → ℤ
offset_of G req = G.atoi (or_default_text "0" (req.query "offset"))

-- The end of a handler: one status for an error of the service, another with what it returned.
abbrev pub respond : {A : Type 0} → ℕ → (A → Reply) → ℕ → Result A → Response
respond success reply failure (ok a) = record { status = success; reply = reply a }
respond success reply failure (err e) = record { status = failure; reply = error_of e }

module _ {E : Env} where
  unfoldable pub answer : {A : Type 0} → ℕ → (A → Reply) → ℕ → Action E A → Action E Response
  answer success reply failure service = do
    result ← attempt service
    pure (respond success reply failure result)

  -- `if err := c.ShouldBindJSON(&req); err != nil { ... 400 ...; return }`
  unfoldable pub with_body : {A : Type 0} → Bound A → (A → Action E Response) → Action E Response
  with_body (malformed text) rest = pure (record { status = 400; reply = error_text text })
  with_body (bound a) rest = rest a

  -- `id, err := uuid.Parse(c.Param("id"))`
  unfoldable pub with_id : String → Option String → (String → Action E Response) → Action E Response
  with_id text none rest = pure (record { status = 400; reply = error_text text })
  with_id text (some id) rest = rest id
