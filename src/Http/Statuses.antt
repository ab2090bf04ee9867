-- ===== src/Http/Statuses.antt =====
-- The statuses of the routes, and rules by which a part of a handler answers with one of a list.
use go_lang_domain_based_ent.External.{Env}
use go_lang_domain_based_ent.Http.{
  Bound, Reply, Request, Response, answer, bound, malformed, respond, with_body, with_id,
}
use go_lang_domain_based_ent.Http.Guards.{
  IsAuthVerdict, IsPermissionVerdict, auth_required-Returns, require_permission-Returns,
}
use go_lang_domain_based_ent.Http.Routes.{
  Guard, Route, after_verdict, authenticated, health, permitted, run_guard, run_guards,
}
use go_lang_domain_based_ent.Middleware.{Verdict, abort, next, next_as}
use go_lang_domain_based_ent.Middleware.Permission.{Identity, absent, uuid}
use go_lang_domain_based_ent.Prelude.{
  Bool, List, Option, String, [], any, inl, inr, leb, none, some, true, ℕ, ◌&&◌, ◌∷◌, ◌≡◌,
}
use go_lang_domain_based_ent.World.{Action, Result, err, ok}
use go_lang_domain_based_ent.World.Returns.{
  Returns, Returns-after, Returns-attempt, Returns-bind, Returns-pure,
}

-- The statuses of a route: its success, what its handler makes of a bad request and of an error of
-- the service, and what its guards refuse with.
abbrev pub statuses : Route → List ℕ
statuses health = 200 ∷ []
statuses Route.register = 201 ∷ 400 ∷ 409 ∷ []
statuses Route.login = 200 ∷ 400 ∷ 401 ∷ []
statuses Route.refresh_token = 200 ∷ 400 ∷ 401 ∷ []
statuses Route.logout = 200 ∷ 401 ∷ 500 ∷ []
statuses Route.list_users = 200 ∷ 401 ∷ 403 ∷ 500 ∷ []
statuses Route.get_user = 200 ∷ 400 ∷ 401 ∷ 403 ∷ 404 ∷ []
statuses Route.create_user = 201 ∷ 400 ∷ 401 ∷ 403 ∷ 409 ∷ []
statuses Route.assign_roles = 200 ∷ 400 ∷ 401 ∷ 403 ∷ 500 ∷ []
statuses Route.list_roles = 200 ∷ 401 ∷ 403 ∷ 500 ∷ []
statuses Route.create_role = 201 ∷ 400 ∷ 401 ∷ 403 ∷ 409 ∷ []
statuses Route.update_role = 200 ∷ 400 ∷ 401 ∷ 403 ∷ 404 ∷ []
statuses Route.delete_role = 204 ∷ 400 ∷ 401 ∷ 403 ∷ 500 ∷ []
statuses Route.assign_permissions = 200 ∷ 400 ∷ 401 ∷ 403 ∷ 500 ∷ []
statuses Route.list_permissions = 200 ∷ 401 ∷ 403 ∷ 500 ∷ []
statuses Route.create_permission = 201 ∷ 400 ∷ 401 ∷ 403 ∷ 409 ∷ []
statuses Route.update_permission = 200 ∷ 400 ∷ 401 ∷ 403 ∷ 404 ∷ []
statuses Route.delete_permission = 204 ∷ 400 ∷ 401 ∷ 403 ∷ 500 ∷ []
statuses Route.create_incident = 201 ∷ 400 ∷ 401 ∷ 403 ∷ 500 ∷ []
statuses Route.list_incidents = 200 ∷ 401 ∷ 403 ∷ 500 ∷ []

abbrev pub listed : List ℕ → ℕ → Bool
listed codes status = any (λ code. leb code status && leb status code) codes

-- A status of the list. A handler that panics has the status 0, which is in none.
abbrev pub HasStatus : List ℕ → Response → Type 0
HasStatus codes response = listed codes response.status ≡ true

Answers-respond :
    {A : Type 0} (codes : List ℕ) (success : ℕ) (reply : A → Reply) (failure : ℕ) (r : Result A)
    → listed codes success ≡ true
    → listed codes failure ≡ true
    → HasStatus codes (respond success reply failure r)
Answers-respond codes success reply failure (ok a) h k = h
Answers-respond codes success reply failure (err e) h k = k

module _ {E : Env} where
  pub record Answers (codes : List ℕ) (m : Action E Response) : Type 0 where
    pub returns : Returns (HasStatus codes) m

  module _ {codes : List ℕ} where
    pub Answers-answer :
        {A : Type 0} (success : ℕ) (reply : A → Reply) (failure : ℕ) (service : Action E A)
        → listed codes success ≡ true
        → listed codes failure ≡ true
        → Answers codes (answer success reply failure service)
    unfolding answer
    Answers-answer success reply failure service h k = record {
      returns =
          Returns-after _ _ (Returns-attempt service)
            (λ r. Returns-pure _ (Answers-respond codes success reply failure r h k));
    }

    pub Answers-with_body :
        {A : Type 0} (b : Bound A) (rest : A → Action E Response)
        → listed codes 400 ≡ true
        → ((a : A) → Answers codes (rest a))
        → Answers codes (with_body b rest)
    unfolding with_body
    Answers-with_body (malformed text) rest h k = record { returns = Returns-pure _ h }
    Answers-with_body (bound a) rest h k = k a

    pub Answers-with_id :
        (text : String) (id : Option String) (rest : String → Action E Response)
        → listed codes 400 ≡ true
        → ((own : String) → Answers codes (rest own))
        → Answers codes (with_id text id rest)
    unfolding with_id
    Answers-with_id text none rest h k = record { returns = Returns-pure _ h }
    Answers-with_id text (some id) rest h k = k id

    after_abort :
        (status : ℕ) (text : String) (user : Identity) (rest : Identity → Action E Response)
        → listed codes status ≡ true
        → Answers codes (after_verdict (abort status text) user rest)
    unfolding after_verdict
    after_abort status text user rest h = record { returns = Returns-pure _ h }

    after_authentication :
        (verdict : Verdict) (user : Identity) (rest : Identity → Action E Response)
        → IsAuthVerdict verdict
        → listed codes 401 ≡ true
        → ((user_id : String) → Answers codes (rest (uuid user_id)))
        → Answers codes (after_verdict verdict user rest)
    unfolding after_verdict
    after_authentication next user rest v h k = absurd v
    after_authentication (next_as user_id email) user rest v h k = k user_id
    after_authentication (abort status text) user rest v h k =
        after_abort status text user rest (rw v h)

    after_permission :
        (verdict : Verdict) (user : Identity) (rest : Identity → Action E Response)
        → IsPermissionVerdict verdict
        → listed codes 401 ≡ true
        → listed codes 403 ≡ true
        → Answers codes (rest user)
        → Answers codes (after_verdict verdict user rest)
    unfolding after_verdict
    after_permission next user rest v h h' k = k
    after_permission (next_as user_id email) user rest v h h' k = absurd v
    after_permission (abort status text) user rest (inl v) h h' k =
        after_abort status text user rest (rw v h)
    after_permission (abort status text) user rest (inr v) h h' k =
        after_abort status text user rest (rw v h')

    module _ (req : Request) (handler : Identity → Action E Response) where
      pub Answers-open :
          (user : Identity)
          → Answers codes (handler user)
          → Answers codes (run_guards [] req handler user)
      unfolding run_guards
      Answers-open user k = k

      pub Answers-authenticated :
          (gs : List Guard) (user : Identity)
          → listed codes 401 ≡ true
          → ((user_id : String) → Answers codes (run_guards gs req handler (uuid user_id)))
          → Answers codes (run_guards (authenticated ∷ gs) req handler user)
      unfolding run_guards run_guard
      Answers-authenticated gs user h k = record {
        returns =
            Returns-bind _ _ (auth_required-Returns _)
              (λ verdict v. (after_authentication verdict user _ v h k).returns);
      }

      Answers-permitted :
          (action resource : String) (user : Identity)
          → listed codes 401 ≡ true
          → listed codes 403 ≡ true
          → Answers codes (handler user)
          → Answers codes (run_guards (permitted action resource ∷ []) req handler user)
      unfolding run_guards run_guard
      Answers-permitted action resource user h h' k = record {
        returns =
            Returns-bind _ _ (require_permission-Returns action resource user)
              (λ verdict v. (after_permission verdict user handler v h h' k).returns);
      }

      pub behind_permission :
          (action resource : String)
          → listed codes 401 ≡ true
          → listed codes 403 ≡ true
          → ((user_id : String) → Answers codes (handler (uuid user_id)))
          → Answers codes
              (run_guards (authenticated ∷ permitted action resource ∷ []) req handler absent)
      behind_permission action resource h h' k =
          Answers-authenticated _ absent h
            (λ user_id. Answers-permitted action resource (uuid user_id) h h' (k user_id))

pub ruleset answers_rules = (Answers-answer, Answers-with_body, Answers-with_id)
