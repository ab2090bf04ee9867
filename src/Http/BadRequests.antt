-- ===== src/Http/BadRequests.antt =====
-- A bad request reaches no service.
use go_lang_domain_based_ent.Auth.Tokens.{Config}
use go_lang_domain_based_ent.External.{Env}
use go_lang_domain_based_ent.Http.{
  Bound, Gin, Reply, Request, Response, answer, bound, malformed, respond, with_body, with_id,
}
use go_lang_domain_based_ent.Http.AdminHandler.{
  handle_assign_permissions, handle_assign_roles, handle_create_permission, handle_create_role,
  handle_create_user, handle_delete_permission, handle_delete_role, handle_get_user,
  handle_list_permissions, handle_list_roles, handle_list_users, handle_update_permission,
  handle_update_role,
}
use go_lang_domain_based_ent.Http.AuthHandler.{
  handle_login, handle_logout, handle_refresh_token, handle_register,
}
use go_lang_domain_based_ent.Http.Guards.{run_guard-Keeps}
use go_lang_domain_based_ent.Http.IncidentHandler.{
  handle_create_incident, handle_list_incidents, with_user,
}
use go_lang_domain_based_ent.Http.Routes.{
  Guard, Route, after_verdict, guards, handle, health, run_guard, run_guards, serve,
}
use go_lang_domain_based_ent.Middleware.{Verdict, abort, next, next_as}
use go_lang_domain_based_ent.Middleware.Permission.{Identity, absent, other, uuid}
use go_lang_domain_based_ent.Prelude.{
  Bool, List, Option, String, [], ap, arith, false, leb, none, refl, some, ℕ, ◌&&◌, ◌∙◌, ◌∷◌, ◌≡◌,
  ◌≢◌,
}
use go_lang_domain_based_ent.Schema.{Tables}
use go_lang_domain_based_ent.World.{Action, Result, World, err, ok, pure, ◌>>=◌}
use go_lang_domain_based_ent.World.Actions.{>>=-eq_ok, Keeps, bind_state}

abbrev is_bad : ℕ → Bool
is_bad status = leb status 400 && leb 400 status

respond-is_bad :
    {A : Type 0} (success : ℕ) (reply : A → Reply) (failure : ℕ) (r : Result A)
    → is_bad success ≡ false
    → is_bad failure ≡ false
    → is_bad (respond success reply failure r).status ≡ false
respond-is_bad success reply failure (ok a) h k = h
respond-is_bad success reply failure (err e) h k = k

not_bad : (status : ℕ) → is_bad status ≡ false → status ≢ 400
not_bad status h e = ground arith

ok_status : {a b : Response} → ok a ≡ ok b → a.status ≡ b.status
ok_status {a} {b} h = cc

module _ {E : Env} where
  -- An answer 400 leaves the tables as they were.
  pub record Spares (m : Action E Response) : Type 0 where
    pub at :
        (w : World E) (response : Response)
        → (m w).0 ≡ ok response
        → response.status ≡ 400
        → (m w).1.db ≡ w.db

  Spares-pure : (r : Response) → Spares (pure r)
  unfolding ◌>>=◌
  Spares-pure r = record { at = λ w response e bad. refl }

  Spares-bind :
      {A : Type 0} (m : Action E A) (f : A → Action E Response)
      → ((P : Tables → Type 0) → Keeps P m)
      → ((a : A) → Spares (f a))
      → Spares (m >>= f)
  Spares-bind m f first rest = record {
    at = λ w response e bad.
        let (a, e', e'') = >>=-eq_ok m f w e in
        ap (λ (v : World E). v.db) (bind_state m f w a e')
        ∙ (rest a).at (m w).1 response e'' bad
        ∙ (first (λ db. db ≡ w.db)).at w refl;
  }

  Spares-answer :
      {A : Type 0} (success : ℕ) (reply : A → Reply) (failure : ℕ) (service : Action E A)
      → is_bad success ≡ false
      → is_bad failure ≡ false
      → Spares (answer success reply failure service)
  unfolding answer ◌>>=◌
  Spares-answer success reply failure service h k = record {
    at = λ w response e bad.
        absurd
          (not_bad _ (respond-is_bad success reply failure (service w).0 h k) (ok_status e ∙ bad));
  }

  Spares-with_body :
      {A : Type 0} (b : Bound A) (rest : A → Action E Response)
      → ((a : A) → Spares (rest a))
      → Spares (with_body b rest)
  unfolding with_body
  Spares-with_body (malformed text) rest k = Spares-pure _
  Spares-with_body (bound a) rest k = k a

  Spares-with_id :
      (text : String) (id : Option String) (rest : String → Action E Response)
      → ((own : String) → Spares (rest own))
      → Spares (with_id text id rest)
  unfolding with_id
  Spares-with_id text none rest k = Spares-pure _
  Spares-with_id text (some id) rest k = k id

  Spares-with_user :
      (user : Identity) (rest : String → Action E Response)
      → ((user_id : String) → Spares (rest user_id))
      → Spares (with_user user rest)
  unfolding with_user
  Spares-with_user absent rest k = Spares-pure _
  Spares-with_user other rest k = Spares-pure _
  Spares-with_user (uuid user_id) rest k = k user_id

  Spares-verdict :
      (verdict : Verdict) (user : Identity) (rest : Identity → Action E Response)
      → ((own : Identity) → Spares (rest own))
      → Spares (after_verdict verdict user rest)
  unfolding after_verdict
  Spares-verdict next user rest k = k user
  Spares-verdict (next_as user_id email) user rest k = k (uuid user_id)
  Spares-verdict (abort status text) user rest k = Spares-pure _

  Spares-guards :
      (gs : List Guard) (req : Request) (handler : Identity → Action E Response) (user : Identity)
      → ((own : Identity) → Spares (handler own))
      → Spares (run_guards gs req handler user)
  unfolding run_guards
  Spares-guards [] req handler user k = k user
  Spares-guards (g ∷ gs) req handler user k =
      Spares-bind (run_guard g req user) _ (λ P. run_guard-Keeps g req user)
        (λ verdict. Spares-verdict verdict user _ (λ own. Spares-guards gs req handler own k))

  ruleset spares_rules = (Spares-answer, Spares-with_body, Spares-with_id, Spares-with_user)

  module _ (G : Gin) (cfg : Config) (req : Request) where
    handle-Spares : (route : Route) (user : Identity) → Spares (handle {E = E} G cfg route req user)
    unfolding handle handle_assign_permissions handle_assign_roles handle_create_incident
        handle_create_permission handle_create_role handle_create_user handle_delete_permission
        handle_delete_role handle_get_user handle_list_incidents handle_list_permissions
        handle_list_roles handle_list_users handle_login handle_logout handle_refresh_token
        handle_register handle_update_permission handle_update_role
    handle-Spares health user = Spares-pure _
    handle-Spares Route.register user = search spares_rules
    handle-Spares Route.login user = search spares_rules
    handle-Spares Route.refresh_token user = search spares_rules
    handle-Spares Route.logout user = search spares_rules
    handle-Spares Route.list_users user = search spares_rules
    handle-Spares Route.get_user user = search spares_rules
    handle-Spares Route.create_user user = search spares_rules
    handle-Spares Route.assign_roles user = search spares_rules
    handle-Spares Route.list_roles user = search spares_rules
    handle-Spares Route.create_role user = search spares_rules
    handle-Spares Route.update_role user = search spares_rules
    handle-Spares Route.delete_role user = search spares_rules
    handle-Spares Route.assign_permissions user = search spares_rules
    handle-Spares Route.list_permissions user = search spares_rules
    handle-Spares Route.create_permission user = search spares_rules
    handle-Spares Route.update_permission user = search spares_rules
    handle-Spares Route.delete_permission user = search spares_rules
    handle-Spares Route.create_incident user = search spares_rules
    handle-Spares Route.list_incidents user = search spares_rules

    -- A request of a route that is answered with 400 has changed no table.
    pub serve-Spares : (route : Route) → Spares (serve {E = E} G cfg route req)
    unfolding serve
    serve-Spares route = Spares-guards (guards route) req _ absent (handle-Spares route)
