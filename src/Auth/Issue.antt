-- ===== src/Auth/Issue.antt =====
-- The access token that `Login` returns, and the account that it is for.
use go_lang_domain_based_ent.Auth.Frames.{check_login_attempts-Keeps}
use go_lang_domain_based_ent.Auth.Repository.{find_user_by_email}
use go_lang_domain_based_ent.Auth.Service.{LoginRequest, login, login_found, login_user, row_or_nil}
use go_lang_domain_based_ent.Auth.Tokens.{
  AuthResponse, Config, access_claims, generate_access_token, generate_tokens,
}
use go_lang_domain_based_ent.External.{Env}
use go_lang_domain_based_ent.Prelude.{
  Bool, List, Option, String, ap, false, find?, if◌then◌else◌, none, not, refl, some, sym, true, ℕ,
  ◌*◌, ◌+◌, ◌==◌, ◌∙◌, ◌≡◌,
}
use go_lang_domain_based_ent.Schema.{Tables, User}
use go_lang_domain_based_ent.World.{Action, Failure, Result, World, err, ok, throw, ◌>>◌}
use go_lang_domain_based_ent.World.Actions.{Keeps, Keeps-draw, Keeps-now}
use go_lang_domain_based_ent.World.Yields.{
  Keeps-constant, Yields, Yields-after, Yields-bind, Yields-or_throw, Yields-pure, Yields-query,
  Yields-throw, Yields-weaken,
}

module _ (E : Env) (cfg : Config) (user : User) where
  -- The token carries the claims of the user, from the time of its issue to the expiry that is returned.
  pub record IsIssued (token : String) (expires_at : ℕ) : Type 0 where
    pub issued_at : ℕ
    pub id : String
    pub signed :
        E.sign_access
          (access_claims user.id user.email (cfg.jwt_access_expiry_min * 60) issued_at id)
        ≡ some token
    pub expiry : expires_at ≡ issued_at + cfg.jwt_access_expiry_min * 60

-- The account of the request, with the right password.
pub record IsLogin (E : Env) (cfg : Config) (req : LoginRequest) (users : List User)
    (r : AuthResponse) : Type 0 where
  pub user : User
  pub account : find? (λ u. u.email == req.email) users ≡ some user
  pub active : user.is_active ≡ true
  pub password : E.compare_password user.password_hash req.password ≡ true
  pub issued : IsIssued E cfg user r.access_token r.expires_at

found_account :
    (email : String) {users : List User} (a : Result (Option User)) (db : Tables)
    → db.users ≡ users
    → ((o : Option User) → a ≡ ok o → o ≡ find? (λ u. u.email == email) db.users)
    → (user : User) → row_or_nil a ≡ some user
    → find? (λ u. u.email == email) users ≡ some user
found_account email (ok o) db same h user e =
    ap (find? (λ u. u.email == email)) (sym same) ∙ sym (h o refl) ∙ e
found_account email (err f) db same h user e = cc

module _ {E : Env} where
  generate_access_token-Yields :
      (cfg : Config) (user : User) (P : Tables → Type 0)
      → Yields {E = E} P
          (λ a db. IsIssued E cfg user a.0 a.1)
          (generate_access_token user.id user.email (cfg.jwt_access_expiry_min * 60))
  unfolding generate_access_token
  generate_access_token-Yields cfg user P = Yields-after _ _ _ (Keeps-now _) λ t.
      Yields-after _ _ _ (Keeps-draw _) λ n.
        Yields-bind
          (λ token db.
            E.sign_access
              (access_claims user.id user.email (cfg.jwt_access_expiry_min * 60) t (E.uuid n))
            ≡ some token)
          _ _ _ (Yields-or_throw _ _ _ λ db a p e. e)
          λ token.
            Yields-pure _ _
              λ db e. record { issued_at = t; id = E.uuid n; signed = e; expiry = refl }

  generate_tokens-IsIssued :
      (cfg : Config) (user : User) (device_id ip_address user_agent : String) (P : Tables → Type 0)
      → Yields {E = E} P
          (λ r db. IsIssued E cfg user r.access_token r.expires_at)
          (generate_tokens cfg user device_id ip_address user_agent)
  unfolding generate_tokens
  generate_tokens-IsIssued cfg user device_id ip_address user_agent P =
      Yields-bind (λ a db. IsIssued E cfg user a.0 a.1) _ _ _
        (generate_access_token-Yields cfg user P)
        λ access. Yields-after _ _ _ (Keeps-constant _) λ refresh.
          Yields-after _ _ _ (Keeps-constant _) λ stored.
            Yields-after _ _ _ (Keeps-constant _)
              λ created. Yields-after _ _ _ (Keeps-constant _) λ limited. Yields-pure _ _ λ db h. h

  -- Only an active account with the right password gets to the end.
  when_allowed :
      {P : Tables → Type 0} {Q : AuthResponse → Tables → Type 0} (active right : Bool)
      (refused wrong : Failure) (failed : Action E (Unit {0})) (rest : Action E AuthResponse)
      → Keeps P failed
      → (active ≡ true → right ≡ true → Yields P Q rest)
      → Yields P Q (
          if not active
          then throw refused
          else if not right
          then (do failed; throw wrong)
          else rest)
  when_allowed false right refused wrong failed rest k h = Yields-throw _ _
  when_allowed true false refused wrong failed rest k h = Yields-after _ _ _ k λ a. Yields-throw _ _
  when_allowed true true refused wrong failed rest k h = h refl refl

  login_user-Yields :
      (cfg : Config) (req : LoginRequest) (device_id ip_address user_agent : String) (user : User)
      (users : List User)
      → Yields {E = E}
          (λ db. find? (λ u. u.email == req.email) users ≡ some user)
          (λ r db. IsLogin E cfg req users r)
          (login_user cfg req device_id ip_address user_agent user)
  unfolding login_user
  login_user-Yields cfg req device_id ip_address user_agent user users =
      when_allowed user.is_active (E.compare_password user.password_hash req.password) _ _ _ _
        (Keeps-constant _)
        λ active password. Yields-after _ _ _ (Keeps-constant _) λ a.
          Yields-after _ _ _ (Keeps-constant _) λ b. record {
            at = λ w account r e. record {
              user = user;
              account = account;
              active = active;
              password = password;
              issued =
                  (generate_tokens-IsIssued cfg user device_id ip_address user_agent
                      (λ db. Unit {0})).at
                    w tt r e;
            };
          }

  login_found-Yields :
      (cfg : Config) (req : LoginRequest) (device_id ip_address user_agent : String)
      (o : Option User) (users : List User)
      → Yields {E = E}
          (λ db.
            (user : User) → o ≡ some user → find? (λ u. u.email == req.email) users ≡ some user)
          (λ r db. IsLogin E cfg req users r)
          (login_found cfg req device_id ip_address user_agent o)
  unfolding login_found
  login_found-Yields cfg req device_id ip_address user_agent none users =
      Yields-after _ _ _ (Keeps-constant _) λ a. Yields-throw _ _
  login_found-Yields cfg req device_id ip_address user_agent (some user) users = record {
    at = λ w h r e.
        (login_user-Yields cfg req device_id ip_address user_agent user users).at w (h user refl) r
          e;
  }

  -- A login that succeeds is that of an active account with the password, and gets its token.
  pub login-IsLogin :
      (cfg : Config) (req : LoginRequest) (device_id ip_address user_agent : String) (w : World E)
      (r : AuthResponse)
      → (login cfg req device_id ip_address user_agent w).0 ≡ ok r
      → IsLogin E cfg req w.db.users r
  unfolding login find_user_by_email
  login-IsLogin cfg req device_id ip_address user_agent w r done =
      let work : Yields {E = E} (λ db. db.users ≡ w.db.users)
          (λ r db. IsLogin E cfg req w.db.users r) (login cfg req device_id ip_address user_agent) =
        Yields-after _ _ _ (check_login_attempts-Keeps _) λ checked.
          Yields-bind
            (λ a db.
              (user : User)
              → row_or_nil a ≡ some user
              → find? (λ u. u.email == req.email) w.db.users ≡ some user)
            _ _ _
            (Yields-weaken _ _ _ (Yields-query λ db. find? (λ u. u.email == req.email) db.users)
              λ a db h. found_account req.email a db h.0 h.1)
            λ a.
              login_found-Yields cfg req device_id ip_address user_agent (row_or_nil a)
                w.db.users in
      work.at w refl r done
