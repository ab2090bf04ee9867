-- ===== src/Config/Tests.antt =====
-- The settings from a small environment.
use go_lang_domain_based_ent.Config.{Settings, Viper, load, read_settings, with_defaults}
use go_lang_domain_based_ent.Prelude.{
  Option, false, if◌then◌else◌, negsuc, none, pos, refl, some, string_dec, ℤ, ◌==◌, ◌≡◌,
}

-- The two key paths, a negative limit of sessions, and nothing else.
abbrev few_settings : Viper
few_settings = record {
  get_string = λ key.
      if key == "JWT_PRIVATE_KEY_PATH"
      then "keys/private.pem"
      else if key == "JWT_PUBLIC_KEY_PATH"
      then "keys/public.pem"
      else "";
  get_int = λ key. if key == "MAX_ACTIVE_SESSIONS" then negsuc 0 else pos 0;
  get_bool = λ key. false;
}

abbrev session_limit : Option Settings → ℤ
session_limit none = pos 0
session_limit (some cfg) = cfg.max_active_sessions

negative_limit_replaced : session_limit (load few_settings) ≡ pos 2
unfolding load read_settings with_defaults string_dec
negative_limit_replaced = refl
