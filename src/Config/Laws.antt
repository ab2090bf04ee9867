-- ===== src/Config/Laws.antt =====
-- When the settings can be loaded, and what they are then.
use text.Mathlib.TextEquality.{eq_iff}
use go_lang_domain_based_ent.Config.{
  Settings, Viper, is_unset, load, or_default, read_settings, with_defaults,
}
use go_lang_domain_based_ent.Prelude.{
  Bool-cases, String, arith, false, if◌then◌else◌, inl, inr, negsuc, none, pos, refl, some, ℕ, ℤ,
  ◌<◌, ◌==◌, ◌≡◌, ◌≢◌, ◌⊎◌,
}

-- What the rest of the program takes for granted of its settings.
pub record IsUsable (cfg : Settings) : Type 0 where
  pub private_key : cfg.jwt_private_key_path ≢ ""
  pub public_key : cfg.jwt_public_key_path ≢ ""
  pub port : cfg.pg_bouncer_port ≢ ""
  pub sessions : is_unset cfg.max_active_sessions ≡ false
  pub body_size : is_unset cfg.max_request_body_size ≡ false

is_unset-or_default : (n : ℤ) (default : ℕ) → 0 < default → is_unset (or_default n default) ≡ false
is_unset-or_default (pos n) default h = ground arith
is_unset-or_default (negsuc n) default h = ground arith

port_set : (port : String) → (if port == "" then "6432" else port) ≢ ""
port_set port h = elim (Bool-cases (port == "")) [
  | inl e ↦ cc ((eq_iff "6432" "").1 (rw e at h))
  | inr e ↦ let same : port ≡ "" = rw e at h in ground arith
]

-- `Load` returns settings if and only if both key paths are given, and the settings it returns are
-- usable: the paths and the port are not empty, and the limit of sessions and the size of a body
-- are at least one.
pub load-IsUsable :
    (viper : Viper)
    → ((cfg : Settings) × (load viper ≡ some cfg) × IsUsable cfg)
      ⊎ ((load viper ≡ none)
          × ((viper.get_string "JWT_PRIVATE_KEY_PATH" ≡ "")
              ⊎ (viper.get_string "JWT_PUBLIC_KEY_PATH" ≡ "")))
unfolding load read_settings with_defaults
load-IsUsable viper = elim (Bool-cases (viper.get_string "JWT_PRIVATE_KEY_PATH" == "")) [
  | inl e ↦ inr (rw e refl, inl (ground arith))
  | inr e ↦ elim (Bool-cases (viper.get_string "JWT_PUBLIC_KEY_PATH" == "")) [
    | inl f ↦ inr (rw (e, f) refl, inr (ground arith))
    | inr f ↦ inl (
      with_defaults (read_settings viper),
      rw (e, f) refl,
      record {
        private_key = ground arith;
        public_key = ground arith;
        port = port_set (viper.get_string "PGBOUNCER_PORT");
        sessions = is_unset-or_default (viper.get_int "MAX_ACTIVE_SESSIONS") 2 (omega arith);
        body_size =
            is_unset-or_default (viper.get_int "MAX_REQUEST_BODY_SIZE") 10485760 (omega arith);
      },
    )
  ]
]
