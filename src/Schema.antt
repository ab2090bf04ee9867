-- ===== src/Schema.antt =====
-- internal/database/migrations/*.up.sql and the domain types of internal/modules/*/domain: the rows
-- of the tables. A time is a number of seconds, an id is the text of its UUID, and a nullable
-- column that the code always writes is a plain value.
use go_lang_domain_based_ent.Prelude.{ℕ, String, Bool, List, [], Option, none}

pub record User : Type 0 where
  pub id : String
  pub email : String
  pub password_hash : String
  pub full_name : String
  pub is_active : Bool
  pub created_at : ℕ
  pub updated_at : ℕ

pub record Permission : Type 0 where
  pub id : String
  pub name : String
  pub action : String
  pub resource : String
  pub description : String
  pub created_at : ℕ

pub record Role : Type 0 where
  pub id : String
  pub name : String
  pub category : String
  pub description : String
  pub created_at : ℕ

pub record RolePermission : Type 0 where
  pub role_id : String
  pub permission_id : String

pub record UserRole : Type 0 where
  pub user_id : String
  pub role_id : String

pub record RefreshToken : Type 0 where
  pub id : String
  pub user_id : String
  pub token_hash : String
  pub device_id : String
  pub ip_address : String
  pub expires_at : ℕ
  pub created_at : ℕ

pub record Session : Type 0 where
  pub id : String
  pub user_id : String
  pub refresh_token_hash : String
  pub device_id : String
  pub ip_address : String
  pub user_agent : String
  pub last_accessed_at : ℕ
  pub created_at : ℕ

pub record Incident : Type 0 where
  pub id : String
  pub title : String
  pub description : String
  pub status : String
  pub severity : String
  pub reported_by : String
  pub created_at : ℕ
  pub updated_at : ℕ

pub record Tables : Type 0 where
  pub users : List User
  pub permissions : List Permission
  pub roles : List Role
  pub role_permissions : List RolePermission
  pub user_roles : List UserRole
  pub refresh_tokens : List RefreshToken
  pub sessions : List Session
  -- `none` where the table is missing: no migration creates it.
  pub incidents : Option (List Incident)

abbrev pub empty_tables : Tables
empty_tables = record {
  users = [];
  permissions = [];
  roles = [];
  role_permissions = [];
  user_roles = [];
  refresh_tokens = [];
  sessions = [];
  incidents = none;
}
