-- ===== src/External.antt =====
-- What the program uses and does not implement: Redis, the JWT library, bcrypt, SHA-256, the UUID
-- generator, and what the PostgreSQL server decides by itself. They are parameters of the model,
-- and the laws that a proof needs are named here.
pub mod Memory
pub mod Example
use mathlib.Core.List.{Mem, Perm}
use go_lang_domain_based_ent.Prelude.{
  All, ℕ, suc, ◌+◌, ◌≤◌, ◌<◌, String, ◌≡◌, Bool, true, false, ◌&&◌, Option, none, some, List, [],
  ◌∷◌, ltb, leb, ◌==◌, if◌then◌else◌,
}
use go_lang_domain_based_ent.Schema.{Incident, Permission, Role, Session, User}

-- A value that Redis keeps under a key.
pub data Value : Type 0 where
  number : ℕ → Value
  word : String → Value

pub record Item : Type 0 where
  pub value : Value
  pub deadline : Option ℕ

-- A key is gone from its deadline on.
abbrev pub live : ℕ → Option Item → Option Item
live now none = none
live now (some i) = elim i.deadline [ none ↦ some i | some d ↦ if ltb now d then some i else none ]

-- What INCR leaves under a key, from what is there.
abbrev pub incremented : Option Item → Item
incremented none = record { value = number 1; deadline = none }
incremented (some i) = record i {
  value = elim i.value [ number n ↦ number (suc n) | word s ↦ word s ];
}

abbrev pub with_deadline : ℕ → Option Item → Option Item
with_deadline d none = none
with_deadline d (some i) = some (record i { deadline = some d })

-- The commands that the program sends, each at a time. `read` is what GET, EXISTS and TTL see.
pub record Redis : Type 1 where
  pub State : Type 0
  pub read : State → ℕ → String → Option Item
  pub set : State → ℕ → String → Value → ℕ → State
  pub incr : State → ℕ → String → State
  pub expire : State → ℕ → String → ℕ → State
  pub del : State → ℕ → String → State

-- The documented behaviour of the commands.
pub record IsRedis (R : Redis) : Type 0 where
  pub read-set :
      (s : R.State) (t u : ℕ) (k j : String) (v : Value) (ttl : ℕ)
      → R.read (R.set s t k v ttl) u j ≡ (
          if k == j
          then live u (some (record { value = v; deadline = some (t + ttl) }))
          else R.read s u j)
  pub read-incr :
      (s : R.State) (t u : ℕ) (k j : String)
      → R.read (R.incr s t k) u j
        ≡ (if k == j then live u (some (incremented (R.read s t k))) else R.read s u j)
  pub read-expire :
      (s : R.State) (t u : ℕ) (k j : String) (ttl : ℕ)
      → R.read (R.expire s t k ttl) u j
        ≡ (if k == j then live u (with_deadline (t + ttl) (R.read s t k)) else R.read s u j)
  pub read-del :
      (s : R.State) (t u : ℕ) (k j : String)
      → R.read (R.del s t k) u j ≡ (if k == j then none else R.read s u j)

-- `AccessClaims` and `RefreshClaims` of internal/shared/utils/jwt.go.
pub record AccessClaims : Type 0 where
  pub user_id : String
  pub email : String
  pub expires_at : ℕ
  pub issued_at : ℕ
  pub not_before : ℕ
  pub id : String

pub record RefreshClaims : Type 0 where
  pub user_id : String
  pub token_id : String
  pub expires_at : ℕ
  pub not_before : ℕ
  pub id : String

pub record Env : Type 1 where
  pub redis : Redis
  -- Whether the call of this number to PostgreSQL or Redis fails.
  pub fails : ℕ → Bool
  -- Whether PostgreSQL has committed, where the Commit of this number returns an error: the answer
  -- may be lost on its way.
  pub commits : ℕ → Bool
  -- The UUID that is drawn at this number.
  pub uuid : ℕ → String
  -- Whether PostgreSQL casts the text to `inet`.
  pub inet_ok : String → Bool
  -- Whether PostgreSQL takes the text for a column VARCHAR(n).
  pub varchar_ok : ℕ → String → Bool
  -- The rows in an order that satisfies ORDER BY last_accessed_at DESC.
  pub newest_first : List Session → List Session
  -- The rows in the orders of the admin lists: users by created_at DESC, roles by name, permissions
  -- by resource and action.
  pub sorted_users : List User → List User
  pub sorted_roles : List Role → List Role
  pub sorted_permissions : List Permission → List Permission
  -- Incidents by created_at DESC, and the status that their table, which the repository does not
  -- declare, gives to a new row, or nothing where it refuses the row.
  pub sorted_incidents : List Incident → List Incident
  pub incident_status : Incident → Option String
  -- `uuid.Parse`, to the text of the id.
  pub parse_uuid : String → Option String
  pub hash_password : ℕ → String → Option String
  pub compare_password : String → String → Bool
  pub sha256_hex : String → String
  pub sign_access : AccessClaims → Option String
  pub sign_refresh : RefreshClaims → Option String
  -- `jwt.ParseWithClaims` with the RS256 key and a leeway, at a time.
  pub parse_access : ℕ → ℕ → String → Option AccessClaims

-- Each row before all that were accessed no later.
abbrev pub IsDescending : List Session → Type 0
IsDescending [] = Unit
IsDescending (s ∷ rest) =
    All (λ t. t.last_accessed_at ≤ s.last_accessed_at) rest × IsDescending rest

-- No call fails.
pub record IsReliable (E : Env) : Type 0 where
  pub at : (n : ℕ) → E.fails n ≡ false

-- PostgreSQL: the empty text is no network address.
abbrev pub RejectsEmptyInet : Env → Type 0
RejectsEmptyInet E = E.inet_ok "" ≡ false

-- ORDER BY returns the rows that it is given, sorted.
pub record IsOrder (E : Env) : Type 0 where
  pub perm : (rows : List Session) → Perm (E.newest_first rows) rows
  pub descending : (rows : List Session) → IsDescending (E.newest_first rows)

-- The orders of the admin lists return the rows that they are given.
pub record IsListing (E : Env) : Type 0 where
  pub users : (rows : List User) → Perm (E.sorted_users rows) rows
  pub roles : (rows : List Role) → Perm (E.sorted_roles rows) rows
  pub permissions : (rows : List Permission) → Perm (E.sorted_permissions rows) rows

-- github.com/golang-jwt/jwt: a signed token parses to its claims from `nbf` to `exp`, both widened
-- by the leeway, and to nothing at other times.
pub record IsJwt (E : Env) : Type 0 where
  pub parse-sign :
      (c : AccessClaims) (token : String) (leeway now : ℕ)
      → E.sign_access c ≡ some token
      → E.parse_access leeway now token ≡ (
          if leb c.not_before (now + leeway) && ltb now (c.expires_at + leeway)
          then some c
          else none)
