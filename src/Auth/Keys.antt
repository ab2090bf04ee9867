-- ===== src/Auth/Keys.antt =====
-- internal/shared/utils/jwt.go: `LoadKeys`, which sets the two keys of the package. The file system
-- and the parsers of the standard library are parameters.
use go_lang_domain_based_ent.Prelude.{Option, String, none, some}
pub mod Laws

-- A parsed key: an RSA key, or one of another kind.
pub data ParsedKey : Type 0 where
  rsa : String → ParsedKey
  foreign : ParsedKey

pub record KeyParser : Type 0 where
  pub read_file : String → Option String
  pub decode_pem : String → Option String
  pub parse_pkcs8 : String → Option ParsedKey
  pub parse_pkcs1 : String → Option String
  pub parse_pkix : String → Option ParsedKey

pub data LoadError : Type 0 where
  private_unreadable private_not_pem private_unparsable private_not_rsa : LoadError
  public_unreadable public_not_pem public_unparsable public_not_rsa : LoadError

-- The package variables `privateKey` and `publicKey`.
pub record Keys : Type 0 where
  pub private_key : Option String
  pub public_key : Option String

-- PKCS #8, and PKCS #1 where that fails.
abbrev pub pkcs1_key : Option String → Option ParsedKey
pkcs1_key none = none
pkcs1_key (some key) = some (rsa key)

abbrev pub parse_private : KeyParser → String → Option ParsedKey
parse_private P block = elim (P.parse_pkcs8 block) [
  | some key ↦ some key
  | none ↦ pkcs1_key (P.parse_pkcs1 block)
]

-- The type assertions. One that fails leaves nil in the variable.
abbrev pub set_private : Option ParsedKey → Keys → Option LoadError × Keys
set_private none keys = (some private_unparsable, keys)
set_private (some (rsa key)) keys = (none, record keys { private_key = some key })
set_private (some foreign) keys = (some private_not_rsa, record keys { private_key = none })

abbrev pub set_public : Option ParsedKey → Keys → Option LoadError × Keys
set_public none keys = (some public_unparsable, keys)
set_public (some (rsa key)) keys = (none, record keys { public_key = some key })
set_public (some foreign) keys = (some public_not_rsa, record keys { public_key = none })

abbrev pub private_block : KeyParser → Option String → Keys → Option LoadError × Keys
private_block P none keys = (some private_not_pem, keys)
private_block P (some block) keys = set_private (parse_private P block) keys

abbrev pub public_block : KeyParser → Option String → Keys → Option LoadError × Keys
public_block P none keys = (some public_not_pem, keys)
public_block P (some block) keys = set_public (P.parse_pkix block) keys

abbrev pub private_bytes : KeyParser → Option String → Keys → Option LoadError × Keys
private_bytes P none keys = (some private_unreadable, keys)
private_bytes P (some bytes) keys = private_block P (P.decode_pem bytes) keys

abbrev pub public_bytes : KeyParser → Option String → Keys → Option LoadError × Keys
public_bytes P none keys = (some public_unreadable, keys)
public_bytes P (some bytes) keys = public_block P (P.decode_pem bytes) keys

-- The public key is read once the private one is set.
abbrev pub then_public : KeyParser → String → Option LoadError × Keys → Option LoadError × Keys
then_public P path (none, keys) = public_bytes P (P.read_file path) keys
then_public P path (some e, keys) = (some e, keys)

unfoldable pub load_keys : KeyParser → String → String → Keys → Option LoadError × Keys
load_keys P private_path public_path keys =
    then_public P public_path (private_bytes P (P.read_file private_path) keys)
