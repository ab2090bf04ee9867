-- ===== src/Migrate/Names.antt =====
-- The names and texts of migrations: `extractVersion`, `getMigrationName` and
-- `fixCreateTableStatements`, with what they use of the package strings, on ASCII texts.
use Prim.Native.Char.{Char, code}
use Prim.Native.String.{[], len, slice, ◌∷◌}
use text.Mathlib.Text.{find?}
use go_lang_domain_based_ent.Prelude.{
  Bool, List, Option, String, [], false, if◌then◌else◌, leb, map, none, not, some, true, ℕ, ◌&&◌,
  ◌+◌, ◌-◌, ◌<>◌, ◌==◌, ◌||◌, ◌∷◌,
}

abbrev same_code : ℕ → ℕ → Bool
same_code a b = leb a b && leb b a

-- A character in front of the first part.
abbrev in_front : Char → List String → List String
in_front c [] = (c ∷ []) ∷ []
in_front c (part ∷ parts) = (c ∷ part) ∷ parts

-- `strings.Split` at a character, which gives at least one part.
unfoldable pub split : ℕ → String → List String
split separator [] = [] ∷ []
split separator (c ∷ s) =
    let parts = split separator s in
    if same_code separator (code c) then [] ∷ parts else in_front c parts

abbrev pub last_part : String → List String → String
last_part part [] = part
last_part part (own ∷ parts) = last_part own parts

abbrev pub ends_with : String → String → Bool
ends_with s suffix = leb (len suffix) (len s) && slice s (len s - len suffix) (len s) == suffix

-- `strings.TrimSuffix`
abbrev pub trim_suffix : String → String → String
trim_suffix s suffix = if ends_with s suffix then slice s 0 (len s - len suffix) else s

-- `extractVersion`: the name of the file without its ending.
unfoldable pub extract_version : String → String
extract_version path = trim_suffix (last_part "unknown" (split b'/' path)) ".up.sql"

-- What follows the first separator, as `strings.SplitN(name, "_", 2)` gives it.
unfoldable pub after_first : ℕ → String → Option String
after_first separator [] = none
after_first separator (c ∷ s) =
    let later = after_first separator s in if same_code separator (code c) then some s else later

abbrev pub or_whole : String → Option String → String
or_whole name none = name
or_whole name (some own) = own

unfoldable pub get_migration_name : String → String
get_migration_name path =
    let name = trim_suffix (last_part "unknown" (split b'/' path)) ".up.sql" in
    or_whole name (after_first b'_' name)

abbrev is_space : Char → Bool
is_space c = same_code (code c) 32 || (leb 9 (code c) && leb (code c) 13)

-- `strings.TrimSpace`, from the left and from the right.
unfoldable pub trim_left : String → String
trim_left [] = []
trim_left (c ∷ s) = let later = trim_left s in if is_space c then later else c ∷ s

unfoldable pub trim_right : String → String
trim_right [] = []
trim_right (c ∷ s) = let later = trim_right s in if is_space c && later == "" then [] else c ∷ later

abbrev pub trim_space : String → String
trim_space s = trim_right (trim_left s)

-- The code of a character of `strings.ToUpper`.
abbrev upper_code : ℕ → ℕ
upper_code n = if leb 97 n && leb n 122 then n - 32 else n

-- Whether the text begins with a word, and whether it contains one, once it is in upper case.
unfoldable pub begins_upper : String → String → Bool
begins_upper s [] = true
begins_upper [] (d ∷ word) = false
begins_upper (c ∷ s) (d ∷ word) = same_code (upper_code (code c)) (code d) && begins_upper s word

unfoldable pub contains_upper : String → String → Bool
contains_upper word [] = begins_upper [] word
contains_upper word (c ∷ s) = begins_upper (c ∷ s) word || contains_upper word s

-- `strings.Replace` with the count 1.
abbrev pub replace_first : String → String → String → String
replace_first s old new = elim (find? s old) [
  | none ↦ s
  | some i ↦ slice s 0 i <> new <> slice s (i + len old) (len s)
]

abbrev pub fix_statement : String → String
fix_statement statement =
    let trimmed = trim_space statement in
    if trimmed == ""
    then statement
    else if contains_upper "CREATE TABLE" trimmed && not (contains_upper "IF NOT EXISTS" trimmed)
    then replace_first trimmed "CREATE TABLE" "CREATE TABLE IF NOT EXISTS"
    else statement

-- `strings.Join`
abbrev pub join : String → List String → String
join separator [] = ""
join separator (part ∷ []) = part
join separator (part ∷ (own ∷ parts)) = part <> separator <> join separator (own ∷ parts)

unfoldable pub fix_create_table_statements : String → String
fix_create_table_statements sql = join ";" (map fix_statement (split b';' sql))
