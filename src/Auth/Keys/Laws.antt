-- ===== src/Auth/Keys/Laws.antt =====
-- What `LoadKeys` sets, against the keys that the two files hold.
use go_lang_domain_based_ent.Auth.Keys.{
  KeyParser, Keys, LoadError, ParsedKey, foreign, load_keys, parse_private, private_block,
  private_bytes, public_block, public_bytes, rsa, set_private, set_public, then_public,
}
use go_lang_domain_based_ent.Cache.{set}
use go_lang_domain_based_ent.Prelude.{
  Option, String, ap, arith, inl, inr, none, refl, some, sym, ◌∙◌, ◌≡◌, ◌≢◌, ◌⊎◌,
}

abbrev pub chain : {A : Type 0} {B : Type 0} → Option A → (A → Option B) → Option B
chain none f = none
chain (some a) f = f a

abbrev pub rsa_key : ParsedKey → Option String
rsa_key (rsa key) = some key
rsa_key foreign = none

-- The RSA key that a file holds, if it holds one.
abbrev pub private_key_at : KeyParser → String → Option String
private_key_at P path =
    chain (chain (chain (P.read_file path) P.decode_pem) (parse_private P)) rsa_key

abbrev pub public_key_at : KeyParser → String → Option String
public_key_at P path = chain (chain (chain (P.read_file path) P.decode_pem) P.parse_pkix) rsa_key

-- A key was found and set, or there was none and an error was returned.
abbrev Sets : (String → Keys) → Option String → Option LoadError × Keys → Type 0
Sets set found r =
    ((k : String) × (found ≡ some k) × (r ≡ (none, set k))) ⊎ ((found ≡ none) × (r.0 ≢ none))

module _ (P : KeyParser) (keys : Keys) where
  abbrev with_private : String → Keys
  with_private k = record keys { private_key = some k }

  abbrev with_public : String → Keys
  with_public k = record keys { public_key = some k }

  private_set : (o : Option ParsedKey) → Sets with_private (chain o rsa_key) (set_private o keys)
  private_set none = inr (refl, λ e. ground arith)
  private_set (some (rsa k)) = inl (k, refl, refl)
  private_set (some foreign) = inr (refl, λ e. ground arith)

  private_parsed :
      (o : Option String)
      → Sets with_private (chain (chain o (parse_private P)) rsa_key) (private_block P o keys)
  private_parsed none = inr (refl, λ e. ground arith)
  private_parsed (some block) = private_set (parse_private P block)

  private_found :
      (o : Option String)
      → Sets with_private
          (chain (chain (chain o P.decode_pem) (parse_private P)) rsa_key)
          (private_bytes P o keys)
  private_found none = inr (refl, λ e. ground arith)
  private_found (some bytes) = private_parsed (P.decode_pem bytes)

  public_set : (o : Option ParsedKey) → Sets with_public (chain o rsa_key) (set_public o keys)
  public_set none = inr (refl, λ e. ground arith)
  public_set (some (rsa k)) = inl (k, refl, refl)
  public_set (some foreign) = inr (refl, λ e. ground arith)

  public_parsed :
      (o : Option String)
      → Sets with_public (chain (chain o P.parse_pkix) rsa_key) (public_block P o keys)
  public_parsed none = inr (refl, λ e. ground arith)
  public_parsed (some block) = public_set (P.parse_pkix block)

  public_found :
      (o : Option String)
      → Sets with_public
          (chain (chain (chain o P.decode_pem) P.parse_pkix) rsa_key)
          (public_bytes P o keys)
  public_found none = inr (refl, λ e. ground arith)
  public_found (some bytes) = public_parsed (P.decode_pem bytes)

then_public-error :
    (P : KeyParser) (path : String) (r : Option LoadError × Keys)
    → r.0 ≢ none
    → (then_public P path r).0 ≢ none
then_public-error P path (none, keys) h = absurd (h refl)
then_public-error P path (some e, keys) h = h

-- `LoadKeys` returns no error if and only if both files hold an RSA key, and then it has set both.
pub load_keys-Keys :
    (P : KeyParser) (private_path public_path : String) (keys : Keys)
    → ((k q : String) × (private_key_at P private_path ≡ some k)
        × (public_key_at P public_path ≡ some q)
        × (load_keys P private_path public_path keys
            ≡ (none, record { private_key = some k; public_key = some q })))
      ⊎ (((private_key_at P private_path ≡ none) ⊎ (public_key_at P public_path ≡ none))
          × ((load_keys P private_path public_path keys).0 ≢ none))
unfolding load_keys
load_keys-Keys P private_path public_path keys =
    elim (private_found P keys (P.read_file private_path)) [
      | inr (missing, failed) ↦ inr (inl missing, then_public-error P public_path _ failed)
      | inl (k, at, set) ↦ elim (public_found P (with_private P keys k) (P.read_file public_path)) [
        | inl (q, at', set') ↦ inl (k, q, at, at', ap (then_public P public_path) set ∙ set')
        | inr (missing, failed) ↦ inr (
          inr missing,
          λ e. failed (
              ap (λ (r : Option LoadError × Keys). r.0) (sym (ap (then_public P public_path) set))
              ∙ e),
        )
      ]
    ]
