-- ===== src/Prelude/Lists.antt =====
-- Lists measured by native numbers, selections by a Boolean test, and maps keyed by a text.
use Prim.Native.Nat.{suc, zero, ℕ, ◌+◌, ◌<◌, ◌≤◌}
use Prim.Native.String.{String}
use mathlib.Core.Bool.{Bool, false, true, ◌&&◌, ◌||◌}
use mathlib.Core.List.{List, [], ◌++◌, ◌∷◌}
use mathlib.Core.Logic.{inl, inr, ◌≢◌, ◌⊎◌}
use mathlib.Core.Option.{Option, none, some}
use mathlib.Core.Path.{refl, ◌≡◌}
use native.Mathlib.Omega.{arith}
use go_lang_domain_based_ent.Prelude.Tests.{Bool-cases, if◌then◌else◌, ◌==◌}

module _ {ℓ} {A : Type ℓ} where
  abbrev pub length : List A → ℕ
  length [] = 0
  length (x ∷ xs) = suc (length xs)

  abbrev pub take : ℕ → List A → List A
  take zero xs = []
  take (suc n) [] = []
  take (suc n) (x ∷ xs) = x ∷ take n xs

  abbrev pub drop : ℕ → List A → List A
  drop zero xs = xs
  drop (suc n) [] = []
  drop (suc n) (x ∷ xs) = drop n xs

  -- The rows that pass a test, in their order.
  abbrev pub select : (A → Bool) → List A → List A
  select p [] = []
  select p (x ∷ xs) = let rest = select p xs in if p x then x ∷ rest else rest

  abbrev pub any : (A → Bool) → List A → Bool
  any p [] = false
  any p (x ∷ xs) = p x || any p xs

  -- The first row that passes a test.
  abbrev pub find? : (A → Bool) → List A → Option A
  find? p [] = none
  find? p (x ∷ xs) = let rest = find? p xs in if p x then some x else rest

  abbrev pub All {κ} : (A → Type κ) → List A → Type κ
  All P [] = Unit
  All P (x ∷ xs) = P x × All P xs

  pub length-append : (xs ys : List A) → length (xs ++ ys) ≡ length xs + length ys
  length-append [] ys = omega arith
  length-append (x ∷ xs) ys = omega (arith, length-append xs ys)

  pub length-select-le : (p : A → Bool) (xs : List A) → length (select p xs) ≤ length xs
  length-select-le p [] = omega arith
  length-select-le p (x ∷ xs) = ground (arith, length-select-le p xs)

  pub length-take-le : (n : ℕ) (xs : List A) → length (take n xs) ≤ n
  length-take-le zero xs = omega arith
  length-take-le (suc n) [] = omega arith
  length-take-le (suc n) (x ∷ xs) = omega (arith, length-take-le n xs)

-- A row of a list.
abbrev pub In : {A : Type 0} → A → List A → Type 0
In x [] = ⊥
In x (y ∷ ys) = (x ≡ y) ⊎ In x ys

module _ {A : Type 0} where
  pub any_witness :
      (p : A → Bool) (xs : List A) → any p xs ≡ true → (x : A) × In x xs × (p x ≡ true)
  any_witness p [] h = cc
  any_witness p (x ∷ xs) h = elim (Bool-cases (p x)) [
    | inl e ↦ (x, inl refl, e)
    | inr e ↦ let (y, here, f) = any_witness p xs (rw e at h) in (y, inr here, f)
  ]

  pub any_of : (p : A → Bool) (x : A) (xs : List A) → In x xs → p x ≡ true → any p xs ≡ true
  any_of p x [] h e = absurd h
  any_of p x (y ∷ ys) (inl same) e = rw (← same) (rw e refl)
  any_of p x (y ∷ ys) (inr more) e = ground (arith, any_of p x ys more e)

pub and_right : (a b : Bool) → (a && b) ≡ true → b ≡ true
and_right a b h = ground arith

pub and_of : {a b : Bool} → a ≡ true → b ≡ true → (a && b) ≡ true
and_of h k = ground arith

-- A Go map with text keys, as the entries in the order in which a `range` loop meets them.
abbrev pub Dict {ℓ} : Type ℓ → Type ℓ
Dict V = List (String × V)

module _ {ℓ} {V : Type ℓ} where
  -- `m[key]` with the second result.
  unfoldable pub lookup : String → Dict V → Option V
  lookup key [] = none
  lookup key ((own, kept) ∷ rest) = if own == key then some kept else lookup key rest

  -- No key has two entries.
  abbrev pub NodupKeys : Dict V → Type ℓ
  NodupKeys [] = Unit
  NodupKeys ((own, kept) ∷ rest) = (lookup own rest ≡ none) × NodupKeys rest

  -- `delete(m, key)`
  unfoldable pub erase : String → Dict V → Dict V
  erase key [] = []
  erase key ((own, kept) ∷ rest) =
      let others = erase key rest in if own == key then others else (own, kept) ∷ others

  -- `m[key] = value`, in the place of the entry that the key has.
  unfoldable pub insert : String → V → Dict V → Dict V
  insert key value [] = (key, value) ∷ []
  insert key value ((own, kept) ∷ rest) =
      let changed = insert key value rest in
      if own == key then (key, value) ∷ rest else (own, kept) ∷ changed

  pub lookup-erase :
      (key asked : String) (entries : Dict V)
      → lookup asked (erase key entries) ≡ (if key == asked then none else lookup asked entries)
  unfolding erase lookup
  lookup-erase key asked [] = ground arith
  lookup-erase key asked ((own, kept) ∷ rest) = ground (arith, lookup-erase key asked rest)

  pub lookup-insert :
      (key asked : String) (value : V) (entries : Dict V)
      → lookup asked (insert key value entries)
        ≡ (if key == asked then some value else lookup asked entries)
  unfolding insert lookup
  lookup-insert key asked value [] = refl
  lookup-insert key asked value ((own, kept) ∷ rest) =
      ground (arith, lookup-insert key asked value rest)

  pub length-erase-le :
      (key : String) (entries : Dict V) → length (erase key entries) ≤ length entries
  unfolding erase
  length-erase-le key [] = omega arith
  length-erase-le key ((own, kept) ∷ rest) = ground (arith, length-erase-le key rest)

  pub length-erase-lt :
      (key : String) (entries : Dict V)
      → lookup key entries ≢ none
      → length (erase key entries) < length entries
  unfolding erase lookup
  length-erase-lt key [] there = absurd (there refl)
  length-erase-lt key ((own, kept) ∷ rest) there =
      ground (arith, length-erase-lt key rest, length-erase-le key rest)

  pub length-insert-le :
      (key : String) (value : V) (entries : Dict V)
      → length (insert key value entries) ≤ length entries + 1
  unfolding insert
  length-insert-le key value [] = omega arith
  length-insert-le key value ((own, kept) ∷ rest) = ground (arith, length-insert-le key value rest)

  pub length-insert_old :
      (key : String) (value : V) (entries : Dict V)
      → lookup key entries ≢ none
      → length (insert key value entries) ≡ length entries
  unfolding insert lookup
  length-insert_old key value [] there = absurd (there refl)
  length-insert_old key value ((own, kept) ∷ rest) there =
      ground (arith, length-insert_old key value rest)

  pub erase-NodupKeys :
      (key : String) (entries : Dict V) → NodupKeys entries → NodupKeys (erase key entries)
  unfolding erase
  erase-NodupKeys key [] once = tt
  erase-NodupKeys key ((own, kept) ∷ rest) (new, once) =
      ground (arith, erase-NodupKeys key rest once, lookup-erase key own rest)

  pub insert-NodupKeys :
      (key : String) (value : V) (entries : Dict V)
      → NodupKeys entries
      → NodupKeys (insert key value entries)
  unfolding insert lookup
  insert-NodupKeys key value [] once = (refl, tt)
  insert-NodupKeys key value ((own, kept) ∷ rest) (new, once) =
      ground (arith, insert-NodupKeys key value rest once, lookup-insert key own value rest)
