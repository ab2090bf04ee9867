-- ===== src/Auth/Rows.antt =====
-- Lists of session rows: membership, unique ids, and the rows that a DELETE leaves.
use mathlib.Core.List.{Permᴰ}
use go_lang_domain_based_ent.External.{IsDescending}
use go_lang_domain_based_ent.Prelude.{
  All, Bool, Bool-cases, In, List, String, [], any, ap, arith, false, inl, inr, length, map, not,
  refl, select, subst, suc, sym, take, true, zero, ℕ, ◌++◌, ◌<◌, ◌==◌, ◌∙◌, ◌∷◌, ◌≡◌, ◌≢◌, ◌≤◌,
}
use go_lang_domain_based_ent.Schema.{Session}

-- No id stands in two rows.
abbrev pub UniqueIds : List Session → Type 0
UniqueIds [] = Unit
UniqueIds (s ∷ rest) = (any (λ t. t.id == s.id) rest ≡ false) × UniqueIds rest

module _ {A : Type 0} where
  pub In-perm : (x : A) {xs ys : List A} → Permᴰ xs ys → In x xs → In x ys
  In-perm x Permᴰ.nil h = h
  In-perm x (Permᴰ.cons e p) (inl h) = inl (h ∙ e)
  In-perm x (Permᴰ.cons e p) (inr h) = inr (In-perm x p h)
  In-perm x (Permᴰ.swap e f) (inl h) = inr (inl (h ∙ e))
  In-perm x (Permᴰ.swap e f) (inr (inl h)) = inl (h ∙ f)
  In-perm x (Permᴰ.swap e f) (inr (inr h)) = inr (inr h)
  In-perm x (Permᴰ.trans p q) h = In-perm x q (In-perm x p h)

  pub any-select_none :
      (p q : A → Bool) (xs : List A) → any p xs ≡ false → any p (select q xs) ≡ false
  any-select_none p q [] h = refl
  any-select_none p q (x ∷ xs) h = ground (arith, any-select_none p q xs)

  pub any-append_none :
      (p : A → Bool) (xs : List A) (x : A)
      → any p xs ≡ false
      → p x ≡ false
      → any p (xs ++ x ∷ []) ≡ false
  any-append_none p [] x h e = rw e
  any-append_none p (y ∷ xs) x h e = ground (arith, any-append_none p xs x)

  -- Every row that two selections leave has what their tests say.
  pub All-select :
      (p q r : A → Bool) (xs : List A)
      → ((x : A) → p x ≡ true → q x ≡ true → r x ≡ true)
      → All (λ x. r x ≡ true) (select p (select q xs))
  All-select p q r [] h = tt
  All-select p q r (x ∷ xs) h = ground (arith, All-select p q r xs h, h x)

pub select-UniqueIds :
    (p : Session → Bool) (l : List Session) → UniqueIds l → UniqueIds (select p l)
select-UniqueIds p [] u = tt
select-UniqueIds p (s ∷ l) (new, u) =
    ground (arith, select-UniqueIds p l u, any-select_none (λ t. t.id == s.id) p l new)

without : String → List String → List String
without k = select (λ id. not (k == id))

any-without :
    (j k : String) (ks : List String)
    → j ≢ k
    → any (λ id. j == id) ks ≡ true
    → any (λ id. j == id) (without k ks) ≡ true
unfolding without
any-without j k [] apart h = h
any-without j k (i ∷ ks) apart h = ground (arith, any-without j k ks apart)

length-without-le : (k : String) (ks : List String) → length (without k ks) ≤ length ks
unfolding without
length-without-le k [] = omega arith
length-without-le k (i ∷ ks) = ground (arith, length-without-le k ks)

length-without :
    (k : String) (ks : List String)
    → any (λ id. k == id) ks ≡ true
    → length (without k ks) < length ks
unfolding without
length-without k [] h = cc
length-without k (i ∷ ks) h = ground (arith, length-without k ks, length-without-le k ks)

-- Rows whose ids are among the given ones, seen as one test.
abbrev pub listed : List String → Session → Bool
listed ks s = any (λ id. s.id == id) ks

listed-without :
    (k : String) (ks : List String) (l : List Session)
    → any (λ t. t.id == k) l ≡ false
    → All (λ s. listed ks s ≡ true) l
    → All (λ s. listed (without k ks) s ≡ true) l
listed-without k ks [] new h = tt
listed-without k ks (s ∷ l) new (here, rest) =
    ground (arith, listed-without k ks l, any-without s.id k ks)

-- Rows with unique ids are no more than the ids that they may have.
pub length-le_of_listed :
    (ks : List String) (l : List Session)
    → UniqueIds l
    → All (λ s. listed ks s ≡ true) l
    → length l ≤ length ks
length-le_of_listed ks [] u h = omega arith
length-le_of_listed ks (s ∷ l) (new, u) (here, rest) = omega (
  arith,
  length-le_of_listed (without s.id ks) l u (listed-without s.id ks l new rest),
  length-without s.id ks here,
)

pub length-ids-le : (n : ℕ) (l : List Session) → length (map (λ s. s.id) (take n l)) ≤ n
length-ids-le zero l = omega arith
length-ids-le (suc n) [] = omega arith
length-ids-le (suc n) (s ∷ l) = omega (arith, length-ids-le n l)

module _ {A : Type 0} where
  In-first :
      (p : A → Bool) (x y : A) (xs ys : List A)
      → p y ≡ true
      → (In x xs → In x ys × (p x ≡ true))
      → In x (y ∷ xs)
      → In x (y ∷ ys) × (p x ≡ true)
  In-first p x y xs ys e rest (inl same) = (inl same, subst (λ z. p z ≡ true) (sym same) e)
  In-first p x y xs ys e rest (inr more) = (inr (rest more).0, (rest more).1)

  pub In-select : (p : A → Bool) (x : A) (xs : List A) → In x (select p xs) → In x xs × (p x ≡ true)
  In-select p x [] h = absurd h
  In-select p x (y ∷ ys) h = elim (Bool-cases (p y)) [
    | inl e ↦ In-first p x y (select p ys) ys e (In-select p x ys) (rw e at h)
    | inr e ↦ let r = In-select p x ys (rw e at h) in (inr r.0, r.1)
  ]

  pub In-select_of :
      (p : A → Bool) (x : A) (xs : List A) → In x xs → p x ≡ true → In x (select p xs)
  In-select_of p x [] h e = absurd h
  In-select_of p x (y ∷ ys) (inl same) e = rw (← same) (rw e (inl refl))
  In-select_of p x (y ∷ ys) (inr more) e = elim (Bool-cases (p y)) [
    | inl here ↦ rw here (inr (In-select_of p x ys more e))
    | inr gone ↦ rw gone (In-select_of p x ys more e)
  ]

-- Rows with one id are one row.
any_of_In :
    (s t : Session) (l : List Session) → In s l → s.id ≡ t.id → any (λ r. r.id == t.id) l ≡ true
any_of_In s t [] h e = absurd h
any_of_In s t (r ∷ l) (inl same) e = rw (← same) (ground arith)
any_of_In s t (r ∷ l) (inr more) e = ground (arith, any_of_In s t l more e)

pub eq_of_id :
    (s t : Session) (l : List Session) → UniqueIds l → In s l → In t l → s.id ≡ t.id → s ≡ t
eq_of_id s t [] u h k e = absurd h
eq_of_id s t (r ∷ l) (new, u) (inl a) (inl b) e = a ∙ sym b
eq_of_id s t (r ∷ l) (new, u) (inl a) (inr k) e =
    cc (any_of_In t r l k (sym e ∙ ap (λ (x : Session). x.id) a), new)
eq_of_id s t (r ∷ l) (new, u) (inr h) (inl b) e =
    cc (any_of_In s r l h (e ∙ ap (λ (x : Session). x.id) b), new)
eq_of_id s t (r ∷ l) (new, u) (inr h) (inr k) e = eq_of_id s t l u h k e

All-In : (P : Session → Type 0) (l : List Session) (d : Session) → All P l → In d l → P d
All-In P [] d a h = absurd h
All-In P (s ∷ l) d (here, rest) (inl same) = subst P (sym same) here
All-In P (s ∷ l) d (here, rest) (inr more) = All-In P l d rest more

abbrev pub ids_of : ℕ → List Session → List String
ids_of n l = map (λ s. s.id) (take n l)

-- Of rows in descending order, one whose id is among the first is no older than one that is not.
pub kept_newer :
    (n : ℕ) (l : List Session) (s d : Session)
    → IsDescending l
    → ((x : Session) → In x l → x.id ≡ s.id → x ≡ s)
    → In d l
    → listed (ids_of n l) s ≡ true
    → listed (ids_of n l) d ≡ false
    → d.last_accessed_at ≤ s.last_accessed_at
kept_newer zero l s d desc one hd ks kd = cc
kept_newer (suc n) [] s d desc one hd ks kd = cc
kept_newer (suc n) (x ∷ l) s d (top, desc) one (inl same) ks kd =
    let e : d.id ≡ x.id = ap (λ (r : Session). r.id) same in ground arith
kept_newer (suc n) (x ∷ l) s d (top, desc) one (inr more) ks kd = elim (Bool-cases (s.id == x.id)) [
  | inl e ↦
      let same : x ≡ s = one x (inl refl) (ground arith) in
      subst (λ (r : Session). d.last_accessed_at ≤ r.last_accessed_at) same
        (All-In (λ t. t.last_accessed_at ≤ x.last_accessed_at) l d top more)
  | inr e ↦ kept_newer n l s d desc (λ y h q. one y (inr h) q) more (ground arith) (ground arith)
]
