-- ===== src/World/Actions.antt =====
-- Reasoning about actions: inversion of a successful one, actions that never succeed, and
-- invariants, with a rule for each way to build an action.
use go_lang_domain_based_ent.External.{Env, IsReliable}
use go_lang_domain_based_ent.Prelude.{
  Bool, Bool-cases, Option, String, ap, arith, false, if◌then◌else◌, inl, inr, none, refl, some,
  subst, sym, true, ℕ, ◌≡◌, ◌≢◌,
}
use go_lang_domain_based_ent.Schema.{Tables}
use go_lang_domain_based_ent.World.{
  Action, Failure, Result, World, answered, attempt, continue, draw, err, now, ok, or_throw, pure,
  redis, rewrap, sql, throw, wrap, ◌>>=◌,
}

pub rewrap-eq_ok :
    {A : Type 0} (text : String) (r : Result A) {a : A} → rewrap text r ≡ ok a → r ≡ ok a
rewrap-eq_ok text (ok a) h = h
rewrap-eq_ok text (err e) h = cc

-- What a statement leaves, if it does not fail.
abbrev pub Leaves : {A : Type 0} → (Tables → Type 0) → Option (A × Tables) → Type 0
Leaves P none = Unit
Leaves P (some (a, db)) = P db

pub Leaves-if :
    {A : Type 0} (P : Tables → Type 0) (b : Bool) (a : A) (db : Tables)
    → P db
    → Leaves P (if b then some (a, db) else none)
Leaves-if P true a db h = h
Leaves-if P false a db h = tt

pub ok_inj : {A : Type 0} {a b : A} → ok a ≡ ok b → a ≡ b
ok_inj h = cc

pub err_not_ok : {A : Type 0} {e : Failure} {a : A} → err e ≢ ok a
err_not_ok h = cc

module _ {E : Env} where
  continue-eq_ok :
      {A B : Type 0} (r : Result A) (f : A → Action E B) (w : World E) {b : B}
      → (continue r f w).0 ≡ ok b
      → (a : A) × (r ≡ ok a) × ((f a w).0 ≡ ok b)
  continue-eq_ok (ok a) f w h = (a, refl, h)
  continue-eq_ok (err e) f w h = cc

  -- A block that succeeds has a first step that does, and a rest that does from there.
  pub >>=-eq_ok :
      {A B : Type 0} (m : Action E A) (f : A → Action E B) (w : World E) {b : B}
      → ((m >>= f) w).0 ≡ ok b
      → (a : A) × ((m w).0 ≡ ok a) × ((f a (m w).1).0 ≡ ok b)
  unfolding ◌>>=◌
  >>=-eq_ok m f w h = continue-eq_ok (m w).0 f (m w).1 h

  -- A block whose first step succeeds goes on from there.
  pub >>=-of_ok :
      {A B : Type 0} (m : Action E A) (f : A → Action E B) (w : World E) {a : A}
      → (m w).0 ≡ ok a
      → (m >>= f) w ≡ f a (m w).1
  unfolding ◌>>=◌
  >>=-of_ok m f w h = ap (λ r. continue r f (m w).1) h

  -- `m` returns an error, whatever the state.
  pub record Fails {A : Type 0} (m : Action E A) : Type 0 where
    pub at : (w : World E) (a : A) → (m w).0 ≢ ok a

  pub Fails-bind_first :
      {A B : Type 0} (m : Action E A) (f : A → Action E B) → Fails m → Fails (m >>= f)
  Fails-bind_first m f first = record {
    at = λ w b h. let (a, e, _) = >>=-eq_ok m f w h in first.at w a e;
  }

  pub Fails-bind_rest :
      {A B : Type 0} (m : Action E A) (f : A → Action E B)
      → ((a : A) → Fails (f a))
      → Fails (m >>= f)
  Fails-bind_rest m f rest = record {
    at = λ w b h. let (a, _, e) = >>=-eq_ok m f w h in (rest a).at (m w).1 b e;
  }

  pub Fails-wrap : {A : Type 0} (text : String) (m : Action E A) → Fails m → Fails (wrap text m)
  unfolding ◌>>=◌
  Fails-wrap text m h = record { at = λ w a e. h.at w a (rewrap-eq_ok text (m w).0 e) }

  -- A statement that the tables refuse in every state.
  pub Fails-sql :
      {A : Type 0} (f : Tables → Option (A × Tables))
      → ((db : Tables) → f db ≡ none)
      → Fails (sql {E = E} f)
  unfolding ◌>>=◌
  Fails-sql f refused = record { at = λ w a h. ground (arith, refused w.db) }

  answered-eq_ok :
      {A : Type 0} (o : Option (A × Tables)) (w : World E) {a : A}
      → (answered o w).0 ≡ ok a
      → o ≡ some (a, (answered o w).1.db)
  answered-eq_ok none w h = cc
  answered-eq_ok (some (a, db)) w h = cc

  -- A statement that succeeds has an answer, and leaves the tables that go with it.
  pub sql-eq_ok :
      {A : Type 0} (f : Tables → Option (A × Tables)) (w : World E) {a : A}
      → (sql f w).0 ≡ ok a
      → f w.db ≡ some (a, (sql f w).1.db)
  unfolding ◌>>=◌
  sql-eq_ok f w h = elim (Bool-cases (E.fails w.calls)) [
    | inl down ↦ absurd (err_not_ok (rw down at h))
    | inr up ↦ rw up (answered-eq_ok (f w.db) _ (rw up at h))
  ]

  pub db-redis :
      {A : Type 0} (f : ℕ → E.redis.State → A × E.redis.State) (w : World E)
      → (redis f w).1.db ≡ w.db
  unfolding ◌>>=◌
  db-redis f w = ground arith

  -- `m` keeps what `P` says of the tables, whether it succeeds or not.
  pub record Keeps {A : Type 0} (P : Tables → Type 0) (m : Action E A) : Type 0 where
    pub at : (w : World E) → P w.db → P (m w).1.db

  answered_keeps :
      {A : Type 0} (P : Tables → Type 0) (o : Option (A × Tables)) (w : World E)
      → Leaves P o
      → P w.db
      → P (answered o w).1.db
  answered_keeps P none w step h = h
  answered_keeps P (some (a, db)) w step h = step

  module _ {P : Tables → Type 0} where
    pub Keeps-pure : {A : Type 0} (a : A) → Keeps P (pure a)
    unfolding ◌>>=◌
    Keeps-pure a = record { at = λ w h. h }

    pub Keeps-throw : {A : Type 0} (e : Failure) → Keeps {A = A} P (throw e)
    unfolding ◌>>=◌
    Keeps-throw e = record { at = λ w h. h }

    pub Keeps-or_throw : {A : Type 0} (e : Failure) (o : Option A) → Keeps P (or_throw e o)
    unfolding ◌>>=◌
    Keeps-or_throw e none = record { at = λ w h. h }
    Keeps-or_throw e (some a) = record { at = λ w h. h }

    Keeps-continue :
        {A B : Type 0} (r : Result A) (f : A → Action E B)
        → ((a : A) → Keeps P (f a))
        → (w : World E) → P w.db
        → P (continue r f w).1.db
    Keeps-continue (ok a) f rest w h = (rest a).at w h
    Keeps-continue (err e) f rest w h = h

    pub Keeps-bind :
        {A B : Type 0} (step : Action E A) (after : A → Action E B)
        → Keeps P step
        → ((result : A) → Keeps P (after result))
        → Keeps P (step >>= after)
    unfolding ◌>>=◌
    Keeps-bind step after first rest = record {
      at = λ w before. Keeps-continue (step w).0 after rest (step w).1 (first.at w before);
    }

    pub Keeps-attempt : {A : Type 0} (m : Action E A) → Keeps P m → Keeps P (attempt m)
    unfolding ◌>>=◌
    Keeps-attempt m k = record { at = k.at }

    pub Keeps-wrap :
        {A : Type 0} (text : String) (m : Action E A) → Keeps P m → Keeps P (wrap text m)
    unfolding ◌>>=◌
    Keeps-wrap text m k = record { at = k.at }

    pub Keeps-if :
        {A : Type 0} (b : Bool) (m n : Action E A)
        → Keeps P m
        → Keeps P n
        → Keeps P (if b then m else n)
    Keeps-if true m n km kn = km
    Keeps-if false m n km kn = kn

    pub Keeps-redis : {A : Type 0} (f : ℕ → E.redis.State → A × E.redis.State) → Keeps P (redis f)
    Keeps-redis f = record { at = λ w h. subst P (sym (db-redis f w)) h }

    -- A statement keeps `P` if its function on the tables does, where it does not fail.
    pub Keeps-sql :
        {A : Type 0} (f : Tables → Option (A × Tables))
        → ((db : Tables) → P db → Leaves P (f db))
        → Keeps P (sql {E = E} f)
    unfolding ◌>>=◌
    Keeps-sql f step = record {
      at = λ w h. elim (Bool-cases (E.fails w.calls)) [
        | inl down ↦ rw down h
        | inr up ↦ rw up (answered_keeps P (f w.db) _ (step w.db h) h)
      ];
    }

  pub Keeps-now : (P : Tables → Type 0) → Keeps P now
  unfolding ◌>>=◌
  Keeps-now P = record { at = λ w h. h }

  pub Keeps-draw : (P : Tables → Type 0) → Keeps P draw
  unfolding ◌>>=◌
  Keeps-draw P = record { at = λ w h. h }

  pub bind_state :
      {A B : Type 0} (m : Action E A) (f : A → Action E B) (w : World E) (a : A)
      → (m w).0 ≡ ok a
      → ((m >>= f) w).1 ≡ (f a (m w).1).1
  unfolding ◌>>=◌
  bind_state m f w a e = rw (e, continue) refl

  -- From tables with `P`, a success of `m` leaves tables with `Q`.
  pub record Ensures {A : Type 0} (P Q : Tables → Type 0) (m : Action E A) : Type 0 where
    pub at : (w : World E) → P w.db → (a : A) → (m w).0 ≡ ok a → Q (m w).1.db

  module _ {P Q : Tables → Type 0} {A B : Type 0} where
    -- The first step keeps `P`, and the rest does the work.
    pub Ensures-rest :
        (m : Action E A) (f : A → Action E B)
        → Keeps P m
        → ((a : A) → Ensures P Q (f a))
        → Ensures P Q (m >>= f)
    Ensures-rest m f first rest = record {
      at = λ w h b e.
          let (a, e', e'') = >>=-eq_ok m f w e in
          subst (λ (v : World E). Q v.db) (sym (bind_state m f w a e'))
            ((rest a).at (m w).1 (first.at w h) b e'');
    }

    -- The first step does the work, and the rest keeps `Q`.
    pub Ensures-then :
        (m : Action E A) (f : A → Action E B)
        → Ensures P Q m
        → ((a : A) → Keeps Q (f a))
        → Ensures P Q (m >>= f)
    Ensures-then m f first rest = record {
      at = λ w h b e.
          let (a, e', _) = >>=-eq_ok m f w e in
          subst (λ (v : World E). Q v.db) (sym (bind_state m f w a e'))
            ((rest a).at (m w).1 (first.at w h a e'));
    }

  -- A statement that cannot fail does its work.
  pub Ensures-sql :
      {P Q : Tables → Type 0} (g : Tables → Tables)
      → IsReliable E
      → ((db : Tables) → P db → Q (g db))
      → Ensures P Q (attempt (sql {E = E} {A = Unit {0}} (λ db. some (tt, g db))))
  unfolding ◌>>=◌
  Ensures-sql g up step = record { at = λ w h a e. rw (up.at w.calls) (step w.db h) }

pub ruleset keeps_rules = (
  Keeps-pure, Keeps-throw, Keeps-now, Keeps-draw, Keeps-or_throw, Keeps-bind, Keeps-attempt,
  Keeps-wrap, Keeps-if, Keeps-redis,
)
