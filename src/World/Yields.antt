-- ===== src/World/Yields.antt =====
-- What an action that succeeds returns and leaves, from tables of which something is known.
use go_lang_domain_based_ent.External.{Env}
use go_lang_domain_based_ent.Prelude.{
  Bool-cases, Option, String, inl, inr, none, refl, some, subst, sym, ◌∙◌, ◌≡◌,
}
use go_lang_domain_based_ent.Schema.{Tables}
use go_lang_domain_based_ent.World.{
  Action, Failure, World, attempt, ok, or_throw, pure, sql, throw, wrap, ◌>>=◌,
}
use go_lang_domain_based_ent.World.Actions.{
  >>=-eq_ok, Ensures, Keeps, bind_state, err_not_ok, ok_inj, rewrap-eq_ok,
}

module _ {E : Env} where
  -- From tables with `P`, a success of `m` with `a` leaves tables with `Q a`.
  pub record Yields {A : Type 0} (P : Tables → Type 0) (Q : A → Tables → Type 0) (m : Action E A)
      : Type 0 where
    pub at : (w : World E) → P w.db → (a : A) → (m w).0 ≡ ok a → Q a (m w).1.db

  module _ {A B : Type 0} {P : Tables → Type 0} where
    pub Yields-bind :
        (R : A → Tables → Type 0) (Q : B → Tables → Type 0) (m : Action E A) (f : A → Action E B)
        → Yields P R m
        → ((a : A) → Yields (R a) Q (f a))
        → Yields P Q (m >>= f)
    Yields-bind R Q m f first rest = record {
      at = λ w h b e.
          let (a, e', e'') = >>=-eq_ok m f w e in
          subst (λ (v : World E). Q b v.db) (sym (bind_state m f w a e'))
            ((rest a).at (m w).1 (first.at w h a e') b e'');
    }

    -- The first step keeps `P`, whatever it returns.
    pub Yields-after :
        (Q : B → Tables → Type 0) (m : Action E A) (f : A → Action E B)
        → Keeps P m
        → ((a : A) → Yields P Q (f a))
        → Yields P Q (m >>= f)
    Yields-after Q m f first rest =
        Yields-bind (λ a. P) Q m f (record { at = λ w h a e. first.at w h }) rest

  module _ {A : Type 0} {P : Tables → Type 0} (Q : A → Tables → Type 0) where
    pub Yields-pure : (a : A) → ((db : Tables) → P db → Q a db) → Yields P Q (pure a)
    unfolding ◌>>=◌
    Yields-pure a h = record { at = λ w p b e. subst (λ b. Q b w.db) (ok_inj e) (h w.db p) }

    pub Yields-throw : (e : Failure) → Yields P Q (throw e)
    unfolding ◌>>=◌
    Yields-throw e = record { at = λ w p b h. cc }

    pub Yields-wrap : (text : String) (m : Action E A) → Yields P Q m → Yields P Q (wrap text m)
    unfolding ◌>>=◌
    Yields-wrap text m h = record { at = λ w p a e. h.at w p a (rewrap-eq_ok text (m w).0 e) }

    pub Yields-or_throw :
        (e : Failure) (o : Option A)
        → ((db : Tables) (a : A) → P db → o ≡ some a → Q a db)
        → Yields P Q (or_throw e o)
    unfolding ◌>>=◌
    Yields-or_throw e none h = record { at = λ w p b e. cc }
    Yields-or_throw e (some a) h = record {
      at = λ w p b e. subst (λ b. Q b w.db) (ok_inj e) (h w.db a p refl);
    }

  pub Yields-of_Ensures :
      {A : Type 0} {P Q : Tables → Type 0} (m : Action E A) → Ensures P Q m → Yields P (λ a. Q) m
  Yields-of_Ensures m h = record { at = h.at }

  -- A query whose error the code goes on from: an answer is that of the tables.
  pub Yields-query :
      {A : Type 0} {P : Tables → Type 0} (g : Tables → A)
      → Yields P
          (λ r db. P db × ((a : A) → r ≡ ok a → a ≡ g db))
          (attempt (sql {E = E} (λ db. some (g db, db))))
  unfolding ◌>>=◌
  Yields-query g = record {
    at = λ w p r e. elim (Bool-cases (E.fails w.calls)) [
      | inl down ↦ rw down (p, λ a f. absurd (err_not_ok (ok_inj (rw down at e) ∙ f)))
      | inr up ↦ rw up (p, λ a f. sym (ok_inj (ok_inj (rw up at e) ∙ f)))
    ];
  }

  pub Yields-of_Keeps :
      {A : Type 0} {P : Tables → Type 0} (Q : A → Tables → Type 0) (m : Action E A)
      → Keeps P m
      → ((a : A) (db : Tables) → P db → Q a db)
      → Yields P Q m
  Yields-of_Keeps Q m h step = record { at = λ w p a e. step a (m w).1.db (h.at w p) }

  pub Yields-weaken :
      {A : Type 0} {P : Tables → Type 0} (Q R : A → Tables → Type 0) (m : Action E A)
      → Yields P Q m
      → ((a : A) (db : Tables) → Q a db → R a db)
      → Yields P R m
  Yields-weaken Q R m h step = record { at = λ w p a e. step a (m w).1.db (h.at w p a e) }

  -- What does not speak of the tables.
  pub Keeps-constant : {A : Type 0} {P : Type 0} (m : Action E A) → Keeps (λ db. P) m
  Keeps-constant m = record { at = λ w h. h }
