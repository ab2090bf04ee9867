-- ===== src/World/Achieves.antt =====
-- What an action surely returns and leaves, from tables of which something is known.
use go_lang_domain_based_ent.External.{Env, IsReliable}
use go_lang_domain_based_ent.Prelude.{Option, ap, refl, some, subst, sym, ◌+◌, ◌∙◌, ◌≡◌}
use go_lang_domain_based_ent.Schema.{Tables}
use go_lang_domain_based_ent.World.{
  Action, Failure, Result, World, attempt, draw, err, now, ok, or_throw, pure, sql, ◌>>=◌,
}
use go_lang_domain_based_ent.World.Actions.{>>=-of_ok, err_not_ok, ok_inj}
use go_lang_domain_based_ent.World.Transactions.{close_transaction, transaction}

module _ {E : Env} where
  -- From tables with `P`, `m` succeeds with some `a` and leaves tables with `Q a`.
  pub record Achieves {A : Type 0} (P : Tables → Type 0) (Q : A → Tables → Type 0) (m : Action E A)
      : Type 0 where
    pub at : (w : World E) → P w.db → (a : A) × ((m w).0 ≡ ok a) × Q a (m w).1.db

  module _ {A B : Type 0} {P : Tables → Type 0} where
    pub Achieves-bind :
        (R : A → Tables → Type 0) (Q : B → Tables → Type 0) (m : Action E A) (f : A → Action E B)
        → Achieves P R m
        → ((a : A) → Achieves (R a) Q (f a))
        → Achieves P Q (m >>= f)
    Achieves-bind R Q m f first rest = record {
      at = λ w h.
          let (a, e, r) = first.at w h in
          let (b, e', q) = (rest a).at (m w).1 r in
          let same = >>=-of_ok m f w e in
          (
            b,
            ap (λ (x : Result B × World E). x.0) same ∙ e',
            subst (λ (x : Result B × World E). Q b x.1.db) (sym same) q,
          );
    }

  commits :
      {A : Type 0} (Q : A → Tables → Type 0) (db : Tables) (r : Result A × World E) (a : A)
      → IsReliable E
      → r.0 ≡ ok a
      → Q a r.1.db
      → (b : A) × ((close_transaction db r).0 ≡ ok b) × Q b (close_transaction db r).1.db
  commits Q db (ok b, w) a up e q =
      rw (up.at w.calls) (b, refl, subst (λ c. Q c w.db) (sym (ok_inj e)) q)
  commits Q db (err f, w) a up e q = absurd (err_not_ok e)

  module _ {A : Type 0} {P : Tables → Type 0} (Q : A → Tables → Type 0) where
    pub Achieves-pure : (a : A) → ((db : Tables) → P db → Q a db) → Achieves P Q (pure a)
    unfolding ◌>>=◌
    Achieves-pure a h = record { at = λ w p. (a, refl, h w.db p) }

    pub Achieves-or_throw :
        (e : Failure) (o : Option A) (a : A)
        → o ≡ some a
        → ((db : Tables) → P db → Q a db)
        → Achieves P Q (or_throw e o)
    unfolding ◌>>=◌
    Achieves-or_throw e o a same h = record { at = λ w p. rw same (a, refl, h w.db p) }

    -- A statement that its tables accept.
    pub Achieves-sql :
        (f : Tables → Option (A × Tables))
        → IsReliable E
        → ((db : Tables) → P db → (a : A) × (after : Tables) × (f db ≡ some (a, after)) × Q a after)
        → Achieves P Q (sql {E = E} f)
    unfolding ◌>>=◌
    Achieves-sql f up step = record {
      at = λ w p. let (a, after, e, q) = step w.db p in rw (up.at w.calls) (rw e (a, refl, q));
    }

    pub Achieves-transaction :
        (m : Action E A) → IsReliable E → Achieves P Q m → Achieves P Q (transaction m)
    unfolding transaction
    Achieves-transaction m up h = record {
      at = λ w p. rw (up.at w.calls) (
          let (a, e, q) = h.at (record w { calls = w.calls + 1 }) p in
          commits Q w.db (m (record w { calls = w.calls + 1 })) a up e q);
    }

    pub Achieves-attempt :
        (m : Action E A)
        → Achieves P Q m
        → Achieves P (λ r db. (a : A) × (r ≡ ok a) × Q a db) (attempt m)
    unfolding ◌>>=◌
    Achieves-attempt m h = record { at = λ w p. let (a, e, q) = h.at w p in (_, refl, (a, e, q)) }

  pub Achieves-now : {P : Tables → Type 0} → Achieves P (λ t. P) (now {E = E})
  unfolding ◌>>=◌
  Achieves-now = record { at = λ w p. (w.now, refl, p) }

  pub Achieves-draw : {P : Tables → Type 0} → Achieves P (λ n. P) (draw {E = E})
  unfolding ◌>>=◌
  Achieves-draw = record { at = λ w p. (w.draws, refl, p) }

  pub Achieves-weaken :
      {A : Type 0} {P : Tables → Type 0} (Q R : A → Tables → Type 0) (m : Action E A)
      → Achieves P Q m
      → ((a : A) (db : Tables) → Q a db → R a db)
      → Achieves P R m
  Achieves-weaken Q R m h step = record {
    at = λ w p. let (a, e, q) = h.at w p in (a, e, step a (m w).1.db q);
  }

  -- What is known before the action, apart from the tables.
  pub Achieves-given :
      {A F : Type 0} {P : Tables → Type 0} (Q : A → Tables → Type 0) (m : Action E A)
      → (F → Achieves P Q m)
      → Achieves (λ db. F × P db) Q m
  Achieves-given Q m h = record { at = λ w p. (h p.0).at w p.1 }
