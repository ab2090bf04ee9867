-- ===== src/World/Returns.antt =====
-- Actions that return a value in every state, with what holds of the value.
use go_lang_domain_based_ent.External.{Env}
use go_lang_domain_based_ent.Prelude.{Bool, false, if◌then◌else◌, refl, true, ◌≡◌}
use go_lang_domain_based_ent.World.{Action, World, attempt, continue, now, ok, pure, ◌>>=◌}

module _ {E : Env} where
  pub record Returns {A : Type 0} (Q : A → Type 0) (m : Action E A) : Type 0 where
    pub at : (w : World E) → (a : A) × ((m w).0 ≡ ok a) × Q a

  module _ {A : Type 0} {Q : A → Type 0} where
    pub Returns-pure : (a : A) → Q a → Returns Q (pure a)
    unfolding ◌>>=◌
    Returns-pure a h = record { at = λ w. (a, refl, h) }

    pub Returns-bind :
        {B : Type 0} {R : B → Type 0} (m : Action E B) (f : B → Action E A)
        → Returns R m
        → ((b : B) → R b → Returns Q (f b))
        → Returns Q (m >>= f)
    unfolding ◌>>=◌
    Returns-bind m f first rest = record {
      at = λ w.
          let (b, e, r) = first.at w in
          let (a, e', q) = (rest b r).at (m w).1 in (a, rw (e, continue) e', q);
    }

    -- The value of the first step is not looked at.
    pub Returns-after :
        {B : Type 0} (m : Action E B) (f : B → Action E A)
        → Returns (λ b. Unit {0}) m
        → ((b : B) → Returns Q (f b))
        → Returns Q (m >>= f)
    Returns-after m f first rest = Returns-bind m f first (λ b any_value. rest b)

    pub Returns-if :
        (b : Bool) (m n : Action E A) → Returns Q m → Returns Q n → Returns Q (if b then m else n)
    Returns-if true m n k l = k
    Returns-if false m n k l = l

  pub Returns-attempt : {A : Type 0} (m : Action E A) → Returns (λ r. Unit {0}) (attempt m)
  unfolding ◌>>=◌
  Returns-attempt m = record { at = λ w. ((m w).0, refl, tt) }

  pub Returns-now : Returns (λ t. Unit {0}) (now {E = E})
  unfolding ◌>>=◌
  Returns-now = record { at = λ w. (w.now, refl, tt) }

pub ruleset returns_rules = (Returns-pure, Returns-after, Returns-if, Returns-attempt, Returns-now)
