-- ===== src/LoadTest/Ends.antt =====
-- The loop of the workers of the load test ends.
use go_lang_domain_based_ent.LoadTest.Workers.{Ending, loop, returned}
use go_lang_domain_based_ent.Prelude.{
  Bool-cases, Option, arith, inl, inr, leb, refl, some, suc, zero, ℕ, ◌*◌, ◌+◌, ◌-◌, ◌≡◌, ◌≤◌,
}

-- The loop has ended, when the time was over.
pub record Ends {S : Type 0} (clock : S → ℕ) (until : ℕ) (o : Ending S) : Type 0 where
  pub after : S
  pub ended : o ≡ returned after
  pub over : until ≤ clock after

-- A step goes on to a state with `I`, in this time at least.
pub record Advances {S : Type 0} (I : S → Type 0) (clock : S → ℕ) (until : ℕ) (o : Option S)
    : Type 0 where
  pub next : S
  pub goes_on : o ≡ some next
  pub keeps : I next
  pub late : until ≤ clock next

pub loop-Ends :
    {S : Type 0} (I : S → Type 0) (clock : S → ℕ) (start duration least : ℕ) (round : S → Option S)
    (n : ℕ) (s : S)
    → ((s : S) → I s → Advances I clock (clock s + least) (round s))
    → I s
    → start ≤ clock s
    → duration ≤ clock s - start + n * least
    → Ends clock (start + duration) (loop clock start duration round (suc n) s)
unfolding loop
loop-Ends I clock start duration least round zero s step i begun h = record {
  after = s;
  ended = ground (arith, h);
  over = omega (arith, begun, h);
}
loop-Ends I clock start duration least round (suc n) s step i begun h =
    elim (Bool-cases (leb duration (clock s - start))) [
      | inl late ↦ rw late (record { after = s; ended = refl; over = ground (arith, late, begun) })
      | inr early ↦
          let a = step s i in
          rw (early, a.goes_on)
            (loop-Ends I clock start duration least round n a.next step a.keeps
              (omega (arith, begun, a.late)) (omega (arith, h, begun, a.late)))
    ]

-- A loop whose steps never panic.
pub loop-Ends_total :
    {S : Type 0} (clock : S → ℕ) (start duration least : ℕ) (round : S → S) (n : ℕ) (s : S)
    → ((s : S) → clock s + least ≤ clock (round s))
    → start ≤ clock s
    → duration ≤ clock s - start + n * least
    → Ends clock (start + duration) (loop clock start duration (λ s. some (round s)) (suc n) s)
loop-Ends_total clock start duration least round n s step =
    loop-Ends (λ s. Unit) clock start duration least (λ s. some (round s)) n s
      (λ s i. record { next = round s; goes_on = refl; keeps = tt; late = step s }) tt
