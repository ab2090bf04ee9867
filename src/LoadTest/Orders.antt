-- ===== src/LoadTest/Orders.antt =====
-- The order in which the workers of a scenario record their requests does not show in its summary.
use go_lang_domain_based_ent.LoadTest.{insert_sorted, sort_latencies}
use go_lang_domain_based_ent.LoadTest.Laws.{latencies_of}
use go_lang_domain_based_ent.LoadTest.Scenario.{Interleaves, Recorded, records, waits}
use go_lang_domain_based_ent.Prelude.{
  All, Bool, List, [], ap, arith, if◌then◌else◌, length, refl, select, sym, true, ℕ, ◌++◌, ◌+◌, ◌∙◌,
  ◌∷◌, ◌≡◌,
}

module _ {B : Type 0} (g : Recorded → B → B) where
  abbrev pub fold : B → List Recorded → B
  fold b [] = b
  fold b (r ∷ rs) = g r (fold b rs)

  -- All that the workers record, the first worker's first.
  abbrev pub fold_workers : B → List (List Recorded) → B
  fold_workers b [] = b
  fold_workers b (own ∷ workers) = fold (fold_workers b workers) own

  module _ (comm : (r s : Recorded) (b : B) → g r (g s b) ≡ g s (g r b)) where
    fold_earlier : (r : Recorded) (b : B) (rs : List Recorded) → fold (g r b) rs ≡ g r (fold b rs)
    fold_earlier r b [] = refl
    fold_earlier r b (s ∷ rs) = ap (g s) (fold_earlier r b rs) ∙ comm s r _

    fold_workers_next :
        (r : Recorded) (b : B) (before after : List (List Recorded)) (rest : List Recorded)
        → fold_workers b (before ++ (r ∷ rest) ∷ after)
          ≡ g r (fold_workers b (before ++ rest ∷ after))
    fold_workers_next r b [] after rest = refl
    fold_workers_next r b (own ∷ before) after rest =
        ap (λ c. fold c own) (fold_workers_next r b before after rest) ∙ fold_earlier r _ own

    fold_workers_ended :
        (b : B) (workers : List (List Recorded))
        → All (λ own. own ≡ []) workers
        → fold_workers b workers ≡ b
    fold_workers_ended b [] h = refl
    fold_workers_ended b (own ∷ workers) (e, h) =
        ap (fold (fold_workers b workers)) e ∙ fold_workers_ended b workers h

    -- What does not depend on the order of two requests depends on no order of the workers.
    pub fold-fold_workers :
        (b : B) (workers : List (List Recorded)) (requests : List Recorded)
        → Interleaves workers requests
        → fold b requests ≡ fold_workers b workers
    fold-fold_workers b _ _ (waits workers h) = sym (fold_workers_ended b workers h)
    fold-fold_workers b _ _ (records before after request rest later workers e others) =
        ap (g request) (fold-fold_workers b _ later others)
        ∙ sym (fold_workers_next request b before after rest)
        ∙ ap (fold_workers b) (sym e)

pub insert_sorted_comm :
    (x y : ℕ) (zs : List ℕ)
    → insert_sorted x (insert_sorted y zs) ≡ insert_sorted y (insert_sorted x zs)
unfolding insert_sorted
insert_sorted_comm x y [] = ground arith
insert_sorted_comm x y (z ∷ zs) = ground (arith, insert_sorted_comm x y zs)

abbrev pub place : Recorded → List ℕ → List ℕ
place (duration, status) sorted = insert_sorted duration sorted

pub sort_latencies-fold :
    (requests : List Recorded) → sort_latencies (latencies_of requests) ≡ fold place [] requests
unfolding sort_latencies
sort_latencies-fold [] = refl
sort_latencies-fold ((duration, status) ∷ rest) =
    ap (insert_sorted duration) (sort_latencies-fold rest)

-- One more for a request that is counted.
abbrev pub tally : (Recorded → Bool) → Recorded → ℕ → ℕ
tally q r n = if q r then n + 1 else n

pub tally_comm :
    (q : Recorded → Bool) (r s : Recorded) (n : ℕ)
    → tally q r (tally q s n) ≡ tally q s (tally q r n)
tally_comm q r s n = ground arith

pub length-select :
    (q : Recorded → Bool) (requests : List Recorded)
    → length (select q requests) ≡ fold (tally q) 0 requests
length-select q [] = refl
length-select q (r ∷ rs) = ground (arith, length-select q rs)

pub length-fold : (requests : List Recorded) → length requests ≡ fold (tally (λ r. true)) 0 requests
length-fold [] = refl
length-fold (r ∷ rs) = omega (arith, length-fold rs)
