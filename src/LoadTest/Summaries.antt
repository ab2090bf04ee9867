-- ===== src/LoadTest/Summaries.antt =====
-- A scenario has a summary, and the scheduler of its goroutines has no part in it.
use go_lang_domain_based_ent.LoadTest.{
  Metrics, Summary, insert_sorted, is_success, new_metrics, same_status, snapshot, snapshot_of,
  sort_latencies,
}
use go_lang_domain_based_ent.LoadTest.Laws.{
  count_at, latencies_of, record_all-count_at, record_all-counts, record_all-latencies,
}
use go_lang_domain_based_ent.LoadTest.Orders.{
  fold, fold-fold_workers, insert_sorted_comm, length-fold, length-select, place,
  sort_latencies-fold, tally, tally_comm,
}
use go_lang_domain_based_ent.LoadTest.Ranks.{length-insert_sorted}
use go_lang_domain_based_ent.LoadTest.Scenario.{
  Interleaves, Recorded, RunScenario, record_all, records, waits,
}
use go_lang_domain_based_ent.Prelude.{
  Bool, List, [], ap, arith, length, not, refl, select, subst, sym, true, ℕ, ◌++◌, ◌+◌, ◌-◌, ◌∙◌,
  ◌∷◌, ◌≡◌, ◌≢◌,
}

-- The same summary, with the counts by status as a map.
pub record IsSame (s t : Summary) : Type 0 where
  pub fields : record s { status_count = [] } ≡ record t { status_count = [] }
  pub statuses : (status : ℕ) → count_at status s.status_count ≡ count_at status t.status_count

insert_sorted_not_empty : (x : ℕ) (xs : List ℕ) → insert_sorted x xs ≢ []
insert_sorted_not_empty x xs e = omega (arith, ap length e, length-insert_sorted x xs)

snapshot_of-IsSame :
    (l k : List ℕ) (elapsed : ℕ) (m o : Metrics)
    → sort_latencies l ≡ sort_latencies k
    → m.total ≡ o.total
    → m.success ≡ o.success
    → m.failed ≡ o.failed
    → ((status : ℕ) → count_at status m.status_count ≡ count_at status o.status_count)
    → IsSame (snapshot_of l elapsed m) (snapshot_of k elapsed o)
unfolding sort_latencies
snapshot_of-IsSame [] [] elapsed m o e total success failed statuses = record {
  fields = refl;
  statuses = λ status. refl;
}
snapshot_of-IsSame [] (y ∷ k) elapsed m o e total success failed statuses =
    absurd (insert_sorted_not_empty y (sort_latencies k) (sym e))
snapshot_of-IsSame (x ∷ l) [] elapsed m o e total success failed statuses =
    absurd (insert_sorted_not_empty x (sort_latencies l) e)
snapshot_of-IsSame (x ∷ l) (y ∷ k) elapsed m o e total success failed statuses = record {
  fields = rw (e, total, success, failed) refl;
  statuses = statuses;
}

module _ (workers : List (List Recorded)) (own other : List Recorded) (a : Interleaves workers own)
    (b : Interleaves workers other) where
  same_fold :
      {B : Type 0} (g : Recorded → B → B)
      → ((r s : Recorded) (c : B) → g r (g s c) ≡ g s (g r c))
      → (c : B) → fold g c own ≡ fold g c other
  same_fold g comm c =
      fold-fold_workers g comm c workers own a ∙ sym (fold-fold_workers g comm c workers other b)

  same_number : (q : Recorded → Bool) → length (select q own) ≡ length (select q other)
  same_number q =
      length-select q own ∙ same_fold (tally q) (tally_comm q) 0 ∙ sym (length-select q other)

  same_latencies : sort_latencies (latencies_of own) ≡ sort_latencies (latencies_of other)
  same_latencies =
      sort_latencies-fold own
      ∙ same_fold place (λ r s c. insert_sorted_comm r.0 s.0 c) []
      ∙ sym (sort_latencies-fold other)

  snapshot-IsSame :
      (start t : ℕ)
      → IsSame
          (snapshot t (record_all own (new_metrics start)))
          (snapshot t (record_all other (new_metrics start)))
  unfolding snapshot
  snapshot-IsSame start t =
      let m = record_all own (new_metrics start) in
      let o = record_all other (new_metrics start) in
      let (_, total, success, failed, begun) = record_all-counts own (new_metrics start) in
      let (_, total', success', failed', begun') = record_all-counts other (new_metrics start) in
      let length_own = length-fold own in
      let length_other = length-fold other in
      let numbers = same_fold (tally (λ r. true)) (tally_comm (λ r. true)) 0 in
      rw (begun, begun')
        (snapshot_of-IsSame _ _ (t - start) _ _
          (ap sort_latencies (record_all-latencies own (new_metrics start))
            ∙ same_latencies
            ∙ ap sort_latencies (sym (record_all-latencies other (new_metrics start))))
          (omega (arith, total, total', length_own, length_other, numbers))
          (omega (arith, success, success', same_number (λ r. is_success r.1)))
          (omega (arith, failed, failed', same_number (λ r. not (is_success r.1))))
          λ status.
            record_all-count_at status own (new_metrics start)
            ∙ ap (λ n. 0 + n) (same_number (λ r. same_status r.1 status))
            ∙ sym (record_all-count_at status other (new_metrics start)))

Interleaves-idle :
    (workers : List (List Recorded)) (requests : List Recorded)
    → Interleaves workers requests
    → Interleaves ([] ∷ workers) requests
Interleaves-idle _ _ (waits workers h) = waits ([] ∷ workers) (refl, h)
Interleaves-idle _ _ (records before after request rest later workers e others) =
    records ([] ∷ before) after request rest later ([] ∷ workers) (ap (λ l. [] ∷ l) e)
      (Interleaves-idle _ _ others)

Interleaves-first :
    (own : List Recorded) (workers : List (List Recorded)) (requests : List Recorded)
    → Interleaves workers requests
    → Interleaves (own ∷ workers) (own ++ requests)
Interleaves-first [] workers requests h = Interleaves-idle workers requests h
Interleaves-first (r ∷ own) workers requests h =
    records [] workers r own (own ++ requests) _ refl (Interleaves-first own workers requests h)

-- The workers may run one after the other.
in_turn :
    (workers : List (List Recorded)) → (requests : List Recorded) × Interleaves workers requests
in_turn [] = ([], waits [] tt)
in_turn (own ∷ workers) =
    let (requests, h) = in_turn workers in
    (own ++ requests, Interleaves-first own workers requests h)

-- A scenario between two times has a summary, whatever its workers record, and every order in which
-- the workers get to record their requests gives the same one, with the counts by status as a map.
pub run_scenario-IsSame :
    (workers : List (List Recorded)) (start finish : ℕ)
    → (s : Summary) × RunScenario workers start finish s
      × ((t : Summary) → RunScenario workers start finish t → IsSame s t)
run_scenario-IsSame workers start finish =
    let (requests, order) = in_turn workers in
    (
      snapshot finish (record_all requests (new_metrics start)),
      record { requests = requests; order = order; returned = refl },
      λ t r.
          subst (IsSame _) (sym r.returned)
            (snapshot-IsSame workers requests r.requests order r.order start finish),
    )
