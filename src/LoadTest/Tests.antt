-- ===== src/LoadTest/Tests.antt =====
-- Four requests of a load test.
use go_lang_domain_based_ent.LoadTest.{
  Summary, insert_sorted, new_metrics, percentile, percentile_index, record_request, rounded,
  share_p999, snapshot, sort_latencies, unit_of,
}
use go_lang_domain_based_ent.LoadTest.Client.{
  Network, ScenarioConfig, Worker, do_request, record_answer, record_in, send_request, sleep,
}
use go_lang_domain_based_ent.LoadTest.Ends.{Ends}
use go_lang_domain_based_ent.LoadTest.Laws.{IsReport, snapshot-IsReport}
use go_lang_domain_based_ent.LoadTest.Mixed.{MixedWorker, mixed_worker}
use go_lang_domain_based_ent.LoadTest.Scenario.{Recorded, RunScenario, record_all, records, waits}
use go_lang_domain_based_ent.LoadTest.Summaries.{IsSame, run_scenario-IsSame}
use go_lang_domain_based_ent.LoadTest.Termination.{AdminEnds, workers-Ends}
use go_lang_domain_based_ent.LoadTest.Workers.{
  Ending, health_round, health_worker, loop, panicked, returned, unfinished, warmup_worker,
}
use go_lang_domain_based_ent.Prelude.{List, [], arith, refl, some, suc, true, ℕ, ◌+◌, ◌∷◌, ◌≡◌}

abbrev four_requests : List (ℕ × ℕ)
four_requests = (30, 200) ∷ (10, 404) ∷ (20, 500) ∷ (40, 0) ∷ []

p90_of_four : (snapshot 60 (record_all four_requests (new_metrics 0))).p90 ≡ 40
unfolding snapshot record_request sort_latencies insert_sorted percentile rounded unit_of
p90_of_four = refl

snapshot-IsReport_example :
    IsReport four_requests 60 (snapshot 60 (record_all four_requests (new_metrics 0)))
snapshot-IsReport_example = snapshot-IsReport four_requests 0 60 (omega arith)

-- The product of 99.9/100.0 and 2000 is rounded up, above 1998.
p999_of_2000 : percentile_index share_p999 2000 ≡ 1998
unfolding rounded unit_of
p999_of_2000 = refl

-- A server that answers 200 after a millisecond, without tokens.
abbrev steady : Network
steady = record {
  State = ℕ;
  send = λ req n. (record { status = some 200; duration = 1000; body = ""; read_time = 0 }, suc n);
  show = λ n. "1";
  accepts = λ url. true;
  access_token_of = λ body. body;
  refresh_token_of = λ body. body;
}

abbrev short_test : ScenarioConfig
short_test = record {
  duration = 100000;
  base_url = "http://localhost:8080";
  admin_email = "admin@example.com";
  admin_password = "admin123!";
  warmup_duration = 50000;
}

abbrev first_worker : Worker steady
first_worker = record { network = 0; clock = 5000; metrics = new_metrics 5000 }

abbrev requests_of : Ending (Worker steady) → ℕ
requests_of unfinished = 0
requests_of panicked = 0
requests_of (returned w) = w.metrics.total

two_health_requests : requests_of (health_worker short_test 0 3 first_worker) ≡ 2
unfolding health_worker loop health_round sleep record_answer record_in do_request send_request
    record_request
two_health_requests = refl

workers-Ends_example :
    Ends
      (λ (s : Worker steady). s.clock)
      (5000 + 100000)
      (health_worker short_test 0 3 first_worker)
    × Ends
        (λ (s : Worker steady). s.clock)
        (5000 + 50000)
        (warmup_worker short_test 0 3 first_worker)
    × Ends
        (λ (m : MixedWorker steady). m.worker.clock)
        (5000 + 100000)
        (mixed_worker short_test 1 3 first_worker)
    × AdminEnds short_test 2 first_worker 1
workers-Ends_example = workers-Ends short_test 2 first_worker 0 1 (omega arith) (omega arith)

-- Two workers of a scenario: one records two requests, the other one.
abbrev two_workers : List (List Recorded)
two_workers = ((40, 200) ∷ (10, 500) ∷ []) ∷ ((30, 200) ∷ []) ∷ []

-- The second worker is between the requests of the first.
abbrev between :
    RunScenario two_workers 0 60
      (snapshot 60 (record_all ((40, 200) ∷ (30, 200) ∷ (10, 500) ∷ []) (new_metrics 0)))
between = record {
  requests = _;
  order =
      records [] _ (40, 200) _ _ _ refl
        (records (_ ∷ []) [] (30, 200) _ _ _ refl
          (records [] _ (10, 500) _ _ _ refl (waits _ (refl, (refl, tt)))));
  returned = refl;
}

run_scenario-IsSame_example :
    (s : Summary) × RunScenario two_workers 0 60 s
    × ((t : Summary) → RunScenario two_workers 0 60 t → IsSame s t)
run_scenario-IsSame_example = run_scenario-IsSame two_workers 0 60
