-- ===== src/LoadTest/Scenario.antt =====
-- cmd/loadtest/main.go: `runScenario`. Its goroutines record their requests in one `Metrics` under
-- a lock, so what is recorded is some interleaving of the workers' requests. No worker reads the
-- metrics. The printing is left out.
use go_lang_domain_based_ent.LoadTest.{Metrics, Summary, new_metrics, record_request, snapshot}
use go_lang_domain_based_ent.Prelude.{All, List, [], ℕ, ◌++◌, ◌∷◌, ◌≡◌}

-- The duration and the status of a request.
abbrev pub Recorded : Type 0
Recorded = ℕ × ℕ

-- The calls of `metrics.Record`, in their order.
abbrev pub record_all : List Recorded → Metrics → Metrics
record_all [] m = m
record_all ((duration, status) ∷ rest) m = record_all rest (record_request duration status m)

-- What the workers of a scenario record, one after the other, until each has returned.
pub data Interleaves : List (List Recorded) → List Recorded → Type 0 where
  -- `wg.Wait()` is over.
  waits : (workers : List (List Recorded)) → All (λ own. own ≡ []) workers → Interleaves workers []
  -- A worker gets the lock for its next request.
  records :
      (before after : List (List Recorded)) (request : Recorded) (rest later : List Recorded)
      (workers : List (List Recorded))
      → workers ≡ before ++ (request ∷ rest) ∷ after
      → Interleaves (before ++ rest ∷ after) later
      → Interleaves workers (request ∷ later)

-- A run of the scenario with these workers between two times, and its summary.
pub record RunScenario (workers : List (List Recorded)) (start finish : ℕ) (summary : Summary)
    : Type 0 where
  pub requests : List Recorded
  pub order : Interleaves workers requests
  pub returned : summary ≡ snapshot finish (record_all requests (new_metrics start))
