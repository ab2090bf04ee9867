-- ===== src/WorkerPool/Tests.antt =====
-- A pool of one worker.
use go_lang_domain_based_ent.Prelude.{[], arith, refl, true, ◌≡◌, ◌≤◌, ◌⊎◌}
use go_lang_domain_based_ent.WorkerPool.{
  Step, WorkerPool, closes, here, new_worker_pool, returns, submit, submits, there,
}
use go_lang_domain_based_ent.WorkerPool.Draining.{IsDrained, Reaches-IsDrained}
use go_lang_domain_based_ent.WorkerPool.Laws.{IsPool, Reaches-IsPool}
use go_lang_domain_based_ent.WorkerPool.Shutdown.{IsWork, rests, shutdown-ends, steps_left, works}

abbrev one_task : WorkerPool
one_task = submit 7 (new_worker_pool 1 2)

Reaches-IsPool_example : IsPool 1 2 one_task
Reaches-IsPool_example = Reaches-IsPool 1 2 one_task (there _ _ _ (here _) (submits 7 _))

Reaches-IsDrained_example : IsDrained one_task
unfolding submit new_worker_pool
Reaches-IsDrained_example =
    Reaches-IsDrained 1 2 one_task (there _ _ _ (here _) (submits 7 _)) refl (omega arith)

-- The pool is closed, and the worker returns with a task in the queue.
abbrev closed_pool : WorkerPool
closed_pool = record one_task { closed = true }

abbrev left_pool : WorkerPool
left_pool = record closed_pool { idle = 0; returned = 1 }

shutdown-ends_example :
    (1 ≤ steps_left closed_pool)
    × (((left_pool.returned ≡ 1) × (left_pool.running ≡ []))
        ⊎ ((c : WorkerPool) × (step : Step left_pool c) × IsWork step))
unfolding submit new_worker_pool
shutdown-ends_example =
    shutdown-ends 1 2 1 closed_pool left_pool
      (there _ _ _ (there _ _ _ (here _) (submits 7 _)) (closes one_task refl)) refl
      (works 0 _ _ _ (returns 0 closed_pool refl refl) (rests _) tt)
