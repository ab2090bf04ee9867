-- ===== src/WorkerPool/Draining.antt =====
-- The queue of internal/shared/utils/worker.go can always be run to its end.
use mathlib.Core.List.{append-nil, append_assoc}
use go_lang_domain_based_ent.Prelude.{
  List, [], ap, arith, false, length, refl, subst, suc, sym, zero, ℕ, ◌++◌, ◌+◌, ◌∙◌, ◌∷◌, ◌≡◌, ◌≤◌,
}
use go_lang_domain_based_ent.WorkerPool.{
  Reaches, WorkerPool, finishes, here, new_worker_pool, takes, there,
}
use go_lang_domain_based_ent.WorkerPool.Laws.{IsPool, Reaches-IsPool}

-- The pool is reached, and has these tasks queued, running and finished.
record Progress (start : WorkerPool) (idle : ℕ) (queued running finished : List ℕ) : Type 0 where
  pub pool : WorkerPool
  pub reached : Reaches start pool
  pub idle_workers : pool.idle ≡ idle
  pub queue : pool.tasks ≡ queued
  pub at_work : pool.running ≡ running
  pub done : pool.finished ≡ finished
  pub same_dropped : pool.dropped ≡ start.dropped

-- One task ends.
finish_one :
    (start : WorkerPool) (idle task : ℕ) (queued running finished : List ℕ)
    → Progress start idle queued (task ∷ running) finished
    → Progress start (suc idle) queued running (finished ++ task ∷ [])
finish_one start idle task queued running finished p = record {
  pool = _;
  reached = there start p.pool _ p.reached (finishes [] task running p.pool p.at_work);
  idle_workers = ap suc p.idle_workers;
  queue = p.queue;
  at_work = refl;
  done = ap (λ l. l ++ task ∷ []) p.done;
  same_dropped = p.same_dropped;
}

take_one :
    (start : WorkerPool) (idle task : ℕ) (queued running finished : List ℕ)
    → Progress start (suc idle) (task ∷ queued) running finished
    → Progress start idle queued (task ∷ running) finished
take_one start idle task queued running finished p = record {
  pool = _;
  reached = there start p.pool _ p.reached (takes task queued idle p.pool p.queue p.idle_workers);
  idle_workers = refl;
  queue = refl;
  at_work = ap (λ l. task ∷ l) p.at_work;
  done = p.done;
  same_dropped = p.same_dropped;
}

finish_all :
    (start : WorkerPool) (idle : ℕ) (queued running finished : List ℕ)
    → Progress start idle queued running finished
    → Progress start (idle + length running) queued [] (finished ++ running)
finish_all start idle queued [] finished p = record {
  pool = p.pool;
  reached = p.reached;
  idle_workers = omega (arith, p.idle_workers);
  queue = p.queue;
  at_work = p.at_work;
  done = p.done ∙ sym (append-nil finished);
  same_dropped = p.same_dropped;
}
finish_all start idle queued (task ∷ running) finished p =
    let next =
      finish_all start (suc idle) queued running (finished ++ task ∷ [])
        (finish_one start idle task queued running finished p) in
    record {
      pool = next.pool;
      reached = next.reached;
      idle_workers = omega (arith, next.idle_workers);
      queue = next.queue;
      at_work = next.at_work;
      done = next.done ∙ append_assoc finished (task ∷ []) running;
      same_dropped = next.same_dropped;
    }

run_all :
    (start : WorkerPool) (idle : ℕ) (queued finished : List ℕ)
    → Progress start (suc idle) queued [] finished
    → Progress start (suc idle) [] [] (finished ++ queued)
run_all start idle [] finished p =
    subst (Progress start (suc idle) [] []) (sym (append-nil finished)) p
run_all start idle (task ∷ queued) finished p =
    subst (Progress start (suc idle) [] []) (append_assoc finished (task ∷ []) queued) (
      run_all start idle queued (finished ++ task ∷ []) (
        finish_one start idle task queued [] finished
          (take_one start idle task queued [] finished p)))

-- All tasks of the pool have run: those at work end first, then the queue in its order.
pub record IsDrained (wp : WorkerPool) : Type 0 where
  pub left : WorkerPool
  pub reached : Reaches wp left
  pub no_queue : left.tasks ≡ []
  pub none_at_work : left.running ≡ []
  pub all_done : left.finished ≡ (wp.finished ++ wp.running) ++ wp.tasks
  pub none_lost : left.dropped ≡ wp.dropped

started : (wp : WorkerPool) → Progress wp wp.idle wp.tasks wp.running wp.finished
started wp = record {
  pool = wp;
  reached = here wp;
  idle_workers = refl;
  queue = refl;
  at_work = refl;
  done = refl;
  same_dropped = refl;
}

all_free :
    (n b : ℕ) (wp : WorkerPool)
    → IsPool (suc n) b wp
    → wp.closed ≡ false
    → wp.idle + length wp.running ≡ suc n
all_free n b wp h up = omega (arith, h.workers, h.at_work up)

drained :
    (wp : WorkerPool) (n : ℕ)
    → Progress wp (suc n) [] [] ((wp.finished ++ wp.running) ++ wp.tasks)
    → IsDrained wp
drained wp n p = record {
  left = p.pool;
  reached = p.reached;
  no_queue = p.queue;
  none_at_work = p.at_work;
  all_done = p.done;
  none_lost = p.same_dropped;
}

-- From every state that a new pool of at least one worker reaches before it is closed, the workers
-- have steps that run every task at work and then every queued task, in the order of the queue, and
-- that drop none.
pub Reaches-IsDrained :
    (num_workers buffer_size : ℕ) (wp : WorkerPool)
    → Reaches (new_worker_pool num_workers buffer_size) wp
    → wp.closed ≡ false
    → 1 ≤ num_workers
    → IsDrained wp
Reaches-IsDrained zero b wp reached up enough = absurd (omega (arith, enough))
Reaches-IsDrained (suc n) b wp reached up enough = drained wp n (
    run_all wp n wp.tasks (wp.finished ++ wp.running) (
      subst (λ k. Progress wp k wp.tasks [] (wp.finished ++ wp.running))
        (all_free n b wp (Reaches-IsPool (suc n) b wp reached) up)
        (finish_all wp wp.idle wp.tasks wp.running wp.finished (started wp))))
