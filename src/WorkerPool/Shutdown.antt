-- ===== src/WorkerPool/Shutdown.antt =====
-- internal/shared/utils/worker.go: `Shutdown` waits for the workers, and gets to its end.
use go_lang_domain_based_ent.Prelude.{
  List, [], ap, arith, inl, inr, length, length-append, refl, suc, true, zero, ℕ, ◌*◌, ◌+◌, ◌<◌,
  ◌∷◌, ◌≡◌, ◌≤◌, ◌⊎◌,
}
use go_lang_domain_based_ent.WorkerPool.{
  Reaches, Step, WorkerPool, closes, finishes, new_worker_pool, returns, submits, takes,
}
use go_lang_domain_based_ent.WorkerPool.Laws.{IsPool, Reaches-IsPool, Step-IsPool}

-- A step of a worker, as neither `Submit` nor `Shutdown` takes it.
abbrev pub IsWork : {a b : WorkerPool} → Step a b → Type 0
IsWork (submits task wp) = ⊥
IsWork (closes wp e) = ⊥
IsWork (takes task rest n wp e f) = Unit
IsWork (finishes before task after wp e) = Unit
IsWork (returns n wp e f) = Unit

-- So many steps of the workers.
pub data Works : ℕ → WorkerPool → WorkerPool → Type 0 where
  rests : (wp : WorkerPool) → Works 0 wp wp
  works :
      (n : ℕ) (a b c : WorkerPool) (step : Step b c) → Works n a b → IsWork step → Works (suc n) a c

-- A bound on the steps that the workers can take.
abbrev pub steps_left : WorkerPool → ℕ
steps_left wp = 3 * length wp.tasks + 2 * length wp.running + wp.idle

Step-steps_left : (a b : WorkerPool) (step : Step a b) → IsWork step → steps_left b < steps_left a
Step-steps_left a b (submits task wp) h = absurd h
Step-steps_left a b (closes wp e) h = absurd h
Step-steps_left a b (takes task rest n wp e f) h = ground (arith, e, f)
Step-steps_left a b (finishes before task after wp e) h =
    ground (arith, e, length-append before after, length-append before (task ∷ after))
Step-steps_left a b (returns n wp e f) h = ground (arith, f)

Step-closed : (a b : WorkerPool) (step : Step a b) → IsWork step → a.closed ≡ true → b.closed ≡ true
Step-closed a b (submits task wp) h e = absurd h
Step-closed a b (closes wp f) h e = absurd h
Step-closed a b (takes task rest n wp f g) h e = e
Step-closed a b (finishes before task after wp f) h e = e
Step-closed a b (returns n wp f g) h e = e

-- What steps of the workers leave of a pool.
record IsWorked (num_workers buffer_size n : ℕ) (a b : WorkerPool) : Type 0 where
  pool : IsPool num_workers buffer_size b
  closed : b.closed ≡ true
  left : n + steps_left b ≤ steps_left a

Works-IsWorked :
    (num_workers buffer_size n : ℕ) (a b : WorkerPool)
    → Works n a b
    → IsPool num_workers buffer_size a
    → a.closed ≡ true
    → IsWorked num_workers buffer_size n a b
Works-IsWorked k m _ _ _ (rests wp) h e = record { pool = h; closed = e; left = omega arith }
Works-IsWorked k m _ _ _ (works n a b c step before work) h e =
    let w = Works-IsWorked k m n a b before h e in
    record {
      pool = Step-IsPool k m b c step w.pool;
      closed = Step-closed b c step work w.closed;
      left = omega (arith, w.left, Step-steps_left b c step work);
    }

-- A worker of a closed pool that has not returned has a step to take.
exists-Step :
    (num_workers buffer_size : ℕ) (wp : WorkerPool) (idle : ℕ) (running : List ℕ)
    → wp.idle ≡ idle
    → wp.running ≡ running
    → IsPool num_workers buffer_size wp
    → wp.closed ≡ true
    → ((wp.returned ≡ num_workers) × (wp.running ≡ []))
      ⊎ ((b : WorkerPool) × (step : Step wp b) × IsWork step)
exists-Step k m wp zero [] e f h c = inl (omega (arith, h.workers, e, ap length f), f)
exists-Step k m wp (suc n) running e f h c = inr (_, returns n wp c e, tt)
exists-Step k m wp zero (task ∷ rest) e f h c = inr (_, finishes [] task rest wp f, tt)

-- After a pool is closed, its workers take at most three steps for a queued task, two for a task
-- at work and one for a waiting worker, in whatever order; and in every state that they reach,
-- either each worker has returned and no task is at work, which is what Shutdown waits for, or a
-- worker has a step to take.
pub shutdown-ends :
    (num_workers buffer_size n : ℕ) (a b : WorkerPool)
    → Reaches (new_worker_pool num_workers buffer_size) a
    → a.closed ≡ true
    → Works n a b
    → (n ≤ steps_left a)
      × (((b.returned ≡ num_workers) × (b.running ≡ []))
          ⊎ ((c : WorkerPool) × (step : Step b c) × IsWork step))
shutdown-ends k m n a b reached closed work =
    let w = Works-IsWorked k m n a b work (Reaches-IsPool k m a reached) closed in
    (omega (arith, w.left), exists-Step k m b b.idle b.running refl refl w.pool w.closed)
