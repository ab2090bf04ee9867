-- ===== src/WorkerPool/Laws.antt =====
-- What every order of steps of the pool keeps.
use go_lang_domain_based_ent.Prelude.{
  Bool-cases, [], arith, false, inl, inr, length, length-append, ltb, refl, ℕ, ◌+◌, ◌∷◌, ◌≡◌, ◌≤◌,
}
use go_lang_domain_based_ent.WorkerPool.{
  Reaches, Step, WorkerPool, closes, finishes, here, new_worker_pool, returns, submit, submits,
  takes, there,
}

-- A pool of so many workers and this buffer: each worker waits, runs a task or has returned, the
-- queue fits the buffer, and no worker returns before the pool is closed.
pub record IsPool (num_workers buffer_size : ℕ) (wp : WorkerPool) : Type 0 where
  pub size : wp.buffer_size ≡ buffer_size
  pub fits : length wp.tasks ≤ buffer_size
  pub workers : wp.idle + length wp.running + wp.returned ≡ num_workers
  pub at_work : wp.closed ≡ false → wp.returned ≡ 0

submit-IsPool : (n b task : ℕ) (wp : WorkerPool) → IsPool n b wp → IsPool n b (submit task wp)
unfolding submit
submit-IsPool n b task wp h = elim (Bool-cases (ltb (length wp.tasks) wp.buffer_size)) [
  | inl room ↦ rw room (record {
    size = h.size;
    fits = ground (arith, h.size, length-append wp.tasks (task ∷ []));
    workers = h.workers;
    at_work = h.at_work;
  })
  | inr full ↦
      rw full (record { size = h.size; fits = h.fits; workers = h.workers; at_work = h.at_work })
]

pub Step-IsPool : (n b : ℕ) (x y : WorkerPool) → Step x y → IsPool n b x → IsPool n b y
Step-IsPool n b x y (submits task wp) h = submit-IsPool n b task wp h
Step-IsPool n b x y (takes task rest k wp e f) h = record {
  size = h.size;
  fits = ground (arith, h.fits, e);
  workers = ground (arith, h.workers, f);
  at_work = h.at_work;
}
Step-IsPool n b x y (finishes before task after wp e) h = record {
  size = h.size;
  fits = h.fits;
  workers =
      ground (arith, h.workers, e, length-append before after, length-append before (task ∷ after));
  at_work = h.at_work;
}
Step-IsPool n b x y (closes wp e) h = record {
  size = h.size;
  fits = h.fits;
  workers = h.workers;
  at_work = λ c. ground arith;
}
Step-IsPool n b x y (returns k wp e f) h = record {
  size = h.size;
  fits = h.fits;
  workers = ground (arith, h.workers, f);
  at_work = λ c. ground (arith, e);
}

-- Whatever the scheduler does, each worker of a new pool waits, runs one task or has returned, the
-- queue fits its buffer, and no worker returns before the pool is closed.
pub Reaches-IsPool :
    (num_workers buffer_size : ℕ) (wp : WorkerPool)
    → Reaches (new_worker_pool num_workers buffer_size) wp
    → IsPool num_workers buffer_size wp
unfolding new_worker_pool
Reaches-IsPool n b wp (here _) = record {
  size = refl;
  fits = omega arith;
  workers = omega arith;
  at_work = λ c. refl;
}
Reaches-IsPool n b wp (there _ y _ before step) =
    Step-IsPool n b y wp step (Reaches-IsPool n b y before)
