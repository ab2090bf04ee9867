-- ===== src/WorkerPool.antt =====
-- internal/shared/utils/worker.go: the pool of workers as steps that the scheduler may take in any
-- order. A task is named by a number, and the buffer of the channel has room for a task at least.
use go_lang_domain_based_ent.Prelude.{
  Bool, List, [], false, if◌then◌else◌, length, ltb, suc, true, ℕ, ◌++◌, ◌∷◌, ◌≡◌,
}
pub mod Laws
pub mod Draining
pub mod Shutdown
pub mod Tests

-- The channel with its capacity, the workers that wait in `select` and those that have returned, and
-- the tasks that run, that have run and that `Submit` dropped.
pub record WorkerPool : Type 0 where
  pub tasks : List ℕ
  pub buffer_size : ℕ
  pub closed : Bool
  pub idle : ℕ
  pub returned : ℕ
  pub running : List ℕ
  pub finished : List ℕ
  pub dropped : List ℕ

unfoldable pub new_worker_pool : ℕ → ℕ → WorkerPool
new_worker_pool num_workers buffer_size = record {
  tasks = [];
  buffer_size = buffer_size;
  closed = false;
  idle = num_workers;
  returned = 0;
  running = [];
  finished = [];
  dropped = [];
}

-- `Submit`: a full queue drops the task.
unfoldable pub submit : ℕ → WorkerPool → WorkerPool
submit task wp =
    if ltb (length wp.tasks) wp.buffer_size
    then record wp { tasks = wp.tasks ++ task ∷ [] }
    else record wp { dropped = wp.dropped ++ task ∷ [] }

pub data Step : WorkerPool → WorkerPool → Type 0 where
  submits : (task : ℕ) (wp : WorkerPool) → Step wp (submit task wp)
  -- `task, ok := <-wp.tasks`, which may happen after `closed` too.
  takes :
      (task : ℕ) (rest : List ℕ) (n : ℕ) (wp : WorkerPool)
      → wp.tasks ≡ task ∷ rest
      → wp.idle ≡ suc n
      → Step wp (record wp { tasks = rest; idle = n; running = task ∷ wp.running })
  -- The call of the task returns.
  finishes :
      (before : List ℕ) (task : ℕ) (after : List ℕ) (wp : WorkerPool)
      → wp.running ≡ before ++ task ∷ after
      → Step wp (record wp {
        running = before ++ after;
        idle = suc wp.idle;
        finished = wp.finished ++ task ∷ [];
      })
  -- `close(wp.closed)` of `Shutdown`.
  closes : (wp : WorkerPool) → wp.closed ≡ false → Step wp (record wp { closed = true })
  -- `case <-wp.closed`
  returns :
      (n : ℕ) (wp : WorkerPool)
      → wp.closed ≡ true
      → wp.idle ≡ suc n
      → Step wp (record wp { idle = n; returned = suc wp.returned })

pub data Reaches : WorkerPool → WorkerPool → Type 0 where
  here : (wp : WorkerPool) → Reaches wp wp
  there : (a b c : WorkerPool) → Reaches a b → Step b c → Reaches a c
