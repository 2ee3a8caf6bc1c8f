-- ===== src/Net/ThreadPool.antt =====
-- include/net/thread_pool.h and src/net/thread_pool.cpp. Each critical section is one step; of the
-- workers only their numbers count. A task is any value, `started` lists those that have begun.
pub mod Tasks
use rpc_framework.Base.{
  ℕ, ◌+◌, ◌-◌, Bool, true, false, not, ◌&&◌, ◌||◌, List, [], ◌∷◌, ◌++◌, Option, none, some, ◌==◌,
  if◌then◌else◌,
}

module _ {ℓ} (Task : Type ℓ) where
  pub record ThreadPool : Type ℓ where
    pub tasks : List Task
    pub stop : Bool
    pub waiting : ℕ
    pub running : ℕ
    pub ended : ℕ
    pub started : List Task

module _ {ℓ} {Task : Type ℓ} where
  unfoldable pub init : ℕ → ThreadPool Task
  init thread_count = record {
    tasks = [];
    stop = false;
    waiting = thread_count;
    running = 0;
    ended = 0;
    started = [];
  }

  -- `none` is the exception "submit on stopped pool".
  unfoldable pub submit : Task → ThreadPool Task → Option (ThreadPool Task)
  submit t p = if p.stop then none else some (record p { tasks = p.tasks ++ (t ∷ []) })

  -- The beginning of the destructor, which then waits until every worker has ended.
  unfoldable pub stop_pool : ThreadPool Task → ThreadPool Task
  stop_pool p = record p { stop = true }

  -- What a worker with the lock does on this queue: it waits on, ends, or takes the front.
  abbrev take_front : List Task → ThreadPool Task → ThreadPool Task
  take_front [] p = if p.stop then record p { waiting = p.waiting - 1; ended = p.ended + 1 } else p
  take_front (t ∷ ts) p = record p {
    tasks = ts;
    waiting = p.waiting - 1;
    running = p.running + 1;
    started = p.started ++ (t ∷ []);
  }

  unfoldable pub worker_turn : ThreadPool Task → ThreadPool Task
  worker_turn p = take_front p.tasks p

  -- The task that a worker runs returns.
  unfoldable pub task_done : ThreadPool Task → ThreadPool Task
  task_done p = record p { waiting = p.waiting + 1; running = p.running - 1 }
