-- ===== src/Tests/ThreadPool.antt =====
-- Runs of src/net/thread_pool.cpp.
use rpc_framework.Base.{ℕ, ◌≡◌, List, [], ◌∷◌, ◌++◌}
use rpc_framework.Net.ThreadPool.{init}
use rpc_framework.Net.ThreadPool.Tasks.{
  Event, submits, stops, gets_lock, ends_task, run, tasks_run_order,
}

abbrev turns : List (Event ℕ)
turns =
    submits 1
    ∷ submits 2
    ∷ gets_lock
    ∷ stops
    ∷ submits 3
    ∷ ends_task
    ∷ gets_lock
    ∷ ends_task
    ∷ gets_lock
    ∷ []

tasks_run_order_example : let q = run turns (init 1) in q.started ++ q.tasks ≡ 1 ∷ 2 ∷ []
tasks_run_order_example = tasks_run_order 1 turns
