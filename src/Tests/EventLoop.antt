-- ===== src/Tests/EventLoop.antt =====
-- Runs of src/net/event_loop.cpp.
use rpc_framework.Base.{ℕ, ◌≡◌, refl, List, [], ◌∷◌, ◌++◌}
use rpc_framework.Net.EventLoop.{
  init, push_functor, wake_after, handle_read, swap_functors, end_functors,
}
use rpc_framework.Net.EventLoop.Functors.{
  Event, other_pushes, other_wakes, own_pushes, own_wakes, polls, reads_wakeup, swaps, calls_next,
  ends, start, step, run, queued, Woken,
}
use rpc_framework.Net.EventLoop.Functors.Rounds.{called_in_order, run-Woken}

-- Another thread pushes 1, is overtaken by a round of the loop, and only then wakes it. The loop pushes 2
-- while it calls 1, and another thread pushes 3 before the loop wakes itself.
abbrev round : List (Event ℕ)
round =
    other_pushes 1
    ∷ polls
    ∷ reads_wakeup
    ∷ swaps
    ∷ other_wakes
    ∷ own_pushes 2
    ∷ other_pushes 3
    ∷ own_wakes
    ∷ calls_next
    ∷ ends
    ∷ []

called_in_order_example :
    let s = run round start in s.called ++ (s.batch ++ s.loop.pending_functors) ≡ 1 ∷ 2 ∷ 3 ∷ []
unfolding queued step start init push_functor wake_after handle_read swap_functors end_functors
called_in_order_example = called_in_order round

run-Woken_example : Woken (run round start)
unfolding run step start init push_functor wake_after handle_read swap_functors end_functors
run-Woken_example = run-Woken round refl
