-- ===== src/Net/EventLoop.antt =====
-- include/net/event_loop.h and src/net/event_loop.cpp: the queue of functors and the wake-up. A functor
-- is any value; what runs in the loop is recorded.
pub mod Functors
pub mod Looping
use rpc_framework.Base.{
  ℕ, ◌+◌, Bool, true, false, not, ◌&&◌, ◌||◌, List, [], ◌∷◌, ◌++◌, Option, none, some,
  if◌then◌else◌,
}

-- `wakeups` counts the writes to the event descriptor that have not been read.
module _ {ℓ} (Functor : Type ℓ) where
  pub record EventLoop : Type ℓ where
    pub pending_functors : List Functor
    pub calling_pending_functors : Bool
    pub quit : Bool
    pub wakeups : ℕ

module _ {ℓ} {Functor : Type ℓ} where
  unfoldable pub init : EventLoop Functor
  init = record {
    pending_functors = [];
    calling_pending_functors = false;
    quit = false;
    wakeups = 0;
  }

  abbrev wakeup : EventLoop Functor → EventLoop Functor
  wakeup l = record l { wakeups = l.wakeups + 1 }

  -- The first part of `queue_in_loop`, under the mutex.
  unfoldable pub push_functor : Functor → EventLoop Functor → EventLoop Functor
  push_functor f l = record l { pending_functors = l.pending_functors ++ (f ∷ []) }

  -- The second part, for which the mutex is free again; `in_thread` is `is_in_loop_thread()`.
  unfoldable pub wake_after : Bool → EventLoop Functor → EventLoop Functor
  wake_after in_thread l = if not in_thread || l.calling_pending_functors then wakeup l else l

  unfoldable pub queue_in_loop : Bool → Functor → EventLoop Functor → EventLoop Functor
  unfolding push_functor wake_after
  queue_in_loop in_thread f l = wake_after in_thread (push_functor f l)

  -- The functor, if it is to be run at once, and the loop.
  unfoldable pub run_in_loop :
      Bool → Functor → EventLoop Functor → Option Functor × EventLoop Functor
  run_in_loop in_thread f l = if in_thread then (some f, l) else (none, queue_in_loop in_thread f l)

  unfoldable pub quit_loop : Bool → EventLoop Functor → EventLoop Functor
  quit_loop in_thread l =
      let t : EventLoop Functor = record l { quit = true } in if in_thread then t else wakeup t

  -- The callback of the wake-up channel: a read of an event descriptor resets its count.
  unfoldable pub handle_read : EventLoop Functor → EventLoop Functor
  handle_read l = record l { wakeups = 0 }

  -- The first part of `do_pending_functors`: the functors to call.
  unfoldable pub swap_functors : EventLoop Functor → List Functor × EventLoop Functor
  swap_functors l =
      (l.pending_functors, record l { pending_functors = []; calling_pending_functors = true })

  unfoldable pub end_functors : EventLoop Functor → EventLoop Functor
  end_functors l = record l { calling_pending_functors = false }
