-- ===== src/Net/EventLoop/Functors.antt =====
-- The functors that src/net/event_loop.cpp calls, in every interleaving with other threads.
pub mod Rounds
use rpc_framework.Base.{
  ℕ, zero, suc, ◌+◌, ◌-◌, ◌==◌, if◌then◌else◌, ◌<◌, ◌≡◌, refl, sym, ap, ◌∙◌, ◌⊎◌, inl, inr, Bool,
  true, false, not, ◌&&◌, ◌||◌, List, [], ◌∷◌, ◌++◌, arith, append_assoc, append-nil, if_cases,
  subst,
}
use rpc_framework.Net.EventLoop.{
  EventLoop, init, push_functor, wake_after, handle_read, swap_functors, end_functors,
}

-- Where the thread of the loop is: in `poll`, in the callbacks of the channels, or among the functors; in
-- the latter two it may stand in `queue_in_loop`, between the push and the wake-up.
pub data Phase : Type 0 where
  polling handling handling_pushed calling calling_pushed : Phase

module _ {ℓ} (Functor : Type ℓ) where
  -- `batch` are the functors that this round has still to call, `called` those called so far. `waking`
  -- counts the other threads that stand in `queue_in_loop` between the push and the wake-up.
  pub record Thread : Type ℓ where
    pub phase : Phase
    pub loop : EventLoop Functor
    pub waking : ℕ
    pub batch : List Functor
    pub called : List Functor

  -- A push is under the mutex, the wake-up after it is not: `queue_in_loop` is two events, between which
  -- any others may come.
  pub data Event : Type ℓ where
    other_pushes own_pushes : Functor → Event
    other_wakes own_wakes polls reads_wakeup swaps calls_next ends : Event

module _ {ℓ} {Functor : Type ℓ} where
  unfoldable pub start : Thread Functor
  start = record { phase = polling; loop = init; waking = 0; batch = []; called = [] }

  -- What the thread of the loop does where it is; elsewhere the event does nothing.
  abbrev own_step : Phase → List Functor → Event Functor → Thread Functor → Thread Functor
  own_step handling fs (own_pushes f) s = record s {
    phase = handling_pushed;
    loop = push_functor f s.loop;
  }
  own_step handling_pushed fs own_wakes s = record s {
    phase = handling;
    loop = wake_after true s.loop;
  }
  own_step calling fs (own_pushes f) s = record s {
    phase = calling_pushed;
    loop = push_functor f s.loop;
  }
  own_step calling_pushed fs own_wakes s = record s {
    phase = calling;
    loop = wake_after true s.loop;
  }
  own_step polling fs polls s = record s { phase = handling }
  own_step handling fs reads_wakeup s = record s { loop = handle_read s.loop }
  own_step handling fs swaps s = record s {
    phase = calling;
    loop = (swap_functors s.loop).1;
    batch = (swap_functors s.loop).0;
  }
  own_step calling (f ∷ fs) calls_next s = record s { batch = fs; called = s.called ++ (f ∷ []) }
  own_step calling [] ends s = record s { phase = polling; loop = end_functors s.loop }
  own_step _ _ _ s = s

  unfoldable pub step : Event Functor → Thread Functor → Thread Functor
  step (other_pushes f) s = record s { loop = push_functor f s.loop; waking = s.waking + 1 }
  step other_wakes s =
      if s.waking == 0
      then s
      else record s { loop = wake_after false s.loop; waking = s.waking - 1 }
  step e s = own_step s.phase s.batch e s

  unfoldable pub run : List (Event Functor) → Thread Functor → Thread Functor
  run [] s = s
  run (e ∷ es) s = run es (step e s)

  -- The functor that an event pushes; the thread of the loop pushes none while it polls or wakes.
  abbrev own_news : Phase → Functor → List Functor
  own_news handling f = f ∷ []
  own_news calling f = f ∷ []
  own_news _ f = []

  abbrev news : Event Functor → Phase → List Functor
  news (other_pushes f) ph = f ∷ []
  news (own_pushes f) ph = own_news ph f
  news _ ph = []

  unfoldable pub queued : List (Event Functor) → Thread Functor → List Functor
  queued [] s = []
  queued (e ∷ es) s = news e s.phase ++ queued es (step e s)

  -- Nothing is pending, or the event descriptor is readable, so that `poll` returns at once, or a thread
  -- that has pushed is about to write to it.
  abbrev pub Woken : Thread Functor → Type ℓ
  Woken s = (s.loop.pending_functors ≡ []) ⊎ ((zero < s.loop.wakeups) ⊎ (zero < s.waking))
