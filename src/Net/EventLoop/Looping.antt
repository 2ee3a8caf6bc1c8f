-- ===== src/Net/EventLoop/Looping.antt =====
-- `loop` and `quit` of src/net/event_loop.cpp: where the thread of the loop is, and which thread asks it to
-- end. What the thread does in a place, the callbacks and functors, is not looked at, but that it may
-- call `quit` too.
pub mod Quitting
use rpc_framework.Base.{ℕ, ◌+◌, Bool, true, false, List, [], ◌∷◌, if◌then◌else◌}
use rpc_framework.Net.EventLoop.{EventLoop, init, quit_loop}

-- Before `loop`, at the test of the `while`, in `poll`, in the callbacks, in the functors, and after it.
pub data Place : Type 0 where
  outside testing polling handling calling returned : Place

module _ {ℓ} (Functor : Type ℓ) where
  pub record Looping : Type ℓ where
    pub place : Place
    pub loop : EventLoop Functor

-- The thread of the loop goes on, or quits; another thread quits.
pub data Event : Type 0 where
  goes_on own_quits other_quits : Event

module _ {ℓ} {Functor : Type ℓ} where
  unfoldable pub start : Looping Functor
  start = record { place = outside; loop = init }

  -- `loop` stores false in `quit_` as it is entered. `poll` returns after 10 ms at the latest.
  abbrev advance : Place → Looping Functor → Looping Functor
  advance outside s = record s { place = testing; loop = record s.loop { quit = false } }
  advance testing s = record s { place = if s.loop.quit then returned else polling }
  advance polling s = record s { place = handling }
  advance handling s = record s { place = calling }
  advance calling s = record s { place = testing }
  advance returned s = s

  -- Only a callback or a functor can quit in the thread of the loop.
  abbrev quit_here : Place → Looping Functor → Looping Functor
  quit_here handling s = record s { loop = quit_loop true s.loop }
  quit_here calling s = record s { loop = quit_loop true s.loop }
  quit_here _ s = s

  unfoldable pub step : Event → Looping Functor → Looping Functor
  step goes_on s = advance s.place s
  step own_quits s = quit_here s.place s
  step other_quits s = record s { loop = quit_loop false s.loop }

  abbrev pub run : List Event → Looping Functor → Looping Functor
  run [] s = s
  run (e ∷ es) s = run es (step e s)

-- The steps that the thread of the loop takes.
abbrev pub turns : List Event → ℕ
turns [] = 0
turns (goes_on ∷ es) = turns es + 1
turns (_ ∷ es) = turns es

-- Nobody quits.
abbrev pub no_quits : List Event → Bool
no_quits [] = true
no_quits (goes_on ∷ es) = no_quits es
no_quits (_ ∷ es) = false
