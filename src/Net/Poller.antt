-- ===== src/Net/Poller.antt =====
-- include/net/epoll_poller.h and src/net/epoll_poller.cpp: `poll`, and what src/net/event_loop.cpp does with
-- the channels that it returns. What `epoll_wait` returns is an argument. A channel is a number; the
-- flags that `set_revents` has set are a map.
pub mod Growth
use rpc_framework.Base.{
  ℕ, ◌*◌, false, List, [], ◌∷◌, ◌++◌, Option, none, some, length, ◌==◌, if◌then◌else◌,
}
use rpc_framework.Base.Int.{ℤ, to_int}
use rpc_framework.Base.Map.{find, put, nat_eq}
use rpc_framework.Net.Channel.{Revents}

abbrev pub init_event_list_size : ℕ
init_event_list_size = 16

-- `events_size` is `events_.size()`.
pub record Poller : Type 0 where
  pub events_size : ℕ
  pub revents : List (ℕ × Revents)

unfoldable pub init : Poller
init = record { events_size = init_event_list_size; revents = [] }

-- The events that `epoll_wait` writes, each with its channel; or a negative number.
pub data WaitResult : Type 0 where
  reported : List (ℕ × Revents) → WaitResult
  interrupted : WaitResult

-- The channels found active so far, and the flags set so far.
unfoldable pub fill_active_channels :
    List (ℕ × Revents) → List ℕ → List (ℕ × Revents) → List ℕ × List (ℕ × Revents)
fill_active_channels [] active m = (active, m)
fill_active_channels ((ch, r) ∷ es) active m =
    fill_active_channels es (active ++ (ch ∷ [])) (put ch r m)

-- After `epoll_wait` has returned: the list of events doubles when it has been full.
unfoldable pub after_wait : WaitResult → List ℕ → Poller → List ℕ × Poller
after_wait interrupted active p = (active, p)
after_wait (reported es) active p =
    let (found, m) = fill_active_channels es active p.revents in
    (
      found,
      record {
        events_size = if length es == p.events_size then p.events_size * 2 else p.events_size;
        revents = m;
      },
    )

-- `wait` is `epoll_wait` by the length that it is given, the size cast to an `int`.
unfoldable pub poll : (ℤ → WaitResult) → List ℕ → Poller → List ℕ × Poller
poll wait active p = after_wait (wait (to_int p.events_size)) active p

-- `revents_` is 0 before the first event.
abbrev pub no_revents : Revents
no_revents = record {
  hup = false;
  in_ = false;
  err = false;
  pri = false;
  rdhup = false;
  out = false;
}

abbrev pub known : Option Revents → Revents
known none = no_revents
known (some r) = r

module _ {ℓ} {W : Type ℓ} where
  -- `ch->handle_event()` for each active channel; `h` is what a channel does with its flags.
  abbrev pub handle_active : (ℕ → Revents → W → W) → List ℕ → List (ℕ × Revents) → W → W
  handle_active h [] m w = w
  handle_active h (ch ∷ chs) m w = handle_active h chs m (h ch (known (find ch m)) w)

  -- A round of `loop` up to `do_pending_functors`.
  unfoldable pub poll_round : (ℕ → Revents → W → W) → (ℤ → WaitResult) → Poller → W → W × Poller
  poll_round h wait p w =
      let (active, q) = poll wait [] p in (handle_active h active q.revents w, q)
