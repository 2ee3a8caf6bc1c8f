-- ===== src/Net/Channel.antt =====
-- include/net/channel.h, src/net/channel.cpp and the part of src/net/epoll_poller.cpp that registers
-- a channel. Events are sets of flags, as records of Booleans. What the kernel does is not modelled:
-- the calls of `::epoll_ctl` are recorded in order.
pub mod Registration
pub mod Dispatch
use rpc_framework.Base.{ℕ, Bool, true, false, not, ◌&&◌, ◌||◌, List, [], ◌∷◌, ◌++◌, if◌then◌else◌}

-- `events_`: `kReadEvent` (EPOLLIN and EPOLLPRI) and `kWriteEvent` (EPOLLOUT).
pub record Events : Type 0 where
  pub read : Bool
  pub write : Bool

abbrev pub none_event : Events
none_event = record { read = false; write = false }

-- `index_`: `kNew`, `kAdded` and `kDeleted`.
pub data Index : Type 0 where
  new added deleted : Index

pub data Control : Type 0 where
  ctl_add ctl_mod : Events → Control
  ctl_del : Control

-- `in_map` says that `channels_` has the channel; `controls` are the calls of `::epoll_ctl` for it.
pub record Channel : Type 0 where
  pub events : Events
  pub index : Index
  pub in_map : Bool
  pub controls : List Control

pub init : Channel
init = record { events = none_event; index = new; in_map = false; controls = [] }

abbrev pub is_none_event : Events → Bool
is_none_event e = not e.read && not e.write

abbrev pub epoll_ctl : Control → Channel → Channel
epoll_ctl c ch = record ch { controls = ch.controls ++ (c ∷ []) }

abbrev update_at : Index → Channel → Channel
update_at new ch = epoll_ctl (ctl_add ch.events) (record ch { in_map = true; index = added })
update_at deleted ch = epoll_ctl (ctl_add ch.events) (record ch { index = added })
update_at added ch =
    if is_none_event ch.events
    then record (epoll_ctl ctl_del ch) { index = deleted }
    else epoll_ctl (ctl_mod ch.events) ch

pub update_channel : Channel → Channel
update_channel ch = update_at ch.index ch

abbrev remove_at : Index → Channel → Channel
remove_at added ch = epoll_ctl ctl_del ch
remove_at _ ch = ch

pub remove_channel : Channel → Channel
remove_channel ch =
    let erased : Channel = record ch { in_map = false } in
    record (remove_at ch.index erased) { index = new }

pub enable_reading : Channel → Channel
enable_reading ch =
    update_channel (record ch { events = record { read = true; write = ch.events.write } })

pub disable_reading : Channel → Channel
disable_reading ch =
    update_channel (record ch { events = record { read = false; write = ch.events.write } })

pub enable_writing : Channel → Channel
enable_writing ch =
    update_channel (record ch { events = record { read = ch.events.read; write = true } })

pub disable_writing : Channel → Channel
disable_writing ch =
    update_channel (record ch { events = record { read = ch.events.read; write = false } })

pub disable_all : Channel → Channel
disable_all ch = update_channel (record ch { events = none_event })

pub remove : Channel → Channel
remove ch = remove_channel (disable_all ch)

-- `revents_`: the flags that `handle_event_with_guard` tests.
pub record Revents : Type 0 where
  pub hup : Bool
  pub in_ : Bool
  pub err : Bool
  pub pri : Bool
  pub rdhup : Bool
  pub out : Bool

-- The four callbacks of a channel on a state that they change.
pub record Callbacks {ℓ} (S : Type ℓ) : Type ℓ where
  pub close_cb : S → S
  pub error_cb : S → S
  pub read_cb : S → S
  pub write_cb : S → S

module _ {ℓ} {S : Type ℓ} where
  abbrev when : Bool → (S → S) → S → S
  when true cb s = cb s
  when false cb s = s

  unfoldable pub handle_event_with_guard : Callbacks S → Revents → S → S
  handle_event_with_guard cbs r s = when r.out cbs.write_cb (
      when (r.in_ || r.pri || r.rdhup) cbs.read_cb
        (when r.err cbs.error_cb (when (r.hup && not r.in_) cbs.close_cb s)))
