-- ===== src/Net/TcpServer.antt =====
-- include/net/tcp_server.h and src/net/tcp_server.cpp in the thread of the loop. The objects that
-- `std::make_shared` makes are kept with their ids in the order of their making, also those that the
-- map has let go and that only a task or a callback still holds.
pub mod Listed
pub mod Destroyed
use rpc_framework.Base.{
  ℕ, ◌+◌, ◌%◌, Bool, true, false, List, [], ◌∷◌, ◌++◌, Option, none, some, length, drop, get_elem?,
  size_mod, if◌then◌else◌,
}
use rpc_framework.Base.Map.{find, put, erase, nat_eq}
use rpc_framework.Base.Update.{modify}
use rpc_framework.Net.Connection
use rpc_framework.Net.Connection.{
  Connection, Callback, close, connection_established, connection_destroyed,
}
use rpc_framework.Net.Connection.Closing
use rpc_framework.Net.Connection.Closing.{Op}
use rpc_framework.Net.Connection.Closing.Fate.{closed_now}

-- `connections` gives the place of an id's object; `accepting` is the interest of
-- `accept_channel_`, `listening` that the channel is registered and `listen_fd_` open.
pub record TcpServer : Type 0 where
  pub started : Bool
  pub accepting : Bool
  pub listening : Bool
  pub next_conn_id : ℕ
  pub connections : List (ℕ × ℕ)
  pub objects : List (ℕ × Connection)

unfoldable pub init : TcpServer
init = record {
  started = false;
  accepting = false;
  listening = true;
  next_conn_id = 1;
  connections = [];
  objects = [];
}

unfoldable pub start : TcpServer → TcpServer
start s = if s.started then s else record s { started = true; accepting = true }

-- `run_in_loop` runs `connection_established` at once, in the thread of the loop.
unfoldable pub new_connection : TcpServer → TcpServer
new_connection s =
    let id : ℕ = s.next_conn_id in
    record s {
      next_conn_id = (id + 1) % size_mod;
      connections = put id (length s.objects) s.connections;
      objects = s.objects ++ ((id, connection_established Connection.init) ∷ []);
    }

-- `taken` tells whether `accept4` has returned a descriptor.
unfoldable pub handle_accept : Bool → TcpServer → TcpServer
unfolding new_connection
handle_accept taken s = if s.accepting then if taken then new_connection s else s else s

-- `remove_connection`, the close callback, as far as it is the server's: the other half,
-- `connection_destroyed`, is part of `handle_close`.
unfoldable pub remove_connection : ℕ → TcpServer → TcpServer
remove_connection id s = record s { connections = erase id s.connections }

abbrev on_object : ℕ → Op → Option (ℕ × Connection) → TcpServer → TcpServer
on_object k o none s = s
on_object k o (some (id, c)) s =
    let d : Connection = Closing.step o c in
    let t : TcpServer = record s { objects = modify k (λ x. (id, d)) s.objects } in
    if closed_now c d then remove_connection id t else t

-- Something happens to the object at place `k`.
unfoldable pub on_connection : ℕ → Op → TcpServer → TcpServer
on_connection k o s = on_object k o (get_elem? s.objects k) s

abbrev pub destroy_all : List (ℕ × ℕ) → List (ℕ × Connection) → List (ℕ × Connection)
destroy_all [] os = os
destroy_all ((id, k) ∷ m) os = destroy_all m (modify k (λ x. (x.0, connection_destroyed x.1)) os)

-- The destructor.
unfoldable pub destroy : TcpServer → TcpServer
destroy s = record s {
  accepting = false;
  listening = false;
  objects = destroy_all s.connections s.objects;
}

-- What happens in the thread of the loop.
pub data Event : Type 0 where
  starts : Event
  accepts : Bool → Event
  on : ℕ → Op → Event

unfoldable pub step : Event → TcpServer → TcpServer
step starts s = start s
step (accepts taken) s = handle_accept taken s
step (on k o) s = on_connection k o s

abbrev pub run : List Event → TcpServer → TcpServer
run [] s = s
run (e ∷ es) s = run es (step e s)
