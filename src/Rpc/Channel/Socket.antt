-- ===== src/Rpc/Channel/Socket.antt =====
-- The socket of src/rpc/rpc_channel.cpp: `connect`, `disconnect` and the ends of the reader thread, with
-- what the kernel returns as an argument. The descriptors that have been opened and closed are
-- recorded in order. The calls of `fcntl` and what only fills in the address are left out.
pub mod Descriptors
use rpc_framework.Base.{
  ℕ, Bool, true, false, List, [], ◌∷◌, ◌++◌, Option, none, some, ◌==◌, if◌then◌else◌,
}
use rpc_framework.Rpc.Channel
use rpc_framework.Rpc.Channel.{RpcChannel, connect, disconnect, connection_closed, bad_stream}

-- What `::connect` returns: 0, EINPROGRESS or another error.
pub data ConnectResult : Type 0 where
  at_once in_progress refused : ConnectResult

-- What the calls of `connect` return: a descriptor, whether `poll` finds the socket writable in time,
-- and the error that `getsockopt` reports, 0 for none.
pub record Kernel : Type 0 where
  pub socket : Option ℕ
  pub connects : ConnectResult
  pub writable_in_time : Bool
  pub so_error : ℕ

-- `sockfd` is `none` for -1.
pub record Endpoint : Type 0 where
  pub channel : RpcChannel
  pub sockfd : Option ℕ
  pub opened : List ℕ
  pub closed : List ℕ

abbrev pub init : Endpoint
init = record { channel = Channel.init; sockfd = none; opened = []; closed = [] }

abbrev pub descriptor : Option ℕ → List ℕ
descriptor none = []
descriptor (some fd) = fd ∷ []

-- `::close(sockfd_); sockfd_ = -1;`
abbrev pub close_socket : Endpoint → Endpoint
close_socket e = record e { sockfd = none; closed = e.closed ++ descriptor e.sockfd }

-- The connection stands, and the reader thread is started.
abbrev pub established : Endpoint → Bool × Endpoint
established e = (true, record e { channel = connect e.channel })

abbrev pub give_up : Endpoint → Bool × Endpoint
give_up e = (false, close_socket e)

-- `poll` and `getsockopt`, where the connection is in progress.
abbrev pub await : Kernel → Endpoint → Bool × Endpoint
await k e =
    if k.writable_in_time then if k.so_error == 0 then established e else give_up e else give_up e

abbrev pub on_connect : Kernel → ConnectResult → Endpoint → Bool × Endpoint
on_connect k at_once e = established e
on_connect k in_progress e = await k e
on_connect k refused e = give_up e

abbrev pub on_socket : Kernel → Option ℕ → Endpoint → Bool × Endpoint
on_socket k none e = (false, record e { sockfd = none })
on_socket k (some fd) e =
    on_connect k k.connects (record e { sockfd = some fd; opened = e.opened ++ (fd ∷ []) })

-- `RpcChannel::connect`, with its result.
unfoldable pub open_connection : Kernel → Endpoint → Bool × Endpoint
open_connection k e = on_socket k k.socket e

-- `RpcChannel::disconnect`, that the destructor calls too.
unfoldable pub close_connection : Endpoint → Endpoint
close_connection e =
    if e.channel.connected then close_socket (record e { channel = disconnect e.channel }) else e

-- The caller connects and disconnects; the reader thread finds the connection lost, or the stream bad.
pub data Event : Type 0 where
  connects : Kernel → Event
  disconnects : Event
  loses : Event
  garbles : Event

unfoldable pub step : Event → Endpoint → Endpoint
step (connects k) e = (open_connection k e).1
step disconnects e = close_connection e
step loses e = record e { channel = connection_closed e.channel }
step garbles e = record e { channel = bad_stream e.channel }

abbrev pub run : List Event → Endpoint → Endpoint
run [] e = e
run (x ∷ xs) e = run xs (step x e)
