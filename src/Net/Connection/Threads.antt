-- ===== src/Net/Connection/Threads.antt =====
-- Calls on a connection from any thread (src/net/tcp_connection.cpp), the functors that they queue in the
-- loop (src/net/event_loop.cpp), and what keeps the object: the server's map (src/net/tcp_server.cpp),
-- the application's pointers, and the functors that capture one. The functors of `send` and `shutdown`
-- capture a bare `this`, the one of `force_close` a `shared_ptr`.
pub mod Held
pub mod Lifetime
pub mod Owning
pub mod Dangling
pub mod Flow
pub mod Passing
pub mod Arrival
pub mod Delivery
use rpc_framework.Base.{
  ℕ, ◌+◌, ◌-◌, Bool, true, false, not, ◌||◌, List, [], ◌∷◌, ◌++◌, Option, none, some, Byte, ltb,
  ◌==◌, if◌then◌else◌,
}
use rpc_framework.Net.Buffer.{Buffer, retrieve_all_as_string}
use rpc_framework.Net.Buffer.ReadFd.{ReadResult}
use rpc_framework.Net.Channel.{Revents}
use rpc_framework.Net.Channel.Dispatch
use rpc_framework.Net.EventLoop
use rpc_framework.Net.EventLoop.{EventLoop, queue_in_loop, run_in_loop, swap_functors, end_functors}
use rpc_framework.Net.Connection
use rpc_framework.Net.Connection.{
  Connection, disconnecting, is_connected, is_disconnecting, WriteResult, send_in_loop,
  shutdown_in_loop, run_queued, connection_established,
}
use rpc_framework.Net.Connection.Closing.Fate.{closed_now}

-- A functor in the queue: `send_in_loop` on a copy of the data, `shutdown_in_loop`, `handle_close`, and
-- the one with which a worker of src/rpc/rpc_server.cpp sends a response, which captures a pointer.
pub data Task : Type 0 where
  send_task reply_task : List Byte → Task
  shutdown_task close_task : Task

-- `batch` are the functors that `do_pending_functors` has still to call, `spent` those that it has
-- called, which live to its end. `in_map` says that the server's map has the connection, `holders` how
-- many pointers the application holds. `destroyed` says that the destructor has run, `touched` that
-- a member function has been called since.
pub record Shared : Type 0 where
  pub connection : Connection
  pub loop : EventLoop Task
  pub batch : List Task
  pub spent : List Task
  pub tied : Bool
  pub in_map : Bool
  pub holders : ℕ
  pub destroyed : Bool
  pub touched : Bool

-- As `TcpServer::new_connection` leaves it: `connection_established` has tied the channel.
unfoldable pub established : Shared
established = record {
  connection = connection_established Connection.init;
  loop = EventLoop.init;
  batch = [];
  spent = [];
  tied = true;
  in_map = true;
  holders = 0;
  destroyed = false;
  touched = false;
}

-- The functors that hold a pointer.
abbrev pub owning : List Task → ℕ
owning [] = 0
owning (close_task ∷ ts) = owning ts + 1
owning (reply_task xs ∷ ts) = owning ts + 1
owning (_ ∷ ts) = owning ts

-- `use_count()`.
abbrev pub references : Shared → ℕ
references s =
    (if s.in_map then 1 else 0)
    + s.holders
    + owning s.loop.pending_functors
    + owning s.batch
    + owning s.spent

-- The last pointer has gone.
abbrev pub release : Shared → Shared
release s = if references s == 0 then record s { destroyed = true } else s

-- A member function runs, and the close callback, if it runs, removes the connection from the map.
abbrev pub update : (Connection → Connection) → Shared → Shared
update f s = record s {
  connection = f s.connection;
  in_map = if closed_now s.connection (f s.connection) then false else s.in_map;
}

abbrev pub work : Task → WriteResult → Connection → Connection
work (send_task xs) r c = send_in_loop xs r c
work shutdown_task r c = shutdown_in_loop c
work close_task r c = run_queued c
work (reply_task xs) r c = Connection.send xs r c

-- The loop calls a functor.
unfoldable pub run_task : Task → WriteResult → Shared → Shared
run_task t r s = if s.destroyed then record s { touched = true } else update (work t r) s

abbrev pub run_now : Option Task → WriteResult → Shared → Shared
run_now none r s = s
run_now (some t) r s = run_task t r s

-- `loop_->run_in_loop`.
abbrev pub pass_on : Bool → Task → WriteResult → Shared → Shared
pass_on in_thread t r s =
    let (now, l) = run_in_loop in_thread t s.loop in run_now now r (record s { loop = l })

-- `send` of a string.
unfoldable pub send : Bool → List Byte → WriteResult → Shared → Shared
send in_thread xs r s =
    if is_connected s.connection.state
    then if in_thread then update (send_in_loop xs r) s else pass_on in_thread (send_task xs) r s
    else s

-- `send` of a buffer, with what it leaves in the buffer.
unfoldable pub send_buffer : Bool → Buffer → WriteResult → Shared → Buffer × Shared
send_buffer in_thread buf r s =
    if is_connected s.connection.state
    then (let (xs, rest) = retrieve_all_as_string buf in
        (rest, pass_on in_thread (send_task xs) r s))
    else (buf, s)

-- `shutdown`; the functor writes nothing.
unfoldable pub shutdown : Bool → Shared → Shared
shutdown in_thread s =
    if is_connected s.connection.state
    then pass_on in_thread shutdown_task WriteResult.would_block
        (record s { connection = record s.connection { state = disconnecting } })
    else s

unfoldable pub force_close : Bool → Shared → Shared
force_close in_thread s =
    if is_connected s.connection.state || is_disconnecting s.connection.state
    then record s {
      connection = Connection.force_close s.connection;
      loop = queue_in_loop in_thread close_task s.loop;
    }
    else s

-- The end of `RpcServer::dispatch_request`: `run_in_loop` with the response.
unfoldable pub reply : Bool → List Byte → WriteResult → Shared → Shared
reply in_thread xs r s = pass_on in_thread (reply_task xs) r s

-- `Channel::handle_event`: `tie_.lock()` finds the object as long as it has not been destroyed.
unfoldable pub handle_event : (ℕ → ReadResult) → WriteResult → Revents → Shared → Shared
handle_event readv write r s =
    let f : Connection → Connection = Dispatch.handle_event readv write r in
    if s.tied then if s.destroyed then s else update f s else update f s

-- What the threads do. A Boolean is `is_in_loop_thread()`.
pub data Event : Type 0 where
  sends replies : Bool → List Byte → WriteResult → Event
  sends_buffer : Bool → Buffer → WriteResult → Event
  shuts_down forces_close : Bool → Event
  takes drops : Event
  handles : (ℕ → ReadResult) → WriteResult → Revents → Event
  swaps ends : Event
  calls_next : WriteResult → Event

-- Another thread calls through a pointer that it holds, the loop while the object lives.
abbrev may_call : Bool → Shared → Bool
may_call true s = not s.destroyed
may_call false s = ltb 0 s.holders

abbrev by_caller : Bool → (Shared → Shared) → Shared → Shared
by_caller in_thread f s = if may_call in_thread s then f s else s

-- `do_pending_functors` calls the next functor.
abbrev next_task : List Task → WriteResult → Shared → Shared
next_task [] r s = s
next_task (t ∷ ts) r s = run_task t r (record s { batch = ts; spent = s.spent ++ (t ∷ []) })

abbrev ended : List Task → Shared → Shared
ended [] s = record s { loop = end_functors s.loop; spent = [] }
ended (t ∷ ts) s = s

-- What an event does where it can happen: an application takes a pointer in a callback or copies its
-- own, and epoll reports a channel as long as it is registered.
abbrev pub act : Event → Shared → Shared
act (sends b xs r) s = by_caller b (send b xs r) s
act (replies b xs r) s = by_caller b (reply b xs r) s
act (sends_buffer b buf r) s = by_caller b (λ t. (send_buffer b buf r t).1) s
act (shuts_down b) s = by_caller b (shutdown b) s
act (forces_close b) s = by_caller b (force_close b) s
act takes s = if s.destroyed then s else record s { holders = s.holders + 1 }
act drops s = record s { holders = s.holders - 1 }
act (handles readv write r) s =
    if s.connection.removed || s.loop.calling_pending_functors
    then s
    else handle_event readv write r s
act swaps s =
    if s.loop.calling_pending_functors
    then s
    else (let (fs, l) = swap_functors s.loop in record s { loop = l; batch = fs; spent = [] })
act (calls_next r) s = next_task s.batch r s
act ends s = ended s.batch s

unfoldable pub step : Event → Shared → Shared
step e s = release (act e s)

abbrev pub run : List Event → Shared → Shared
run [] s = s
run (e ∷ es) s = run es (step e s)
