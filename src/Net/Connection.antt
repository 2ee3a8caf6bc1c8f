-- ===== src/Net/Connection.antt =====
-- include/net/tcp_connection.h and src/net/tcp_connection.cpp: one connection, as the thread of its
-- loop runs it. The socket is the kernel's: each function that reads or writes it takes the result.
-- The callbacks of the application are recorded in order. Of the channel the two interests and its
-- registration are kept; what is queued in the loop is kept as a count, since only `handle_close` is.
pub mod Sending
pub mod Order
pub mod Closing
pub mod Input
pub mod Threads
use rpc_framework.Base.{
  ℕ, ◌+◌, ◌-◌, Bool, true, false, ◌&&◌, ◌||◌, not, List, [], ◌∷◌, ◌++◌, length, take, drop, Byte,
  ltb, ◌==◌, if◌then◌else◌,
}
use rpc_framework.Net.Buffer
use rpc_framework.Net.Buffer.{Buffer, readable, append, peek, retrieve, retrieve_all_as_string}
use rpc_framework.Net.Buffer.ReadFd.{ReadResult, bytes, failed, read_fd}

pub data State : Type 0 where
  connecting connected disconnecting disconnected : State

-- The callbacks, the connection callback with what `connected()` returns in it.
pub data Callback : Type 0 where
  connection : Bool → Callback
  message : Callback
  write_complete : Callback
  close : Callback

-- `wire` is what the kernel has taken for the peer, `shut` that its end has been announced.
pub record Connection : Type 0 where
  pub state : State
  pub reading : Bool
  pub writing : Bool
  pub input_buf : Buffer
  pub output_buf : Buffer
  pub queued_closes : ℕ
  pub removed : Bool
  pub wire : List Byte
  pub shut : Bool
  pub calls : List Callback

unfoldable pub init : Connection
init = record {
  state = connecting;
  reading = false;
  writing = false;
  input_buf = Buffer.init Buffer.initial_size;
  output_buf = Buffer.init Buffer.initial_size;
  queued_closes = 0;
  removed = false;
  wire = [];
  shut = false;
  calls = [];
}

-- What `::write` returns: a count, or an error that is EWOULDBLOCK or another.
pub data WriteResult : Type 0 where
  wrote : ℕ → WriteResult
  would_block broken : WriteResult

abbrev pub call : Callback → Connection → Connection
call c s = record s { calls = s.calls ++ (c ∷ []) }

abbrev pub is_connected : State → Bool
is_connected connected = true
is_connected _ = false

abbrev pub is_disconnecting : State → Bool
is_disconnecting disconnecting = true
is_disconnecting _ = false

abbrev pub is_disconnected : State → Bool
is_disconnected disconnected = true
is_disconnected _ = false

unfoldable pub connection_established : Connection → Connection
connection_established s = call (connection true) (record s { state = connected; reading = true })

-- The callback that `TcpServer` sets as `close_cb_` removes the connection from the server's map and
-- calls `connection_destroyed` at once, since `run_in_loop` runs in the thread of the loop.
unfoldable pub connection_destroyed : Connection → Connection
connection_destroyed s =
    let t : Connection =
      if is_connected s.state
      then call (connection false)
          (record s { state = disconnected; reading = false; writing = false })
      else s in
    record t { reading = false; writing = false; removed = true }

unfoldable pub handle_close : Connection → Connection
unfolding connection_destroyed
handle_close s = connection_destroyed (
    call close (
      call (connection false)
        (record s { state = disconnected; reading = false; writing = false })))

unfoldable pub handle_error : Connection → Connection
handle_error s = handle_close s

-- The end of `send_in_loop`: `written` bytes of `xs` have been written.
abbrev pub keep_rest : List Byte → ℕ → Connection → Connection
keep_rest xs written s = record s {
  output_buf = append (drop written xs) s.output_buf;
  wire = s.wire ++ take written xs;
  writing = true;
}

-- The direct write of the happy path.
unfoldable pub write_now : List Byte → WriteResult → Connection → Connection
unfolding handle_error
write_now xs broken s = handle_error s
write_now xs would_block s = keep_rest xs 0 s
write_now xs (wrote n) s =
    if n == length xs
    then call write_complete (record s { wire = s.wire ++ xs })
    else keep_rest xs n s

unfoldable pub send_in_loop : List Byte → WriteResult → Connection → Connection
unfolding write_now
send_in_loop xs r s =
    if is_disconnected s.state
    then s
    else if not s.writing && (readable s.output_buf == 0)
    then write_now xs r s
    else keep_rest xs 0 s

-- `send` in the thread of the loop.
unfoldable pub send : List Byte → WriteResult → Connection → Connection
send xs r s = if is_connected s.state then send_in_loop xs r s else s

unfoldable pub shutdown_in_loop : Connection → Connection
shutdown_in_loop s = if s.writing then s else record s { shut = true }

unfoldable pub shutdown : Connection → Connection
shutdown s =
    if is_connected s.state then shutdown_in_loop (record s { state = disconnecting }) else s

unfoldable pub force_close : Connection → Connection
force_close s =
    if is_connected s.state || is_disconnecting s.state
    then record s { state = disconnecting; queued_closes = s.queued_closes + 1 }
    else s

-- `handle_close` as the loop runs it from its queue.
unfoldable pub run_queued : Connection → Connection
unfolding handle_close
run_queued s =
    if s.queued_closes == 0
    then s
    else handle_close (record s { queued_closes = s.queued_closes - 1 })

unfoldable pub handle_read : (ℕ → ReadResult) → Connection → Connection
unfolding handle_close handle_error
handle_read readv s =
    let (r, b) = read_fd readv s.input_buf in
    elim r [
      | bytes [] ↦ handle_close (record s { input_buf = b })
      | bytes (x ∷ xs) ↦ call message (record s { input_buf = b })
      | failed e ↦ handle_error (record s { input_buf = b })
    ]

-- All that `handle_write` does once the buffer has been written out.
abbrev pub drained : Connection → Connection
drained s =
    let t : Connection = call write_complete (record s { writing = false }) in
    if is_disconnecting t.state then shutdown_in_loop t else t

pub handle_write : WriteResult → Connection → Connection
unfolding shutdown_in_loop
handle_write r s =
    if s.writing
    then elim r [
      | wrote n ↦
          if n == 0
          then s
          else (let t : Connection = record s {
            output_buf = retrieve n s.output_buf;
            wire = s.wire ++ peek s.output_buf n;
          } in
              if readable t.output_buf == 0 then drained t else t)
      | would_block ↦ s
      | broken ↦ s
    ]
    else s
