-- ===== src/Rpc/Session.antt =====
-- One connection of a server, from the bytes that arrive to the responses that leave:
-- `TcpConnection::handle_read` (src/net/tcp_connection.cpp) calls `RpcServer::on_message`, that calls
-- `Codec::on_message` (src/codec/codec.cpp), and that `RpcServer::on_frame` for each frame
-- (src/rpc/rpc_server.cpp). A worker hands its response to the loop, which sends it.
pub mod Replies
pub mod Conserved
pub mod Ordered
pub mod Arrived
pub mod Served
pub mod Returned
use rpc_framework.Base.{
  ℕ, suc, Bool, true, false, List, [], ◌∷◌, ◌++◌, Option, none, some, Byte, get_elem?,
  if◌then◌else◌,
}
use rpc_framework.Base.Update.{remove_at}
use rpc_framework.Net.Buffer.{Buffer, retrieve_all_as_string}
use rpc_framework.Net.Buffer.ReadFd.{ReadResult, bytes, failed}
use rpc_framework.Net.Connection
use rpc_framework.Net.Connection.{
  Connection, WriteResult, handle_read, handle_write, connection_established,
}
use rpc_framework.Codec
use rpc_framework.Codec.{Codec, Action, deliver, report, force_close, Run}
use rpc_framework.Rpc.Messages.{RpcRequest, RpcResponse, Serializer}
use rpc_framework.Rpc.Server.{
  Services, Job, FrameResult, dropped, reply, submit, on_frame, dispatch_request,
}

-- `jobs` are with the worker pool; `queued` are the responses whose functors wait in the loop.
-- `frames` are those that `on_frame` has been called with, and `replied` the responses that
-- `Codec::send` has been called with, in order.
pub record Session (M : Type 0) : Type 0 where
  pub conn : Connection
  pub jobs : List (Job M)
  pub queued : List RpcResponse
  pub frames : List (List Byte)
  pub replied : List RpcResponse

unfoldable pub init : {M : Type 0} → Session M
init = record {
  conn = connection_established Connection.init;
  jobs = [];
  queued = [];
  frames = [];
  replied = [];
}

-- `RpcServer` gives its codec no error callback.
abbrev pub codec : Codec
codec = record { has_err_cb = false }

-- What happens to a connection: a read, a worker is done with a job, the loop runs a functor, the
-- socket can be written. The results of the writes that a read leads to are given in order.
pub data Event : Type 0 where
  arrives : ReadResult → (ℕ → WriteResult) → Event
  works : ℕ → Event
  runs_functor : WriteResult → Event
  writable : WriteResult → Event

module _ {M : Type 0} (requests : Serializer RpcRequest) (responses : Serializer RpcResponse)
    (services : Services M) where
  -- `SerializeToString` of a response.
  abbrev pub serialized : RpcResponse → Option (List Byte)
  serialized resp = if (responses.serialize resp).0 then some (responses.serialize resp).1 else none

  -- `TcpConnection::send` with the buffer of `Codec::send`, in the thread of the loop.
  abbrev pub send_buffer : Option Buffer → WriteResult → Connection → Connection
  send_buffer none r c = c
  send_buffer (some b) r c = Connection.send (retrieve_all_as_string b).0 r c

  -- `Codec::send(conn, resp)`
  abbrev pub respond : RpcResponse → WriteResult → Session M → Session M
  respond resp r s = record s {
    conn = send_buffer (Codec.send serialized resp) r s.conn;
    replied = s.replied ++ (resp ∷ []);
  }

  abbrev pub on_result : FrameResult M → WriteResult → Session M → Session M
  on_result dropped r s = s
  on_result (reply resp) r s = respond resp r s
  on_result (submit job) r s = record s { jobs = s.jobs ++ (job ∷ []) }

  -- One call that `Codec::on_message` makes.
  abbrev pub perform : Action → WriteResult → Session M → Session M
  perform (deliver frame) r s =
      on_result (on_frame requests services frame) r
        (record s { frames = s.frames ++ (frame ∷ []) })
  perform (report why) r s = s
  perform force_close r s = record s { conn = Connection.force_close s.conn }

  abbrev pub perform_all : List Action → (ℕ → WriteResult) → Session M → Session M
  perform_all [] ws s = s
  perform_all (a ∷ actions) ws s = perform_all actions (λ n. ws (suc n)) (perform a (ws 0) s)

  -- The message callback, once `handle_read` has stored what it read.
  abbrev pub on_bytes : Connection → (ℕ → WriteResult) → Session M → Session M
  on_bytes c ws s =
      let run : Run = Codec.on_message codec c.input_buf in
      perform_all run.actions ws (record s { conn = record c { input_buf = run.buffer } })

  -- `handle_read` calls the message callback if it has read something.
  abbrev pub read_result : ReadResult → Connection → (ℕ → WriteResult) → Session M → Session M
  read_result (bytes []) c ws s = record s { conn = c }
  read_result (bytes (x ∷ xs)) c ws s = on_bytes c ws s
  read_result (failed e) c ws s = record s { conn = c }

  -- A worker runs `dispatch_request` and hands the response to the loop.
  abbrev pub on_job : ℕ → Option (Job M) → Session M → Session M
  on_job k none s = s
  on_job k (some job) s = record s {
    jobs = remove_at k s.jobs;
    queued = s.queued ++ (dispatch_request job ∷ []);
  }

  -- The loop runs the functor at the front of its queue.
  abbrev pub run_front : List RpcResponse → WriteResult → Session M → Session M
  run_front [] r s = s
  run_front (resp ∷ rest) r s = respond resp r (record s { queued = rest })

  unfoldable pub step : Event → Session M → Session M
  step (arrives r ws) s = read_result r (handle_read (λ n. r) s.conn) ws s
  step (works k) s = on_job k (get_elem? s.jobs k) s
  step (runs_functor r) s = run_front s.queued r s
  step (writable r) s = record s { conn = handle_write r s.conn }

  abbrev pub run : List Event → Session M → Session M
  run [] s = s
  run (e ∷ es) s = run es (step e s)
