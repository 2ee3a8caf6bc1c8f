-- ===== src/Rpc/Channel.antt =====
-- include/rpc/rpc_channel.h and src/rpc/rpc_channel.cpp: the client side. The state is what the
-- mutex `mu_` guards. A `PendingCall` is shared by the thread that made the call and the map, so the
-- calls lie in a list in the order in which they were made, and the map holds places in it. Each
-- function is one stretch of code that no other thread can see half done, but `begin_call` and
-- `on_response`, which put two such together for a run without other threads; a schedule of the
-- stretches is given by `Step` in Rpc/Channel/Calls. The sockets are the kernel's: their results are
-- arguments.
pub mod Calls
pub mod Registered
pub mod Once
pub mod Lost
pub mod Routing
pub mod Reader
pub mod Socket
use rpc_framework.Base.{
  ℕ, ◌+◌, ◌%◌, ◌≡◌, Bool, true, false, List, [], ◌∷◌, ◌++◌, Option, none, some, length, Byte,
  u32_mod, if◌then◌else◌, map,
}
use rpc_framework.Base.Map.{find, put, erase, nat_eq}
use rpc_framework.Base.Update.{modify}
use rpc_framework.Base.Text.{codes}
use rpc_framework.Codec.{htonl, magic_number}
use rpc_framework.Rpc.Messages.{RpcRequest, RpcResponse, Serializer}
use rpc_framework.Rpc.Controller
use rpc_framework.Rpc.Controller.{Controller, set_failed}

-- `PendingCall` with the caller's objects that it points to. Of the response message only the bytes
-- that it was last asked to parse are kept, and of the closure whether there is one and how often it
-- was run.
pub record Call : Type 0 where
  pub controller : Controller
  pub response : Option (List Byte)
  pub has_done : Bool
  pub done_flag : Bool
  pub runs : ℕ

-- `reading` says that the reader thread of `connect` still runs.
pub record RpcChannel : Type 0 where
  pub connected : Bool
  pub reading : Bool
  pub next_request_id : ℕ
  pub calls : List Call
  pub pending_calls : List (ℕ × ℕ)

abbrev pub init : RpcChannel
init = record {
  connected = false;
  reading = false;
  next_request_id = 1;
  calls = [];
  pending_calls = [];
}

abbrev pub new_call : Bool → Call
new_call has_done = record {
  controller = Controller.init;
  response = none;
  has_done = has_done;
  done_flag = false;
  runs = 0;
}

-- `if (done) done->Run();`
abbrev pub run_done : Call → Call
run_done c = if c.has_done then record c { runs = c.runs + 1 } else c

abbrev pub fail : List Byte → Call → Call
fail reason c = record c { controller = set_failed reason c.controller }

-- `CallMethod` where `is_connected` is false.
pub refuse_call : Bool → RpcChannel → RpcChannel
refuse_call has_done s = record s {
  calls = s.calls ++ (run_done (fail (codes "not connected") (new_call has_done)) ∷ []);
}

-- `CallMethod` up to the registration: the id is taken.
unfoldable pub take_id : Bool → RpcChannel → RpcChannel
take_id has_done s = record s {
  next_request_id = (s.next_request_id + 1) % u32_mod;
  calls = s.calls ++ (new_call has_done ∷ []);
}

-- `CallMethod` under the mutex: the call `k` is registered under its id.
unfoldable pub register : ℕ → ℕ → RpcChannel → RpcChannel
register id k s = record s { pending_calls = put id k s.pending_calls }

-- `CallMethod` up to the write, where no other thread comes between.
unfoldable pub begin_call : Bool → RpcChannel → RpcChannel
unfolding take_id register
begin_call has_done s = register s.next_request_id (length s.calls) (take_id has_done s)

-- The bytes that `CallMethod` writes.
pub wire : List Byte → List Byte
wire body = htonl magic_number ++ (htonl (length body % u32_mod) ++ body)

abbrev pub make_request : List Byte → List Byte → List Byte → ℕ → RpcRequest
make_request service method args id = record {
  service_name = service;
  method_name = method;
  request_id = id;
  args_data = args;
}

-- The result of `SerializeToString` is not looked at.
abbrev pub request_body : Serializer RpcRequest → RpcRequest → List Byte
request_body p req = (p.serialize req).1

-- `CallMethod` behind a failed write.
unfoldable pub write_failed : ℕ → ℕ → RpcChannel → RpcChannel
write_failed id k s = record s {
  calls = modify k (λ c. run_done (fail (codes "write failed") c)) s.calls;
  pending_calls = erase id s.pending_calls;
}

-- What a response does to the call that it belongs to.
abbrev pub settle : RpcResponse → Call → Call
settle resp c =
    run_done
      (record (if resp.success
        then record c { response = some resp.result_data }
        else fail resp.error_msg c) { done_flag = true })

-- `on_message` under the mutex: the call is taken out of the map.
unfoldable pub take_call : ℕ → RpcChannel → RpcChannel
take_call id s = record s { pending_calls = erase id s.pending_calls }

-- The rest of `on_message`, without it.
unfoldable pub finish_call : RpcResponse → ℕ → RpcChannel → RpcChannel
finish_call resp k s = record s { calls = modify k (settle resp) s.calls }

-- `on_message` with what it has parsed, where no other thread comes between.
unfoldable pub on_response : RpcResponse → RpcChannel → RpcChannel
unfolding take_call finish_call
on_response resp s = elim (find resp.request_id s.pending_calls) [
  | none ↦ s
  | some k ↦ finish_call resp k (take_call resp.request_id s)
]

pub on_message : Serializer RpcResponse → List Byte → RpcChannel → RpcChannel
unfolding on_response
on_message p frame s = elim (p.parse frame) [ none ↦ s | some resp ↦ on_response resp s ]

abbrev pub lose : Call → Call
lose c = record (fail (codes "connection closed") c) { done_flag = true }

-- The loop over `pending_calls_`.
unfoldable pub lose_all : List (ℕ × ℕ) → List Call → List Call
lose_all [] calls = calls
lose_all ((id, k) ∷ pending) calls = lose_all pending (modify k lose calls)

-- The reader thread when a read returns no bytes.
unfoldable pub connection_closed : RpcChannel → RpcChannel
unfolding lose_all
connection_closed s = record s {
  connected = false;
  reading = false;
  calls = lose_all s.pending_calls s.calls;
}

-- The reader thread when it finds a wrong magic number: it ends.
unfoldable pub bad_stream : RpcChannel → RpcChannel
bad_stream s = record s { connected = false; reading = false }

-- The reader thread when the test of its loop finds the channel disconnected.
pub stop_reading : RpcChannel → RpcChannel
stop_reading s = record s { reading = false }

-- `disconnect`: the socket is shut down and closed if the channel was connected.
unfoldable pub disconnect : RpcChannel → RpcChannel
disconnect s = if s.connected then record s { connected = false } else s

-- `connect` when the socket calls succeed: the reader thread is started.
unfoldable pub connect : RpcChannel → RpcChannel
connect s = record s { connected = true; reading = true }
