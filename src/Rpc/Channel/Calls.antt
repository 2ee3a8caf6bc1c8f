-- ===== src/Rpc/Channel/Calls.antt =====
-- The threads of src/rpc/rpc_channel.cpp as steps: any number of callers and of reader threads.
pub mod Places
use rpc_framework.Base.{ℕ, ◌≡◌, Bool, false, Option, none, some, length}
use rpc_framework.Base.Map.{find, nat_eq}
use rpc_framework.Rpc.Messages.{RpcResponse}
use rpc_framework.Rpc.Channel.{
  RpcChannel, init, refuse_call, take_id, register, write_failed, take_call, finish_call,
  connection_closed, bad_stream, stop_reading, disconnect, connect,
}
use rpc_framework.Rpc.Channel.Calls.Places.{moved}

-- Where the thread that makes a call stands in `CallMethod`: before it, between taking the id and the
-- registration, between that and the write, behind the write, and behind a write that failed.
pub data Place : Type 0 where
  outside : Place
  numbered registered sent : (id : ℕ) → Place
  unsent : Place

-- `callers` says where the caller of each call stands. `answers` is the response with which a reader
-- thread stands in `on_message`, between taking the call out of the map and the end.
pub record Threads : Type 0 where
  pub channel : RpcChannel
  pub callers : ℕ → Place
  pub answers : ℕ → Option RpcResponse

abbrev pub start : Threads
start = record { channel = init; callers = λ k. outside; answers = λ k. none }

-- Any caller may move whenever it stands where it can, and every write may fail, whatever has come in
-- before. Responses come when they like, and so do the ends of reader threads: which of them run is left
-- open, so that this has every schedule of those that each `connect` starts, and more. A response to an
-- id that is not registered changes nothing, and is no step.
pub data Step (s : Threads) : Threads → Type 0 where
  refuses :
      (has_done : Bool)
      → s.channel.connected ≡ false
      → Step s (record s { channel = refuse_call has_done s.channel })
  takes_id :
      (has_done : Bool)
      → Step s (record s {
        channel = take_id has_done s.channel;
        callers = moved (length s.channel.calls) (numbered s.channel.next_request_id) s.callers;
      })
  registers :
      (id k : ℕ)
      → s.callers k ≡ numbered id
      → Step s (record s {
        channel = register id k s.channel;
        callers = moved k (registered id) s.callers;
      })
  writes :
      (id k : ℕ)
      → s.callers k ≡ registered id
      → Step s (record s { callers = moved k (sent id) s.callers })
  fails_write :
      (id k : ℕ)
      → s.callers k ≡ registered id
      → Step s
          (record s { channel = write_failed id k s.channel; callers = moved k unsent s.callers })
  takes_call :
      (resp : RpcResponse) (k : ℕ)
      → find resp.request_id s.channel.pending_calls ≡ some k
      → Step s (record s {
        channel = take_call resp.request_id s.channel;
        answers = moved k (some resp) s.answers;
      })
  finishes :
      (resp : RpcResponse) (k : ℕ)
      → s.answers k ≡ some resp
      → Step s
          (record s { channel = finish_call resp k s.channel; answers = moved k none s.answers })
  closes : Step s (record s { channel = connection_closed s.channel })
  garbles : Step s (record s { channel = bad_stream s.channel })
  stops : Step s (record s { channel = stop_reading s.channel })
  disconnects : Step s (record s { channel = disconnect s.channel })
  connects : Step s (record s { channel = connect s.channel })

pub data Reach (s : Threads) : Threads → Type 0 where
  here : Reach s s
  later : {t u : Threads} → Reach s t → Step t u → Reach s u
