-- ===== src/Net/Connection/Threads/Flow.antt =====
-- What other threads do to a connection (src/net/tcp_connection.cpp) while data flows, with its queue in the
-- loop (src/net/event_loop.cpp).
use rpc_framework.Base.{
  ℕ, ◌+◌, ◌≡◌, true, false, List, [], ◌∷◌, ◌++◌, length, Byte, ltb, if◌then◌else◌,
}
use rpc_framework.Net.Buffer.{Buffer, readable, retrieve_all_as_string}
use rpc_framework.Net.Channel.{Revents}
use rpc_framework.Net.Buffer.ReadFd.{failed}
use rpc_framework.Net.Connection.{WriteResult}
use rpc_framework.Net.Connection.Sending.{IsOpen, passed_on, Took}
use rpc_framework.Net.Connection.Threads
use rpc_framework.Net.Connection.Threads.{
  Task, send_task, shutdown_task, close_task, Shared, references, release, update, work, run_task,
  pass_on, send, send_buffer, handle_event, Event, may_call, by_caller, next_task, ended, act, step,
  run,
}

-- What other threads, the application's pointers, the socket and the loop do while data flows.
pub data Flow : Type 0 where
  submits : List Byte → Flow
  submits_buffer : Buffer → Flow
  takes drops swaps ends : Flow
  writable calls_next : WriteResult → Flow

abbrev pub writable_only : Revents
writable_only = record {
  hup = false;
  in_ = false;
  err = false;
  pri = false;
  rdhup = false;
  out = true;
}

abbrev pub event : Flow → Event
event (submits xs) = Threads.sends false xs WriteResult.would_block
event (submits_buffer buf) = Threads.sends_buffer false buf WriteResult.would_block
event takes = Threads.takes
event drops = Threads.drops
event swaps = Threads.swaps
event ends = Threads.ends
event (writable r) = Threads.handles (λ n. failed 0) r writable_only
event (calls_next r) = Threads.calls_next r

abbrev pub flow_step : Flow → Shared → Shared
flow_step e s = step (event e) s

abbrev pub flow_run : List Flow → Shared → Shared
flow_run [] s = s
flow_run (e ∷ es) s = flow_run es (flow_step e s)

-- A thread that holds no pointer sends nothing.
abbrev pub news : Flow → Shared → List Byte
news (submits xs) s = if ltb 0 s.holders then xs else []
news (submits_buffer buf) s = if ltb 0 s.holders then (retrieve_all_as_string buf).0 else []
news _ s = []

-- All that the other threads send, in the order of their calls.
abbrev pub submitted : List Flow → Shared → List Byte
submitted [] s = []
submitted (e ∷ es) s = news e s ++ submitted es (flow_step e s)

-- The bytes that queued functors carry.
abbrev pub carried : List Task → List Byte
carried [] = []
carried (send_task xs ∷ ts) = xs ++ carried ts
carried (_ ∷ ts) = carried ts

abbrev pub OnlySends : List Task → Type 0
OnlySends [] = Unit {0}
OnlySends (send_task xs ∷ ts) = OnlySends ts
OnlySends (_ ∷ ts) = ⊥

-- The socket takes no more than it is given and does not fail.
abbrev pub TookNext : WriteResult → List Task → Type 0
TookNext r [] = Unit {0}
TookNext r (send_task xs ∷ ts) = Took r (length xs)
TookNext r (_ ∷ ts) = Unit {0}

abbrev pub TookEvent : Flow → Shared → Type 0
TookEvent (writable r) s = Took r (readable s.connection.output_buf)
TookEvent (calls_next r) s = TookNext r s.batch
TookEvent _ s = Unit {0}

abbrev pub Takes : List Flow → Shared → Type 0
Takes [] s = Unit {0}
Takes (e ∷ es) s = TookEvent e s × Takes es (flow_step e s)

-- An open connection in the server's map, on which nothing but data is queued.
pub record IsFlowing (s : Shared) : Type 0 where
  pub is_open : IsOpen s.connection
  pub alive : s.destroyed ≡ false
  pub listed : s.in_map ≡ true
  pub pending_sends : OnlySends s.loop.pending_functors
  pub batch_sends : OnlySends s.batch
  pub between : s.loop.calling_pending_functors ≡ false → s.batch ≡ []

-- On the wire, in the output buffer, in the functors of this round and in those that wait.
abbrev pub in_flight : Shared → List Byte
in_flight s = passed_on s.connection ++ (carried s.batch ++ carried s.loop.pending_functors)

abbrev pub load : Shared → ℕ
load s =
    s.connection.output_buf.write_idx + length (carried s.batch ++ carried s.loop.pending_functors)
