-- ===== src/Tests/Threads.antt =====
-- Runs of src/net/tcp_connection.cpp with calls from several threads.
use rpc_framework.Base.{ℕ, ◌⊎◌, ◌≡◌, refl, true, false, List, [], ◌∷◌, ◌++◌, arith}
use rpc_framework.Net.Buffer
use rpc_framework.Net.Buffer.ReadFd.{ReadResult, failed}
use rpc_framework.Net.Channel.{handle_event_with_guard}
use rpc_framework.Net.Channel.Dispatch
use rpc_framework.Net.EventLoop
use rpc_framework.Net.EventLoop.{run_in_loop, queue_in_loop, swap_functors, end_functors}
use rpc_framework.Net.Connection
use rpc_framework.Net.Connection.{
  WriteResult, wrote, would_block, connected, connection_established, connection_destroyed,
  handle_close, send_in_loop,
}
use rpc_framework.Net.Connection.Threads.{
  Event, sends, replies, forces_close, takes, drops, handles, swaps, calls_next, ends, Shared,
  established, references, run, step, send, handle_event, run_task,
}
use rpc_framework.Net.Connection.Threads.Lifetime.{run_untouched}
use rpc_framework.Net.Connection.Threads.Owning.{run_owning}
use rpc_framework.Net.Connection.Threads.Dangling.{lent, hung_up, call_dangles}
use rpc_framework.Net.Connection.Threads.Flow.{
  Flow, submits, writable, flow_run, IsFlowing, in_flight, submitted,
}
use rpc_framework.Net.Connection.Sending.{passed_on}
use rpc_framework.Net.Connection.Threads.Arrival.{flow_order}
use rpc_framework.Net.Connection.Threads.Delivery.{round, round_delivers}

abbrev no_read : ℕ → ReadResult
no_read n = failed 11

-- Another thread sends and keeps its pointer until the functor has run; the peer hangs up in between.
abbrev careful : List Event
careful =
    takes
    ∷ sends false (1 ∷ 2 ∷ []) (wrote 2)
    ∷ handles no_read would_block hung_up
    ∷ swaps
    ∷ calls_next (wrote 2)
    ∷ ends
    ∷ drops
    ∷ []

run_untouched_example :
    ((run careful established).touched ≡ false)
    × (((run careful established).destroyed ≡ false) ⊎ (references (run careful established) ≡ 0))
unfolding step established send handle_event Dispatch.handle_event Dispatch.callbacks
    handle_event_with_guard handle_close connection_destroyed connection_established Connection.init
    run_in_loop queue_in_loop swap_functors end_functors run_task send_in_loop EventLoop.init
run_untouched_example =
    run_untouched careful (tt, (tt, (tt, (tt, (tt, (tt, (λ b. absurd (omega arith), tt)))))))

call_dangles_example :
    let rest : List Event =
      drops ∷ handles no_read would_block hung_up ∷ swaps ∷ calls_next would_block ∷ [] in
    ((run
        (sends false (7 ∷ []) would_block ∷ rest)
        (lent (connection_established Connection.init))).touched
      ≡ true)
    × ((run (Event.shuts_down false ∷ rest) (lent (connection_established Connection.init))).touched
        ≡ true)
unfolding connection_established Connection.init
call_dangles_example =
    call_dangles (7 ∷ []) no_read would_block (connection_established Connection.init) refl refl

-- The connection waits to write, and its output buffer is small.
abbrev busy : Shared
busy =
    record (lent (record Connection.init {
      state = connected;
      writing = true;
      output_buf = record {
        buf = 0 ∷ 0 ∷ 0 ∷ 0 ∷ 0 ∷ 0 ∷ 0 ∷ 0 ∷ 0 ∷ 0 ∷ [];
        read_idx = 8;
        write_idx = 8;
      };
    })) { holders = 2 }

busy-IsFlowing : IsFlowing busy
unfolding Connection.init EventLoop.init
busy-IsFlowing = record {
  is_open = record { valid = omega arith; open_state = refl; idle = λ f. cc };
  alive = refl;
  listed = refl;
  pending_sends = tt;
  batch_sends = tt;
  between = λ c. refl;
}

-- Two threads send, and the socket takes one byte.
abbrev traffic : List Flow
traffic =
    submits (1 ∷ 2 ∷ [])
    ∷ Flow.swaps
    ∷ submits (3 ∷ [])
    ∷ Flow.calls_next would_block
    ∷ Flow.ends
    ∷ writable (wrote 1)
    ∷ []

flow_order_example :
    IsFlowing (flow_run traffic busy)
    × (in_flight (flow_run traffic busy) ≡ in_flight busy ++ submitted traffic busy)
unfolding Connection.init step send run_in_loop queue_in_loop swap_functors end_functors run_task
    EventLoop.init send_in_loop handle_event Dispatch.handle_event Dispatch.callbacks
    handle_event_with_guard Buffer.append Buffer.readable Buffer.copy_in Buffer.ensure_writable
    Buffer.has_written Buffer.writable
flow_order_example =
    flow_order traffic busy-IsFlowing (tt, (tt, (tt, (tt, (tt, (omega arith, tt)))))) (omega arith)

-- Two functors wait.
abbrev sending : List Flow
sending = submits (1 ∷ 2 ∷ []) ∷ submits (3 ∷ []) ∷ []

sending-IsFlowing : IsFlowing (flow_run sending busy)
unfolding Connection.init step send run_in_loop queue_in_loop EventLoop.init
sending-IsFlowing = (flow_order sending busy-IsFlowing (tt, (tt, tt)) (omega arith)).0

round_delivers_example :
    let t = flow_run (round (would_block ∷ would_block ∷ [])) (flow_run sending busy) in
    (passed_on t.connection ≡ in_flight (flow_run sending busy))
    × (t.loop.pending_functors ≡ [])
    × (t.batch ≡ [])
unfolding Connection.init step send run_in_loop queue_in_loop swap_functors end_functors run_task
    EventLoop.init send_in_loop
round_delivers_example =
    round_delivers (would_block ∷ would_block ∷ []) (flow_run sending busy) sending-IsFlowing refl
      refl (tt, (tt, (tt, (tt, tt)))) (omega arith)

-- A worker answers and lets its pointer go, and another thread closes the connection, while the peer
-- hangs up.
abbrev answering : List Event
answering =
    takes
    ∷ replies false (1 ∷ []) (wrote 1)
    ∷ forces_close false
    ∷ drops
    ∷ handles no_read would_block hung_up
    ∷ swaps
    ∷ calls_next (wrote 1)
    ∷ calls_next (wrote 1)
    ∷ ends
    ∷ []

run_owning_example :
    ((run answering established).touched ≡ false)
    × (((run answering established).destroyed ≡ false)
        ⊎ (references (run answering established) ≡ 0))
run_owning_example = run_owning answering refl
