-- ===== src/Tests/Session.antt =====
-- A run of one connection of a server (src/rpc/rpc_server.cpp).
use mathlib.Core.List.{flatten}
use rpc_framework.Base.{ℕ, Byte, ◌+◌, ◌≡◌, refl, Bool, true, List, [], ◌∷◌, map, arith}
use rpc_framework.Net.Buffer
use rpc_framework.Net.Buffer.{contents}
use rpc_framework.Base.Slices.{write_at}
use rpc_framework.Base.Map.{put, find}
use rpc_framework.Net.Buffer.ReadFd.{bytes, read_fd, store_read}
use rpc_framework.Net.Connection
use rpc_framework.Net.Connection.{wrote, would_block}
use rpc_framework.Net.Connection.Sending.{passed_on}
use rpc_framework.Codec
use rpc_framework.Codec.{htonl}
use rpc_framework.Codec.Sending.{nothing-IsPartial}
use rpc_framework.Rpc.Messages.{RpcResponse}
use rpc_framework.Rpc.Server.{dispatch_request, on_frame}
use rpc_framework.Rpc.Session
use rpc_framework.Rpc.Session.{Event, arrives, works, runs_functor, writable, run}
use rpc_framework.Rpc.Session.Replies.{count, answers}
use rpc_framework.Rpc.Session.Ordered.{StaysOpen, outgoing}
use rpc_framework.Rpc.Channel
use rpc_framework.Rpc.Channel.{RpcChannel}
use rpc_framework.Rpc.Channel.Reader.Rounds.{read_loop, chunk, read_of}
use rpc_framework.Rpc.Session.Returned.{client_receives, Transmits, receive_responses}
use rpc_framework.Rpc.Session.Served.{session_serves}
use rpc_framework.Tests.Rpc.{services, requests, responses}

-- The frame of a request to double 21 comes in two pieces, a worker doubles it, and the loop sends
-- the response, of which the socket takes nothing yet.
abbrev events : List Event
events =
    arrives (bytes (202 ∷ 254 ∷ 186 ∷ [])) (λ n. would_block)
    ∷ arrives (bytes (190 ∷ 0 ∷ 0 ∷ 0 ∷ 2 ∷ 7 ∷ 21 ∷ [])) (λ n. would_block)
    ∷ works 0
    ∷ runs_functor would_block
    ∷ []

events-StaysOpen : StaysOpen requests responses services events Session.init
unfolding Session.init Session.step Connection.handle_read Connection.connection_established
    Connection.init Buffer.init read_fd store_read write_at Buffer.append Buffer.ensure_writable
    Buffer.has_written Buffer.copy_in Buffer.readable Buffer.writable Buffer.peek Buffer.peek_at
    Buffer.retrieve Buffer.retrieve_as_string Buffer.reset Buffer.retrieve_all_as_string
    Codec.on_message Codec.frame_loop Codec.examine on_frame dispatch_request Codec.send
    Codec.send_raw htonl put find
events-StaysOpen = (tt, ((tt, tt), (tt, ((tt, omega arith), tt))))

session_serves_example :
    let s = run requests responses services events Session.init in
    (s.frames ≡ (7 ∷ 21 ∷ []) ∷ [])
    × ((f : RpcResponse → Bool)
        → count f (answers requests services ((7 ∷ 21 ∷ []) ∷ []))
          ≡ count f s.replied + (count f s.queued + count f (map dispatch_request s.jobs)))
    × (passed_on s.conn ≡ outgoing requests responses services s.replied)
unfolding htonl flatten
session_serves_example =
    session_serves requests responses services events ((7 ∷ 21 ∷ []) ∷ []) events-StaysOpen
      (omega arith) nothing-IsPartial refl (omega arith)

-- The same with a socket that takes the whole response.
abbrev all_written : List Event
all_written =
    arrives (bytes (202 ∷ 254 ∷ 186 ∷ [])) (λ n. would_block)
    ∷ arrives (bytes (190 ∷ 0 ∷ 0 ∷ 0 ∷ 2 ∷ 7 ∷ 21 ∷ [])) (λ n. would_block)
    ∷ works 0
    ∷ runs_functor (wrote 10)
    ∷ []

-- The response is read in two pieces.
abbrev pieces : List (Byte × List Byte)
pieces = (202, 254 ∷ 186 ∷ 190 ∷ 0 ∷ []) ∷ (0, 0 ∷ 2 ∷ 7 ∷ 42 ∷ []) ∷ []

abbrev channel : RpcChannel
channel = record (Channel.init) { connected = true; reading = true; next_request_id = 7 }

all_written-StaysOpen : StaysOpen requests responses services all_written Session.init
unfolding Session.init Session.step Connection.handle_read Connection.connection_established
    Connection.init Buffer.init read_fd store_read write_at Buffer.append Buffer.ensure_writable
    Buffer.has_written Buffer.copy_in Buffer.readable Buffer.writable Buffer.peek Buffer.peek_at
    Buffer.retrieve Buffer.retrieve_as_string Buffer.reset Buffer.retrieve_all_as_string
    Codec.on_message Codec.frame_loop Codec.examine on_frame dispatch_request Codec.send
    Codec.send_raw htonl put find
all_written-StaysOpen = (tt, ((tt, tt), (tt, ((omega arith, omega arith), tt))))

abbrev after : Session.Session ℕ
after = run requests responses services all_written Session.init

after_done :
    (after.jobs ≡ [])
    × (after.queued ≡ [])
    × (contents after.conn.output_buf ≡ [])
    × Transmits responses after.replied
    × (flatten (map chunk pieces) ≡ after.conn.wire)
unfolding Session.init Session.step Connection.handle_read Connection.connection_established
    Connection.init Buffer.init read_fd store_read write_at Buffer.append Buffer.ensure_writable
    Buffer.has_written Buffer.copy_in Buffer.readable Buffer.writable Buffer.peek Buffer.peek_at
    Buffer.retrieve Buffer.retrieve_as_string Buffer.reset Buffer.retrieve_all_as_string
    Codec.on_message Codec.frame_loop Codec.examine on_frame dispatch_request Codec.send
    Codec.send_raw htonl put find Connection.send Connection.send_in_loop Connection.write_now
    flatten
after_done = (refl, refl, refl, (((refl, refl), omega arith), tt), refl)

client_receives_example :
    ((read_loop responses (map read_of pieces) (Buffer.init Buffer.initial_size) channel).1
      ≡ receive_responses channel after.replied)
    × ((f : RpcResponse → Bool)
        → count f (answers requests services ((7 ∷ 21 ∷ []) ∷ [])) ≡ count f after.replied)
unfolding htonl flatten
client_receives_example =
    client_receives requests responses services all_written ((7 ∷ 21 ∷ []) ∷ []) pieces channel
      all_written-StaysOpen (omega arith) nothing-IsPartial refl (omega arith) after_done.0
      after_done.1 after_done.2 after_done.3 after_done.4 (omega arith) refl
