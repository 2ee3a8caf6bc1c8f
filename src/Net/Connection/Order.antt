-- ===== src/Net/Connection/Order.antt =====
-- Sending on a connection (src/net/tcp_connection.cpp): which bytes reach the socket, in which order.
use rpc_framework.Base.{
  ◌+◌, ◌≤◌, ◌≡◌, sym, ap, ◌∙◌, List, [], ◌∷◌, ◌++◌, length, Byte, max_size, arith, append_assoc,
  append-nil, length-append,
}
use rpc_framework.Net.Buffer.{readable}
use rpc_framework.Net.Connection.{Connection, WriteResult, send, handle_write}
use rpc_framework.Net.Connection.Sending.{IsOpen, passed_on, Took, send-Sent, handle_write-Sent}

-- What happens on a connection in its loop: the application sends, or the socket is writable.
pub data Event : Type 0 where
  sends : List Byte → WriteResult → Event
  writable : WriteResult → Event

pub step : Event → Connection → Connection
step (sends xs r) s = send xs r s
step (writable r) s = handle_write r s

pub run : List Event → Connection → Connection
run [] s = s
run (e ∷ es) s = run es (step e s)

-- The bytes that the application sends, in order.
abbrev pub sent : List Event → List Byte
sent [] = []
sent (sends xs r ∷ es) = xs ++ sent es
sent (writable r ∷ es) = sent es

-- The socket takes no more than it is given and does not fail.
abbrev pub Takes : List Event → Connection → Type 0
Takes [] s = Unit {0}
Takes (sends xs r ∷ es) s = Took r (length xs) × Takes es (send xs r s)
Takes (writable r ∷ es) s = Took r (readable s.output_buf) × Takes es (handle_write r s)

-- Whatever the socket takes at each write, the bytes on the wire and those that wait are all that
-- was sent, in order, and an open connection that does not wait to write has nothing left. The
-- socket does not fail, nothing closes the connection, and the output buffer stays below the
-- largest array.
pub run_order :
    (es : List Event) {s : Connection}
    → IsOpen s
    → Takes es s
    → s.output_buf.write_idx + length (sent es) ≤ max_size
    → IsOpen (run es s) × (passed_on (run es s) ≡ passed_on s ++ sent es)
unfolding run step
run_order [] {s} o k small = (o, sym (append-nil (passed_on s)))
run_order (sends xs r ∷ es) {s} o (k, ks) small =
    let size = length-append xs (sent es) in
    let t = send-Sent xs r o k (omega arith) in
    let (p, e) = run_order es t.is_open ks (omega (arith, t.low)) in
    (p, e ∙ ap (λ y. y ++ sent es) t.order ∙ append_assoc (passed_on s) xs (sent es))
run_order (writable r ∷ es) {s} o (k, ks) small =
    let t = handle_write-Sent r o k in
    let (p, e) = run_order es t.is_open ks (omega (arith, t.low)) in
    (p, e ∙ ap (λ y. y ++ sent es) (t.order ∙ append-nil (passed_on s)))
