-- ===== src/Net/Connection/Closing/Ending.antt =====
-- When the end of the stream is announced in runs of src/net/tcp_connection.cpp.
use rpc_framework.Base.{
  ℕ, ◌+◌, ◌≤◌, ◌≡◌, refl, ap, ◌∙◌, inl, inr, Bool, true, false, List, [], ◌∷◌, ◌++◌, length, drop,
  Byte, max_size, ◌==◌, if◌then◌else◌, arith, Bool-cases, length-append,
}
use rpc_framework.Net.Buffer.{contents, readable, peek, retrieve, retrieve_as_string}
use rpc_framework.Net.Buffer.Contents.{retrieve_as_string_lem, write_idx-retrieve}
use rpc_framework.Net.Connection.{
  is_connected, Connection, is_disconnecting, write_complete, WriteResult, wrote, would_block,
  broken, call, drained, handle_write,
}
use rpc_framework.Net.Connection.Sending.{contents_nil}
use rpc_framework.Net.Connection.Closing.{
  Op, sends, writable, reads, shuts_down, forces_close, runs_queued, step, run,
}
use rpc_framework.Net.Connection.Closing.Safe.{
  IsSafe, Keeps, stays, disconnecting_open, drop-nil, send-Keeps, shutdown_in_loop-Keeps,
  shutdown-Keeps, force_close-Keeps, run_queued-Keeps, handle_read-Keeps,
}

-- After `handle_write` has written `n` of the bytes that wait.
abbrev out : ℕ → Connection → Connection
out n s = record s { output_buf = retrieve n s.output_buf; wire = s.wire ++ peek s.output_buf n }

out-Keeps :
    (n : ℕ) (s : Connection)
    → IsSafe s
    → s.writing ≡ true
    → n ≤ readable s.output_buf
    → Keeps 0 s (if readable (out n s).output_buf == 0 then drained (out n s) else out n s)
unfolding retrieve_as_string
out-Keeps n s p w small =
    let (taken, v, left) = retrieve_as_string_lem n p.valid small in
    let low = write_idx-retrieve n p.valid in
    let gone : s.shut ≡ true
        → (contents (retrieve n s.output_buf) ≡ []) × (is_connected s.state ≡ false) =
      λ e. (left ∙ ap (drop n) (p.ended e).0 ∙ drop-nil n, (p.ended e).1) in
    elim (Bool-cases (readable (out n s).output_buf == 0)) [
      | inr more ↦ rw more (record {
        is_safe = record { valid = v; idle = λ f i. absurd cc; ended = gone; silent = p.silent };
        low = omega arith;
      })
      | inl z ↦
          let empty = contents_nil v z in
          rw z (elim (Bool-cases (is_disconnecting s.state)) [
            | inl d ↦
                let (up, quiet) = disconnecting_open s.state d in
                rw d (
                  shutdown_in_loop-Keeps 0 s
                    (call write_complete (record (out n s) { writing = false }))
                    (record {
                      valid = v;
                      idle = λ f i. empty;
                      ended = λ e. (empty, quiet);
                      silent = λ e. refl;
                    })
                    quiet up (omega arith))
            | inr d ↦ rw d (record {
              is_safe = record {
                valid = v;
                idle = λ f i. empty;
                ended = λ e. (empty, (p.ended e).1);
                silent = λ e. refl;
              };
              low = omega arith;
            })
          ])
    ]

-- The socket takes no more than it is given.
abbrev pub AtMost : WriteResult → ℕ → Type 0
AtMost (wrote n) offered = n ≤ offered
AtMost would_block offered = Unit {0}
AtMost broken offered = Unit {0}

handle_write-Keeps :
    (r : WriteResult) (s : Connection)
    → IsSafe s
    → AtMost r (readable s.output_buf)
    → Keeps 0 s (handle_write r s)
unfolding handle_write
handle_write-Keeps r s p k = go s.writing refl r k
  where
    go :
        (b : Bool)
        → s.writing ≡ b
        → (r : WriteResult) → AtMost r (readable s.output_buf)
        → Keeps 0 s (
            if b
            then elim r [
              | wrote n ↦
                  if n == 0
                  then s
                  else if readable (out n s).output_buf == 0
                  then drained (out n s)
                  else out n s
              | would_block ↦ s
              | broken ↦ s
            ]
            else s)
    go false w r k = stays 0 s p
    go true w (wrote n) k = elim (Bool-cases (n == 0)) [
      | inl z ↦ rw z (stays 0 s p)
      | inr m ↦ rw m (out-Keeps n s p w k)
    ]
    go true w would_block k = stays 0 s p
    go true w broken k = stays 0 s p

-- The bytes that the application gives to `send`.
abbrev pub given : List Op → List Byte
given [] = []
given (sends xs r ∷ os) = xs ++ given os
given (_ ∷ os) = given os

abbrev pub Fits : List Op → Connection → Type 0
Fits [] s = Unit {0}
Fits (writable r ∷ os) s = AtMost r (readable s.output_buf) × Fits os (step (writable r) s)
Fits (o ∷ os) s = Fits os (step o s)

step-Keeps :
    (o : Op) (os : List Op) (s : Connection)
    → IsSafe s
    → Fits (o ∷ os) s
    → s.output_buf.write_idx + length (given (o ∷ os)) ≤ max_size
    → IsSafe (step o s)
      × Fits os (step o s)
      × ((step o s).output_buf.write_idx + length (given os) ≤ max_size)
unfolding step
step-Keeps (sends xs r) os s p f small =
    let size = length-append xs (given os) in
    let k = send-Keeps xs r s p (omega arith) in (k.is_safe, f, omega (arith, k.low))
step-Keeps (writable r) os s p (a, f) small =
    let k = handle_write-Keeps r s p a in (k.is_safe, f, omega (arith, k.low))
step-Keeps (reads readv) os s p f small =
    let k = handle_read-Keeps readv s p in (k.is_safe, f, omega (arith, k.low))
step-Keeps shuts_down os s p f small =
    let k = shutdown-Keeps s p in (k.is_safe, f, omega (arith, k.low))
step-Keeps forces_close os s p f small =
    let k = force_close-Keeps s p in (k.is_safe, f, omega (arith, k.low))
step-Keeps runs_queued os s p f small =
    let k = run_queued-Keeps s p in (k.is_safe, f, omega (arith, k.low))

-- In every run of the operations, closings included, the end of the stream has been announced to
-- the peer only if no byte waits in the output buffer, and the connection no longer takes bytes; and
-- an open connection that does not wait to write has no byte left. The socket takes no more than it
-- is given, and the output buffer stays below the largest array.
pub run-IsSafe :
    (os : List Op) {s : Connection}
    → IsSafe s
    → Fits os s
    → s.output_buf.write_idx + length (given os) ≤ max_size
    → IsSafe (run os s)
unfolding run
run-IsSafe [] p f small = p
run-IsSafe (o ∷ os) {s} p f small =
    let (q, g, less) = step-Keeps o os s p f small in run-IsSafe os q g less
