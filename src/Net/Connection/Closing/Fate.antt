-- ===== src/Net/Connection/Closing/Fate.antt =====
-- Whether an operation of src/net/tcp_connection.cpp runs the close callback, which src/net/tcp_server.cpp
-- sets, and what it leaves of the state of the connection.
use rpc_framework.Base.{
  ℕ, ◌≡◌, refl, sym, ap, ◌∙◌, Bool, true, false, not, ◌&&◌, ◌||◌, List, [], ◌∷◌, ◌++◌, length, drop,
  Byte, ◌==◌, ◌-◌, ◌+◌, if◌then◌else◌, if_split, append_assoc, append-nil, drop-append_exact,
}
use rpc_framework.Net.Buffer.{Buffer, readable, peek, retrieve}
use rpc_framework.Net.Buffer.ReadFd.{ReadResult, bytes, failed, read_fd}
use rpc_framework.Net.Connection.{
  State, Connection, Callback, connection, message, write_complete, close, connecting, connected,
  disconnecting, disconnected, is_connected, is_disconnected, is_disconnecting, WriteResult, wrote,
  would_block, broken, call, keep_rest, write_now, send_in_loop, send, drained, handle_write,
  shutdown_in_loop, shutdown, force_close, run_queued, handle_close, handle_error, handle_read,
  connection_destroyed, connection_established,
}
use rpc_framework.Net.Connection.Closing.{
  Op, sends, writable, reads, shuts_down, forces_close, runs_queued, step,
}
use rpc_framework.Net.Connection.Closing.Safe.{connected_open}

abbrev pub has_close : List Callback → Bool
has_close [] = false
has_close (close ∷ cs) = true
has_close (_ ∷ cs) = has_close cs

-- Whether the close callback has run on the way from `c` to `d`.
abbrev pub closed_now : Connection → Connection → Bool
closed_now c d = has_close (drop (length c.calls) d.calls)

-- Either the close callback has not run, and the connection is as open as before, or it has run, and
-- the connection is closed.
pub data Fate (c d : Connection) : Type 0 where
  goes_on :
      is_disconnected d.state ≡ is_disconnected c.state
      → d.removed ≡ c.removed
      → closed_now c d ≡ false
      → Fate c d
  ends : is_disconnected d.state ≡ true → d.removed ≡ true → closed_now c d ≡ true → Fate c d

news :
    (c d : Connection) (ys : List Callback)
    → d.calls ≡ c.calls ++ ys
    → closed_now c d ≡ has_close ys
news c d ys e =
    ap (λ (xs : List Callback). has_close (drop (length c.calls) xs)) e
    ∙ ap has_close (drop-append_exact (length c.calls) c.calls ys refl)

quiet :
    (c d : Connection) (ys : List Callback)
    → d.calls ≡ c.calls ++ ys
    → has_close ys ≡ false
    → is_disconnected d.state ≡ is_disconnected c.state
    → d.removed ≡ c.removed
    → Fate c d
quiet c d ys e n s r = goes_on s r (news c d ys e ∙ n)

silent :
    (c d : Connection)
    → d.calls ≡ c.calls
    → is_disconnected d.state ≡ is_disconnected c.state
    → d.removed ≡ c.removed
    → Fate c d
silent c d e s r = quiet c d [] (e ∙ sym (append-nil c.calls)) refl s r

-- A connection that is open has not run its close callback.
pub Fate-open :
    {c d : Connection} → Fate c d → is_disconnected d.state ≡ false → closed_now c d ≡ false
Fate-open (goes_on s r n) o = n
Fate-open (ends s r n) o = absurd cc

-- The close callback runs.
pub handle_close-closed_now :
    (c t : Connection) → t.calls ≡ c.calls → closed_now c (handle_close t) ≡ true
unfolding handle_close connection_destroyed
handle_close-closed_now c t e = news c (handle_close t) (connection false ∷ close ∷ []) (
    ap (λ (xs : List Callback). (xs ++ (connection false ∷ [])) ++ (close ∷ [])) e
    ∙ append_assoc c.calls (connection false ∷ []) (close ∷ []))

closes : (c t : Connection) → t.calls ≡ c.calls → Fate c (handle_close t)
unfolding handle_close connection_destroyed
closes c t e = ends refl refl (handle_close-closed_now c t e)

write_now-Fate : (xs : List Byte) (r : WriteResult) (c : Connection) → Fate c (write_now xs r c)
unfolding write_now handle_error
write_now-Fate xs broken c = closes c c refl
write_now-Fate xs would_block c = silent c _ refl refl refl
write_now-Fate xs (wrote n) c =
    if_split (Fate c) (n == length xs) (λ all. quiet c _ (write_complete ∷ []) refl refl refl refl)
      (λ part. silent c (keep_rest xs n c) refl refl refl)

send-Fate : (xs : List Byte) (r : WriteResult) (c : Connection) → Fate c (send xs r c)
unfolding send send_in_loop
send-Fate xs r c =
    if_split (Fate c) (is_connected c.state)
      (λ y.
        if_split (Fate c) (is_disconnected c.state) (λ d. silent c c refl refl refl)
          (λ o.
            if_split (Fate c) (not c.writing && (readable c.output_buf == 0))
              (λ now. write_now-Fate xs r c) (λ wait. silent c (keep_rest xs 0 c) refl refl refl)))
      (λ n. silent c c refl refl refl)

shutdown_in_loop-Fate :
    (c t : Connection) (ys : List Callback)
    → t.calls ≡ c.calls ++ ys
    → has_close ys ≡ false
    → is_disconnected t.state ≡ is_disconnected c.state
    → t.removed ≡ c.removed
    → Fate c (shutdown_in_loop t)
unfolding shutdown_in_loop
shutdown_in_loop-Fate c t ys e n s r =
    if_split (Fate c) t.writing (λ w. quiet c t ys e n s r)
      (λ w. quiet c (record t { shut = true }) ys e n s r)

drained-Fate :
    (c t : Connection)
    → t.calls ≡ c.calls
    → is_disconnected t.state ≡ is_disconnected c.state
    → t.removed ≡ c.removed
    → Fate c (drained t)
drained-Fate c t e s r =
    let more : t.calls ++ (write_complete ∷ []) ≡ c.calls ++ (write_complete ∷ []) =
      ap (λ (xs : List Callback). xs ++ (write_complete ∷ [])) e in
    let u : Connection = call write_complete (record t { writing = false }) in
    if_split (Fate c) (is_disconnecting t.state)
      (λ d. shutdown_in_loop-Fate c u (write_complete ∷ []) more refl s r)
      (λ d. quiet c u (write_complete ∷ []) more refl s r)

handle_write-Fate : (r : WriteResult) (c : Connection) → Fate c (handle_write r c)
unfolding handle_write
handle_write-Fate (wrote n) c =
    let t : Connection = record c {
      output_buf = retrieve n c.output_buf;
      wire = c.wire ++ peek c.output_buf n;
    } in
    if_split (Fate c) c.writing
      (λ w.
        if_split (Fate c) (n == 0) (λ z. silent c c refl refl refl)
          (λ p.
            if_split (Fate c) (readable t.output_buf == 0) (λ all. drained-Fate c t refl refl refl)
              (λ left. silent c t refl refl refl)))
      (λ w. silent c c refl refl refl)
handle_write-Fate would_block c =
    if_split (Fate c) c.writing (λ w. silent c c refl refl refl) (λ w. silent c c refl refl refl)
handle_write-Fate broken c =
    if_split (Fate c) c.writing (λ w. silent c c refl refl refl) (λ w. silent c c refl refl refl)

handle_read-Fate : (readv : ℕ → ReadResult) (c : Connection) → Fate c (handle_read readv c)
unfolding handle_read handle_error
handle_read-Fate readv c = go (read_fd readv c.input_buf).0 (read_fd readv c.input_buf).1
  where
    go :
        (r : ReadResult) (b : Buffer)
        → Fate c (elim r [
          | bytes [] ↦ handle_close (record c { input_buf = b })
          | bytes (x ∷ xs) ↦ call message (record c { input_buf = b })
          | failed e ↦ handle_close (record c { input_buf = b })
        ])
    go (bytes []) b = closes c (record c { input_buf = b }) refl
    go (bytes (x ∷ xs)) b = quiet c _ (message ∷ []) refl refl refl refl
    go (failed e) b = closes c (record c { input_buf = b }) refl

shutdown-Fate : (c : Connection) → Fate c (shutdown c)
unfolding shutdown
shutdown-Fate c =
    if_split (Fate c) (is_connected c.state)
      (λ y.
        shutdown_in_loop-Fate c _ [] (sym (append-nil c.calls)) refl
          (sym (connected_open c.state y)) refl)
      (λ n. silent c c refl refl refl)

force_close-Fate : (c : Connection) → Fate c (force_close c)
unfolding force_close
force_close-Fate c = go c.state refl
  where
    go :
        (t : State)
        → c.state ≡ t
        → Fate c (
            if is_connected t || is_disconnecting t
            then record c { state = disconnecting; queued_closes = c.queued_closes + 1 }
            else c)
    go connecting e = silent c c refl refl refl
    go connected e = silent c _ refl (sym (ap is_disconnected e)) refl
    go disconnecting e = silent c _ refl (sym (ap is_disconnected e)) refl
    go disconnected e = silent c c refl refl refl

run_queued-Fate : (c : Connection) → Fate c (run_queued c)
unfolding run_queued
run_queued-Fate c =
    if_split (Fate c) (c.queued_closes == 0) (λ z. silent c c refl refl refl)
      (λ q. closes c (record c { queued_closes = c.queued_closes - 1 }) refl)

pub step-Fate : (o : Op) (c : Connection) → Fate c (step o c)
unfolding step
step-Fate (sends xs r) c = send-Fate xs r c
step-Fate (writable r) c = handle_write-Fate r c
step-Fate (reads readv) c = handle_read-Fate readv c
step-Fate shuts_down c = shutdown-Fate c
step-Fate forces_close c = force_close-Fate c
step-Fate runs_queued c = run_queued-Fate c

pub connection_established_open :
    (c : Connection) → is_disconnected (connection_established c).state ≡ false
unfolding connection_established
connection_established_open c = refl

pub connection_destroyed_removed : (c : Connection) → (connection_destroyed c).removed ≡ true
unfolding connection_destroyed
connection_destroyed_removed c = refl
