-- ===== src/Net/Connection/Closing.antt =====
-- How a connection ends (src/net/tcp_connection.cpp): shutdown, force_close and handle_close.
pub mod Safe
pub mod Ending
pub mod Fate
use rpc_framework.Base.{
  ℕ, ◌-◌, ◌≡◌, subst, inl, inr, refl, ap, ◌∙◌, Bool, false, List, [], ◌∷◌, ◌++◌, Byte, ◌==◌,
  if◌then◌else◌, Bool-cases, append_assoc,
}
use rpc_framework.Net.Buffer.{Buffer}
use rpc_framework.Net.Buffer.ReadFd.{ReadResult, bytes, failed, read_fd}
use rpc_framework.Net.Connection.{
  Connection, connected, disconnected, is_connected, is_disconnecting, connection, message, close,
  WriteResult, call, send, handle_write, shutdown, force_close, run_queued, handle_close,
  handle_error, handle_read, connection_destroyed,
}

-- Everything that runs on a connection that is established.
pub data Op : Type 0 where
  sends : List Byte → WriteResult → Op
  writable : WriteResult → Op
  reads : (ℕ → ReadResult) → Op
  shuts_down forces_close runs_queued : Op

unfoldable pub step : Op → Connection → Connection
step (sends xs r) s = send xs r s
step (writable r) s = handle_write r s
step (reads readv) s = handle_read readv s
step shuts_down s = shutdown s
step forces_close s = force_close s
step runs_queued s = run_queued s

pub run : List Op → Connection → Connection
run [] s = s
run (o ∷ os) s = run os (step o s)

-- Once it is closed a connection stays closed and does not wait to write.
pub record IsClosed (s : Connection) : Type 0 where
  pub closed_state : s.state ≡ disconnected
  pub silent : s.writing ≡ false

handle_close-IsClosed : (s : Connection) → IsClosed (handle_close s)
unfolding handle_close connection_destroyed
handle_close-IsClosed s = record { closed_state = refl; silent = refl }

-- What no operation changes on a closed connection.
record Stays (s t : Connection) : Type 0 where
  pub is_closed : IsClosed t
  pub same_wire : t.wire ≡ s.wire
  pub same_shut : t.shut ≡ s.shut

same-Stays : (s : Connection) → IsClosed s → Stays s s
same-Stays s c = record { is_closed = c; same_wire = refl; same_shut = refl }

handle_close-Stays :
    (s t : Connection) → t.wire ≡ s.wire → t.shut ≡ s.shut → Stays s (handle_close t)
unfolding handle_close connection_destroyed
handle_close-Stays s t w h = record {
  is_closed = handle_close-IsClosed t;
  same_wire = w;
  same_shut = h;
}

handle_write-Stays : (r : WriteResult) (s : Connection) → IsClosed s → Stays s (handle_write r s)
unfolding handle_write
handle_write-Stays r s c = subst (Stays s) (go s.writing c.silent _) (same-Stays s c)
  where
    go : (b : Bool) → b ≡ false → (t : Connection) → s ≡ (if b then t else s)
    go b e t = rw e refl

handle_read-Stays :
    (readv : ℕ → ReadResult) (s : Connection) → IsClosed s → Stays s (handle_read readv s)
unfolding handle_read handle_error
handle_read-Stays readv s c = go (read_fd readv s.input_buf).0 (read_fd readv s.input_buf).1
  where
    go :
        (r : ReadResult) (b : Buffer)
        → Stays s (elim r [
          | bytes [] ↦ handle_close (record s { input_buf = b })
          | bytes (x ∷ xs) ↦ call message (record s { input_buf = b })
          | failed e ↦ handle_close (record s { input_buf = b })
        ])
    go (bytes []) b = handle_close-Stays s (record s { input_buf = b }) refl refl
    go (bytes (x ∷ xs)) b = record {
      is_closed = record { closed_state = c.closed_state; silent = c.silent };
      same_wire = refl;
      same_shut = refl;
    }
    go (failed e) b = handle_close-Stays s (record s { input_buf = b }) refl refl

run_queued-Stays : (s : Connection) → IsClosed s → Stays s (run_queued s)
unfolding run_queued
run_queued-Stays s c = elim (Bool-cases (s.queued_closes == 0)) [
  | inl z ↦ rw z (same-Stays s c)
  | inr q ↦ rw q (handle_close-Stays s (record s { queued_closes = s.queued_closes - 1 }) refl refl)
]

step-Stays : (o : Op) (s : Connection) → IsClosed s → Stays s (step o s)
unfolding step send shutdown force_close
step-Stays (sends xs r) s c = rw (ap is_connected c.closed_state) (same-Stays s c)
step-Stays (writable r) s c = handle_write-Stays r s c
step-Stays (reads readv) s c = handle_read-Stays readv s c
step-Stays shuts_down s c = rw (ap is_connected c.closed_state) (same-Stays s c)
step-Stays forces_close s c =
    rw (ap is_connected c.closed_state, ap is_disconnecting c.closed_state) (same-Stays s c)
step-Stays runs_queued s c = run_queued-Stays s c

-- Once a connection is closed it stays so, whatever runs on it, and nothing more reaches the socket.
pub run-IsClosed :
    (os : List Op) {s : Connection}
    → IsClosed s
    → IsClosed (run os s) × ((run os s).wire ≡ s.wire) × ((run os s).shut ≡ s.shut)
unfolding run
run-IsClosed [] c = (c, refl, refl)
run-IsClosed (o ∷ os) {s} c =
    let t = step-Stays o s c in
    let (p, w, h) = run-IsClosed os t.is_closed in (p, w ∙ t.same_wire, h ∙ t.same_shut)

-- When `force_close` is called twice on a connected connection before the loop runs its queue, the
-- application is told twice that the connection is closed.
pub force_close_twice :
    (s : Connection)
    → s.state ≡ connected
    → s.queued_closes ≡ 0
    → (run (forces_close ∷ forces_close ∷ runs_queued ∷ runs_queued ∷ []) s).calls
      ≡ s.calls ++ (connection false ∷ close ∷ connection false ∷ close ∷ [])
unfolding run step force_close run_queued handle_close connection_destroyed
force_close_twice s c q = rw (ap is_connected c, q) (simp append_assoc)

-- An error behind a closing tells the application again.
pub handle_error-handle_close_calls :
    (s : Connection)
    → (handle_error (handle_close s)).calls
      ≡ s.calls ++ (connection false ∷ close ∷ connection false ∷ close ∷ [])
unfolding handle_error handle_close connection_destroyed
handle_error-handle_close_calls s = simp append_assoc
