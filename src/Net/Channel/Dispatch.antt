-- ===== src/Net/Channel/Dispatch.antt =====
-- Events of the socket of a connection: the callbacks that its constructor (src/net/tcp_connection.cpp)
-- sets on the channel, run by `Channel::handle_event`.
use rpc_framework.Base.{ℕ, ◌≡◌, true, false, [], ◌∷◌, ◌++◌}
use rpc_framework.Net.Channel.{Revents, Callbacks, handle_event_with_guard}
use rpc_framework.Net.Buffer.ReadFd.{ReadResult}
use rpc_framework.Net.Connection.{
  Connection, connection, close, WriteResult, handle_close, handle_error, handle_read, handle_write,
}
use rpc_framework.Net.Connection.Closing.{handle_error-handle_close_calls}

-- `readv` and `write` are what the socket does in the round.
unfoldable pub callbacks : (ℕ → ReadResult) → WriteResult → Callbacks Connection
callbacks readv write = record {
  close_cb = handle_close;
  error_cb = handle_error;
  read_cb = handle_read readv;
  write_cb = handle_write write;
}

unfoldable pub handle_event : (ℕ → ReadResult) → WriteResult → Revents → Connection → Connection
handle_event readv write = handle_event_with_guard (callbacks readv write)

-- When a round reports a hang-up and an error and nothing to read, the application is told twice that
-- the connection is closed, whatever state it is in.
pub handle_event_hup_err :
    (readv : ℕ → ReadResult) (write : WriteResult) (s : Connection)
    → (handle_event readv write
        (record { hup = true; in_ = false; err = true; pri = false; rdhup = false; out = false })
        s).calls
      ≡ s.calls ++ (connection false ∷ close ∷ connection false ∷ close ∷ [])
unfolding handle_event handle_event_with_guard callbacks
handle_event_hup_err readv write s = handle_error-handle_close_calls s
