-- ===== src/Net/Connection/Input.antt =====
-- Sending leaves the input buffer of a connection alone (src/net/tcp_connection.cpp).
use rpc_framework.Base.{◌≡◌, refl, arith, List, Byte}
use rpc_framework.Net.Connection.{
  Connection, WriteResult, wrote, would_block, broken, write_now, send_in_loop, send, handle_write,
  shutdown_in_loop, handle_close, handle_error, connection_destroyed,
}

write_now-input_buf :
    (xs : List Byte) (r : WriteResult) (c : Connection) → (write_now xs r c).input_buf ≡ c.input_buf
unfolding write_now handle_error handle_close connection_destroyed
write_now-input_buf xs (wrote n) c = ground arith
write_now-input_buf xs would_block c = refl
write_now-input_buf xs broken c = refl

pub send-input_buf :
    (xs : List Byte) (r : WriteResult) (c : Connection) → (send xs r c).input_buf ≡ c.input_buf
unfolding send send_in_loop
send-input_buf xs r c = ground (arith, write_now-input_buf xs r c)

pub handle_write-input_buf :
    (r : WriteResult) (c : Connection) → (handle_write r c).input_buf ≡ c.input_buf
unfolding handle_write shutdown_in_loop
handle_write-input_buf (wrote n) c = ground arith
handle_write-input_buf would_block c = ground arith
handle_write-input_buf broken c = ground arith
