-- ===== src/Tests/Connection.antt =====
-- Runs of src/net/tcp_connection.cpp and src/net/channel.cpp.
use rpc_framework.Base.{◌≡◌, refl, true, false, List, [], ◌∷◌, ◌++◌, arith}
use rpc_framework.Net.Buffer.{Buffer, readable}
use rpc_framework.Net.Channel.{init}
use rpc_framework.Net.Channel.Registration
use rpc_framework.Net.Channel.Registration.{
  InStep, run_registered, enables_reading, enables_writing, disables_all, removes,
}
use rpc_framework.Net.Connection.{Connection, connected, disconnected, wrote, would_block, message}
use rpc_framework.Net.Connection.Order
use rpc_framework.Net.Connection.Order.{run_order}
use rpc_framework.Net.Connection.Sending.{IsOpen, passed_on}
use rpc_framework.Net.Connection.Closing.{
  Op, sends, writable, shuts_down, forces_close, runs_queued, run,
}
use rpc_framework.Net.Connection.Closing.Safe.{IsSafe}
use rpc_framework.Net.Connection.Closing.Ending.{run-IsSafe}

-- Two bytes wait.
abbrev two_waiting : Buffer
two_waiting = record {
  buf = 0 ∷ 0 ∷ 0 ∷ 0 ∷ 0 ∷ 0 ∷ 0 ∷ 0 ∷ 5 ∷ 6 ∷ 0 ∷ 0 ∷ [];
  read_idx = 8;
  write_idx = 10;
}

abbrev busy : Connection
busy = record {
  state = connected;
  reading = true;
  writing = true;
  input_buf = two_waiting;
  output_buf = two_waiting;
  queued_closes = 0;
  removed = false;
  wire = 4 ∷ [];
  shut = false;
  calls = message ∷ [];
}

busy-IsOpen : IsOpen busy
busy-IsOpen = record { valid = omega arith; open_state = refl; idle = λ f. cc }

abbrev traffic : List Order.Event
traffic =
    Order.writable (wrote 1)
    ∷ Order.sends (7 ∷ 8 ∷ []) would_block
    ∷ Order.writable would_block
    ∷ []

run_order_example :
    IsOpen (Order.run traffic busy)
    × (passed_on (Order.run traffic busy) ≡ passed_on busy ++ (7 ∷ 8 ∷ []))
unfolding readable
run_order_example = run_order traffic busy-IsOpen (omega arith, (tt, (tt, tt))) (omega arith)

busy-IsSafe : IsSafe busy
busy-IsSafe = record { valid = omega arith; idle = λ f w. cc; ended = λ e. cc; silent = λ e. cc }

abbrev ending : List Op
ending =
    sends (9 ∷ []) would_block ∷ shuts_down ∷ writable would_block ∷ forces_close ∷ runs_queued ∷ []

run-IsSafe_example : IsSafe (run (writable (wrote 2) ∷ ending) busy)
unfolding readable
run-IsSafe_example =
    run-IsSafe (writable (wrote 2) ∷ ending) busy-IsSafe (omega arith, (tt, tt)) (omega arith)

abbrev gone : Connection
gone = record busy { state = disconnected; writing = false; reading = false }

run_registered_example :
    InStep (Registration.run (enables_reading ∷ enables_writing ∷ disables_all ∷ removes ∷ []) init)
run_registered_example =
    run_registered (enables_reading ∷ enables_writing ∷ disables_all ∷ removes ∷ [])
